-- ===== src/Mc60/Run/Retries.antt =====
-- The retry counters of Mc60Modem's constructor: ackQueryRetryNo and atQueryRetryNo.
use libcomms.Base.{
  ℕ, ◌+◌, ◌≤◌, ◌≡◌, refl, ◌⊎◌, inl, inr, Bool, true, false, some, List, [], ◌∷◌, ◌++◌, Bytes, arith,
  Option-cases,
}
use libcomms.Machine.{Engine, Transition, first_holding, own, ored, seq, eq, ok}
use libcomms.Machine.Steps.{first_holding-every, total, total-append}
use libcomms.Response.{Checked, refused}
use libcomms.Mc60.Driver.{
  Modem, Own, Act, own_test, perform, retry_limit_reached, at_retry_limit_reached,
}
use libcomms.Mc60.Run.{
  Call, runs, rule_fires, powers, store_checked, check_effects, new, context, follow, ready, run,
  power, call, trace, picked, entry_of, exit_of, transitions_of, globals_of,
}
use libcomms.Mc60.Run.Counts.{
  poll, probe, perform_all-counts, quiet, is_calm, calm_states, calm_globals, parse_counts,
  init_counts,
}
use libcomms.Mc60.Run.Rounds.{IsReachable}
use libcomms.Mc60.State.{State}
use libcomms.Mc60.Table.{qirdi_rule, sms_rule, state_def}

pub record Limited (m : Modem) : Type 0 where
  pub polls : m.ack_query_retry_no ≤ 9
  pub probes : m.at_query_retry_no ≤ 6

store_checked_same :
    (r : Checked) (m : Modem)
    → let m' = store_checked r m in
      (m'.ack_query_retry_no ≡ m.ack_query_retry_no) × (m'.at_query_retry_no ≡ m.at_query_retry_no)
unfolding store_checked
store_checked_same refused m = (refl, refl)
store_checked_same _ m = (refl, refl)

check_effects_same :
    (max : ℕ) (event : Bytes) (s : State) (m : Modem)
    → let m' = check_effects max event s m in
      (m'.ack_query_retry_no ≡ m.ack_query_retry_no) × (m'.at_query_retry_no ≡ m.at_query_retry_no)
unfolding check_effects
check_effects_same max event State.network_begin_receive m = store_checked_same _ m
check_effects_same max event _ m = (refl, refl)

module _ (max : ℕ) (e : Engine State Own Act Modem (own_test max)) where
  open e use {
    Input, event, holds, pick, pick_some, holds_own, holds_ored, arrange_order, on_reset_entry,
  }

  abbrev Allows : Modem → Transition State Own Act → Type 0
  Allows m t =
      (m.ack_query_retry_no + total poll t.actions ≤ 9)
      × (m.at_query_retry_no + total probe t.actions ≤ 6)

  module _ (m : Modem) (i : Input) (t : Transition State Own Act) (l : Limited m) where
    calm-Allows : is_calm t ≡ true → Allows m t
    calm-Allows calm = ground arith

    parse-Allows :
        (is_calm t ≡ true)
          ⊎ ((total poll t.actions ≡ 1)
              × (total probe t.actions ≡ 0)
              × (holds m i (own retry_limit_reached) ≡ false))
        → Allows m t
    unfolding own_test
    parse-Allows (inl calm) = calm-Allows calm
    parse-Allows (inr counted) = ground (arith, holds_own m i retry_limit_reached)

    init-Allows :
        (is_calm t ≡ true)
          ⊎ ((total poll t.actions ≡ 0)
              × (total probe t.actions ≡ 1)
              × (holds m i (ored (own at_retry_limit_reached) (seq (eq "AT") ok)) ≡ false))
        → Allows m t
    unfolding own_test
    init-Allows (inl calm) = calm-Allows calm
    init-Allows (inr counted) = ground (
      arith,
      holds_own m i at_retry_limit_reached,
      holds_ored m i (own at_retry_limit_reached) (seq (eq "AT") ok),
    )

    local-Allows :
        (s : State) → first_holding (holds m i) (transitions_of (state_def s)) ≡ some t → Allows m t
    local-Allows s h = elim (calm_states s) [
      | inl at_init ↦ init-Allows (init_counts (holds m i) t (rw at_init at h))
      | inr (inl at_parse) ↦ parse-Allows (parse_counts (holds m i) t (rw at_parse at h))
      | inr (inr calm) ↦ calm-Allows (first_holding-every (holds m i) is_calm _ t calm h).0
    ]

    -- A poll is counted only if at most eight were, and a probe only if at most five were.
    picked-Allows :
        (s : State)
        → pick m i (globals_of (state_def s)) (transitions_of (state_def s)) ≡ some t
        → Allows m t
    picked-Allows s h = elim (pick_some m i _ _ h) [
      | inl global ↦
          calm-Allows
            (first_holding-every (holds m i) is_calm _ t (calm_globals (state_def s)) global).0
      | inr local ↦ local-Allows s local
    ]

  follow-Limited :
      (i : Input) (from : State) (t : Transition State Own Act) (m : Modem)
      → Allows m t
      → Limited (follow max e i from (some t) m)
  unfolding follow
  follow-Limited i from t m a =
      let exit = exit_of (state_def from) in
      let entry = entry_of (state_def t.target) in
      rw (arrange_order exit t.actions entry) (
        omega (
          arith,
          a,
          quiet from,
          quiet t.target,
          perform_all-counts (context max e i) (exit ++ t.actions ++ entry)
              (record m { state = t.target }),
          total-append poll (exit ++ t.actions) entry,
          total-append poll exit t.actions,
          total-append probe (exit ++ t.actions) entry,
          total-append probe exit t.actions,
        ))

  ready-Limited : (i : Input) (m : Modem) → Limited m → Limited (ready max e i m)
  unfolding ready
  ready-Limited i m h = ground (arith, check_effects_same max (event i) m.state m)

  run-Limited : (i : Input) (m : Modem) → Limited m → Limited (run max e i m)
  unfolding run
  run-Limited i m h = elim (Option-cases (picked max e i m)) [
    | inl stays ↦ rw (stays, follow) (ready-Limited i m h)
    | inr (t, taken) ↦
        let ready' = ready-Limited i m h in
        rw taken (
          follow-Limited i m.state t (ready max e i m)
            (picked-Allows (ready max e i m) i t ready' m.state (unfold picked in taken)))
  ]

  power-Limited : (i : Input) (on : Bool) (m : Modem) → Limited m → Limited (power max e i on m)
  unfolding power
  power-Limited i false m h = ground arith
  power-Limited i true m h =
      let entry = entry_of (state_def State.reset_stage_decide) in
      let m' = record m { state = State.reset_stage_decide } in
      elim (on_reset_entry entry) [
        | inl all ↦ rw all (
            omega (
              arith,
              quiet State.reset_stage_decide,
              perform_all-counts (context max e i) entry m',
            ))
        | inr nothing_done ↦
            rw nothing_done (omega (arith, perform_all-counts (context max e i) [] m'))
      ]

  call-Limited : (c : Call Input) (m : Modem) → Limited m → Limited (call max e c m)
  unfolding call
  call-Limited (runs i) m h = run-Limited i m h
  call-Limited (rule_fires i qirdi_rule) m h = unfold perform in (ground arith)
  call-Limited (rule_fires i sms_rule) m h = unfold perform in (ground arith)
  call-Limited (powers i on) m h = power-Limited i on m h
  call-Limited _ m h = ground arith

  trace-Limited : (cs : List (Call Input)) (m : Modem) → Limited m → Limited (trace max e cs m)
  unfolding trace
  trace-Limited [] m h = h
  trace-Limited (c ∷ cs) m h = trace-Limited cs (call max e c m) (call-Limited c m h)

-- In every state that calls and runs can reach, whatever the modem answers, the counter of polls
-- for acks is at most nine, and the counter of probes with AT at most six.
pub IsReachable-Limited :
    (max : ℕ) (e : Engine State Own Act Modem (own_test max)) (m : Modem)
    → IsReachable max e m
    → (m.ack_query_retry_no ≤ 9) × (m.at_query_retry_no ≤ 6)
IsReachable-Limited max e m r = rw r.reaches (
    let h = trace-Limited max e r.calls (new r.has_callback r.status_pin) (ground arith) in
    (h.polls, h.probes))
