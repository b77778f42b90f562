-- ===== src/Mc60/Run/Awaited.antt =====
-- In which states of Mc60Modem data is awaited, and how much.
use libcomms.Mc60.Run.Passing.{
  data_given, is_receive, is_begin, is_parse_lem, enters, elsewhere, table_enters,
  perform_all-bytes_received,
}
use libcomms.Base.{
  ℕ, ◌<◌, ◌≡◌, refl, sym, ap, ◌∙◌, subst, inl, inr, Bool, true, false, some, List, [], ◌∷◌, Bytes,
  arith, Option-cases, Bool-cases,
}
use libcomms.Machine.{Engine, own, Transition}
use libcomms.Machine.Steps.{pick-every, first_holding-every}
use libcomms.Response.{Checked, refused, stored, failed, returned}
use libcomms.Mc60.Driver.{Modem, Own, Act, parse_recv_len, own_test, perform, is_true}
use libcomms.Mc60.Responses.{recv_length_check}
use libcomms.Mc60.Run.{
  Call, runs, rule_fires, powers, new, store_checked, check_effects, context, follow, ready, run,
  power, call, trace, picked, entry_of,
}
use libcomms.Mc60.Run.Actions.{perform_all-state}
use libcomms.Mc60.Run.Rounds.{IsReachable, ready_same}
use libcomms.Mc60.State.{State}
use libcomms.Mc60.Table.{qirdi_rule, sms_rule, state_def}

-- The condition of the transition into NETWORK_RECEIVE stored a positive length.
parsed-positive :
    (r : Checked) (m : Modem) → is_true (returned r) ≡ true → 0 < (store_checked r m).bytes_received
unfolding store_checked
parsed-positive refused m h = cc
parsed-positive (stored n) m h = ground arith
parsed-positive (failed error) m h = cc

-- In NETWORK_RECEIVE a positive number of bytes is awaited.
abbrev Awaits : Modem → Type 0
Awaits m = is_receive m.state ≡ true → 0 < m.bytes_received

module _ (max : ℕ) (e : Engine State Own Act Modem (own_test max)) where
  open e use {
    Input, event, checked, on_reset, arrange_order, holds_own, holds_retained, pick_checked,
  }

  check_effects-log :
      (bytes : Bytes) (s : State) (m : Modem)
      → data_given (check_effects max bytes s m).log ≡ data_given m.log
  unfolding check_effects store_checked
  check_effects-log bytes State.network_begin_receive m = ground arith
  check_effects-log bytes _ m = refl

  check_effects-bytes_received :
      (bytes : Bytes) (s : State) (m : Modem)
      → is_receive s ≡ true
      → (check_effects max bytes s m).bytes_received ≡ m.bytes_received
  unfolding check_effects
  check_effects-bytes_received bytes State.network_receive m h = refl
  check_effects-bytes_received bytes _ m h = cc

  pub ready-log : (i : Input) (m : Modem) → data_given (ready max e i m).log ≡ data_given m.log
  unfolding ready
  ready-log i m = ground (arith, check_effects-log (event i) m.state m)

  pub ready-bytes_received :
      (i : Input) (m : Modem)
      → is_receive m.state ≡ true
      → (ready max e i m).bytes_received ≡ m.bytes_received
  unfolding ready
  ready-bytes_received i m h = ground (arith, check_effects-bytes_received (event i) m.state m h)

  follow-bytes_received :
      (i : Input) (s : State) (t : Transition State Own Act) (m : Modem)
      → (follow max e i s (some t) m).bytes_received ≡ m.bytes_received
  unfolding follow
  follow-bytes_received i s t m = perform_all-bytes_received _ _ _

  follow-state :
      (i : Input) (s : State) (t : Transition State Own Act) (m : Modem)
      → (follow max e i s (some t) m).state ≡ t.target
  unfolding follow
  follow-state i s t m = perform_all-state _ _ _

  begin-positive :
      (bytes : Bytes) (s : State) (m : Modem)
      → is_begin s ≡ true
      → is_true (returned (recv_length_check max bytes)) ≡ true
      → 0 < (check_effects max bytes s m).bytes_received
  unfolding check_effects
  begin-positive bytes State.network_begin_receive m b h =
      parsed-positive (recv_length_check max bytes) m h
  begin-positive bytes _ m b h = cc

  ready-positive :
      (i : Input) (m : Modem)
      → is_begin m.state ≡ true
      → checked i ≡ true
      → e.holds (ready max e i m) i (own parse_recv_len) ≡ true
      → 0 < (ready max e i m).bytes_received
  unfolding ready own_test
  ready-positive i m b c h =
      ground
        (arith, holds_own (ready max e i m) i parse_recv_len, begin-positive (event i) m.state m b)

  taken-Awaits :
      (i : Input) (m : Modem) (t : Transition State Own Act)
      → picked max e i m ≡ some t
      → is_receive t.target ≡ true
      → 0 < (ready max e i m).bytes_received
  unfolding picked
  taken-Awaits i m t h r =
      let (g, l, none_global) = table_enters m.state in
      elim (Bool-cases (checked i)) [
        | inl c ↦
            let (way, holds) = pick-every e (enters m.state) (ready max e i m) i _ _ t g l h in
            ready-positive i m (ground arith) c (
              subst (λ x. e.holds (ready max e i m) i x ≡ true)
                (is_parse_lem t.guard (ground arith)) holds)
        | inr c ↦
            let global = pick_checked (ready max e i m) i _ _ c h in
            absurd (ground (arith, first_holding-every _ elsewhere _ t none_global global))
      ]

  run-Awaits : (i : Input) (m : Modem) → Awaits m → Awaits (run max e i m)
  unfolding run
  run-Awaits i m w = elim (Option-cases (picked max e i m)) [
    | inl stays ↦
        rw (stays, follow) (λ r. ground (arith, ready_same max e i m, ready-bytes_received i m))
    | inr (t, taken) ↦ rw taken (λ r.
        subst (0 <◌) (sym (follow-bytes_received i m.state t (ready max e i m))) (
          taken-Awaits i m t taken
            (ap is_receive (sym (follow-state i m.state t (ready max e i m))) ∙ r)))
  ]

  power-Awaits : (i : Input) (on : Bool) (m : Modem) → Awaits m → Awaits (power max e i on m)
  unfolding power
  power-Awaits i false m w = ground arith
  power-Awaits i true m w =
      let acts = on_reset (entry_of (state_def State.reset_stage_decide)) in
      let m' = record m { state = State.reset_stage_decide } in
      λ r. absurd (cc (perform_all-state (context max e i) acts m'))

  call-Awaits : (c : Call Input) (m : Modem) → Awaits m → Awaits (call max e c m)
  unfolding call
  call-Awaits (runs i) m w = run-Awaits i m w
  call-Awaits (rule_fires i qirdi_rule) m w = unfold perform in w
  call-Awaits (rule_fires i sms_rule) m w = unfold perform in w
  call-Awaits (powers i on) m w = power-Awaits i on m w
  call-Awaits _ m w = w

  trace-Awaits : (cs : List (Call Input)) (m : Modem) → Awaits m → Awaits (trace max e cs m)
  unfolding trace
  trace-Awaits [] m w = w
  trace-Awaits (c ∷ cs) m w = trace-Awaits cs (call max e c m) (call-Awaits c m w)

  pub IsReachable-Awaits : (m : Modem) → IsReachable max e m → Awaits m
  IsReachable-Awaits m r =
      rw r.reaches (trace-Awaits r.calls (new r.has_callback r.status_pin) (λ h. absurd (cc h)))
