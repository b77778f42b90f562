-- ===== src/Mc60/Run/Rounds.antt =====
-- The outbox in the states of Mc60Modem in which a send is under way.
use libcomms.Base.{
  ℕ, ◌≤◌, ◌≡◌, refl, ap, ◌∙◌, ◌⊎◌, inl, inr, Bool, true, false, some, List, [], ◌∷◌, ◌++◌, arith,
  Option-cases, length, length-append, sym, Bool-cases,
}
use libcomms.Machine.{Engine, Transition}
use libcomms.Machine.Steps.{pick-every}
use libcomms.Mc60.Driver.{Modem, Own, Act, own_test, perform}
use libcomms.Mc60.Outbox.{output_buffer_size, gsm_max_bytes_send, send}
use libcomms.Mc60.Run.{
  Call, runs, rule_fires, sends, powers, new, context, follow, ready, run, power, call, trace,
  picked, entry_of, exit_of,
}
use libcomms.Mc60.Run.Actions.{perform_all-state, check_effects_same}
use libcomms.Mc60.State.{State}
use libcomms.Mc60.Table.{qirdi_rule, sms_rule, state_def}
use libcomms.Mc60.Run.Held.{
  in_round, keeps_round, table_keeps_rounds, perform_all-Bounded, enter_round, Announced,
}

module _ (max : ℕ) (e : Engine State Own Act Modem (own_test max)) where
  open e use {Input, event, arrange, arrange_order, on_reset}

  pub ready_same :
      (i : Input) (m : Modem)
      → ((ready max e i m).box ≡ m.box) × ((ready max e i m).state ≡ m.state)
  unfolding ready
  ready_same i m = ground (arith, check_effects_same max (event i) m.state m)

  follow-Announced :
      (i : Input) (from : State) (t : Transition State Own Act) (m : Modem)
      → keeps_round from (exit_of (state_def from)) t ≡ true
      → m.state ≡ from
      → Announced m
      → Announced (follow max e i from (some t) m)
  unfolding follow
  follow-Announced i from t m k s h =
      let c = context max e i in
      let exit = exit_of (state_def from) in
      let acts = exit ++ t.actions ++ entry_of (state_def t.target) in
      let m' = record m { state = t.target } in
      let bounds = perform_all-Bounded c acts m' (h.fits, h.capped) in
      rw (arrange_order exit t.actions (entry_of (state_def t.target))) (record {
        fits = bounds.0;
        capped = bounds.1;
        held = λ r.
            enter_round c from exit t m' k (λ r'. h.held (rw s r'))
              (rw (perform_all-state c acts m') at r);
      })

  ready-Announced : (i : Input) (m : Modem) → Announced m → Announced (ready max e i m)
  ready-Announced i m h = ground (arith, ready_same i m)

  picked-keeps_round :
      (i : Input) (m : Modem) (t : Transition State Own Act)
      → picked max e i m ≡ some t
      → keeps_round m.state (exit_of (state_def m.state)) t ≡ true
  unfolding picked
  picked-keeps_round i m t h =
      let (globals_keep, locals_keep) = table_keeps_rounds m.state in
      (pick-every e (keeps_round m.state (exit_of (state_def m.state))) _ i _ _ t globals_keep
        locals_keep h).0

  run-Announced : (i : Input) (m : Modem) → Announced m → Announced (run max e i m)
  unfolding run
  run-Announced i m h = elim (Option-cases (picked max e i m)) [
    | inl stays ↦ rw (stays, follow) (ready-Announced i m h)
    | inr (t, taken) ↦ rw taken (
        follow-Announced i m.state t (ready max e i m) (picked-keeps_round i m t taken)
          (ready_same i m).1 (ready-Announced i m h))
  ]

  power-Announced :
      (i : Input) (on : Bool) (m : Modem) → Announced m → Announced (power max e i on m)
  unfolding power
  power-Announced i false m h = ground arith
  power-Announced i true m h =
      let c = context max e i in
      let acts = on_reset (entry_of (state_def State.reset_stage_decide)) in
      let m' = record m { state = State.reset_stage_decide } in
      let bounds = perform_all-Bounded c acts m' (h.fits, h.capped) in
      record {
        fits = bounds.0;
        capped = bounds.1;
        held = λ r. absurd (cc (perform_all-state c acts m'));
      }

  call-Announced : (c : Call Input) (m : Modem) → Announced m → Announced (call max e c m)
  unfolding call
  call-Announced (runs i) m h = run-Announced i m h
  call-Announced (rule_fires i qirdi_rule) m h = unfold perform in (ground arith)
  call-Announced (rule_fires i sms_rule) m h = unfold perform in (ground arith)
  call-Announced (powers i on) m h = power-Announced i on m h
  call-Announced (sends bytes) m h =
      unfold send in (ground (arith, length-append m.box.buffer bytes))
  call-Announced _ m h = ground arith

  trace-Announced :
      (cs : List (Call Input)) (m : Modem) → Announced m → Announced (trace max e cs m)
  unfolding trace
  trace-Announced [] m h = h
  trace-Announced (c ∷ cs) m h = trace-Announced cs (call max e c m) (call-Announced c m h)

new-Announced : (has_callback status_pin : Bool) → Announced (new has_callback status_pin)
new-Announced has_callback status_pin = ground arith

-- What the driver can become by calls and runs.
pub record IsReachable (max : ℕ) (e : Engine State Own Act Modem (own_test max)) (m : Modem)
    : Type 0 where
  pub has_callback : Bool
  pub status_pin : Bool
  pub calls : List (Call e.Input)
  pub reaches : m ≡ trace max e calls (new has_callback status_pin)

pub IsReachable-Announced :
    (max : ℕ) (e : Engine State Own Act Modem (own_test max)) (m : Modem)
    → IsReachable max e m
    → Announced m
IsReachable-Announced max e m r = rw r.reaches (
    trace-Announced max e r.calls (new r.has_callback r.status_pin)
      (new-Announced r.has_callback r.status_pin))

-- Whatever the client calls and the modem answers, the buffer keeps within its capacity, no more
-- than 1460 bytes are announced, and from the announcement of a number of bytes until the decision
-- to drop them the buffer holds at least that many.
pub announced_bytes_wait :
    (max : ℕ) (e : Engine State Own Act Modem (own_test max)) (m : Modem)
    → IsReachable max e m
    → (length m.box.buffer ≤ output_buffer_size)
      × (m.box.to_send ≤ gsm_max_bytes_send)
      × ((in_round m.state ≡ false) ⊎ (m.box.to_send ≤ length m.box.buffer))
announced_bytes_wait max e m r =
    let h = IsReachable-Announced max e m r in
    (
      h.fits,
      h.capped,
      elim (Bool-cases (in_round m.state)) [
        | inl inside ↦ inr (h.held inside)
        | inr outside ↦ inl outside
      ],
    )

pub trace-append :
    (max : ℕ) (e : Engine State Own Act Modem (own_test max)) (xs ys : List (Call e.Input))
    (m : Modem)
    → trace max e (xs ++ ys) m ≡ trace max e ys (trace max e xs m)
unfolding trace
trace-append max e [] ys m = refl
trace-append max e (x ∷ xs) ys m = trace-append max e xs ys (call max e x m)

pub IsReachable-call :
    (max : ℕ) (e : Engine State Own Act Modem (own_test max)) (c : Call e.Input) (m : Modem)
    → IsReachable max e m
    → IsReachable max e (call max e c m)
unfolding trace
IsReachable-call max e c m r = record {
  has_callback = r.has_callback;
  status_pin = r.status_pin;
  calls = r.calls ++ c ∷ [];
  reaches =
      ap (call max e c) r.reaches
      ∙ sym (trace-append max e r.calls (c ∷ []) (new r.has_callback r.status_pin));
}
