-- ===== src/Mc60/Run/Sleep.antt =====
-- The state SLEEP of Mc60Modem, which suppresses the global transitions.
use libcomms.Base.{
  ℕ, ◌≡◌, refl, ◌∙◌, subst, sym, ap, inl, inr, Bool, true, false, not, ◌&&◌, List, [], ◌∷◌, arith,
  Option-cases, none,
}
use libcomms.Machine.{Engine, Guard, own}
use libcomms.Machine.Steps.{every, pick-every}
use libcomms.Mc60.Driver.{Modem, Own, Act, data_waits, own_test, perform}
use libcomms.Mc60.Run.{
  Call, runs, rule_fires, sends, powers, follow, ready, run, picked, power, call, trace,
  transitions_of, globals_of,
}
use libcomms.Mc60.Run.Payload.{picked-pick}
use libcomms.Mc60.Run.Rounds.{ready_same}
use libcomms.Mc60.State.{State}
use libcomms.Mc60.Table.{state_def, qirdi_rule, sms_rule}

abbrev wakes : {I : Type 0} → Call I → Bool
wakes (powers _ true) = true
wakes (sends _) = true
wakes _ = false

-- Neither `send` nor `power (true)` is among these calls.
abbrev pub none_wakes : {I : Type 0} → List (Call I) → Bool
none_wakes [] = true
none_wakes (c ∷ cs) = not (wakes c) && none_wakes cs

abbrev is_data : Guard Own → Bool
is_data (own data_waits) = true
is_data _ = false

is_data_lem : (g : Guard Own) → is_data g ≡ true → g ≡ own data_waits
is_data_lem (own data_waits) h = refl
is_data_lem _ h = cc

abbrev Asleep : Modem → Type 0
Asleep m = (m.state ≡ State.sleep) × (m.box.buffer ≡ [])

module _ (max : ℕ) (e : Engine State Own Act Modem (own_test max)) where
  open e use {Input, holds, holds_own}

  ready-Asleep : (i : Input) (m : Modem) → Asleep m → Asleep (ready max e i m)
  ready-Asleep i m (s, b) =
      let (box, state) = ready_same max e i m in (state ∙ s, ap (λ x. x.buffer) box ∙ b)

  no_data : (i : Input) (m : Modem) → Asleep m → holds m i (own data_waits) ≡ false
  unfolding own_test
  no_data i m (s, b) = holds_own m i data_waits ∙ ground arith

  picked-Asleep : (i : Input) (m : Modem) → Asleep m → picked max e i m ≡ none
  picked-Asleep i m a = elim (Option-cases (picked max e i m)) [
    | inl stays ↦ stays
    | inr (t, taken) ↦
        let r = ready max e i m in
        let (is, held) =
          pick-every e (λ u. is_data u.guard) r i _ _ t
            (subst (λ x. every (λ u. is_data u.guard) (globals_of (state_def x)) ≡ true) (sym a.0)
              (unfold state_def in refl))
            (subst (λ x. every (λ u. is_data u.guard) (transitions_of (state_def x)) ≡ true)
              (sym a.0) (unfold state_def in refl))
            (picked-pick max e i m t taken) in
        let waits = subst (λ g. holds r i g ≡ true) (is_data_lem t.guard is) held in
        absurd (cc (no_data i r (ready-Asleep i m a)))
  ]

  run-Asleep : (i : Input) (m : Modem) → Asleep m → Asleep (run max e i m)
  unfolding run
  run-Asleep i m a = rw (picked-Asleep i m a, follow) (ready-Asleep i m a)

  call-Asleep : (c : Call Input) (m : Modem) → wakes c ≡ false → Asleep m → Asleep (call max e c m)
  unfolding call
  call-Asleep (runs i) m h a = run-Asleep i m a
  call-Asleep (rule_fires i qirdi_rule) m h a = unfold perform in a
  call-Asleep (rule_fires i sms_rule) m h a = unfold perform in a
  call-Asleep (sends bytes) m h a = cc
  call-Asleep (powers i false) m h a = unfold power in ground arith
  call-Asleep (powers i true) m h a = cc
  call-Asleep _ m h a = a

-- A driver in SLEEP in whose buffer no bytes wait stays there, with an empty buffer, through every
-- history of runs and calls without `send` and without `power (true)`: neither the time that passes
-- nor `power (false)` nor a notification of the modem takes it out.
pub trace_asleep :
    (max : ℕ) (e : Engine State Own Act Modem (own_test max)) (cs : List (Call e.Input)) (m : Modem)
    → none_wakes cs ≡ true
    → m.state ≡ State.sleep
    → m.box.buffer ≡ []
    → ((trace max e cs m).state ≡ State.sleep) × ((trace max e cs m).box.buffer ≡ [])
unfolding trace
trace_asleep max e [] m n s b = (s, b)
trace_asleep max e (c ∷ cs) m n s b =
    let (s', b') = call-Asleep max e c m (ground arith) (s, b) in
    trace_asleep max e cs (call max e c m) (ground arith) s' b'
