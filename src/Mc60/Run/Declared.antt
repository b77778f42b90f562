-- ===== src/Mc60/Run/Declared.antt =====
-- In which states the MC60's machine can be.
use libcomms.Base.{
  ℕ, ◌≡◌, refl, sym, subst, inl, inr, Bool, true, false, Option, none, some, List, [], ◌∷◌, arith,
  Option-cases,
}
use libcomms.Machine.{Engine, Transition}
use libcomms.Machine.Steps.{every, pick-every}
use libcomms.Mc60.Driver.{Modem, Own, Act, Def, own_test, perform}
use libcomms.Mc60.Run.{
  Call, runs, rule_fires, powers, new, follow, ready, run, picked, transitions_of, globals_of,
  power, call, trace,
}
use libcomms.Mc60.Run.Actions.{perform_all-state}
use libcomms.Mc60.Run.Rounds.{IsReachable, ready_same}
use libcomms.Mc60.State.{State}
use libcomms.Mc60.Table.{state_def, qirdi_rule, sms_rule}

is_declared : Option Def → Bool
is_declared none = false
is_declared (some _) = true

abbrev leads_to_declared : Transition State Own Act → Bool
leads_to_declared t = is_declared (state_def t.target)

table_declared :
    (s : State)
    → (every leads_to_declared (globals_of (state_def s)) ≡ true)
      × (every leads_to_declared (transitions_of (state_def s)) ≡ true)
unfolding state_def is_declared
table_declared State.sleep = (refl, refl)
table_declared _ = (refl, refl)

module _ (max : ℕ) (e : Engine State Own Act Modem (own_test max)) where
  open e use {Input}

  run_declared :
      (i : Input) (m : Modem)
      → is_declared (state_def m.state) ≡ true
      → is_declared (state_def (run max e i m).state) ≡ true
  unfolding run
  run_declared i m h = elim (Option-cases (picked max e i m)) [
    | inl stays ↦
        rw (stays, follow)
          (subst (λ s. is_declared (state_def s) ≡ true) (sym (ready_same max e i m).1) h)
    | inr (t, taken) ↦
        let (g, l) = table_declared m.state in
        let d =
          (pick-every e leads_to_declared (ready max e i m) i _ _ t g l
            (unfold picked in taken)).0 in
        rw (taken, follow)
          (subst (λ s. is_declared (state_def s) ≡ true) (sym (perform_all-state _ _ _)) d)
  ]

  call_declared :
      (c : Call Input) (m : Modem)
      → is_declared (state_def m.state) ≡ true
      → is_declared (state_def (call max e c m).state) ≡ true
  unfolding call
  call_declared (runs i) m h = run_declared i m h
  call_declared (rule_fires i qirdi_rule) m h = unfold perform in h
  call_declared (rule_fires i sms_rule) m h = unfold perform in h
  call_declared (powers i false) m h = unfold power in ground arith
  call_declared (powers i true) m h =
      unfold power is_declared state_def in (rw (perform_all-state _ _ _) refl)
  call_declared _ m h = h

  trace_declared :
      (cs : List (Call Input)) (m : Modem)
      → is_declared (state_def m.state) ≡ true
      → is_declared (state_def (trace max e cs m).state) ≡ true
  unfolding trace
  trace_declared [] m h = h
  trace_declared (c ∷ cs) m h = trace_declared cs (call max e c m) (call_declared c m h)

-- The machine never gets into one of the states that the enumeration names and the constructor does
-- not declare.
pub IsReachable-declared :
    (max : ℕ) (e : Engine State Own Act Modem (own_test max)) (m : Modem)
    → IsReachable max e m
    → (d : Def) × (state_def m.state ≡ some d)
unfolding is_declared state_def
IsReachable-declared max e m r =
    declared_def (state_def m.state)
      (rw r.reaches (trace_declared max e r.calls (new r.has_callback r.status_pin) refl))
  where
    declared_def : (o : Option Def) → is_declared o ≡ true → (d : Def) × (o ≡ some d)
    declared_def none h = cc
    declared_def (some d) h = (d, refl)
