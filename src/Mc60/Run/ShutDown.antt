-- ===== src/Mc60/Run/ShutDown.antt =====
-- The state SHUT_DOWN of Mc60Modem.
use libcomms.Base.{
  ℕ, ◌≡◌, refl, ◌∙◌, subst, sym, inl, inr, Bool, true, false, not, ◌&&◌, List, [], ◌∷◌, arith,
  Option-cases,
}
use libcomms.Machine.{Engine}
use libcomms.Machine.Steps.{every, pick-every}
use libcomms.Mc60.Driver.{Modem, Own, Act, own_test, perform}
use libcomms.Mc60.Run.{
  Call, runs, rule_fires, powers, follow, ready, run, picked, power, call, trace, transitions_of,
  globals_of,
}
use libcomms.Mc60.Run.Rounds.{ready_same}
use libcomms.Mc60.State.{State}
use libcomms.Mc60.Table.{state_def, qirdi_rule, sms_rule}

abbrev is_power_on : {I : Type 0} → Call I → Bool
is_power_on (powers _ true) = true
is_power_on _ = false

-- No call of `power (true)` is among these.
abbrev pub no_power_on : {I : Type 0} → List (Call I) → Bool
no_power_on [] = true
no_power_on (c ∷ cs) = not (is_power_on c) && no_power_on cs

module _ (max : ℕ) (e : Engine State Own Act Modem (own_test max)) where
  open e use {Input}

  run_shut_down :
      (i : Input) (m : Modem) → m.state ≡ State.shut_down → (run max e i m).state ≡ State.shut_down
  unfolding run
  run_shut_down i m s = elim (Option-cases (picked max e i m)) [
    | inl stays ↦ rw (stays, follow) ((ready_same max e i m).1 ∙ s)
    | inr (t, taken) ↦ absurd (
        cc
          (pick-every e (λ _. false) (ready max e i m) i _ _ t
            (subst (λ x. every (λ _. false) (globals_of (state_def x)) ≡ true) (sym s)
              (unfold state_def in refl))
            (subst (λ x. every (λ _. false) (transitions_of (state_def x)) ≡ true) (sym s)
              (unfold state_def in refl))
            (unfold picked in taken)).0)
  ]

  call_shut_down :
      (c : Call Input) (m : Modem)
      → is_power_on c ≡ false
      → m.state ≡ State.shut_down
      → (call max e c m).state ≡ State.shut_down
  unfolding call
  call_shut_down (runs i) m h s = run_shut_down i m s
  call_shut_down (rule_fires i qirdi_rule) m h s = unfold perform in s
  call_shut_down (rule_fires i sms_rule) m h s = unfold perform in s
  call_shut_down (powers i false) m h s = unfold power in ground arith
  call_shut_down (powers i true) m h s = cc
  call_shut_down _ m h s = s

-- From SHUT_DOWN no history of runs and calls leads to another state, unless `power (true)` is called.
pub trace_shut_down :
    (max : ℕ) (e : Engine State Own Act Modem (own_test max)) (cs : List (Call e.Input)) (m : Modem)
    → no_power_on cs ≡ true
    → m.state ≡ State.shut_down
    → (trace max e cs m).state ≡ State.shut_down
unfolding trace
trace_shut_down max e [] m n s = s
trace_shut_down max e (c ∷ cs) m n s =
    trace_shut_down max e cs (call max e c m) (ground arith)
      (call_shut_down max e c m (ground arith) s)
