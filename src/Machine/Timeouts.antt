-- ===== src/Machine/Timeouts.antt =====
-- A global transition that waits for time only, for any driver.
use libcomms.Base.{ℕ, ◌<◌, ◌≡◌, ◌⊎◌, inl, inr, Bool, some, Bytes, Option-cases}
use libcomms.Machine.{Engine, ms_passed, Transition, first_holding}
use libcomms.Machine.Driving.{Driver, globals_of, locals_of, picked, run, state-follow}
use libcomms.Machine.Steps.{HasGuard, first_holding-HasGuard}

module _ {S L A M : Type 0} {test : L → M → Bytes → Bool} {e : Engine S L A M test}
    (d : Driver e) where
  open d use {state_of, ready}

  -- Once that time has passed a run takes a transition: a global one, or the first one of the state
  -- whose condition holds.
  pub run-late :
      (i : e.Input) (m : M) (n : ℕ)
      → HasGuard (ms_passed n) (globals_of d (state_of m))
      → n < e.elapsed i
      → (t : Transition S L A) × (state_of (run d i m) ≡ t.target)
        × ((first_holding (e.holds (ready i m) i) (globals_of d (state_of m)) ≡ some t)
            ⊎ (first_holding (e.holds (ready i m) i) (locals_of d (state_of m)) ≡ some t))
  unfolding run
  run-late i m n waits late = elim (Option-cases (picked d i m)) [
    | inl stays ↦
        let (no_global, no_local) = e.pick_none (ready i m) i _ _ (unfold picked in stays) in
        absurd (
          first_holding-HasGuard (e.holds (ready i m) i) _ _ waits
            (e.holds_ms_passed (ready i m) i n late) no_global)
    | inr (t, taken) ↦ (
      t,
      rw taken (state-follow d i (state_of m) t (ready i m)),
      e.pick_some (ready i m) i _ _ (unfold picked in taken),
    )
  ]
