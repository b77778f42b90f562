-- ===== src/Machine/Answering.antt =====
-- A run over a table whose input is known well enough to tell which transition it takes, for any
-- driver.
use libcomms.Base.{
  ◌≡◌, refl, ap, inl, inr, Bool, true, false, none, some, ◌++◌, Bytes, Option-cases,
}
use libcomms.Machine.{Engine, Guard, Transition, first_holding}
use libcomms.Machine.Driving.{
  Driver, entry_of, exit_of, globals_of, locals_of, perform_all, follow, picked, run,
}

module _ {S L A M : Type 0} {test : L → M → Bytes → Bool} (e : Engine S L A M test) where
  -- Whatever the driver's variables hold, the condition holds of this input, or does not.
  abbrev pub Hears : e.Input → Guard L → Type 0
  Hears i g = (m : M) → e.holds m i g ≡ true

  abbrev pub Misses : e.Input → Guard L → Type 0
  Misses i g = (m : M) → e.holds m i g ≡ false

module _ {S L A M : Type 0} {test : L → M → Bytes → Bool} {e : Engine S L A M test}
    (d : Driver e) where
  open d use {state_of, enter, ready, table}

  takes :
      (i : e.Input) (m : M) (t : Transition S L A)
      → e.checked i ≡ true
      → first_holding (e.holds (ready i m) i) (globals_of d (state_of m)) ≡ none
      → first_holding (e.holds (ready i m) i) (locals_of d (state_of m)) ≡ some t
      → picked d i m ≡ some t
  unfolding picked
  takes i m t c g l = elim (Option-cases (picked d i m)) [
    | inl stays ↦
        let nothing = (e.pick_none (ready i m) i _ _ stays).1 c in absurd (cc (nothing, l))
    | inr (u, taken) ↦ elim (e.pick_some (ready i m) i _ _ taken) [
      | inl global ↦ absurd (cc (global, g))
      | inr local ↦ cc
    ]
  ]

  -- A run that evaluates the conditions of the state takes the first transition that holds, unless a
  -- global one does: the exit actions, its own, and the entry actions of its target.
  pub answered_run :
      (i : e.Input) (m : M) (s : S) (t : Transition S L A)
      → state_of m ≡ s
      → e.checked i ≡ true
      → first_holding (e.holds (ready i m) i) (globals_of d s) ≡ none
      → first_holding (e.holds (ready i m) i) (locals_of d s) ≡ some t
      → run d i m
        ≡ perform_all d i
            (exit_of (table s) ++ t.actions ++ entry_of (table t.target))
            (enter t.target (ready i m))
  unfolding run follow
  answered_run i m s t at_s c g l =
      let taken = takes i m t c (rw (ap (globals_of d) at_s) g) (rw (ap (locals_of d) at_s) l) in
      rw
        (
          taken,
          e.arrange_order (exit_of (table (state_of m))) t.actions (entry_of (table t.target)),
          ap (λ x. exit_of (table x)) at_s,
        )
        refl
