-- ===== src/Machine/Driving.antt =====
-- A run of a driver over its table, for any driver: what the BG96's and the ESP8266's share.
use libcomms.Base.{
  ◌≡◌, ◌∙◌, refl, sym, subst, inl, inr, Bool, true, Option, none, some, List, [], ◌∷◌, Bytes,
  Option-cases, if◌then◌else◌,
}
use libcomms.Machine.{Engine, Transition, StateDef}
use libcomms.Machine.Steps.{every, pick-every}

-- How a driver's state is read and changed, and its table.
pub record Driver {S L A M : Type 0} {test : L → M → Bytes → Bool} (e : Engine S L A M test)
    : Type 0 where
  pub state_of : M → S
  pub enter : S → M → M
  pub act : e.Input → A → M → M
  -- What a run does before it picks a transition.
  pub ready : e.Input → M → M
  pub table : S → Option (StateDef S L A)
  pub everywhere : List (Transition S L A)
  pub state-enter : (s : S) (m : M) → state_of (enter s m) ≡ s
  pub state-act : (i : e.Input) (a : A) (m : M) → state_of (act i a m) ≡ state_of m
  pub state-ready : (i : e.Input) (m : M) → state_of (ready i m) ≡ state_of m

module _ {S L A : Type 0} where
  abbrev pub entry_of : Option (StateDef S L A) → List A
  entry_of none = []
  entry_of (some d) = d.entry

  abbrev pub exit_of : Option (StateDef S L A) → List A
  exit_of none = []
  exit_of (some d) = d.exit

  abbrev pub transitions_of : Option (StateDef S L A) → List (Transition S L A)
  transitions_of none = []
  transitions_of (some d) = d.transitions

  -- The global transitions hold in a declared state that does not suppress them.
  abbrev pub globals_in :
      List (Transition S L A) → Option (StateDef S L A) → List (Transition S L A)
  globals_in everywhere none = []
  globals_in everywhere (some d) = if d.suppresses then [] else everywhere

module _ {S L A M : Type 0} {test : L → M → Bytes → Bool} {e : Engine S L A M test}
    (d : Driver e) where
  open d use {state_of, enter, act, ready, table, everywhere, state-enter, state-act, state-ready}

  unfoldable pub perform_all : e.Input → List A → M → M
  perform_all i [] m = m
  perform_all i (a ∷ acts) m = perform_all i acts (act i a m)

  abbrev pub globals_of : S → List (Transition S L A)
  globals_of s = globals_in everywhere (table s)

  abbrev pub locals_of : S → List (Transition S L A)
  locals_of s = transitions_of (table s)

  -- The exit actions of the old state, those of the transition, and the entry actions of the new.
  unfoldable pub follow : e.Input → S → Option (Transition S L A) → M → M
  follow i from none m = m
  follow i from (some t) m =
      perform_all i (e.arrange (exit_of (table from)) t.actions (entry_of (table t.target)))
        (enter t.target m)

  unfoldable pub picked : e.Input → M → Option (Transition S L A)
  picked i m = e.pick (ready i m) i (globals_of (state_of m)) (locals_of (state_of m))

  unfoldable pub run : e.Input → M → M
  unfolding follow picked
  run i m = follow i (state_of m) (picked i m) (ready i m)

  state-perform_all :
      (i : e.Input) (acts : List A) (m : M) → state_of (perform_all i acts m) ≡ state_of m
  unfolding perform_all
  state-perform_all i [] m = refl
  state-perform_all i (a ∷ acts) m = state-perform_all i acts (act i a m) ∙ state-act i a m

  pub state-follow :
      (i : e.Input) (from : S) (t : Transition S L A) (m : M)
      → state_of (follow i from (some t) m) ≡ t.target
  unfolding follow
  state-follow i from t m = state-perform_all i _ (enter t.target m) ∙ state-enter t.target m

  -- What holds of every transition out of the states that `among` keeps within them.
  pub state-run :
      (among : S → Bool) (i : e.Input) (m : M)
      → ((s : S) → among s ≡ true → every (λ t. among t.target) (globals_of s) ≡ true)
      → ((s : S) → among s ≡ true → every (λ t. among t.target) (locals_of s) ≡ true)
      → among (state_of m) ≡ true
      → among (state_of (run i m)) ≡ true
  unfolding run
  state-run among i m g l h = elim (Option-cases (picked i m)) [
    | inl stays ↦ rw (stays, follow) (subst (λ s. among s ≡ true) (sym (state-ready i m)) h)
    | inr (t, taken) ↦
        let kept =
          (pick-every e (λ u. among u.target) (ready i m) i _ _ t (g (state_of m) h)
            (l (state_of m) h) (unfold picked in taken)).0 in
        rw taken
          (subst (λ s. among s ≡ true) (sym (state-follow i (state_of m) t (ready i m))) kept)
  ]
