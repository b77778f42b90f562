-- ===== src/Machine/Rounds.antt =====
-- What the actions of a run do to what a driver keeps, for any driver: what holds in some of its
-- states only, and what some of its actions leave alone.
use libcomms.Base.{
  ◌≡◌, ◌∙◌, refl, subst, inl, inr, Bool, true, false, not, ◌&&◌, ◌||◌, some, List, [], ◌∷◌, ◌++◌,
  Bytes, arith, Option-cases, Bool-cases, ◌⊎◌,
}
use libcomms.Machine.{Engine, Transition}
use libcomms.Machine.Driving.{
  Driver, entry_of, exit_of, globals_of, locals_of, perform_all, follow, picked, run, state-follow,
}
use libcomms.Machine.Steps.{every, pick-every}

-- All the actions of a transition, in their order.
abbrev pub actions_of :
    {S L A M : Type 0} {test : L → M → Bytes → Bool} {e : Engine S L A M test}
    → Driver e
    → S
    → Transition S L A
    → List A
actions_of d s t = exit_of (d.table s) ++ t.actions ++ entry_of (d.table t.target)

module _ {A : Type 0} (keeps makes : A → Bool) where
  -- Whether something holds behind these actions, given whether it holds before them.
  abbrev pub establishes : Bool → List A → Bool
  establishes held [] = held
  establishes held (a ∷ acts) = establishes (makes a || (held && keeps a)) acts

-- Quiet actions, and one last action of another kind.
abbrev pub quiet_until : {A : Type 0} → (A → Bool) → (A → Bool) → List A → Bool
quiet_until quiet last [] = false
quiet_until quiet last (a ∷ []) = last a
quiet_until quiet last (a ∷ acts) = quiet a && quiet_until quiet last acts

-- What it means that a test of this form holds.
pub one_or_three :
    (k p a q : Bool)
    → (k || (p && a && q)) ≡ true
    → (k ≡ true) ⊎ ((p ≡ true) × (a ≡ true) × (q ≡ true))
one_or_three true p a q h = inl refl
one_or_three false true true true h = inr (refl, refl, refl)
one_or_three false true true false h = cc
one_or_three false true false q h = cc
one_or_three false false a q h = cc

module _ {S L A M : Type 0} {test : L → M → Bytes → Bool} {e : Engine S L A M test}
    (d : Driver e) where
  module _ (P : M → Type 0) (keeps makes : A → Bool)
      (act-keeps : (i : e.Input) (a : A) (m : M) → keeps a ≡ true → P m → P (d.act i a m))
      (act-makes : (i : e.Input) (a : A) (m : M) → makes a ≡ true → P (d.act i a m)) where
    act-establishes :
        (i : e.Input) (a : A) (held : Bool) (m : M)
        → (held ≡ true → P m)
        → (makes a || (held && keeps a)) ≡ true
        → P (d.act i a m)
    act-establishes i a held m h k = elim (Bool-cases (makes a)) [
      | inl made ↦ act-makes i a m made
      | inr not_made ↦ act-keeps i a m (ground arith) (h (ground arith))
    ]

    perform_all-establishes :
        (i : e.Input) (acts : List A) (held : Bool) (m : M)
        → (held ≡ true → P m)
        → establishes keeps makes held acts ≡ true
        → P (perform_all d i acts m)
    unfolding perform_all
    perform_all-establishes i [] held m h k = h k
    perform_all-establishes i (a ∷ acts) held m h k =
        perform_all-establishes i acts (makes a || (held && keeps a)) (d.act i a m)
          (act-establishes i a held m h) k

    -- A transition into one of the states makes sure of it, or keeps it.
    abbrev pub secures : (S → Bool) → S → Transition S L A → Bool
    secures within s t =
        not (within t.target) || establishes keeps makes (within s) (actions_of d s t)

    follow-establishes :
        (i : e.Input) (from : S) (held : Bool) (t : Transition S L A) (m : M)
        → (held ≡ true → P (d.enter t.target m))
        → establishes keeps makes held (actions_of d from t) ≡ true
        → P (follow d i from (some t) m)
    unfolding follow
    follow-establishes i from held t m h k =
        rw (e.arrange_order (exit_of (d.table from)) t.actions (entry_of (d.table t.target)))
          (perform_all-establishes i (actions_of d from t) held (d.enter t.target m) h k)

    pub run-within :
        (within : S → Bool)
        → ((s : S) (m : M) → P m → P (d.enter s m))
        → ((i : e.Input) (m : M) → P m → P (d.ready i m))
        → ((s : S)
            → (every (secures within s) (globals_of d s) ≡ true)
              × (every (secures within s) (locals_of d s) ≡ true))
        → (i : e.Input) (m : M) → (within (d.state_of m) ≡ true → P m)
        → within (d.state_of (run d i m)) ≡ true
        → P (run d i m)
    unfolding run
    run-within within enter-keeps ready-keeps table i m h = elim (Option-cases (picked d i m)) [
      | inl stays ↦
          rw (stays, follow)
            (λ w. ready-keeps i m (h (subst (λ s. within s ≡ true) (d.state-ready i m) w)))
      | inr (t, taken) ↦
          let (g, l) = table (d.state_of m) in
          let way =
            (pick-every e (secures within (d.state_of m)) (d.ready i m) i _ _ t g l
              (unfold picked in taken)).0 in
          rw taken (λ w.
            let inside : within t.target ≡ true =
              subst (λ s. within s ≡ true) (state-follow d i (d.state_of m) t (d.ready i m)) w in
            follow-establishes i (d.state_of m) (within (d.state_of m)) t (d.ready i m)
              (λ held. enter-keeps t.target (d.ready i m) (ready-keeps i m (h held)))
              (ground arith))
    ]

  -- What the quiet actions leave alone.
  module _ {V : Type 0} (view : M → V) (quiet : A → Bool)
      (view-act : (i : e.Input) (a : A) (m : M)
        → quiet a ≡ true
        → view (d.act i a m) ≡ view m) where
    pub view-perform_all :
        (i : e.Input) (acts : List A) (m : M)
        → every quiet acts ≡ true
        → view (perform_all d i acts m) ≡ view m
    unfolding perform_all
    view-perform_all i [] m q = refl
    view-perform_all i (a ∷ acts) m q =
        view-perform_all i acts (d.act i a m) (ground arith) ∙ view-act i a m (ground arith)

    pub view-follow :
        (i : e.Input) (from : S) (t : Transition S L A) (m : M)
        → every quiet (actions_of d from t) ≡ true
        → view (follow d i from (some t) m) ≡ view (d.enter t.target m)
    unfolding follow
    view-follow i from t m q =
        rw (e.arrange_order (exit_of (d.table from)) t.actions (entry_of (d.table t.target)))
          (view-perform_all i (actions_of d from t) (d.enter t.target m) q)

    last-perform_all :
        (i : e.Input) (acts : List A) (m : M) (last : A → Bool)
        → quiet_until quiet last acts ≡ true
        → (before : M) × (a : A) × (last a ≡ true)
          × (view before ≡ view m)
          × (perform_all d i acts m ≡ d.act i a before)
    unfolding perform_all
    last-perform_all i [] m last q = cc
    last-perform_all i (a ∷ []) m last q = (m, a, q, refl, refl)
    last-perform_all i (a ∷ b ∷ acts) m last q =
        let (before, z, is_last, same, eq) =
          last-perform_all i (b ∷ acts) (d.act i a m) last (ground arith) in
        (before, z, is_last, same ∙ view-act i a m (ground arith), eq)

    pub last-follow :
        (i : e.Input) (from : S) (t : Transition S L A) (m : M) (last : A → Bool)
        → quiet_until quiet last (actions_of d from t) ≡ true
        → (before : M) × (a : A) × (last a ≡ true)
          × (view before ≡ view (d.enter t.target m))
          × (follow d i from (some t) m ≡ d.act i a before)
    unfolding follow
    last-follow i from t m last q =
        rw (e.arrange_order (exit_of (d.table from)) t.actions (entry_of (d.table t.target)))
          (last-perform_all i (actions_of d from t) (d.enter t.target m) last q)
