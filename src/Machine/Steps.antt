-- ===== src/Machine/Steps.antt =====
-- The transition that a run takes is one of the table, and its condition held.
use libcomms.Base.{
  ℕ, ◌+◌, ◌≢◌, ◌≡◌, inl, inr, Bool, true, ◌&&◌, some, List, [], ◌∷◌, arith, Bytes, ◌⊎◌, none, ◌++◌,
}
use libcomms.Machine.{Engine, Guard, Transition, first_holding}

module _ {ℓ} {A : Type ℓ} where
  abbrev pub every : (A → Bool) → List A → Bool
  every p [] = true
  every p (x ∷ xs) = p x && every p xs

  pub every-append :
      (p : A → Bool) (xs ys : List A)
      → every p xs ≡ true
      → every p ys ≡ true
      → every p (xs ++ ys) ≡ true
  every-append p [] ys hx hy = hy
  every-append p (x ∷ xs) ys hx hy = ground (arith, every-append p xs ys)

  -- The sum of what a function gives for the elements.
  abbrev pub total : (A → ℕ) → List A → ℕ
  total f [] = 0
  total f (x ∷ xs) = f x + total f xs

  pub total-append : (f : A → ℕ) (xs ys : List A) → total f (xs ++ ys) ≡ total f xs + total f ys
  total-append f [] ys = omega arith
  total-append f (x ∷ xs) ys = omega (arith, total-append f xs ys)

module _ {S L A : Type 0} (holds : Guard L → Bool) where
  pub first_holding-every :
      (p : Transition S L A → Bool) (ts : List (Transition S L A)) (t : Transition S L A)
      → every p ts ≡ true
      → first_holding holds ts ≡ some t
      → (p t ≡ true) × (holds t.guard ≡ true)
  unfolding first_holding
  first_holding-every p [] t a h = cc
  first_holding-every p (u ∷ ts) t a h = ground (arith, first_holding-every p ts t)

-- What holds of all transitions out of a state holds of the one that is picked.
module _ {S L A M : Type 0} {test : L → M → Bytes → Bool} (e : Engine S L A M test) where
  pub pick-every :
      (p : Transition S L A → Bool) (m : M) (i : e.Input) (globals locals : List (Transition S L A))
      (t : Transition S L A)
      → every p globals ≡ true
      → every p locals ≡ true
      → e.pick m i globals locals ≡ some t
      → (p t ≡ true) × (e.holds m i t.guard ≡ true)
  pick-every p m i globals locals t g l h = elim (e.pick_some m i globals locals h) [
    | inl global ↦ first_holding-every (e.holds m i) p globals t g global
    | inr local ↦ first_holding-every (e.holds m i) p locals t l local
  ]

-- Among these transitions there is one with this condition.
abbrev pub HasGuard : {S L A : Type 0} → Guard L → List (Transition S L A) → Type 0
HasGuard g [] = ⊥
HasGuard g (t ∷ ts) = (t.guard ≡ g) ⊎ HasGuard g ts

pub first_holding-HasGuard :
    {S L A : Type 0} (holds : Guard L → Bool) (g : Guard L) (ts : List (Transition S L A))
    → HasGuard g ts
    → holds g ≡ true
    → first_holding holds ts ≢ none
unfolding first_holding
first_holding-HasGuard holds g [] x h n = elim x [ ]
first_holding-HasGuard holds g (t ∷ ts) (inl e) h n = ground arith
first_holding-HasGuard holds g (t ∷ ts) (inr later) h n =
    ground (arith, first_holding-HasGuard holds g ts later h)
