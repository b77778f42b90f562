-- ===== src/CLib/Find.antt =====
-- What the searches find.
use libcomms.Base.{
  ℕ, ◌<◌, ◌≡◌, refl, inl, inr, true, none, some, [], ◌∷◌, ◌++◌, Bytes, arith, length, drop, Lacks,
  ◌==◌, Bool-cases, Option-cases,
}
use libcomms.CLib.{begins, search_pos, strstr, split_first, after_last}

pub begins-append : (p s : Bytes) → begins (p ++ s) p ≡ true
unfolding begins
begins-append [] s = refl
begins-append (c ∷ p) s = ground (arith, begins-append p s)

pub begins_sound : (s p : Bytes) → begins s p ≡ true → s ≡ p ++ drop (length p) s
unfolding begins
begins_sound s [] h = refl
begins_sound [] (_ ∷ _) h = cc
begins_sound (c ∷ s) (b ∷ p) h = ground (arith, begins_sound s p)

-- std::search answers its first position exactly when the text begins with the pattern.
pub search_pos-begins : (s p : Bytes) → 0 < length s → (search_pos s p == 0) ≡ begins s p
unfolding search_pos
search_pos-begins [] p h = absurd (omega arith)
search_pos-begins (c ∷ s) p h = ground arith

pub strstr-append : (p s : Bytes) → strstr (p ++ s) p ≡ some (p ++ s)
unfolding strstr
strstr-append [] [] = refl
strstr-append [] (_ ∷ _) = refl
strstr-append (c ∷ p) s = ground (arith, begins-append (c ∷ p) s)

pub split_first-append :
    (b : ℕ) (xs ys : Bytes) → Lacks b xs → split_first b (xs ++ b ∷ ys) ≡ some (xs, ys)
unfolding split_first
split_first-append b [] ys h = ground arith
split_first-append b (x ∷ xs) ys h = ground (arith, split_first-append b xs ys h.1)

pub split_first-Lacks : (b : ℕ) (s : Bytes) → Lacks b s → split_first b s ≡ none
unfolding split_first
split_first-Lacks b [] h = refl
split_first-Lacks b (c ∷ s) h = ground (arith, split_first-Lacks b s h.1)

pub split_first_sound :
    (b : ℕ) (s : Bytes) {xs ys : Bytes}
    → split_first b s ≡ some (xs, ys)
    → (s ≡ xs ++ b ∷ ys) × Lacks b xs
unfolding split_first
split_first_sound b [] h = cc
split_first_sound b (c ∷ s) h = elim (Bool-cases (c == b)) [
  | inl here ↦ ground arith
  | inr later ↦ elim (Option-cases (split_first b s)) [
    | inl e ↦ ground arith
    | inr ((us, vs), e) ↦ ground (arith, split_first_sound b s e)
  ]
]

pub after_last-Lacks : (b : ℕ) (s : Bytes) → Lacks b s → after_last b s ≡ none
unfolding after_last
after_last-Lacks b [] h = refl
after_last-Lacks b (c ∷ s) h = ground (arith, after_last-Lacks b s h.1)

pub after_last-append : (b : ℕ) (xs ys : Bytes) → Lacks b ys → after_last b (xs ++ b ∷ ys) ≡ some ys
unfolding after_last
after_last-append b [] ys h = ground (arith, after_last-Lacks b ys h)
after_last-append b (x ∷ xs) ys h = ground (arith, after_last-append b xs ys h)

pub after_last-none : (b : ℕ) (s : Bytes) → after_last b s ≡ none → Lacks b s
unfolding after_last
after_last-none b [] h = tt
after_last-none b (c ∷ s) h = ground (arith, after_last-none b s)

pub after_last_sound :
    (b : ℕ) (s : Bytes) {ys : Bytes}
    → after_last b s ≡ some ys
    → (xs : Bytes) × (s ≡ xs ++ b ∷ ys) × Lacks b ys
unfolding after_last
after_last_sound b [] h = absurd (cc)
after_last_sound b (c ∷ s) h = elim (Option-cases (after_last b s)) [
  | inl e ↦ ([], ground (arith, after_last-none b s e), ground (arith, after_last-none b s e))
  | inr (vs, e) ↦
      let (xs, split, l) = after_last_sound b s e in (c ∷ xs, ground arith, ground arith)
]
