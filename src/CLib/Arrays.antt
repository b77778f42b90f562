-- ===== src/CLib/Arrays.antt =====
-- Writes into an array of bytes by memcpy and by an index.
use libcomms.Base.{
  ℕ, zero, suc, ◌≤◌, ◌<◌, ◌≡◌, refl, some, none, [], ◌∷◌, ◌++◌, Bytes, arith, length, drop,
}
use libcomms.CLib.{store_at, memcpy, upto_nul}

pub memcpy_fits :
    (s array : Bytes) → length s ≤ length array → memcpy s array ≡ some (s ++ drop (length s) array)
unfolding memcpy
memcpy_fits [] array h = refl
memcpy_fits (c ∷ s) [] h = absurd (omega arith)
memcpy_fits (c ∷ s) (x ∷ array) h = rw (memcpy_fits s array (omega (arith, h))) refl

pub memcpy_past : (s array : Bytes) → length array < length s → memcpy s array ≡ none
unfolding memcpy
memcpy_past [] array h = absurd (omega (arith, h))
memcpy_past (c ∷ s) [] h = refl
memcpy_past (c ∷ s) (x ∷ array) h = rw (memcpy_past s array (omega (arith, h))) refl

pub store_at-append :
    (s : Bytes) (c x : ℕ) (t : Bytes) → store_at (length s) c (s ++ x ∷ t) ≡ some (s ++ c ∷ t)
unfolding store_at
store_at-append [] c x t = refl
store_at-append (d ∷ s) c x t = rw (store_at-append s c x t) refl

pub store_at_past : (i c : ℕ) (array : Bytes) → length array ≤ i → store_at i c array ≡ none
unfolding store_at
store_at_past i c [] h = refl
store_at_past zero c (x ∷ array) h = absurd (omega (arith, h))
store_at_past (suc i) c (x ∷ array) h = rw (store_at_past i c array (omega (arith, h))) refl

-- Text that a NUL in the array ends.
pub upto_nul-ended : (s t : Bytes) → upto_nul (s ++ 0 ∷ t) ≡ upto_nul s
unfolding upto_nul
upto_nul-ended [] t = refl
upto_nul-ended (zero ∷ s) t = refl
upto_nul-ended (suc c ∷ s) t = rw (upto_nul-ended s t) refl
