-- ===== src/CLib/Memory.antt =====
-- NUL-terminated text in memory, and snprintf into a buffer that is large enough.
use libcomms.Base.{
  ℕ, zero, suc, ◌-◌, ◌≤◌, ◌<◌, ◌≡◌, refl, ap, some, [], ◌∷◌, ◌++◌, Bytes, arith, length, take_all,
  Lacks,
}
use libcomms.CLib.{c_string, upto_nul, snprintf}

-- Text without a NUL stands whole at the front of the string that is read.
pub c_string-append :
    (xs ys : Bytes) {s : Bytes}
    → Lacks 0 xs
    → c_string ys ≡ some s
    → c_string (xs ++ ys) ≡ some (xs ++ s)
unfolding c_string
c_string-append [] ys h e = e
c_string-append (zero ∷ xs) ys h e = absurd (h.0 refl)
c_string-append (suc c ∷ xs) ys h e = ground (arith, c_string-append xs ys h.1 e)

pub upto_nul-Lacks : (s : Bytes) → Lacks 0 s → upto_nul s ≡ s
unfolding upto_nul
upto_nul-Lacks [] h = refl
upto_nul-Lacks (zero ∷ s) h = absurd (h.0 refl)
upto_nul-Lacks (suc c ∷ s) h = ap (◌∷◌ (suc c)) (upto_nul-Lacks s h.1)

pub length-upto_nul : (s : Bytes) → length (upto_nul s) ≤ length s
unfolding upto_nul
length-upto_nul [] = omega arith
length-upto_nul (zero ∷ s) = omega arith
length-upto_nul (suc c ∷ s) = omega (arith, length-upto_nul s)

-- Text that is shorter than the buffer is written whole.
pub snprintf_fits : (size : ℕ) (text : Bytes) → length text < size → snprintf size text ≡ text
unfolding snprintf
snprintf_fits size text h = take_all (size - 1) text (omega arith)

-- A NUL behind the bytes ends the string.
pub c_string-upto_nul : (s t : Bytes) → c_string (s ++ 0 ∷ t) ≡ some (upto_nul s)
unfolding c_string upto_nul
c_string-upto_nul [] t = refl
c_string-upto_nul (zero ∷ s) t = refl
c_string-upto_nul (suc c ∷ s) t = rw (c_string-upto_nul s t) refl
