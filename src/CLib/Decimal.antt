-- ===== src/CLib/Decimal.antt =====
-- Decimal numbers: what strtoul reads of a printed number, and how long the print is.
use libcomms.Base.{
  ℕ, zero, suc, ◌+◌, ◌*◌, ◌/◌, ◌%◌, ◌^◌, ◌≤◌, ◌<◌, ◌≡◌, refl, ap, ◌∙◌, inl, inr, false, [], ◌∷◌,
  ◌++◌, append_assoc, Bytes, arith, length, length-append, All, All-append, Lacks, ltb, Bool-cases,
}
use native.Mathlib.Nat.{pow-suc}
use libcomms.CLib.{is_digit, read_digits, strtoul, decimal_fuel, decimal}

-- The text does not go on with a digit.
abbrev pub Stops : Bytes → Type 0
Stops [] = Unit
Stops (c ∷ _) = is_digit c ≡ false

read_digits-Stops : (n : ℕ) (s : Bytes) → Stops s → read_digits n s ≡ n
unfolding read_digits
read_digits-Stops n [] h = refl
read_digits-Stops n (c ∷ s) h = ground arith

read_digits_digit :
    (acc d : ℕ) (s : Bytes)
    → d < 10
    → read_digits acc ((b'0' + d) ∷ s) ≡ read_digits (acc * 10 + d) s
unfolding read_digits
read_digits_digit acc d s h = ground arith

read_digits-decimal_fuel :
    (f n : ℕ) (rest : Bytes) → n < f → read_digits 0 (decimal_fuel f n ++ rest) ≡ read_digits n rest
unfolding decimal_fuel
read_digits-decimal_fuel zero n rest h = absurd (omega arith)
read_digits-decimal_fuel (suc f) n rest h = elim (Bool-cases (ltb n 10)) [
  | inl one ↦
      rw one
        (read_digits_digit 0 n rest (ground arith) ∙ ap (λ k. read_digits k rest) (omega arith))
  | inr more ↦
      rw (more, append_assoc)
        (read_digits-decimal_fuel f (n / 10) ((b'0' + n % 10) ∷ rest) (ground arith)
          ∙ read_digits_digit (n / 10) (n % 10) rest (omega arith)
          ∙ ap (λ k. read_digits k rest) (omega arith))
]

abbrev pub IsDigit : ℕ → Type 0
IsDigit c = (b'0' ≤ c) × (c ≤ b'9')

decimal_fuel-digits : (f n : ℕ) → All IsDigit (decimal_fuel f n)
unfolding decimal_fuel
decimal_fuel-digits zero n = tt
decimal_fuel-digits (suc f) n = elim (Bool-cases (ltb n 10)) [
  | inl one ↦ rw one (ground arith)
  | inr more ↦ rw more (
      All-append IsDigit (decimal_fuel f (n / 10)) _ (decimal_fuel-digits f (n / 10)) (omega arith))
]

pub decimal-digits : (n : ℕ) → All IsDigit (decimal n)
unfolding decimal
decimal-digits n = decimal_fuel-digits (suc n) n

digits-Lacks : (b : ℕ) (s : Bytes) → is_digit b ≡ false → All IsDigit s → Lacks b s
digits-Lacks b [] n h = tt
digits-Lacks b (c ∷ s) n h = (λ e. ground arith, digits-Lacks b s n h.1)

-- A printed number holds no byte but digits.
pub decimal-Lacks : (b n : ℕ) → is_digit b ≡ false → Lacks b (decimal n)
decimal-Lacks b n h = digits-Lacks b (decimal n) h (decimal-digits n)

length-decimal_fuel : (k f n : ℕ) → n < 10 ^ suc k → length (decimal_fuel f n) ≤ suc k
unfolding decimal_fuel
length-decimal_fuel k zero n h = omega arith
length-decimal_fuel zero (suc f) n h = ground arith
length-decimal_fuel (suc k) (suc f) n h = elim (Bool-cases (ltb n 10)) [
  | inl one ↦ rw one (omega arith)
  | inr more ↦
      rw (more, length-append)
        (omega (arith, length-decimal_fuel k f (n / 10) (omega (arith, pow-suc 10 (suc k)))))
]

-- A number below 10 ^ (k + 1) is printed with at most k + 1 digits.
pub length-decimal : (k n : ℕ) → n < 10 ^ suc k → length (decimal n) ≤ suc k
unfolding decimal
length-decimal k n h = length-decimal_fuel k (suc n) n h

decimal_fuel-head :
    (f n : ℕ) → n < f → (c : ℕ) × (s : Bytes) × (decimal_fuel f n ≡ c ∷ s) × IsDigit c
unfolding decimal_fuel
decimal_fuel-head zero n h = absurd (omega arith)
decimal_fuel-head (suc f) n h = elim (Bool-cases (ltb n 10)) [
  | inl one ↦ (b'0' + n, [], rw one, ground arith)
  | inr more ↦
      let (c, s, e, d) = decimal_fuel-head f (n / 10) (ground arith) in
      (c, s ++ (b'0' + n % 10) ∷ [], rw (more, e), d)
]

strtoul_digits :
    (max c : ℕ) (s : Bytes)
    → IsDigit c
    → read_digits 0 (c ∷ s) ≤ max
    → strtoul max (c ∷ s) ≡ read_digits 0 (c ∷ s)
unfolding strtoul
strtoul_digits max c s d h = ground arith

-- strtoul reads a printed number, and goes on into the digits that stand behind it.
pub strtoul-decimal_digits :
    (max n : ℕ) (rest : Bytes)
    → read_digits n rest ≤ max
    → strtoul max (decimal n ++ rest) ≡ read_digits n rest
unfolding decimal
strtoul-decimal_digits max n rest h =
    let (c, s, e, d) = decimal_fuel-head (suc n) n (omega arith) in
    let reads : read_digits 0 (decimal n ++ rest) ≡ read_digits n rest =
      read_digits-decimal_fuel (suc n) n rest (omega arith) in
    let reads' : read_digits 0 (c ∷ (s ++ rest)) ≡ read_digits n rest = rw e at reads in
    rw e (strtoul_digits max c (s ++ rest) d (rw reads' h) ∙ reads')

-- It reads the number back where no digit stands behind it.
pub strtoul-decimal :
    (max n : ℕ) (rest : Bytes) → n ≤ max → Stops rest → strtoul max (decimal n ++ rest) ≡ n
strtoul-decimal max n rest h stops =
    let reads = read_digits-Stops n rest stops in
    strtoul-decimal_digits max n rest (rw reads h) ∙ reads

-- A digit behind it becomes its last digit.
pub strtoul-decimal_digit :
    (max n d : ℕ) (rest : Bytes)
    → d < 10
    → n * 10 + d ≤ max
    → Stops rest
    → strtoul max (decimal n ++ (b'0' + d) ∷ rest) ≡ n * 10 + d
strtoul-decimal_digit max n d rest digit h stops =
    let reads = read_digits_digit n d rest digit ∙ read_digits-Stops (n * 10 + d) rest stops in
    strtoul-decimal_digits max n ((b'0' + d) ∷ rest) (rw reads h) ∙ reads

-- strtoul passes over a blank.
pub strtoul_blank : (max : ℕ) (s : Bytes) → strtoul max (b' ' ∷ s) ≡ strtoul max s
unfolding strtoul
strtoul_blank max s = refl
