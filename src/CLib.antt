-- ===== src/CLib.antt =====
-- The functions of the C and C++ standard libraries that the program calls on text: std::search,
-- std::find, strstr, strchr, strtoul with base 10, and the conversions of snprintf.
pub mod Find
pub mod Decimal
pub mod Memory
pub mod Arrays
use libcomms.Base.{
  ℕ, zero, suc, ◌+◌, ◌-◌, ◌*◌, ◌/◌, ◌%◌, Bool, true, false, ◌&&◌, ◌||◌, Option, none, some, [], ◌∷◌,
  ◌++◌, Bytes, take, ltb, leb, ◌==◌, if◌then◌else◌,
}

-- Whether the text begins with the pattern.
unfoldable pub begins : Bytes → Bytes → Bool
begins s [] = true
begins [] (_ ∷ _) = false
begins (c ∷ s) (p ∷ pattern) = c == p && begins s pattern

-- std::search: the position of the first occurrence, or the end.
unfoldable pub search_pos : Bytes → Bytes → ℕ
unfolding begins
search_pos [] pattern = 0
search_pos (c ∷ s) pattern =
    let later = suc (search_pos s pattern) in if begins (c ∷ s) pattern then 0 else later

-- strstr: what stands from the first occurrence on.
unfoldable pub strstr : Bytes → Bytes → Option Bytes
unfolding begins
strstr [] pattern = if begins [] pattern then some [] else none
strstr (c ∷ s) pattern =
    let later = strstr s pattern in if begins (c ∷ s) pattern then some (c ∷ s) else later

abbrev prepend : ℕ → Option (Bytes × Bytes) → Option (Bytes × Bytes)
prepend c none = none
prepend c (some (before, after)) = some (c ∷ before, after)

-- std::find and strchr: the text before and after the first occurrence of a byte.
unfoldable pub split_first : ℕ → Bytes → Option (Bytes × Bytes)
split_first b [] = none
split_first b (c ∷ s) =
    let later = prepend c (split_first b s) in if c == b then some ([], s) else later

abbrev or_later : Option Bytes → Option Bytes → Option Bytes
or_later (some after) _ = some after
or_later none here = here

-- std::find over reverse iterators: what stands behind the last occurrence of a byte.
unfoldable pub after_last : ℕ → Bytes → Option Bytes
after_last b [] = none
after_last b (c ∷ s) = or_later (after_last b s) (if c == b then some s else none)

abbrev pub is_digit : ℕ → Bool
is_digit c = leb b'0' c && leb c b'9'

-- isspace in the C locale.
abbrev pub is_space : ℕ → Bool
is_space c = c == b' ' || (leb 9 c && leb c 13)

pub skip_spaces : Bytes → Bytes
skip_spaces [] = []
skip_spaces (c ∷ s) = let rest = skip_spaces s in if is_space c then rest else c ∷ s

-- The number that the leading digits spell, behind `acc`.
unfoldable pub read_digits : ℕ → Bytes → ℕ
read_digits acc [] = acc
read_digits acc (c ∷ s) =
    let more = read_digits (acc * 10 + (c - b'0')) s in if is_digit c then more else acc

-- A value past ULONG_MAX becomes ULONG_MAX; a minus sign negates the others in unsigned arithmetic.
abbrev pub to_ulong : ℕ → Bool → ℕ → ℕ
to_ulong max negative n =
    if ltb max n then max else if negative then (max + 1 - n) % (max + 1) else n

abbrev read_signed : ℕ → Bytes → ℕ
read_signed max [] = 0
read_signed max (c ∷ s) =
    if c == b'-'
    then to_ulong max true (read_digits 0 s)
    else if c == b'+'
    then to_ulong max false (read_digits 0 s)
    else to_ulong max false (read_digits 0 (c ∷ s))

-- strtoul (s, nullptr, 10), where `max` is ULONG_MAX.
unfoldable pub strtoul : ℕ → Bytes → ℕ
unfolding skip_spaces read_digits
strtoul max s = read_signed max (skip_spaces s)

decimal_fuel : ℕ → ℕ → Bytes
decimal_fuel zero n = []
decimal_fuel (suc f) n =
    let front = decimal_fuel f (n / 10) in
    if ltb n 10 then (b'0' + n) ∷ [] else front ++ (b'0' + n % 10) ∷ []

-- The conversions %d and %lu of a number that is not negative.
unfoldable pub decimal : ℕ → Bytes
unfolding decimal_fuel
decimal n = decimal_fuel (suc n) n

-- The bytes before the first NUL; `none` where there is none, so that a read would run on.
unfoldable pub c_string : Bytes → Option Bytes
c_string [] = none
c_string (zero ∷ s) = some []
c_string (suc c ∷ s) = elim (c_string s) [ none ↦ none | some t ↦ some (suc c ∷ t) ]

-- The text that a NUL-terminated string holds: %s stops at the first NUL.
unfoldable pub upto_nul : Bytes → Bytes
upto_nul [] = []
upto_nul (zero ∷ s) = []
upto_nul (suc c ∷ s) = suc c ∷ upto_nul s

abbrev pub cons_some : ℕ → Option Bytes → Option Bytes
cons_some c none = none
cons_some c (some s) = some (c ∷ s)

-- `array[i] = c`, and memcpy to the front of an array: the array behind the writes, or none if one of
-- them is behind its end.
unfoldable pub store_at : ℕ → ℕ → Bytes → Option Bytes
store_at i c [] = none
store_at zero c (x ∷ array) = some (c ∷ array)
store_at (suc i) c (x ∷ array) = cons_some x (store_at i c array)

unfoldable pub memcpy : Bytes → Bytes → Option Bytes
memcpy [] array = some array
memcpy (c ∷ s) [] = none
memcpy (c ∷ s) (x ∷ array) = cons_some c (memcpy s array)

-- snprintf with a buffer of `size` bytes: at most `size - 1` bytes, and the NUL.
unfoldable pub snprintf : ℕ → Bytes → Bytes
snprintf size text = take (size - 1) text
