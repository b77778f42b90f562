-- ===== src/Mc60/Responses/Qirdi.antt =====
-- What QirdiParseCondition accepts, and what it stores.
use libcomms.Base.{
  ℕ, ◌≤◌, ◌<◌, ◌^◌, ◌≡◌, refl, ◌∙◌, inl, inr, true, none, some, ◌∷◌, ◌++◌, arith, length, Bytes,
  Lacks, leb, Bool-cases, Option,
}
use libcomms.CLib.{begins, after_last, strtoul, upto_nul, decimal}
use libcomms.CLib.Decimal.{decimal-Lacks}
use libcomms.CLib.Find.{begins-append, search_pos-begins, after_last-append, after_last_sound}
use libcomms.Response.{Checked, refused, stored, failed, quirdi_parse_size_gt, store_field, max_buf}
use libcomms.Response.Fields.{store_field-decimal}
use libcomms.Mc60.Responses.{qirdi_pattern, last_field, qirdi_check}

-- An event that begins with the pattern passes both guards, and its last field decides.
qirdi_check-pattern :
    (max : ℕ) (s field : Bytes)
    → Lacks b',' field
    → qirdi_check max (qirdi_pattern ++ s ++ b',' ∷ field)
      ≡ store_field quirdi_parse_size_gt max field
unfolding qirdi_check
qirdi_check-pattern max s field h =
    let e = qirdi_pattern ++ s ++ b',' ∷ field in
    ground (
      arith,
      search_pos-begins e qirdi_pattern,
      begins-append qirdi_pattern (s ++ b',' ∷ field),
      after_last-append b',' (qirdi_pattern ++ s) field h,
    )

-- A notification whose last field is a number below 10^9, and at most ULONG_MAX, stores that number,
-- whatever the fields before it are.
qirdi_check-decimal :
    (max : ℕ) (s : Bytes) (n : ℕ)
    → n < 10 ^ 9
    → n ≤ max
    → qirdi_check max (qirdi_pattern ++ s ++ b',' ∷ decimal n) ≡ stored n
qirdi_check-decimal max s n h fits =
    qirdi_check-pattern max s (decimal n) (decimal-Lacks b',' n refl)
    ∙ store_field-decimal quirdi_parse_size_gt max n h fits

-- The field behind the last comma of a notification.
pub record LastField (event field : Bytes) : Type 0 where
  pub notification : begins event qirdi_pattern ≡ true
  pub front : Bytes
  pub splits : event ≡ front ++ b',' ∷ field
  pub last : Lacks b',' field

abbrev pub Outcome : ℕ → Bytes → Checked → Type 0
Outcome max event refused = Unit
Outcome max event (stored n) =
    (field : Bytes) × LastField event field
    × (length field < max_buf)
    × (n ≡ strtoul max (upto_nul field))
Outcome max event (failed e) =
    (field : Bytes) × LastField event field × (max_buf ≤ length field) × (e ≡ quirdi_parse_size_gt)

store_field-Outcome :
    (max : ℕ) (event field : Bytes)
    → LastField event field
    → Outcome max event (store_field quirdi_parse_size_gt max field)
unfolding store_field
store_field-Outcome max event field f = elim (Bool-cases (leb max_buf (length field))) [
  | inl long ↦ rw long (field, f, ground arith, refl)
  | inr short ↦ rw short (field, f, ground arith, refl)
]

last_field-Outcome :
    (max : ℕ) (event : Bytes) (o : Option Bytes)
    → begins event qirdi_pattern ≡ true
    → after_last b',' event ≡ o
    → Outcome max event (last_field max o)
unfolding last_field
last_field-Outcome max event none b e = tt
last_field-Outcome max event (some field) b e =
    let (front, splits, last) = after_last_sound b',' event e in
    store_field-Outcome max event field
      (record { notification = b; front = front; splits = splits; last = last })

-- A number is stored only of a notification, it is the value of the field behind the last comma,
-- and that field fits the buffer of ten bytes with its NUL. The error handler is called only for a
-- notification whose last field does not fit.
qirdi_check_sound : (max : ℕ) (event : Bytes) → Outcome max event (qirdi_check max event)
unfolding qirdi_check
qirdi_check_sound max event = ground (
  arith,
  search_pos-begins event qirdi_pattern,
  last_field-Outcome max event (after_last b',' event),
)
