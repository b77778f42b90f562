-- ===== src/Bg96/Responses/RecvLength.antt =====
-- What the BG96's ParseRecvLengthCondition stores, and when it leaves its buffer.
use libcomms.Bg96.Responses.Copied.{copy_field-fits, copy_field-overrun}
use libcomms.Base.{
  ℕ, ◌≤◌, ◌<◌, ◌^◌, ◌≡◌, ◌∙◌, refl, [], ◌++◌, arith, length, length-append, Bytes, append-nil, ltb,
  inl, inr, ◌⊎◌, Bool-cases, leb,
}
use libcomms.CLib.{strtoul, upto_nul, decimal}
use libcomms.CLib.Decimal.{length-decimal, decimal-Lacks, strtoul-decimal}
use libcomms.CLib.Memory.{upto_nul-Lacks}
use libcomms.CLib.Find.{begins-append}
use libcomms.Response.{to_int}
use libcomms.Bg96.Responses.{parsed, overrun, accepts, copy_field, qird_pattern, recv_length_check}

recv_length_check-field :
    (max : ℕ) (field : Bytes) → recv_length_check max (qird_pattern ++ field) ≡ copy_field max field
unfolding recv_length_check
recv_length_check-field max field =
    ground (arith, begins-append qird_pattern field, length-append qird_pattern field)

copy_field-decimal : (max n : ℕ) → n < 10 ^ 9 → n ≤ max → copy_field max (decimal n) ≡ parsed n
copy_field-decimal max n h fits =
    let reads = rw append-nil at (strtoul-decimal max n [] fits tt) in
    copy_field-fits max (decimal n) (omega (arith, length-decimal 8 n h))
    ∙ rw (upto_nul-Lacks (decimal n) (decimal-Lacks 0 n refl)) (ground (arith, reads))

-- A response whose length is a number below 10^9, and at most ULONG_MAX, stores that length, and is
-- accepted if it is positive.
pub copied_length_is_stored :
    (max n : ℕ)
    → n < 10 ^ 9
    → n ≤ max
    → (recv_length_check max (qird_pattern ++ decimal n) ≡ parsed n)
      × (accepts (recv_length_check max (qird_pattern ++ decimal n)) ≡ ltb 0 n)
copied_length_is_stored max n h fits =
    let stores : recv_length_check max (qird_pattern ++ decimal n) ≡ parsed n =
      recv_length_check-field max (decimal n) ∙ copy_field-decimal max n h fits in
    (stores, rw stores (ground arith))

-- A response writes past the buffer if ten bytes or more stand behind the pattern, and stores their
-- value as an `int` if there are fewer.
pub ten_bytes_overrun :
    (max : ℕ) (field : Bytes)
    → ((10 ≤ length field) × (recv_length_check max (qird_pattern ++ field) ≡ overrun))
      ⊎ ((length field < 10)
          × (recv_length_check max (qird_pattern ++ field)
              ≡ parsed (to_int (strtoul max (upto_nul field)))))
ten_bytes_overrun max field = elim (Bool-cases (leb 10 (length field))) [
  | inl long ↦ inl (
    ground arith,
    recv_length_check-field max field ∙ copy_field-overrun max field (ground arith),
  )
  | inr short ↦
      inr
        (ground arith, recv_length_check-field max field ∙ copy_field-fits max field (ground arith))
]
