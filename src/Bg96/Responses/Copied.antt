-- ===== src/Bg96/Responses/Copied.antt =====
-- The copy of a length field into the buffer of ten bytes of the BG96's ParseRecvLengthCondition.
use libcomms.Base.{
  ℕ, ◌≤◌, ◌<◌, ◌≡◌, ◌∙◌, ap, some, none, [], ◌∷◌, ◌++◌, Bytes, arith, length, drop, length-drop,
  length-append, inl, inr, leb, Bool-cases,
}
use libcomms.CLib.{strtoul, upto_nul}
use libcomms.CLib.Arrays.{memcpy_fits, memcpy_past, store_at-append, store_at_past, upto_nul-ended}
use libcomms.Response.{to_int}
use libcomms.Bg96.Responses.{
  buf_size, parsed, overrun, terminate, fill, read_buf, copy_field, empty_buf,
}

terminate-append :
    (s rest : Bytes)
    → 0 < length rest
    → terminate (length s) (some (s ++ rest)) ≡ some (s ++ 0 ∷ drop 1 rest)
terminate-append s [] h = absurd (omega (arith, h))
terminate-append s (x ∷ rest) h = store_at-append s 0 x rest

-- A field that is shorter than the array stands in it, with the NUL behind.
pub fill_fits :
    (field buf : Bytes)
    → length field < length buf
    → fill field buf ≡ some (field ++ 0 ∷ drop 1 (drop (length field) buf))
unfolding fill
fill_fits field buf h =
    ap (terminate (length field)) (memcpy_fits field buf (omega (arith, h)))
    ∙ terminate-append field (drop (length field) buf)
        (omega (arith, h, length-drop (length field) buf))

-- If it is just as long, the NUL is written behind the end; if it is longer, bytes of it are.
pub fill_past : (field buf : Bytes) → length buf ≤ length field → fill field buf ≡ none
unfolding fill
fill_past field buf h = elim (Bool-cases (leb (length field) (length buf))) [
  | inl just ↦
      ap (terminate (length field)) (memcpy_fits field buf (ground arith))
      ∙ store_at_past (length field) 0 (field ++ drop (length field) buf) (
          omega (
            arith,
            h,
            length-append field (drop (length field) buf),
            length-drop (length field) buf,
          ))
  | inr longer ↦ ap (terminate (length field)) (memcpy_past field buf (ground arith))
]

pub copy_field-fits :
    (max : ℕ) (field : Bytes)
    → length field < buf_size
    → copy_field max field ≡ parsed (to_int (strtoul max (upto_nul field)))
unfolding copy_field
copy_field-fits max field h =
    ap (read_buf max) (fill_fits field empty_buf (omega (arith, h)))
    ∙ ap (λ text. parsed (to_int (strtoul max text))) (upto_nul-ended field _)

pub copy_field-overrun :
    (max : ℕ) (field : Bytes) → buf_size ≤ length field → copy_field max field ≡ overrun
unfolding copy_field
copy_field-overrun max field h = ap (read_buf max) (fill_past field empty_buf (omega (arith, h)))
