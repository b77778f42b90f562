-- ===== src/Bg96/Responses/RecvRun.antt =====
-- ParseRecvLengthAction and ParseRecvLengthCondition of the BG96 (src/bg96Modem/QueryRecvAction.h):
-- two parsers of one response.
use libcomms.Bg96.Responses.Copied.{copy_field-fits}
use libcomms.Base.{ℕ, ◌<◌, ◌≡◌, refl, some, ◌∷◌, ◌++◌, Bytes, arith, length}
use libcomms.CLib.{strtoul, upto_nul}
use libcomms.CLib.Memory.{c_string-upto_nul}
use libcomms.CLib.Find.{strstr-append, begins-append}
use libcomms.Response.{to_int}
use libcomms.Bg96.Responses.{
  parsed, buf_size, qird_pattern, recv_length_check, recv_length_run, field_of,
}

qird_upto_nul : (field : Bytes) → upto_nul (qird_pattern ++ field) ≡ qird_pattern ++ upto_nul field
unfolding upto_nul
qird_upto_nul field = refl

-- On a response whose length field is shorter than the buffer of ten bytes, with a NUL behind the
-- event in memory, the action stores just what the condition stores.
recv_length_run-check :
    (max : ℕ) (field beyond : Bytes)
    → length field < buf_size
    → (n : ℕ) × (recv_length_check max (qird_pattern ++ field) ≡ parsed n)
      × (recv_length_run max (qird_pattern ++ field) (0 ∷ beyond) ≡ some n)
unfolding recv_length_check recv_length_run field_of
recv_length_run-check max field beyond short = (
  to_int (strtoul max (upto_nul field)),
  ground (arith, begins-append qird_pattern field, copy_field-fits max field short),
  rw
      (
        c_string-upto_nul (qird_pattern ++ field) beyond,
        qird_upto_nul field,
        strstr-append qird_pattern (upto_nul field),
      )
      refl,
)
