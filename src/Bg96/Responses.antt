-- ===== src/Bg96/Responses.antt =====
-- The parsers of the BG96's responses: src/bg96Modem/QueryRecvAction.h and QueryAckAction.h.
pub mod Copied
pub mod RecvLength
pub mod QueryAck
pub mod RecvRun
use libcomms.Base.{
  ℕ, ◌^◌, Bool, true, false, ◌&&◌, Option, none, some, Bytes, codes, length, drop, ltb, leb, ◌==◌,
  if◌then◌else◌, ◌++◌, [], ◌∷◌,
}
use libcomms.CLib.{begins, strtoul, upto_nul, c_string, strstr, memcpy, store_at}
use libcomms.Response.{Acks, to_int, query_ack, on_string}

-- How ParseRecvLengthCondition ends: it declines, it stores a number in `*bytesReceived` (the bit
-- pattern of an `int`), or it writes past its buffer, behind which nothing is modelled.
pub data Parsed : Type 0 where
  declined overrun : Parsed
  parsed : ℕ → Parsed

abbrev pub buf_size : ℕ
buf_size = 10

abbrev pub empty_buf : Bytes
empty_buf = 0 ∷ 0 ∷ 0 ∷ 0 ∷ 0 ∷ 0 ∷ 0 ∷ 0 ∷ 0 ∷ 0 ∷ []

-- The value is positive as an `int`.
abbrev pub accepts : Parsed → Bool
accepts declined = false
accepts overrun = false
accepts (parsed n) = ltb 0 n && ltb n (2 ^ 31)

abbrev pub qird_pattern : Bytes
qird_pattern = codes "+QIRD: "

-- memcpy of the field into `buf`, and then the NUL at `buf[size]`; none if a write is behind its end.
abbrev pub terminate : ℕ → Option Bytes → Option Bytes
terminate size none = none
terminate size (some buf) = store_at size 0 buf

unfoldable pub fill : Bytes → Bytes → Option Bytes
fill field buf = terminate (length field) (memcpy field buf)

abbrev pub read_buf : ℕ → Option Bytes → Parsed
read_buf max none = overrun
read_buf max (some buf) = parsed (to_int (strtoul max (upto_nul buf)))

-- What `buf` holds before does not matter (fill_fits of Bg96/Responses/Copied).
unfoldable pub copy_field : ℕ → Bytes → Parsed
unfolding fill
copy_field max field = read_buf max (fill field empty_buf)

-- ParseRecvLengthCondition::checkImpl.
unfoldable pub recv_length_check : ℕ → Bytes → Parsed
recv_length_check max event =
    if ltb (length event) 7
    then declined
    else if begins event qird_pattern
    then copy_field max (drop 7 event)
    else declined

unfoldable field_of : ℕ → Option Bytes → ℕ
field_of max none = 0
field_of max (some b) = to_int (strtoul max (drop 7 b))

-- ParseRecvLengthAction::run for the IntType `int` that the condition has in the driver: the new
-- `*bytesReceived`. It reads on into `beyond`, the bytes that follow the event in memory.
unfoldable pub recv_length_run : ℕ → Bytes → Bytes → Option ℕ
unfolding field_of
recv_length_run max event beyond =
    on_string (λ input. field_of max (strstr input qird_pattern)) (c_string (event ++ beyond))

abbrev pub qisend : Bytes
qisend = codes "+QISEND:"

-- QueryAckAction::run.
unfoldable pub query_ack_run : ℕ → Bytes → Bytes → Option Acks
unfolding query_ack
query_ack_run = query_ack qisend
