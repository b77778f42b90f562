-- ===== src/Response.antt =====
-- What the parsers of modem responses share: src/CommsError.h, src/mc60Modem/QueryAckAction.h,
-- QueryRecvAction.h and QirdiParseAction.h, and the files of the same names in src/bg96Modem.
-- The width of `unsigned long` differs between the targets, so ULONG_MAX is an argument, `max`.
pub mod Fields
pub mod AckText
use Prim.Native.Nat.{bit_and}
use libcomms.Base.{
  ℕ, ◌+◌, ◌%◌, ◌^◌, Bool, true, false, Option, none, some, [], ◌∷◌, ◌++◌, String, Bytes, codes,
  length, drop, ltb, leb, if◌then◌else◌,
}
use libcomms.CLib.{strstr, split_first, strtoul, c_string, upto_nul}

pub data CommsError : Type 0 where
  quirdi_parse_size_gt parse_recv_size_gt : CommsError

abbrev library_code : ℕ
library_code = 0x0100000

-- The value of each enumerator. LAYER_MASK belongs to the error handler's library.
unfoldable pub error_code : ℕ → CommsError → ℕ
error_code layer_mask quirdi_parse_size_gt = bit_and layer_mask library_code
error_code layer_mask parse_recv_size_gt = bit_and layer_mask library_code + 1

abbrev pub exception_name : CommsError → String
exception_name quirdi_parse_size_gt = "QUIRDI_PARSE_SIZE_GT"
exception_name parse_recv_size_gt = "PARSE_RECV_SIZE_GT"

-- How a parsing condition ends: it returns false and stores nothing, it stores a number and
-- returns whether that is positive, or it calls Error_Handler, behind which nothing is modelled.
pub data Checked : Type 0 where
  refused : Checked
  stored : ℕ → Checked
  failed : CommsError → Checked

abbrev pub returned : Checked → Option Bool
returned refused = some false
returned (stored n) = some (ltb 0 n)
returned (failed _) = none

-- `*bytesReceived` after the call.
abbrev pub bytes_after : ℕ → Checked → ℕ
bytes_after old refused = old
bytes_after old (stored n) = n
bytes_after old (failed _) = old

abbrev pub max_buf : ℕ
max_buf = 10

-- The end of both conditions of the MC60: the field goes into a zeroed buffer of ten bytes.
unfoldable pub store_field : CommsError → ℕ → Bytes → Checked
store_field error max field =
    if leb max_buf (length field) then failed error else stored (strtoul max (upto_nul field))

-- An `unsigned long` stored in an `int` of 32 bits, as the bit pattern.
abbrev pub to_int : ℕ → ℕ
to_int n = n % 2 ^ 32

-- `*sent`, `*acked` and `*nAcked`, bit patterns of `int`.
pub record Acks : Type 0 where
  pub sent : ℕ
  pub acked : ℕ
  pub n_acked : ℕ

abbrev pub no_acks : Acks
no_acks = record { sent = 0; acked = 0; n_acked = 0 }

second_comma : ℕ → Bytes → Option (Bytes × Bytes) → Acks
second_comma max first none = no_acks
second_comma max first (some (second, third)) = record {
  sent = to_int (strtoul max first);
  acked = to_int (strtoul max second);
  n_acked = to_int (strtoul max third);
}

first_comma : ℕ → Option (Bytes × Bytes) → Acks
unfolding second_comma
first_comma max none = no_acks
first_comma max (some (first, rest)) = second_comma max first (split_first b',' rest)

ack_fields : ℕ → Option Bytes → Acks
unfolding first_comma
ack_fields max none = no_acks
ack_fields max (some b) = first_comma max (split_first b',' (drop 8 b))

abbrev pub on_string {ℓ} : {A : Type ℓ} → (Bytes → A) → Option Bytes → Option A
on_string f none = none
on_string f (some input) = some (f input)

-- QueryAckAction::run, for either prefix of eight bytes. The event is not NUL-terminated: the
-- search reads on into `beyond`, the bytes that follow it in memory. `none` is a read that meets
-- no NUL at all.
unfoldable pub query_ack : Bytes → ℕ → Bytes → Bytes → Option Acks
unfolding ack_fields
query_ack prefix max event beyond =
    on_string (λ input. ack_fields max (strstr input prefix)) (c_string (event ++ beyond))

length_field : ℕ → Option Bytes → ℕ
length_field max none = 0
length_field max (some b) = strtoul max (drop 7 b)

-- ParseRecvLengthAction::run for an IntType as wide as `unsigned long`: the new `*bytesReceived`.
unfoldable pub recv_length_run : ℕ → Bytes → Bytes → Option ℕ
unfolding length_field
recv_length_run max event beyond =
    on_string (λ input. length_field max (strstr input (codes "+QIRD: ")))
      (c_string (event ++ beyond))
