-- ===== src/Mc60/Responses.antt =====
-- The parsers of the MC60's responses: src/mc60Modem/QirdiParseAction.h, QueryRecvAction.h and
-- QueryAckAction.h.
pub mod Qirdi
pub mod RecvLength
pub mod QueryAck
use libcomms.Base.{
  ℕ, Bool, not, Option, none, some, ◌∷◌, Bytes, codes, length, ltb, ◌==◌, if◌then◌else◌,
}
use libcomms.CLib.{search_pos, split_first, after_last}
use libcomms.Response.{
  Acks, Checked, refused, quirdi_parse_size_gt, parse_recv_size_gt, store_field, query_ack,
}

abbrev pub qirdi_pattern : Bytes
qirdi_pattern = codes "+QIRDI: "

abbrev pub qird_pattern : Bytes
qird_pattern = codes "+QIRD: "

last_field : ℕ → Option Bytes → Checked
last_field max none = refused
last_field max (some field) = store_field quirdi_parse_size_gt max field

-- QirdiParseCondition::checkImpl.
unfoldable pub qirdi_check : ℕ → Bytes → Checked
unfolding last_field
qirdi_check max event =
    if ltb (length event) 8
    then refused
    else if not (search_pos event qirdi_pattern == 0)
    then refused
    else last_field max (after_last b',' event)

behind_second : ℕ → Option (Bytes × Bytes) → Checked
behind_second max none = refused
behind_second max (some (_, field)) = store_field parse_recv_size_gt max field

behind_first : ℕ → Option (Bytes × Bytes) → Checked
unfolding behind_second
behind_first max none = refused
behind_first max (some (_, rest)) = behind_second max (split_first b',' rest)

-- ParseRecvLengthCondition::checkImpl.
unfoldable pub recv_length_check : ℕ → Bytes → Checked
unfolding behind_first
recv_length_check max event =
    if ltb (length event) 7
    then refused
    else if not (search_pos event qird_pattern == 0)
    then refused
    else behind_first max (split_first b',' event)

abbrev pub qisack : Bytes
qisack = codes "+QISACK:"

-- QueryAckAction::run.
unfoldable pub query_ack_run : ℕ → Bytes → Bytes → Option Acks
unfolding query_ack
query_ack_run = query_ack qisack
