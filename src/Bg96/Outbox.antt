-- ===== src/Bg96/Outbox.antt =====
-- The bytes that wait for the BG96, in a circular buffer, and SendNetworkAction
-- (src/bg96Modem/SendNetworkAction.h and .cc).
pub mod Rounds
use libcomms.Base.{
  ℕ, Option, none, some, List, [], ◌∷◌, ◌++◌, Bytes, codes, length, ltb, ◌==◌, if◌then◌else◌,
}
use libcomms.CLib.{decimal, snprintf, upto_nul}
use libcomms.Circular.{CircularBuffer}

abbrev pub gsm_max_bytes_send : ℕ
gsm_max_bytes_send = 1460

abbrev pub cipsend_buf_len : ℕ
cipsend_buf_len = 26

-- SendNetworkAction::parseCipsendRespoinse.
abbrev pub parse_cipsend_respoinse : Bytes → ℕ
parse_cipsend_respoinse event = gsm_max_bytes_send

abbrev pub send_command : ℕ → Bytes
send_command n = snprintf cipsend_buf_len (codes "AT+QISEND=1," ++ decimal n ++ codes "\r\n")

abbrev pub limit : ℕ → ℕ → ℕ
limit bound n = if ltb bound n then bound else n

-- A part is transmitted unless it is missing or empty.
abbrev pub part : Bytes → List Bytes
part bytes = if length bytes == 0 then [] else bytes ∷ []

module _ (c : CircularBuffer) where
  open c use {Buffer, size, retrieve, declare_read}

  -- STAGE_PREPARE: bytesToSendInSendStage after the call, and what is transmitted.
  unfoldable pub prepare : Bytes → Buffer → ℕ × Option Bytes
  prepare event buffer =
      let n = limit (size buffer) (limit gsm_max_bytes_send (parse_cipsend_respoinse event)) in
      if n == 0 then (n, none) else (n, some (upto_nul (send_command n)))

  -- STAGE_SEND: what is transmitted, part by part.
  unfoldable pub send_stage : ℕ → Buffer → List Bytes
  send_stage to_send buffer =
      if to_send == 0
      then []
      else part (retrieve to_send buffer).0 ++ part (retrieve to_send buffer).1

  -- STAGE_DECLARE.
  unfoldable pub declare : ℕ → Buffer → Buffer
  declare to_send buffer = declare_read to_send buffer
