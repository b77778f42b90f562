-- ===== src/Esp8266/Outbox.antt =====
-- The bytes that wait for the ESP8266, in a circular buffer, and SendNetworkAction
-- (src/esp8266/SendNetworkAction.h and .cc).
pub mod Rounds
use libcomms.Base.{
  ℕ, Option, none, some, List, [], ◌∷◌, ◌++◌, Bytes, codes, length, ltb, ◌==◌, if◌then◌else◌,
}
use libcomms.CLib.{decimal, snprintf, upto_nul}
use libcomms.Circular.{CircularBuffer}

abbrev pub max_bytes_send : ℕ
max_bytes_send = 2048

-- SendNetworkAction::parseCipsendRespoinse, which nothing calls.
abbrev parse_cipsend_respoinse : Bytes → ℕ
parse_cipsend_respoinse input = 1460

abbrev pub send_command : ℕ → Bytes
send_command n = snprintf max_bytes_send (codes "AT+CIPSEND=0," ++ decimal n ++ codes "\r\n")

abbrev pub limit : ℕ → ℕ → ℕ
limit bound n = if ltb bound n then bound else n

-- A part is transmitted unless it is missing or empty.
abbrev pub part : Bytes → List Bytes
part bytes = if length bytes == 0 then [] else bytes ∷ []

module _ (c : CircularBuffer) where
  open c use {Buffer, size, retrieve, declare_read}

  -- STAGE_PREPARE: bytesToSendInSendStage after the call, and what is transmitted.
  unfoldable pub prepare : Buffer → ℕ × Option Bytes
  prepare buffer =
      let n = limit (size buffer) max_bytes_send in
      if n == 0 then (n, none) else (n, some (upto_nul (send_command n)))

  -- STAGE_SEND: what is transmitted, part by part.
  unfoldable pub send_stage : ℕ → Buffer → List Bytes
  send_stage to_send buffer =
      if to_send == 0
      then []
      else part (retrieve to_send buffer).0 ++ part (retrieve to_send buffer).1

  -- STAGE_DECLARE.
  unfoldable pub declare : ℕ → Buffer → Buffer
  declare to_send buffer = declare_read to_send buffer
