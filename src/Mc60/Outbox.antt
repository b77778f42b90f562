-- ===== src/Mc60/Outbox.antt =====
-- The bytes that wait for the MC60: `dataToSendBuffer`, Mc60Modem::send and SendNetworkAction
-- (src/Types.h, src/mc60Modem/SendNetworkAction.h and .cc, src/mc60Modem/Mc60Modem.cc).
pub mod Queue
use libcomms.Base.{
  ℕ, ◌+◌, ◌-◌, Option, none, some, [], ◌++◌, Bytes, codes, length, take, drop, ltb, leb, ◌==◌,
  if◌then◌else◌,
}
use libcomms.CLib.{decimal, snprintf, upto_nul}

-- The capacity of etl::vector<uint8_t, OUTPUT_BUFFER_SIZE>.
abbrev pub output_buffer_size : ℕ
output_buffer_size = 6144

-- The two variables that the three actions share. `to_send` is the `int` bytesToSendInSendStage:
-- only `prepare` writes it, and what it writes is never negative.
pub record Outbox : Type 0 where
  pub buffer : Bytes
  pub to_send : ℕ

-- Mc60Modem::send.
unfoldable pub send : Bytes → Outbox → Outbox × ℕ
send bytes box =
    if ltb output_buffer_size (length box.buffer + length bytes)
    then (box, 0)
    else (record box { buffer = box.buffer ++ bytes }, length bytes)

abbrev pub gsm_max_bytes_send : ℕ
gsm_max_bytes_send = 1460

abbrev pub cipsend_buf_len : ℕ
cipsend_buf_len = 26

-- SendNetworkAction::parseCipsendRespoinse.
abbrev pub parse_cipsend_respoinse : Bytes → ℕ
parse_cipsend_respoinse event = gsm_max_bytes_send

abbrev pub send_command : ℕ → Bytes
send_command n = snprintf cipsend_buf_len (codes "AT+QISEND=" ++ decimal n ++ codes "\r\n")

abbrev limit : ℕ → ℕ → ℕ
limit bound n = if ltb bound n then bound else n

-- STAGE_PREPARE: the box after the call, and what is transmitted.
unfoldable pub prepare : Bytes → Outbox → Outbox × Option Bytes
prepare event box =
    let n = limit (length box.buffer) (limit gsm_max_bytes_send (parse_cipsend_respoinse event)) in
    let box' = record box { to_send = n } in
    if n == 0 then (box', none) else (box', some (upto_nul (send_command n)))

-- STAGE_SEND: what is transmitted. `stale` is what the storage holds behind the buffer's last byte.
unfoldable pub send_stage : Bytes → Outbox → Option Bytes
send_stage stale box =
    if box.to_send == 0 then none else some (take box.to_send (box.buffer ++ stale))

-- std::copy onto the front of the same array.
abbrev overwrite_front : Bytes → Bytes → Bytes
overwrite_front bytes target = bytes ++ drop (length bytes) target

-- STAGE_DECLARE. The code's test is `size - to_send <= 0` in signed arithmetic.
unfoldable pub declare : Outbox → Outbox
declare box =
    if leb (length box.buffer) box.to_send then record box { buffer = [] } else record box {
      buffer =
          take (length box.buffer - box.to_send)
            (overwrite_front (drop box.to_send box.buffer) box.buffer);
    }

-- `dataToSendBuffer.clear ()` of Mc60Modem::onDisconnected.
abbrev pub clear : Outbox → Outbox
clear box = record box { buffer = [] }
