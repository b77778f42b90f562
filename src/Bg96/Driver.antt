-- ===== src/Bg96/Driver.antt =====
-- The variables of the BG96's driver, its own conditions, and its actions: the members of the class
-- and the static variables of its constructor (src/bg96Modem/Bg96Modem.h and .cc).
pub mod Effects
use libcomms.Base.{
  arith, ℕ, ◌+◌, ◌≡◌, refl, Bool, true, Option, none, some, List, [], ◌∷◌, ◌++◌, String, Bytes,
  codes, length, ltb, ◌==◌, if◌then◌else◌, false, ◌%◌, ◌^◌,
}
use libcomms.CLib.{decimal, snprintf, upto_nul}
use libcomms.Circular.{CircularBuffer}
use libcomms.Response.{Acks}
use libcomms.Machine.{StateDef}
use libcomms.Modem.{
  Output, transmitted, delayed, raw_requested, notified_connected, notified_data, UsartType,
  at_command_run, pwr_key_run, usart_run, status_pin_check,
}
use libcomms.Modem.InFlight.{sent_log}
use libcomms.Bg96.Connections.{ConnectionState, BinaryEvent}
use libcomms.Bg96.Outbox.{prepare, send_stage, declare}
use libcomms.Bg96.Responses.{
  Parsed, parsed, declined, overrun, accepts, recv_length_check, query_ack_run,
}
use libcomms.Bg96.State.{State}

pub record Modem (c : CircularBuffer) : Type 0 where
  pub state : State
  pub buffer : c.Buffer
  pub to_send : ℕ
  pub bytes_received : ℕ
  pub ack_query_retry_no : ℕ
  pub acks : Acks
  pub connections : List ConnectionState
  pub has_callback : Bool
  pub status_pin : Bool
  pub queue : List BinaryEvent
  -- Undefined behaviour was met: a write past a buffer, or a read of a string that is missing. The
  -- code may do anything from there on, and what the model does then says nothing of it.
  pub faulted : Bool
  -- What was done to the outside, the newest first.
  pub log : List Output

abbrev pub query_ack_count_limit : ℕ
query_ack_count_limit = 8

abbrev pub qiopen_buf_len : ℕ
qiopen_buf_len = 64

abbrev pub tcp_send_data_delay_ms : ℕ
tcp_send_data_delay_ms = 9000

abbrev pub soft_reset_delay_ms : ℕ
soft_reset_delay_ms = 10000

abbrev pub hard_reset_delay_ms : ℕ
hard_reset_delay_ms = 9000

-- The entry action of CONNECT_TO_SERVER.
abbrev pub qiopen_command : Bytes → ℕ → Bytes
qiopen_command address port = snprintf qiopen_buf_len (
    codes "AT+QIOPEN=1,1,\"TCP\",\""
    ++ upto_nul address
    ++ codes "\","
    ++ decimal port
    ++ codes ",0,0\r\n")

-- StatusPinCondition, ParseRecvLengthCondition, the lambda given to whenf, the comparisons of
-- IntegerCondition, and notEmpty.
pub data Own : Type 0 where
  status_is : Bool → Own
  parse_recv_len not_empty nothing_waits bytes_to_send_zero all_acked retry_limit_reached : Own

pub data Act : Type 0 where
  at : String → Act
  pwr_key : Bool → Act
  usart : UsartType → Act
  delay : ℕ → Act
  reset_retry inc_retry open_connection connected receive_bytes pass_data : Act
  prepare_action send_action declare_action query_ack_action : Act

abbrev pub Def : Type 0
Def = StateDef State Own Act

-- What an action is given: ULONG_MAX, the event with its further members, and the memory behind it.
pub record Context : Type 0 where
  pub ulong_max : ℕ
  pub event : BinaryEvent
  pub beyond : Bytes

-- The actions that leave the buffer and the announced number alone.
abbrev pub is_quiet : Act → Bool
is_quiet prepare_action = false
is_quiet declare_action = false
is_quiet _ = true

module _ (c : CircularBuffer) where
  abbrev pub emit : Output → Modem c → Modem c
  emit o m = record m { log = o ∷ m.log }

  abbrev transmit : Option Bytes → Modem c → Modem c
  transmit none m = m
  transmit (some bytes) m = emit (transmitted bytes) m

  transmit_all : List Bytes → Modem c → Modem c
  transmit_all [] m = m
  transmit_all (p ∷ ps) m = transmit_all ps (emit (transmitted p) m)

  abbrev notify : Output → Modem c → Modem c
  notify o m = if m.has_callback then emit o m else m

  unfoldable pub own_test : ℕ → Own → Modem c → Bytes → Bool
  own_test max (status_is b) m event = status_pin_check b m.status_pin
  own_test max parse_recv_len m event = accepts (recv_length_check max event)
  own_test max not_empty m event = ltb 0 (length event)
  own_test max nothing_waits m event = c.size m.buffer == 0
  own_test max bytes_to_send_zero m event = m.to_send == 0
  own_test max all_acked m event = m.acks.sent == m.acks.acked
  own_test max retry_limit_reached m event = ltb query_ack_count_limit m.ack_query_retry_no

  -- The condition that parses a length stores it when it is evaluated.
  unfoldable pub store_parsed : Parsed → Modem c → Modem c
  store_parsed declined m = m
  store_parsed overrun m = record m { faulted = true }
  store_parsed (parsed n) m = record m { bytes_received = n }

  -- The event's `argStr` is what was given to connect; it is missing in an event of the modem.
  open_with : Option Bytes → ℕ → Modem c → Modem c
  open_with none port m = record m { faulted = true }
  open_with (some address) port m = emit (transmitted (upto_nul (qiopen_command address port))) m

  store_acks : Option Acks → Modem c → Modem c
  store_acks none m = record m { faulted = true }
  store_acks (some acks) m = record m { acks = acks }

  prepare_buffer : ℕ × Option Bytes → Modem c → Modem c
  prepare_buffer (n, command) m = transmit command (record m { to_send = n })

  unfoldable pub perform : Context → Act → Modem c → Modem c
  unfolding transmit_all open_with store_acks prepare_buffer at_command_run
  perform x (at command) m = emit (at_command_run (codes command) 0) m
  perform x (pwr_key b) m = emit (pwr_key_run b) m
  perform x (usart type) m = emit (usart_run type) m
  perform x (delay ms) m = emit (delayed ms) m
  perform x reset_retry m = record m { ack_query_retry_no = 0 }
  perform x inc_retry m = record m { ack_query_retry_no = m.ack_query_retry_no + 1 }
  perform x open_connection m = open_with x.event.arg_str (x.event.arg_int1 % 2 ^ 16) m
  perform x connected m = notify notified_connected m
  perform x receive_bytes m = emit (raw_requested m.bytes_received) m
  perform x pass_data m = notify (notified_data x.event.bytes) m
  perform x prepare_action m = prepare_buffer (prepare c x.event.bytes m.buffer) m
  perform x send_action m = transmit_all (send_stage c m.to_send m.buffer) m
  perform x declare_action m = record m { buffer = declare c m.to_send m.buffer }
  perform x query_ack_action m = store_acks (query_ack_run x.ulong_max x.event.bytes x.beyond) m
