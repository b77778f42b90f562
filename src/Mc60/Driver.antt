-- ===== src/Mc60/Driver.antt =====
-- The variables of the MC60's driver, its own conditions, and its actions: the members of Mc60Modem
-- and the static variables of its constructor (src/mc60Modem/Mc60Modem.h and .cc).
use libcomms.Base.{
  ℕ, ◌+◌, Bool, true, false, not, ◌&&◌, Option, none, some, List, [], ◌∷◌, ◌++◌, String, Bytes,
  codes, length, ltb, ◌==◌, if◌then◌else◌,
}
use libcomms.CLib.{decimal, snprintf, upto_nul}
use libcomms.Response.{Acks, returned}
use libcomms.Machine.{StateDef}
use libcomms.Modem.{
  Output, transmitted, delayed, raw_requested, notified_connected, notified_disconnected,
  notified_data, notified_sent, UsartType, at_command_run, pwr_key_run, usart_run, status_pin_check,
}
use libcomms.Modem.Sms.{SmsCollection, sms_run, Stage}
use libcomms.Mc60.Outbox.{Outbox, prepare, send_stage, declare, clear}
use libcomms.Mc60.Responses.{recv_length_check, query_ack_run}
use libcomms.Mc60.State.{State}

pub record Modem : Type 0 where
  pub state : State
  pub box : Outbox
  pub sms : SmsCollection
  pub address : Bytes
  pub port : ℕ
  pub new_data_to_receive : Bool
  pub new_sms_to_receive : Bool
  pub connected : Bool
  pub sleep_when_nothing_to_send : Bool
  pub bytes_received : ℕ
  pub at_query_retry_no : ℕ
  pub ack_query_retry_no : ℕ
  pub acks : Acks
  -- `callback != nullptr`.
  pub has_callback : Bool
  -- The level of the status pin.
  pub status_pin : Bool
  -- The events that the client pushed and no run has taken yet.
  pub queue : List Bytes
  -- What was done to the outside, the newest first.
  pub log : List Output

abbrev pub emit : Output → Modem → Modem
emit o m = record m { log = o ∷ m.log }

abbrev pub transmit : Option Bytes → Modem → Modem
transmit none m = m
transmit (some bytes) m = emit (transmitted bytes) m

-- Calls of the client's callback are made only if there is one.
abbrev pub notify : Output → Modem → Modem
notify o m = if m.has_callback then emit o m else m

-- Mc60Modem::onConnected.
unfoldable pub on_connected : Modem → Modem
on_connected m =
    if m.connected then m else notify notified_connected (record m { connected = true })

-- Mc60Modem::onDisconnected.
unfoldable pub on_disconnected : Modem → Modem
on_disconnected m =
    if not m.connected
    then m
    else notify notified_disconnected (record m { connected = false; box = clear m.box })

-- Mc60Modem::onSent.
abbrev pub on_sent : ℕ → Modem → Modem
on_sent len = notify (notified_sent len)

abbrev pub tcp_send_data_delay_ms : ℕ
tcp_send_data_delay_ms = 9000

abbrev pub soft_reset_delay_ms : ℕ
soft_reset_delay_ms = 15000

abbrev pub hard_reset_delay_ms : ℕ
hard_reset_delay_ms = 14000

abbrev pub qiopen_buf_len : ℕ
qiopen_buf_len = 64

-- The entry action of CONNECT_TO_SERVER.
abbrev pub qiopen_command : Bytes → ℕ → Bytes
qiopen_command address port = snprintf qiopen_buf_len (
    codes "AT+QIOPEN=\"TCP\",\""
    ++ upto_nul address
    ++ codes "\",\""
    ++ decimal port
    ++ codes "\"\r\n")

abbrev pub query_ack_count_limit : ℕ
query_ack_count_limit = 8

-- The conditions that the driver implements: StatusPinCondition, ParseRecvLengthCondition, the
-- lambdas given to whenf, and the comparisons of IntegerCondition and `len` with its variables.
pub data Own : Type 0 where
  status_is : Bool → Own
  at_retry_limit_reached address_known new_data parse_recv_len received_len data_waits : Own
  sleep_configured bytes_to_send_zero all_acked retry_limit_reached sms_waits : Own

abbrev pub is_true : Option Bool → Bool
is_true (some b) = b
is_true none = false

-- `max` is ULONG_MAX, and `event` the event that is tested.
unfoldable pub own_test : ℕ → Own → Modem → Bytes → Bool
own_test max (status_is b) m event = status_pin_check b m.status_pin
own_test max at_retry_limit_reached m event = ltb 5 m.at_query_retry_no
own_test max address_known m event = ltb 0 (length m.address) && ltb 0 m.port
own_test max new_data m event = m.new_data_to_receive
own_test max parse_recv_len m event = is_true (returned (recv_length_check max event))
own_test max received_len m event = length event == m.bytes_received
own_test max data_waits m event = ltb 0 (length m.box.buffer)
own_test max sleep_configured m event = m.sleep_when_nothing_to_send
own_test max bytes_to_send_zero m event = m.box.to_send == 0
own_test max all_acked m event = m.acks.sent == m.acks.acked
own_test max retry_limit_reached m event = ltb query_ack_count_limit m.ack_query_retry_no
own_test max sms_waits m event = ltb 0 (length m.sms)

pub data Act : Type 0 where
  at : String → Act
  pwr_key : Bool → Act
  usart : UsartType → Act
  delay : ℕ → Act
  connected_action disconnected_action sent_action : Act
  at_reset_retry at_inc_retry reset_retry inc_retry : Act
  open_connection receive_bytes no_new_data pass_data : Act
  prepare_action send_action declare_action query_ack_action : Act
  sms_send : Stage → Act
  nothing set_new_data set_new_sms : Act

abbrev pub Def : Type 0
Def = StateDef State Own Act

-- What an action is given: ULONG_MAX, the event, the bytes behind it in memory, and those behind
-- the last byte in the storage of the buffer.
pub record Context : Type 0 where
  pub ulong_max : ℕ
  pub event : Bytes
  pub beyond : Bytes
  pub stale : Bytes

abbrev store_acks : Option Acks → Modem → Modem
store_acks none m = m
store_acks (some acks) m = record m { acks = acks }

prepare_box : Outbox × Option Bytes → Modem → Modem
prepare_box (box, command) m = transmit command (record m { box = box })

send_sms : SmsCollection × Option Bytes → Modem → Modem
send_sms (sms, command) m = transmit command (record m { sms = sms })

unfoldable pub perform : Context → Act → Modem → Modem
unfolding at_command_run prepare_box send_sms on_connected on_disconnected
perform c (at command) m = emit (at_command_run (codes command) 0) m
perform c (pwr_key b) m = emit (pwr_key_run b) m
perform c (usart type) m = emit (usart_run type) m
perform c (delay ms) m = emit (delayed ms) m
perform c connected_action m = on_connected m
perform c disconnected_action m = on_disconnected m
perform c sent_action m = on_sent m.box.to_send m
perform c at_reset_retry m = record m { at_query_retry_no = 0 }
perform c at_inc_retry m = record m { at_query_retry_no = m.at_query_retry_no + 1 }
perform c reset_retry m = record m { ack_query_retry_no = 0 }
perform c inc_retry m = record m { ack_query_retry_no = m.ack_query_retry_no + 1 }
perform c open_connection m = transmit (some (upto_nul (qiopen_command m.address m.port))) m
perform c receive_bytes m = emit (raw_requested m.bytes_received) m
perform c no_new_data m = record m { new_data_to_receive = false }
perform c pass_data m = notify (notified_data c.event) m
perform c prepare_action m = prepare_box (prepare c.event m.box) m
perform c send_action m = transmit (send_stage c.stale m.box) m
perform c declare_action m = record m { box = declare m.box }
perform c query_ack_action m = store_acks (query_ack_run c.ulong_max c.event c.beyond) m
perform c (sms_send stage) m = send_sms (sms_run stage m.sms) m
perform c nothing m = m
perform c set_new_data m = record m { new_data_to_receive = true }
perform c set_new_sms m = record m { new_sms_to_receive = true }

unfoldable pub perform_all : Context → List Act → Modem → Modem
perform_all c [] m = m
perform_all c (a ∷ acts) m = perform_all c acts (perform c a m)
