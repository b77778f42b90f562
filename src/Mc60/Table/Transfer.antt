-- ===== src/Mc60/Table/Transfer.antt =====
-- The states of the MC60's table in which data is received and sent: the constructor in
-- src/mc60Modem/Mc60Modem.cc.
use libcomms.Base.{true, false, [], ◌∷◌}
use libcomms.Machine.{
  Guard, eq, begins_with, retaining, anded, ored, negated, always_true, ms_passed, own, ok, error,
  when, when_then, state,
}
use libcomms.Modem.Sms.{number_stage, body_stage, remove_stage}
use libcomms.Mc60.Driver.{
  Own, Def, tcp_send_data_delay_ms, new_data, parse_recv_len, received_len, data_waits,
  sleep_configured, bytes_to_send_zero, all_acked, retry_limit_reached, sms_waits, at, delay,
  disconnected_action, sent_action, reset_retry, inc_retry, receive_bytes, no_new_data, pass_data,
  prepare_action, send_action, declare_action, query_ack_action, sms_send,
}
use libcomms.Mc60.State.{State}

abbrev pub disconnected : Guard Own
disconnected = ored (begins_with "+QIURC: \"closed\",") (eq "CLOSED")

abbrev pub network_gps_usart_echo_off_def : Def
network_gps_usart_echo_off_def =
    state (at "AT+QISDE=0\r\n" ∷ [])
      (when State.network_check_receive (anded (begins_with "AT+QISDE=0") ok) ∷ [])

abbrev pub network_check_receive_def : Def
network_check_receive_def = state [] (
    when State.network_begin_receive (own new_data)
    ∷ when State.network_begin_send always_true
    ∷ [])

abbrev pub network_begin_receive_def : Def
network_begin_receive_def = state (at "AT+QIRD=0,1,0,1500\r\n" ∷ []) (
    when_then State.network_receive (own parse_recv_len) (receive_bytes ∷ [])
    ∷ when_then State.network_begin_send (anded (eq "AT+QIRD=0,1,0,1500") ok) (no_new_data ∷ [])
    ∷ when State.close_and_reconnect error
    ∷ [])

abbrev pub network_receive_def : Def
network_receive_def = record {
  suppresses = false;
  entry = [];
  exit = delay 100 ∷ [];
  transitions =
      when_then State.network_check_receive (anded (retaining (own received_len)) ok)
        (pass_data ∷ [])
      ∷ [];
}

abbrev pub network_begin_send_def : Def
network_begin_send_def = record {
  suppresses = false;
  entry = [];
  exit = delay 100 ∷ [];
  transitions =
      when State.close_and_reconnect disconnected
      ∷ when State.check_connection_pre_send (own data_waits)
      ∷ when State.network_begin_send (anded (negated (own sleep_configured)) (ms_passed 10000))
      ∷ when State.sleep (own sleep_configured)
      ∷ [];
}

abbrev pub sleep_def : Def
sleep_def = record {
  suppresses = true;
  entry = at "AT+QSCLK=2\r\n" ∷ [];
  exit = [];
  transitions = when State.wake (own data_waits) ∷ [];
}

abbrev pub wake_def : Def
wake_def =
    state (at "AT\r\n" ∷ [])
      (when State.check_connection_pre_send ok ∷ when State.wake (ms_passed 1000) ∷ [])

abbrev pub check_connection_pre_send_def : Def
check_connection_pre_send_def = state (at "AT+QISTATE\r\n" ∷ []) (
    when State.network_prepare_send
      (anded (anded (eq "AT+QISTATE") ok) (begins_with "STATE: CONNECT OK"))
    ∷ when State.connect_to_server (anded (anded (eq "AT+QISTATE") ok) (begins_with "STATE:"))
    ∷ [])

abbrev pub network_prepare_send_def : Def
network_prepare_send_def = state (prepare_action ∷ []) (
    when State.close_and_reconnect disconnected
    ∷ when State.check_connection (own bytes_to_send_zero)
    ∷ when_then State.close_and_reconnect error (delay 1000 ∷ [])
    ∷ when State.network_send (begins_with "AT+QISEND=")
    ∷ [])

abbrev pub network_send_def : Def
network_send_def = state (send_action ∷ []) (
    when State.close_and_reconnect disconnected
    ∷ when_then State.network_ack_check (eq "SEND OK") (reset_retry ∷ [])
    ∷ when State.cancel_send (ms_passed tcp_send_data_delay_ms)
    ∷ when_then State.close_and_reconnect
        (ored (ored error (eq "CLOSED")) (ored (eq "SEND FAIL") (eq "+PDP: DEACT")))
        (delay 1000 ∷ [])
    ∷ [])

abbrev pub network_ack_check_def : Def
network_ack_check_def = state (at "AT+QISACK\r\n" ∷ []) (
    when State.network_ack_check_parse
      (anded (eq "AT+QISACK") (anded (retaining (begins_with "+QISACK: ")) ok))
    ∷ [])

abbrev pub network_ack_check_parse_def : Def
network_ack_check_parse_def = record {
  suppresses = false;
  entry = query_ack_action ∷ [];
  exit = delay 1000 ∷ [];
  transitions =
      when State.close_and_reconnect disconnected
      ∷ when_then State.cancel_send (own retry_limit_reached) (reset_retry ∷ [])
      ∷ when_then State.network_declare_read (own all_acked) (reset_retry ∷ [])
      ∷ when_then State.network_ack_check always_true (inc_retry ∷ [])
      ∷ [];
}

abbrev pub network_declare_read_def : Def
network_declare_read_def = state (declare_action ∷ []) (
    when State.close_and_reconnect disconnected
    ∷ when_then State.sms_begin_send always_true (sent_action ∷ [])
    ∷ [])

abbrev pub cancel_send_def : Def
cancel_send_def = state (delay 1200 ∷ at "+++\r\n" ∷ []) (
    when State.check_connection (eq "SEND OK")
    ∷ when_then State.gprs_reset (ored error (eq "> -")) (disconnected_action ∷ delay 500 ∷ [])
    ∷ [])

abbrev pub sms_begin_send_def : Def
sms_begin_send_def = record {
  suppresses = false;
  entry = [];
  exit = delay 100 ∷ [];
  transitions =
      when State.sms_send_single_number (own sms_waits)
      ∷ when State.check_connection always_true
      ∷ [];
}

abbrev pub sms_send_single_number_def : Def
sms_send_single_number_def =
    state (sms_send number_stage ∷ [])
      (when_then State.sms_send_single_body always_true (delay 100 ∷ []) ∷ [])

abbrev pub sms_send_single_body_def : Def
sms_send_single_body_def = state (sms_send body_stage ∷ []) (
    when State.sms_send_single_remove (anded (begins_with "AT+CMGS") ok)
    ∷ when State.sms_send_single_remove (begins_with "+CMS ERROR")
    ∷ [])

abbrev pub sms_send_single_remove_def : Def
sms_send_single_remove_def =
    state (sms_send remove_stage ∷ []) (when State.sms_begin_send always_true ∷ [])

abbrev pub sms_check_def : Def
sms_check_def =
    state (at "AT+CMGL=\"SM\"\r\n" ∷ [])
      (when_then State.check_connection always_true (delay 10000 ∷ []) ∷ [])
