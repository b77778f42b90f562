-- ===== src/Bg96/Table/Transfer.antt =====
-- The states of the BG96's table in which data is received and sent: the constructor in
-- src/bg96Modem/Bg96Modem.cc.
use libcomms.Base.{false, [], ◌∷◌}
use libcomms.Machine.{
  Guard, eq, begins_with, retaining, anded, ored, always_true, ms_passed, own, ok, error, when,
  when_then, state,
}
use libcomms.Bg96.Driver.{
  Own, Def, tcp_send_data_delay_ms, parse_recv_len, not_empty, nothing_waits, bytes_to_send_zero,
  all_acked, retry_limit_reached, at, delay, reset_retry, inc_retry, receive_bytes, pass_data,
  prepare_action, send_action, declare_action, query_ack_action,
}
use libcomms.Bg96.State.{State}

abbrev pub disconnected : Guard Own
disconnected = begins_with "+QIURC: \"closed\","

abbrev pub network_begin_receive_def : Def
network_begin_receive_def = state (at "AT+QIRD=1\r\n" ∷ []) (
    when_then State.network_receive (own parse_recv_len) (receive_bytes ∷ [])
    ∷ when State.network_begin_send (eq "+QIRD: 0")
    ∷ when State.close_and_reconnect error
    ∷ [])

abbrev pub network_receive_def : Def
network_receive_def =
    state [] (when_then State.network_begin_send (retaining (own not_empty)) (pass_data ∷ []) ∷ [])

abbrev pub network_begin_send_def : Def
network_begin_send_def = record {
  suppresses = false;
  entry = [];
  exit = delay 100 ∷ [];
  transitions =
      when State.close_and_reconnect disconnected
      ∷ when State.network_begin_receive (own nothing_waits)
      ∷ when State.network_query_modem_output_buffer_max_len always_true
      ∷ [];
}

abbrev pub network_query_modem_output_buffer_max_len_def : Def
network_query_modem_output_buffer_max_len_def = state (at "AT+QISEND=?\r\n" ∷ []) (
    when State.close_and_reconnect disconnected
    ∷ when State.check_connection (begins_with "+QISEND: 0")
    ∷ when State.network_prepare_send (anded (begins_with "+QISEND: (0-11),(0-1460)") ok)
    ∷ [])

abbrev pub network_prepare_send_def : Def
network_prepare_send_def = state (prepare_action ∷ []) (
    when State.close_and_reconnect disconnected
    ∷ when State.check_connection (own bytes_to_send_zero)
    ∷ when_then State.close_and_reconnect error (delay 1000 ∷ [])
    ∷ when State.network_send (begins_with "AT+QISEND=")
    ∷ [])

abbrev pub network_send_def : Def
network_send_def = state (send_action ∷ []) (
    when State.close_and_reconnect disconnected
    ∷ when_then State.network_ack_check (eq "SEND OK") (reset_retry ∷ [])
    ∷ when State.cancel_send (ms_passed tcp_send_data_delay_ms)
    ∷ when_then State.close_and_reconnect
        (ored (ored error (eq "CLOSED")) (ored (eq "SEND FAIL") (eq "+PDP: DEACT")))
        (delay 1000 ∷ [])
    ∷ [])

abbrev pub network_ack_check_def : Def
network_ack_check_def = state (at "AT+QISEND=1,0\r\n" ∷ []) (
    when State.close_and_reconnect disconnected
    ∷ when State.network_ack_check_parse (anded ok (retaining (begins_with "+QISEND: ")))
    ∷ [])

abbrev pub network_ack_check_parse_def : Def
network_ack_check_parse_def = record {
  suppresses = false;
  entry = query_ack_action ∷ [];
  exit = delay 1000 ∷ [];
  transitions =
      when State.close_and_reconnect disconnected
      ∷ when State.cancel_send (own retry_limit_reached)
      ∷ when_then State.network_declare_read (own all_acked) (reset_retry ∷ [])
      ∷ when_then State.network_ack_check always_true (inc_retry ∷ [])
      ∷ [];
}

abbrev pub network_declare_read_def : Def
network_declare_read_def =
    state (declare_action ∷ [])
      (when State.close_and_reconnect disconnected ∷ when State.check_connection always_true ∷ [])

abbrev pub cancel_send_def : Def
cancel_send_def = state (delay 1200 ∷ at "+++\r\n" ∷ []) (
    when State.check_connection (eq "SEND OK")
    ∷ when_then State.gprs_reset (ored error (eq "> -")) (delay 500 ∷ [])
    ∷ [])
