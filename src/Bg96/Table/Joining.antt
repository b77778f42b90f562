-- ===== src/Bg96/Table/Joining.antt =====
-- The states of the BG96's table from a reset up to an open connection, and those of its shutdown:
-- the constructor in src/bg96Modem/Bg96Modem.cc.
use libcomms.Base.{true, false, List, [], ◌∷◌}
use libcomms.Machine.{
  eq, begins_with, like, retaining, anded, ored, seq, always_true, ms_passed, own, ok, error, when,
  when_then, state,
}
use libcomms.Modem.{interrupt_on, interrupt_off}
use libcomms.Bg96.Driver.{
  Act, Def, hard_reset_delay_ms, status_is, at, pwr_key, usart, delay, open_connection, connected,
}
use libcomms.Bg96.State.{State}

-- gsmPwrCycle.
abbrev power_cycle : List Act
power_cycle = pwr_key false ∷ delay 800 ∷ pwr_key true ∷ []

abbrev pub reset_stage_decide_def : Def
reset_stage_decide_def =
    state (usart interrupt_off ∷ delay 100 ∷ []) (when State.reset_stage_power_on always_true ∷ [])

abbrev pub reset_stage_power_off_def : Def
reset_stage_power_off_def = state power_cycle (
    when_then State.reset_stage_power_on (own (status_is false)) (delay 500 ∷ [])
    ∷ when State.reset_stage_decide (ms_passed hard_reset_delay_ms)
    ∷ [])

abbrev pub reset_stage_power_on_def : Def
reset_stage_power_on_def =
    state power_cycle
      (when_then State.init always_true (delay 2000 ∷ usart interrupt_on ∷ delay 5500 ∷ []) ∷ [])

abbrev pub gprs_reset_def : Def
gprs_reset_def = state (at "AT+CIPSHUT\r\n" ∷ []) (
    when State.gps_usart_echo_on (eq "SHUT OK")
    ∷ when State.reset_stage_decide (ored (ms_passed hard_reset_delay_ms) error)
    ∷ [])

abbrev pub gps_usart_echo_on_def : Def
gps_usart_echo_on_def = state (at "ATE1\r\n" ∷ []) (when State.init (anded (ms_passed 100) ok) ∷ [])

abbrev pub init_def : Def
init_def =
    state (at "AT\r\n" ∷ [])
      (when_then State.gnss_set_port (anded (eq "AT") ok) (delay 100 ∷ []) ∷ [])

abbrev pub gnss_set_port_def : Def
gnss_set_port_def =
    state (at "AT+QGPSCFG=\"outport\",\"uartnmea\"\r\n" ∷ [])
      (when_then State.gnss_state_check ok (delay 100 ∷ []) ∷ [])

abbrev pub gnss_state_check_def : Def
gnss_state_check_def = state (at "AT+QGPS?\r\n" ∷ []) (
    when_then State.gnss_turn_on (eq "+QGPS: 0") (delay 100 ∷ [])
    ∷ when_then State.pin_status_check (eq "+QGPS: 1") (delay 100 ∷ [])
    ∷ [])

abbrev pub gnss_turn_on_def : Def
gnss_turn_on_def = state (at "AT+QGPS=1\r\n" ∷ []) (
    when State.gnss_state_check (begins_with "+CME ERROR: 5")
    ∷ when_then State.pin_status_check ok (delay 100 ∷ [])
    ∷ [])

abbrev pub pin_status_check_def : Def
pin_status_check_def = state (at "AT+CPIN?\r\n" ∷ []) (
    when_then State.signal_quality_check (anded (eq "+CPIN: READY") ok) (delay 100 ∷ [])
    ∷ when_then State.pin_status_check error (delay 4000 ∷ [])
    ∷ when_then State.enter_pin (anded (eq "+CPIN: SIM PIN") ok) (delay 100 ∷ [])
    ∷ [])

abbrev pub enter_pin_def : Def
enter_pin_def = state (at "AT+CPIN=1220\r\n" ∷ []) (
    when_then State.pin_status_check (anded (begins_with "AT+CPIN=") ok) (delay 100 ∷ [])
    ∷ when_then State.pin_status_check error (delay 4000 ∷ [])
    ∷ [])

abbrev pub signal_quality_check_def : Def
signal_quality_check_def = state (at "AT+CSQ\r\n" ∷ []) (
    when_then State.signal_quality_check (anded (like "+CSQ: 99,%") ok) (delay 1000 ∷ [])
    ∷ when_then State.network_registration_check (anded (begins_with "+CSQ:") ok) (delay 100 ∷ [])
    ∷ [])

abbrev pub network_registration_check_def : Def
network_registration_check_def = state (at "AT+CREG?\r\n" ∷ []) (
    when_then State.signal_quality_check (anded (ored (like "+CREG: %,0%") (like "+CREG: %,2%")) ok)
      (delay 5000 ∷ [])
    ∷ when_then State.signal_quality_check
        (anded (ored (like "+CREG: %,3%") (like "+CREG: %,4%")) ok) (delay 5000 ∷ [])
    ∷ when_then State.init error (delay 1000 ∷ [])
    ∷ when State.apn_user_passwd_input (anded (ored (like "+CREG: %,1%") (like "+CREG: %,5%")) ok)
    ∷ [])

abbrev pub apn_user_passwd_input_def : Def
apn_user_passwd_input_def = state (at "AT+QICSGP=1,1,\"internet\"\r\n" ∷ []) (
    when_then State.gprs_reset error (delay 1000 ∷ [])
    ∷ when_then State.pdp_context_check (anded (begins_with "AT+QICSGP=") ok) (delay 100 ∷ [])
    ∷ [])

abbrev pub pdp_context_check_def : Def
pdp_context_check_def = state (at "AT+QIACT?\r\n" ∷ []) (
    when_then State.dns_config (like "+QIACT:%1,%") (delay 100 ∷ [])
    ∷ when_then State.activate_pdp_context (seq (begins_with "AT+QIACT?") ok) (delay 100 ∷ [])
    ∷ [])

abbrev pub activate_pdp_context_def : Def
activate_pdp_context_def =
    state (at "AT+QIACT=1\r\n" ∷ [])
      (when_then State.dns_config (seq (begins_with "AT+QIACT=") ok) (delay 100 ∷ []) ∷ [])

abbrev pub dns_config_def : Def
dns_config_def = state (at "AT+QIDNSCFG=1,\"8.8.8.8\",\"8.8.4.4\"\r\n" ∷ []) (
    when_then State.init error (delay 1000 ∷ [])
    ∷ when_then State.network_gps_usart_echo_off (anded (begins_with "AT+QIDNSCFG=") ok)
        (delay 100 ∷ [])
    ∷ [])

abbrev pub network_gps_usart_echo_off_def : Def
network_gps_usart_echo_off_def =
    state (at "AT+QISDE=0\r\n" ∷ [])
      (when State.control_wait_for_connect (anded (begins_with "AT+QISDE=0") ok) ∷ [])

-- `defer (0, true)` puts the event back into the library's queue: this is the engine's matter.
abbrev pub control_wait_for_connect_def : Def
control_wait_for_connect_def = state [] (when State.check_connection (retaining (eq "_CONN")) ∷ [])

abbrev pub close_and_reconnect_def : Def
close_and_reconnect_def =
    state (at "AT+QICLOSE=1\r\n" ∷ []) (
      when_then State.connect_to_server (anded (begins_with "AT+QICLOSE") ok) (delay 1000 ∷ [])
      ∷ [])

abbrev pub check_connection_def : Def
check_connection_def = state (at "AT+QISTATE=1,1\r\n" ∷ delay 50 ∷ []) (
    when State.network_begin_receive (begins_with "+QISTATE: 1,\"TCP\"")
    ∷ when State.connect_to_server always_true
    ∷ [])

abbrev pub connect_to_server_def : Def
connect_to_server_def = state (open_connection ∷ []) (
    when_then State.network_begin_receive (begins_with "+QIOPEN: 1,0") (delay 1000 ∷ connected ∷ [])
    ∷ when_then State.close_and_reconnect (ored (begins_with "+QIOPEN: 1") error) (delay 1000 ∷ [])
    ∷ [])

abbrev pub shut_down_stage_start_def : Def
shut_down_stage_start_def = state [] (
    when State.shut_down_stage_power_off (own (status_is true))
    ∷ when State.shut_down (own (status_is false))
    ∷ [])

abbrev pub shut_down_stage_power_off_def : Def
shut_down_stage_power_off_def = record {
  suppresses = true;
  entry = usart interrupt_off ∷ power_cycle;
  exit = [];
  transitions = when_then State.shut_down (own (status_is false)) (delay 500 ∷ []) ∷ [];
}

abbrev pub shut_down_def : Def
shut_down_def = record { suppresses = true; entry = []; exit = []; transitions = [] }
