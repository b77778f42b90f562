-- ===== src/Mc60/Table/Joining.antt =====
-- The states of the MC60's table in which it joins the network and opens a connection: the
-- constructor in src/mc60Modem/Mc60Modem.cc.
use libcomms.Base.{[], ◌∷◌}
use libcomms.Machine.{eq, begins_with, like, anded, ored, own, ok, error, when, when_then, state}
use libcomms.Mc60.Driver.{
  Def, address_known, at, delay, connected_action, disconnected_action, open_connection,
}
use libcomms.Mc60.State.{State}

abbrev pub get_sim_imsi_def : Def
get_sim_imsi_def =
    state (at "AT+CIMI\r\n" ∷ []) (when_then State.signal_quality_check ok (delay 100 ∷ []) ∷ [])

abbrev pub signal_quality_check_def : Def
signal_quality_check_def = state (at "AT+CSQ\r\n" ∷ []) (
    when_then State.signal_quality_check (anded (like "+CSQ: 99,%") ok) (delay 1000 ∷ [])
    ∷ when_then State.registration_check (anded (begins_with "+CSQ:") ok) (delay 100 ∷ [])
    ∷ [])

abbrev pub registration_check_def : Def
registration_check_def = state (at "AT+CREG?\r\n" ∷ []) (
    when_then State.signal_quality_check (anded (ored (like "+CREG: %,0%") (like "+CREG: %,2%")) ok)
      (delay 5000 ∷ [])
    ∷ when_then State.signal_quality_check
        (anded (ored (like "+CREG: %,3%") (like "+CREG: %,4%")) ok) (delay 5000 ∷ [])
    ∷ when_then State.init error (delay 1000 ∷ [])
    ∷ when State.gprs_attach_check (anded (ored (like "+CREG: %,1%") (like "+CREG: %,5%")) ok)
    ∷ [])

abbrev pub gprs_attach_check_def : Def
gprs_attach_check_def = state (at "AT+CGATT?\r\n" ∷ []) (
    when_then State.gprs_attach_check (anded (eq "+CGATT: 0") ok) (delay 1000 ∷ [])
    ∷ when State.sms_text_mode (anded (eq "+CGATT: 1") ok)
    ∷ [])

abbrev pub sms_text_mode_def : Def
sms_text_mode_def = state (at "AT+CMGF=1\r\n" ∷ []) (when State.sms_character_set ok ∷ [])

abbrev pub sms_character_set_def : Def
sms_character_set_def = state (at "AT+CSCS=\"GSM\"\r\n" ∷ []) (when State.set_context ok ∷ [])

abbrev pub set_context_def : Def
set_context_def =
    state (at "AT+QIFGCNT=0\r\n" ∷ [])
      (when State.apn_user_passwd_input (anded (eq "AT+QIFGCNT=0") ok) ∷ [])

abbrev pub apn_user_passwd_input_def : Def
apn_user_passwd_input_def = state (at "AT+QICSGP=1,\"internet\"\r\n" ∷ []) (
    when_then State.gprs_reset error (delay 1000 ∷ [])
    ∷ when_then State.multiple_connections_off (anded (begins_with "AT+QICSGP=") ok)
        (delay 100 ∷ [])
    ∷ [])

abbrev pub multiple_connections_off_def : Def
multiple_connections_off_def =
    state (at "AT+QIMUX=0\r\n" ∷ [])
      (when_then State.set_modem_mode (anded (begins_with "AT+QIMUX=") ok) (delay 100 ∷ []) ∷ [])

abbrev pub set_modem_mode_def : Def
set_modem_mode_def =
    state (at "AT+QIMODE=0\r\n" ∷ [])
      (when_then State.use_dns (anded (eq "AT+QIMODE=0") ok) (delay 100 ∷ []) ∷ [])

abbrev pub use_dns_def : Def
use_dns_def =
    state (at "AT+QIDNSIP=1\r\n" ∷ []) (
      when_then State.set_receive_mode (anded (begins_with "AT+QIDNSIP=") ok) (delay 100 ∷ []) ∷ [])

abbrev pub set_receive_mode_def : Def
set_receive_mode_def =
    state (at "AT+QINDI=1\r\n" ∷ [])
      (when_then State.control_wait_for_connect (anded (eq "AT+QINDI=1") ok) (delay 100 ∷ []) ∷ [])

abbrev pub control_wait_for_connect_def : Def
control_wait_for_connect_def = state [] (when State.check_connection (own address_known) ∷ [])

abbrev pub close_and_reconnect_def : Def
close_and_reconnect_def = state (at "AT+QICLOSE\r\n" ∷ []) (
    when_then State.connect_to_server (anded (begins_with "AT+QICLOSE") ok)
      (disconnected_action ∷ delay 1000 ∷ [])
    ∷ [])

abbrev pub check_connection_def : Def
check_connection_def = state (at "AT+QISTATE\r\n" ∷ []) (
    when State.network_gps_usart_echo_off
      (anded (anded (eq "AT+QISTATE") ok) (begins_with "STATE: CONNECT OK"))
    ∷ when State.connect_to_server (anded (anded (eq "AT+QISTATE") ok) (begins_with "STATE:"))
    ∷ [])

abbrev pub connect_to_server_def : Def
connect_to_server_def = state (open_connection ∷ []) (
    when_then State.network_gps_usart_echo_off
      (anded ok (ored (eq "CONNECT OK") (eq "ALREADY CONNECT")))
      (delay 1000 ∷ connected_action ∷ [])
    ∷ when_then State.close_and_reconnect (ored (eq "CONNECT FAIL") error) (delay 1000 ∷ [])
    ∷ [])
