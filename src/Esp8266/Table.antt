-- ===== src/Esp8266/Table.antt =====
-- The table of the ESP8266's state machine: the constructor in src/esp8266/Esp8266.cc. The macros
-- SSID and PASS of Credentials.h, which is not part of this repository, are arguments.
use Prim.Native.String.{◌++◌}
use libcomms.Base.{false, Option, none, some, String, List, [], ◌∷◌}
use libcomms.Machine.{
  eq, begins_with, like, anded, ored, always_true, ms_passed, own, ok, error, Transition, when,
  when_then, state,
}
use libcomms.Esp8266.Driver.{
  Own, Act, Def, tcp_send_data_delay_ms, soft_reset_delay_ms, nothing_waits, bytes_to_send_zero, at,
  delay, prepare_action, send_action, declare_action,
}
use libcomms.Esp8266.State.{State}

abbrev pub globals : List (Transition State Own Act)
globals = when State.init (ms_passed soft_reset_delay_ms) ∷ []

abbrev pub init_def : Def
init_def =
    state (at "ATE1\r\n" ∷ []) (when_then State.check_operating_mode ok (delay 100 ∷ []) ∷ [])

abbrev pub check_operating_mode_def : Def
check_operating_mode_def = state (at "AT+CWMODE_DEF?\r\n" ∷ delay 100 ∷ []) (
    when_then State.verify_connected_access_point (eq "+CWMODE_DEF:1") (delay 100 ∷ [])
    ∷ when_then State.set_operating_mode always_true (delay 100 ∷ [])
    ∷ [])

abbrev pub set_operating_mode_def : Def
set_operating_mode_def =
    state (at "AT+CWMODE_DEF=1\r\n" ∷ []) (when_then State.reset_board ok (delay 100 ∷ []) ∷ [])

abbrev pub reset_board_def : Def
reset_board_def =
    state (at "AT+RST\r\n" ∷ [])
      (when_then State.verify_connected_access_point (eq "ready") (delay 100 ∷ []) ∷ [])

abbrev pub verify_connected_access_point_def : String → Def
verify_connected_access_point_def ssid = state (at "AT+CWJAP?\r\n" ∷ delay 100 ∷ []) (
    when_then State.check_my_ip (like ("%" ++ (ssid ++ "%"))) (delay 100 ∷ [])
    ∷ when_then State.list_access_points (anded (eq "AT+CWJAP?") (begins_with "busy"))
        (delay 5000 ∷ [])
    ∷ when State.list_access_points always_true
    ∷ [])

abbrev pub check_my_ip_def : Def
check_my_ip_def = state (at "AT+CIFSR\r\n" ∷ []) (
    when_then State.set_multi_connection_mode (like "%.%.%.%") (delay 100 ∷ [])
    ∷ when_then State.list_access_points error (delay 100 ∷ [])
    ∷ [])

abbrev pub list_access_points_def : String → Def
list_access_points_def ssid =
    state (at "AT+CWLAP\r\n" ∷ [])
      (when_then State.connect_to_access_point (like ("%" ++ (ssid ++ "%"))) (delay 100 ∷ []) ∷ [])

abbrev pub connect_to_access_point_def : String → String → Def
connect_to_access_point_def ssid pass =
    state (at ("AT+CWJAP=\"" ++ (ssid ++ ("\",\"" ++ (pass ++ "\"\r\n")))) ∷ [])
      (when_then State.verify_connected_access_point ok (delay 100 ∷ []) ∷ [])

abbrev pub set_multi_connection_mode_def : Def
set_multi_connection_mode_def =
    state (at "AT+CIPMUX=1\r\n" ∷ [])
      (when_then State.connect_to_server (anded (eq "AT+CIPMUX=1") ok) (delay 100 ∷ []) ∷ [])

abbrev pub connect_to_server_def : Def
connect_to_server_def = state (at "AT+CIPSTART=0,\"TCP\",\"192.168.0.29\",1883\r\n" ∷ []) (
    when_then State.network_echo_off (anded (like "%,CONNECT") ok) (delay 100 ∷ [])
    ∷ when_then State.network_echo_off (anded (eq "ALREADY CONNECTED") (eq "ERROR"))
        (delay 100 ∷ [])
    ∷ [])

abbrev pub network_echo_off_def : Def
network_echo_off_def =
    state (at "ATE0\r\n" ∷ delay 100 ∷ []) (when State.network_begin_send always_true ∷ [])

abbrev pub network_begin_send_def : Def
network_begin_send_def = record {
  suppresses = false;
  entry = delay 100 ∷ [];
  exit = delay 100 ∷ [];
  transitions =
      when State.network_begin_send (own nothing_waits)
      ∷ when State.network_prepare_send always_true
      ∷ [];
}

abbrev pub network_prepare_send_def : Def
network_prepare_send_def = state (prepare_action ∷ delay 100 ∷ []) (
    when State.network_begin_send (own bytes_to_send_zero)
    ∷ when State.network_send ok
    ∷ when_then State.connect_to_server always_true (delay 1000 ∷ [])
    ∷ [])

abbrev pub network_send_def : Def
network_send_def = state (send_action ∷ []) (
    when State.network_declare_read (eq "SEND OK")
    ∷ when State.cancel_send (ms_passed tcp_send_data_delay_ms)
    ∷ when_then State.connect_to_server
        (ored (ored error (eq "CLOSED")) (ored (eq "SEND FAIL") (eq "+PDP: DEACT")))
        (delay 1000 ∷ [])
    ∷ [])

abbrev pub network_declare_read_def : Def
network_declare_read_def = state (declare_action ∷ []) (when State.network_echo_on always_true ∷ [])

abbrev pub network_echo_on_def : Def
network_echo_on_def = state (at "ATE1\r\n" ∷ []) (when State.connect_to_server always_true ∷ [])

-- The declared states. The constructor declares nothing for the others.
unfoldable pub state_def : String → String → State → Option Def
state_def ssid pass State.init = some init_def
state_def ssid pass State.check_operating_mode = some check_operating_mode_def
state_def ssid pass State.set_operating_mode = some set_operating_mode_def
state_def ssid pass State.reset_board = some reset_board_def
state_def ssid pass State.verify_connected_access_point =
    some (verify_connected_access_point_def ssid)
state_def ssid pass State.check_my_ip = some check_my_ip_def
state_def ssid pass State.list_access_points = some (list_access_points_def ssid)
state_def ssid pass State.connect_to_access_point = some (connect_to_access_point_def ssid pass)
state_def ssid pass State.set_multi_connection_mode = some set_multi_connection_mode_def
state_def ssid pass State.connect_to_server = some connect_to_server_def
state_def ssid pass State.network_echo_off = some network_echo_off_def
state_def ssid pass State.network_begin_send = some network_begin_send_def
state_def ssid pass State.network_prepare_send = some network_prepare_send_def
state_def ssid pass State.network_send = some network_send_def
state_def ssid pass State.network_declare_read = some network_declare_read_def
state_def ssid pass State.network_echo_on = some network_echo_on_def
state_def _ _ _ = none
