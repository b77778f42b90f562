-- ===== src/Bg96/Table.antt =====
-- The whole table of the BG96's state machine, as the constructor builds it.
mod Joining
mod Transfer
pub use Joining.*
pub use Transfer.*
use libcomms.Base.{Option, none, some, List, [], ◌∷◌}
use libcomms.Machine.{ms_passed, Transition, when}
use libcomms.Bg96.Driver.{Own, Act, Def, soft_reset_delay_ms}
use libcomms.Bg96.State.{State}

abbrev pub globals : List (Transition State Own Act)
globals = when State.gprs_reset (ms_passed soft_reset_delay_ms) ∷ []

-- The declared states. The constructor declares nothing for the others.
unfoldable pub state_def : State → Option Def
state_def State.reset_stage_decide = some reset_stage_decide_def
state_def State.reset_stage_power_off = some reset_stage_power_off_def
state_def State.reset_stage_power_on = some reset_stage_power_on_def
state_def State.gprs_reset = some gprs_reset_def
state_def State.gps_usart_echo_on = some gps_usart_echo_on_def
state_def State.init = some init_def
state_def State.gnss_set_port = some gnss_set_port_def
state_def State.gnss_state_check = some gnss_state_check_def
state_def State.gnss_turn_on = some gnss_turn_on_def
state_def State.pin_status_check = some pin_status_check_def
state_def State.enter_pin = some enter_pin_def
state_def State.signal_quality_check = some signal_quality_check_def
state_def State.network_registration_check = some network_registration_check_def
state_def State.apn_user_passwd_input = some apn_user_passwd_input_def
state_def State.pdp_context_check = some pdp_context_check_def
state_def State.activate_pdp_context = some activate_pdp_context_def
state_def State.dns_config = some dns_config_def
state_def State.network_gps_usart_echo_off = some network_gps_usart_echo_off_def
state_def State.control_wait_for_connect = some control_wait_for_connect_def
state_def State.close_and_reconnect = some close_and_reconnect_def
state_def State.check_connection = some check_connection_def
state_def State.connect_to_server = some connect_to_server_def
state_def State.network_begin_receive = some network_begin_receive_def
state_def State.network_receive = some network_receive_def
state_def State.network_begin_send = some network_begin_send_def
state_def State.network_query_modem_output_buffer_max_len =
    some network_query_modem_output_buffer_max_len_def
state_def State.network_prepare_send = some network_prepare_send_def
state_def State.network_send = some network_send_def
state_def State.network_ack_check = some network_ack_check_def
state_def State.network_ack_check_parse = some network_ack_check_parse_def
state_def State.network_declare_read = some network_declare_read_def
state_def State.cancel_send = some cancel_send_def
state_def State.shut_down_stage_start = some shut_down_stage_start_def
state_def State.shut_down_stage_power_off = some shut_down_stage_power_off_def
state_def State.shut_down = some shut_down_def
state_def _ = none
