-- ===== src/Mc60/Table.antt =====
-- The whole table of the MC60's state machine, as the constructor of Mc60Modem builds it.
mod Power
mod Joining
mod Transfer
pub use Power.*
pub use Joining.*
pub use Transfer.*
use libcomms.Base.{Option, none, some, List, [], ◌∷◌}
use libcomms.Machine.{Guard, eq, begins_with, ms_passed, Transition, when}
use libcomms.Mc60.Driver.{Own, Act, Def, set_new_data, set_new_sms, soft_reset_delay_ms}
use libcomms.Mc60.State.{State}

-- The transitions out of every state that does not suppress them.
abbrev pub globals : List (Transition State Own Act)
globals =
    when State.gprs_reset (ms_passed soft_reset_delay_ms)
    ∷ when State.shut_down_stage_start (eq "_OFF")
    ∷ []

-- The global rules: an action on an event in any state.
pub data Rule : Type 0 where
  qirdi_rule sms_rule : Rule

abbrev pub rule_guard : Rule → Guard Own
rule_guard qirdi_rule = begins_with "+QIRDI"
rule_guard sms_rule = begins_with "+CMTI"

abbrev pub rule_action : Rule → Act
rule_action qirdi_rule = set_new_data
rule_action sms_rule = set_new_sms

-- The declared states. The constructor declares nothing for the others.
unfoldable pub state_def : State → Option Def
state_def State.reset_stage_decide = some reset_stage_decide_def
state_def State.reset_stage_power_off = some reset_stage_power_off_def
state_def State.reset_stage_power_on = some reset_stage_power_on_def
state_def State.init = some init_def
state_def State.pin_status_check = some pin_status_check_def
state_def State.enter_pin = some enter_pin_def
state_def State.get_sim_imsi = some get_sim_imsi_def
state_def State.signal_quality_check = some signal_quality_check_def
state_def State.registration_check = some registration_check_def
state_def State.gprs_attach_check = some gprs_attach_check_def
state_def State.set_context = some set_context_def
state_def State.multiple_connections_off = some multiple_connections_off_def
state_def State.set_modem_mode = some set_modem_mode_def
state_def State.apn_user_passwd_input = some apn_user_passwd_input_def
state_def State.use_dns = some use_dns_def
state_def State.set_receive_mode = some set_receive_mode_def
state_def State.connect_to_server = some connect_to_server_def
state_def State.close_and_reconnect = some close_and_reconnect_def
state_def State.check_connection = some check_connection_def
state_def State.shut_down_stage_start = some shut_down_stage_start_def
state_def State.shut_down_stage_power_off = some shut_down_stage_power_off_def
state_def State.shut_down = some shut_down_def
state_def State.gprs_reset = some gprs_reset_def
state_def State.cancel_send = some cancel_send_def
state_def State.gps_usart_echo_on = some gps_usart_echo_on_def
state_def State.network_send = some network_send_def
state_def State.network_begin_send = some network_begin_send_def
state_def State.network_check_receive = some network_check_receive_def
state_def State.network_begin_receive = some network_begin_receive_def
state_def State.network_receive = some network_receive_def
state_def State.network_prepare_send = some network_prepare_send_def
state_def State.network_gps_usart_echo_off = some network_gps_usart_echo_off_def
state_def State.network_declare_read = some network_declare_read_def
state_def State.network_ack_check = some network_ack_check_def
state_def State.network_ack_check_parse = some network_ack_check_parse_def
state_def State.control_wait_for_connect = some control_wait_for_connect_def
state_def State.at_qbtpwr = some at_qbtpwr_def
state_def State.at_qbtvisb = some at_qbtvisb_def
state_def State.at_qbtgatsreg = some at_qbtgatsreg_def
state_def State.at_qbtgatsl = some at_qbtgatsl_def
state_def State.sleep = some sleep_def
state_def State.wake = some wake_def
state_def State.sms_text_mode = some sms_text_mode_def
state_def State.sms_check = some sms_check_def
state_def State.sms_begin_send = some sms_begin_send_def
state_def State.sms_send_single_number = some sms_send_single_number_def
state_def State.sms_send_single_body = some sms_send_single_body_def
state_def State.sms_send_single_remove = some sms_send_single_remove_def
state_def State.sms_character_set = some sms_character_set_def
state_def State.check_connection_pre_send = some check_connection_pre_send_def
state_def _ = none
