-- ===== src/Mc60/State.antt =====
-- `enum MachineState` of src/mc60Modem/Mc60Modem.cc, in the order of the source.
pub data State : Type 0 where
  no_transition reset_stage_decide reset_stage_power_off reset_stage_power_on init : State
  pin_status_check enter_pin get_sim_imsi signal_quality_check registration_check : State
  gprs_attach_check set_context multiple_connections_off set_modem_mode : State
  apn_user_passwd_input gprs_connection_up dns_config use_dns set_receive_mode : State
  connect_to_server close_and_reconnect check_connection shut_down_stage_start : State
  shut_down_stage_power_off shut_down gprs_reset cancel_send gps_usart_echo_on network_send : State
  network_begin_send network_check_receive network_begin_receive network_receive : State
  network_receive_notify network_prepare_send network_query_modem_output_buffer_max_len : State
  network_gps_usart_echo_off network_declare_read network_ack_check network_ack_check_parse : State
  control_wait_for_connect at_qbtpwr at_qbtvisb at_qbtgatsreg at_qbtgatsl sleep wake : State
  sms_text_mode sms_check sms_begin_send sms_send_single_number sms_send_single_body : State
  sms_send_single_remove sms_character_set check_connection_pre_send : State
