-- ===== src/Bg96/State.antt =====
-- `enum MachineState` of src/bg96Modem/Bg96Modem.cc, in the order of the source.
pub data State : Type 0 where
  reset_stage_decide reset_stage_power_off reset_stage_power_on init pin_status_check : State
  enter_pin signal_quality_check network_registration_check gprs_attach pdp_context_check : State
  activate_pdp_context apn_user_passwd_input gprs_connection_up dns_config : State
  connect_to_server close_and_reconnect check_connection shut_down_stage_start : State
  shut_down_stage_power_off shut_down gprs_reset cancel_send gps_usart_echo_on network_send : State
  network_begin_send network_begin_receive network_receive network_prepare_send : State
  network_query_modem_output_buffer_max_len network_gps_usart_echo_off network_declare_read : State
  network_ack_check network_ack_check_parse gnss_set_port gnss_turn_on gnss_state_check : State
  control_wait_for_connect : State
