-- ===== src/Esp8266/State.antt =====
-- `enum ModemState` of src/esp8266/Esp8266.cc, in the order of the source.
pub data State : Type 0 where
  reset_stage_decide reset_stage_power_off reset_stage_power_on init list_access_points : State
  connect_to_access_point signal_quality_check verify_connected_access_point check_my_ip : State
  set_multi_connection_mode activate_pdp_context apn_user_passwd_input gprs_connection_up : State
  dns_config connect_to_server close_and_reconnect shut_down_stage_start : State
  shut_down_stage_power_off shut_down gprs_reset cancel_send gps_usart_echo_on network_send : State
  network_begin_send network_prepare_send network_query_modem_output_buffer_max_len : State
  network_gps_usart_echo_off network_declare_read network_ack_check network_ack_check_parse : State
  reset_board set_operating_mode check_operating_mode cfg_close_and_reconnect : State
  cfg_connect_to_server cfg_prepare_send cfg_send_query cfg_receive network_echo_off : State
  network_echo_on mqtt_pub cfg_cancel_send : State
