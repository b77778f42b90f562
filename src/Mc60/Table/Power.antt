-- ===== src/Mc60/Table/Power.antt =====
-- The states of the MC60's table from a reset of the modem up to its registration in the network,
-- and those of its shutdown: the constructor in src/mc60Modem/Mc60Modem.cc.
use libcomms.Base.{ℕ, true, false, List, [], ◌∷◌}
use libcomms.Machine.{
  eq, begins_with, anded, ored, seq, ms_passed, own, ok, error, when, when_then, state,
}
use libcomms.Modem.{interrupt_on, interrupt_off}
use libcomms.Mc60.Driver.{
  Act, Def, hard_reset_delay_ms, status_is, at_retry_limit_reached, at, pwr_key, usart, delay,
  disconnected_action, at_reset_retry, at_inc_retry, nothing,
}
use libcomms.Mc60.State.{State}

-- and_action (new PwrKeyAction (false), delayMs (ms)), new PwrKeyAction (true).
abbrev power_cycle : ℕ → List Act
power_cycle ms = pwr_key false ∷ delay ms ∷ pwr_key true ∷ []

abbrev pub reset_stage_decide_def : Def
reset_stage_decide_def = state (disconnected_action ∷ usart interrupt_off ∷ delay 100 ∷ []) (
    when State.pin_status_check (begins_with "RDY")
    ∷ when State.reset_stage_power_off (own (status_is true))
    ∷ when State.reset_stage_power_on (own (status_is false))
    ∷ [])

abbrev pub reset_stage_power_off_def : Def
reset_stage_power_off_def = record {
  suppresses = true;
  entry = power_cycle 800;
  exit = [];
  transitions =
      when_then State.reset_stage_power_on (own (status_is false)) (delay 500 ∷ [])
      ∷ when State.reset_stage_decide (ms_passed hard_reset_delay_ms)
      ∷ [];
}

abbrev pub reset_stage_power_on_def : Def
reset_stage_power_on_def = state (power_cycle 1200) (
    when State.pin_status_check (begins_with "RDY")
    ∷ when_then State.init (own (status_is true)) (delay 100 ∷ usart interrupt_on ∷ delay 100 ∷ [])
    ∷ [])

abbrev pub gprs_reset_def : Def
gprs_reset_def = state (at "AT+CIPSHUT\r\n" ∷ []) (
    when State.gps_usart_echo_on (eq "SHUT OK")
    ∷ when State.reset_stage_decide (ored (ms_passed hard_reset_delay_ms) error)
    ∷ [])

abbrev pub gps_usart_echo_on_def : Def
gps_usart_echo_on_def = state (at "ATE1\r\n" ∷ []) (when State.init (anded (ms_passed 100) ok) ∷ [])

abbrev pub init_def : Def
init_def = state (at "AT\r\n" ∷ []) (
    when_then State.at_qbtpwr (ored (own at_retry_limit_reached) (seq (eq "AT") ok))
      (delay 100 ∷ at_reset_retry ∷ [])
    ∷ when_then State.init (ms_passed 1000) (at_inc_retry ∷ [])
    ∷ [])

abbrev pub at_qbtpwr_def : Def
at_qbtpwr_def =
    state (at "AT+QBTPWR=1\r\n" ∷ [])
      (when_then State.at_qbtvisb (anded (begins_with "AT+QBTPWR") ok) (delay 100 ∷ []) ∷ [])

abbrev pub at_qbtvisb_def : Def
at_qbtvisb_def =
    state (at "AT+QBTVISB=0\r\n" ∷ [])
      (when_then State.at_qbtgatsreg (anded (begins_with "AT+QBTVISB") ok) (delay 100 ∷ []) ∷ [])

abbrev pub at_qbtgatsreg_def : Def
at_qbtgatsreg_def = state (at "AT+QBTGATSREG=1,\"ABC2\"\r\n" ∷ []) (
    when_then State.at_qbtgatsl (anded (begins_with "AT+QBTGATSREG") ok) (delay 100 ∷ [])
    ∷ when State.pin_status_check (begins_with "+CME ERROR:")
    ∷ [])

abbrev pub at_qbtgatsl_def : Def
at_qbtgatsl_def = state (at "AT+QBTGATSL=\"ABC2\",1\r\n" ∷ []) (
    when_then State.pin_status_check (anded (begins_with "AT+QBTGATSL") ok) (delay 100 ∷ [])
    ∷ when_then State.pin_status_check (seq (begins_with "AT+QBTGATSL") (eq "+CME ERROR: 100"))
        (delay 100 ∷ [])
    ∷ [])

abbrev pub pin_status_check_def : Def
pin_status_check_def = state (at "AT+CPIN?\r\n" ∷ []) (
    when_then State.get_sim_imsi (anded (eq "+CPIN: READY") ok) (delay 100 ∷ [])
    ∷ when_then State.pin_status_check error (delay 4000 ∷ [])
    ∷ when_then State.enter_pin (anded (eq "+CPIN: SIM PIN") ok) (delay 100 ∷ [])
    ∷ [])

abbrev pub enter_pin_def : Def
enter_pin_def = state (at "AT+CPIN=1220\r\n" ∷ []) (
    when_then State.pin_status_check (anded (begins_with "AT+CPIN=") ok) (delay 100 ∷ [])
    ∷ when_then State.pin_status_check error (delay 4000 ∷ [])
    ∷ [])

abbrev pub shut_down_stage_start_def : Def
shut_down_stage_start_def = state [] (
    when State.shut_down_stage_power_off (own (status_is true))
    ∷ when State.shut_down (own (status_is false))
    ∷ [])

abbrev pub shut_down_stage_power_off_def : Def
shut_down_stage_power_off_def = record {
  suppresses = true;
  entry = usart interrupt_off ∷ power_cycle 1200;
  exit = [];
  transitions = when_then State.shut_down (own (status_is false)) (delay 500 ∷ []) ∷ [];
}

abbrev pub shut_down_def : Def
shut_down_def = record { suppresses = true; entry = nothing ∷ []; exit = []; transitions = [] }
