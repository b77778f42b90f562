-- ===== src/Mc60/Run/Turning.antt =====
-- The way of Mc60Modem from one exchange to the next, with a modem that answers: from
-- SMS_BEGIN_SEND, over CHECK_CONNECTION and NETWORK_BEGIN_SEND, to CHECK_CONNECTION_PRE_SEND.
use libcomms.Base.{ℕ, ◌<◌, ◌≡◌, refl, ◌∙◌, true, false, List, [], ◌∷◌, arith, codes, length, ltb}
use libcomms.CLib.{upto_nul}
use libcomms.Machine.{
  Engine, Transition, when, eq, begins_with, anded, ok, own, always_true, first_holding,
}
use libcomms.Modem.{Output, transmitted, delayed, at_command_run}
use libcomms.Mc60.Driver.{
  Modem, Own, Act, own_test, perform, perform_all, sms_waits, new_data, data_waits,
}
use libcomms.Mc60.Run.{Call, runs, run, call, trace}
use libcomms.Mc60.Run.Answers.{Calm, IsConnectOk, IsOpen, IsEchoOff, steps}
use libcomms.Mc60.Run.Moved.{Moved, Moved-by, Moved-trans, Moved-leaves}
use libcomms.Mc60.State.{State}
use libcomms.Mc60.Table.{state_def}

module _ (max : ℕ) (e : Engine State Own Act Modem (own_test max)) where
  open e use {Input, holds_always_true, holds_own}

  leaves_sms :
      (i : Input) (m : Modem)
      → m.state ≡ State.sms_begin_send
      → Calm max e i
      → m.sms ≡ []
      → Moved m
          (run max e i m)
          State.check_connection
          m.box
          (transmitted (codes "AT+QISTATE\r\n") ∷ delayed 100 ∷ [])
  unfolding state_def first_holding perform_all perform own_test at_command_run upto_nul
  leaves_sms i m s c none_waits =
      let t : Transition State Own Act = when State.check_connection always_true in
      let silent : ltb 0 (length m.sms) ≡ false = rw none_waits refl in
      rw
        (steps max e i m State.sms_begin_send t s refl refl c
          (rw (holds_own _ i sms_waits, silent, holds_always_true) refl))
        (Moved-by m _ _ _)

  connects :
      (i : Input) (m : Modem)
      → m.state ≡ State.check_connection
      → IsConnectOk max e i
      → Moved m
          (run max e i m)
          State.network_gps_usart_echo_off
          m.box
          (transmitted (codes "AT+QISDE=0\r\n") ∷ [])
  unfolding state_def first_holding perform_all perform at_command_run upto_nul
  connects i m s a =
      let t : Transition State Own Act =
        when State.network_gps_usart_echo_off
          (anded (anded (eq "AT+QISTATE") ok) (begins_with "STATE: CONNECT OK")) in
      rw (steps max e i m State.check_connection t s refl refl a.calm (rw a.connect_ok refl))
        (Moved-by m _ _ _)

  echoes :
      (i : Input) (m : Modem)
      → m.state ≡ State.network_gps_usart_echo_off
      → IsEchoOff max e i
      → Moved m (run max e i m) State.network_check_receive m.box []
  unfolding state_def first_holding perform_all
  echoes i m s a =
      let t : Transition State Own Act =
        when State.network_check_receive (anded (begins_with "AT+QISDE=0") ok) in
      rw (steps max e i m State.network_gps_usart_echo_off t s refl refl a.calm (rw a.answer refl))
        (Moved-by m _ _ _)

  receives_nothing :
      (i : Input) (m : Modem)
      → m.state ≡ State.network_check_receive
      → Calm max e i
      → m.new_data_to_receive ≡ false
      → Moved m (run max e i m) State.network_begin_send m.box []
  unfolding state_def first_holding perform_all own_test
  receives_nothing i m s c no_data =
      let t : Transition State Own Act = when State.network_begin_send always_true in
      rw
        (steps max e i m State.network_check_receive t s refl refl c
          (rw (holds_own _ i new_data, no_data, holds_always_true) refl))
        (Moved-by m _ _ _)

  begins_send :
      (i : Input) (m : Modem)
      → m.state ≡ State.network_begin_send
      → IsOpen max e i
      → 0 < length m.box.buffer
      → Moved m
          (run max e i m)
          State.check_connection_pre_send
          m.box
          (transmitted (codes "AT+QISTATE\r\n") ∷ delayed 100 ∷ [])
  unfolding state_def first_holding perform_all perform own_test at_command_run upto_nul
  begins_send i m s a pos =
      let t : Transition State Own Act = when State.check_connection_pre_send (own data_waits) in
      let waits : ltb 0 (length m.box.buffer) ≡ true = ground arith in
      rw
        (steps max e i m State.network_begin_send t s refl refl a.calm
          (rw (a.stays_open, holds_own _ i data_waits, waits) refl))
        (Moved-by m _ _ _)

-- What five runs in a row find between two exchanges: twice nothing in particular, the connection,
-- the answer to AT+QISDE=0, and nothing that closes the connection.
pub record Turn (max : ℕ) (e : Engine State Own Act Modem (own_test max)) : Type 0 where
  pub leaving : e.Input
  pub connection : e.Input
  pub echo : e.Input
  pub receiving : e.Input
  pub beginning : e.Input
  pub leaving-Calm : Calm max e leaving
  pub connection-IsConnectOk : IsConnectOk max e connection
  pub echo-IsEchoOff : IsEchoOff max e echo
  pub receiving-Calm : Calm max e receiving
  pub beginning-IsOpen : IsOpen max e beginning

abbrev pub turn_calls :
    {max : ℕ} {e : Engine State Own Act Modem (own_test max)} → Turn max e → List (Call e.Input)
turn_calls x =
    runs x.leaving ∷ runs x.connection ∷ runs x.echo ∷ runs x.receiving ∷ runs x.beginning ∷ []

-- The outputs on the way to the next exchange, the newest first.
abbrev pub turned : List Output
turned =
    transmitted (codes "AT+QISTATE\r\n")
    ∷ delayed 100
    ∷ transmitted (codes "AT+QISDE=0\r\n")
    ∷ transmitted (codes "AT+QISTATE\r\n")
    ∷ delayed 100
    ∷ []

-- With data that waits, no short message and nothing to receive, the five runs go on to the next
-- exchange and keep the outbox.
pub answered_turn :
    (max : ℕ) (e : Engine State Own Act Modem (own_test max)) (x : Turn max e) (m : Modem)
    → m.state ≡ State.sms_begin_send
    → 0 < length m.box.buffer
    → m.sms ≡ []
    → m.new_data_to_receive ≡ false
    → Moved m (trace max e (turn_calls x) m) State.check_connection_pre_send m.box turned
unfolding trace call
answered_turn max e x m s pos no_sms no_data =
    let m1 = run max e x.leaving m in
    let m2 = run max e x.connection m1 in
    let m3 = run max e x.echo m2 in
    let m4 = run max e x.receiving m3 in
    let a1 = leaves_sms max e x.leaving m s x.leaving-Calm no_sms in
    let a2 = connects max e x.connection m1 a1.arrived x.connection-IsConnectOk in
    let a3 = echoes max e x.echo m2 a2.arrived x.echo-IsEchoOff in
    let through = Moved-trans (Moved-trans a1 a2) a3 in
    let a4 =
      receives_nothing max e x.receiving m3 a3.arrived x.receiving-Calm
        (through.same_data ∙ no_data) in
    let same = a4.left ∙ a3.left ∙ a2.left ∙ a1.left in
    let a5 = begins_send max e x.beginning m4 a4.arrived x.beginning-IsOpen (rw same pos) in
    Moved-leaves same (Moved-trans through (Moved-trans a4 a5))
