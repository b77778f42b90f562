-- ===== src/Mc60/Run/Answered.antt =====
-- A whole exchange of Mc60Modem with a modem that answers: from CHECK_CONNECTION_PRE_SEND to
-- SMS_BEGIN_SEND.
use libcomms.Base.{
  ℕ, ◌<◌, ◌≡◌, ap, ◌∙◌, subst, true, List, [], ◌∷◌, ◌++◌, arith, codes, length, take, drop, min,
  Bytes, length-take,
}
use libcomms.CLib.{decimal}
use libcomms.Machine.{Engine}
use libcomms.Modem.{Output, transmitted, delayed, notified_sent}
use libcomms.Mc60.Driver.{Modem, Own, Act, own_test}
use libcomms.Mc60.Outbox.{Outbox, gsm_max_bytes_send}
use libcomms.Mc60.Run.{Call, runs, run, call, trace}
use libcomms.Mc60.Run.Answers.{IsConnectOk, IsOpen, IsPrompt, IsSendOk, IsAcked}
use libcomms.Mc60.Run.Moved.{Moved, Moved-trans, Moved-leaves}
use libcomms.Mc60.Run.Exchange.{announces, transmits, asks, reads, drops, reports}
use libcomms.Mc60.State.{State}

-- What six runs in a row find when the modem answers: the connection, the echo of AT+QISEND, SEND
-- OK, the acknowledgement, and twice nothing that closes the connection.
pub record Exchange (max : ℕ) (e : Engine State Own Act Modem (own_test max)) : Type 0 where
  pub connection : e.Input
  pub prompt : e.Input
  pub confirmation : e.Input
  pub acknowledgement : e.Input
  pub checking : e.Input
  pub declaring : e.Input
  pub connection-IsConnectOk : IsConnectOk max e connection
  pub prompt-IsPrompt : IsPrompt max e prompt
  pub confirmation-IsSendOk : IsSendOk max e confirmation
  pub acknowledgement-IsAcked : IsAcked max e acknowledgement
  pub checking-IsOpen : IsOpen max e checking
  pub declaring-IsOpen : IsOpen max e declaring

abbrev pub exchange_calls :
    {max : ℕ} {e : Engine State Own Act Modem (own_test max)} → Exchange max e → List (Call e.Input)
exchange_calls x =
    runs x.connection
    ∷ runs x.prompt
    ∷ runs x.confirmation
    ∷ runs x.acknowledgement
    ∷ runs x.checking
    ∷ runs x.declaring
    ∷ []

-- The outputs of a whole exchange of these bytes, the newest first.
abbrev pub exchanged : Bytes → List Output
exchanged piece =
    notified_sent (length piece)
    ∷ delayed 1000
    ∷ transmitted (codes "AT+QISACK\r\n")
    ∷ transmitted piece
    ∷ transmitted (codes "AT+QISEND=" ++ decimal (length piece) ++ codes "\r\n")
    ∷ []

module _ (max : ℕ) (e : Engine State Own Act Modem (own_test max)) (x : Exchange max e) where
  abbrev acknowledged : Modem → Modem
  acknowledged m =
      run max e x.acknowledgement
        (run max e x.confirmation (run max e x.prompt (run max e x.connection m)))

  -- The first four of the runs.
  acknowledges :
      (m : Modem)
      → m.state ≡ State.check_connection_pre_send
      → 0 < length m.box.buffer
      → let n = min (length m.box.buffer) gsm_max_bytes_send in
        let m' = acknowledged m in
        Moved m m' State.network_ack_check_parse
          (record m.box { to_send = n })
          (transmitted (codes "AT+QISACK\r\n")
            ∷ transmitted (take n m.box.buffer)
            ∷ transmitted (codes "AT+QISEND=" ++ decimal n ++ codes "\r\n")
            ∷ [])
        × (m'.ack_query_retry_no ≡ 0)
        × (m'.acks.sent ≡ m'.acks.acked)
  acknowledges m s pos =
      let m1 = run max e x.connection m in
      let m2 = run max e x.prompt m1 in
      let m3 = run max e x.confirmation m2 in
      let a1 = announces max e x.connection m s x.connection-IsConnectOk pos in
      let fits = a1.left in
      let a2 =
        subst (λ b. Moved m1 m2 State.network_send b (transmitted (take b.to_send b.buffer) ∷ []))
          a1.left
          (transmits max e x.prompt m1 a1.arrived x.prompt-IsPrompt (rw fits (omega arith))
            (rw fits (omega arith))) in
      let (a3, polls) = asks max e x.confirmation m2 a2.arrived x.confirmation-IsSendOk in
      let (a4, polls', all) =
        reads max e x.acknowledgement m3 a3.arrived x.acknowledgement-IsAcked in
      let through = Moved-trans (Moved-trans a1 a2) (Moved-trans a3 a4) in
      (Moved-leaves (a3.left ∙ a2.left) through, polls' ∙ polls, all)

  -- The last two.
  declares :
      (m : Modem) (box : Outbox)
      → m.state ≡ State.network_ack_check_parse
      → m.box ≡ box
      → m.ack_query_retry_no ≡ 0
      → m.acks.sent ≡ m.acks.acked
      → m.has_callback ≡ true
      → Moved m
          (run max e x.declaring (run max e x.checking m))
          State.sms_begin_send
          (record box { buffer = drop box.to_send box.buffer })
          (notified_sent box.to_send ∷ delayed 1000 ∷ [])
  declares m box s b polls all listens =
      let m1 = run max e x.checking m in
      let m2 = run max e x.declaring m1 in
      let a1 = drops max e x.checking m s x.checking-IsOpen polls all in
      let rest = a1.left ∙ ap {A = Outbox} (λ y. record y { buffer = drop y.to_send y.buffer }) b in
      let a2 =
        reports max e x.declaring m1 a1.arrived x.declaring-IsOpen (a1.same_callback ∙ listens) in
      Moved-trans a1
        (subst (λ y. Moved m1 m2 State.sms_begin_send y (notified_sent y.to_send ∷ [])) rest a2)

-- From CHECK_CONNECTION_PRE_SEND with a buffer that is not empty and with a callback, six runs that
-- find the answers of a whole exchange arrive in SMS_BEGIN_SEND. They announce all that waits, up to
-- 1460 bytes, transmit exactly these bytes from the front of the buffer, ask for the
-- acknowledgement, wait a second, drop these bytes from the buffer and report their number to the
-- client; nothing else is done to the outside.
pub answered_exchange :
    (max : ℕ) (e : Engine State Own Act Modem (own_test max)) (x : Exchange max e) (m : Modem)
    → m.state ≡ State.check_connection_pre_send
    → 0 < length m.box.buffer
    → m.has_callback ≡ true
    → let n = min (length m.box.buffer) gsm_max_bytes_send in
      Moved m
        (trace max e (exchange_calls x) m)
        State.sms_begin_send
        (record { buffer = drop n m.box.buffer; to_send = n })
        (exchanged (take n m.box.buffer))
unfolding trace call
answered_exchange max e x m s pos listens =
    let n = min (length m.box.buffer) gsm_max_bytes_send in
    let m4 = acknowledged max e x m in
    let (first, polls, all) = acknowledges max e x m s pos in
    let size : length (take n m.box.buffer) ≡ n = omega (arith, length-take n m.box.buffer) in
    rw size (
      Moved-trans first (
        declares max e x m4 (record m.box { to_send = n }) first.arrived first.left polls all
          (first.same_callback ∙ listens)))
