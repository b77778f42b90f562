-- ===== src/Mc60/Run/Unread.antt =====
-- An answer to AT+QISACK that QueryAckAction of Mc60Modem cannot read
-- (src/mc60Modem/QueryAckAction.h and NETWORK_ACK_CHECK_PARSE in src/mc60Modem/Mc60Modem.cc).
use libcomms.Base.{ℕ, ◌≡◌, ◌∙◌, refl, ap, some, [], ◌∷◌, ◌++◌, Bytes, drop, Lacks, subst, sym, true}
use libcomms.CLib.{c_string}
use libcomms.Machine.{Engine, eq, begins_with, retaining, anded, ok, when, first_holding}
use libcomms.Machine.Answering.{Hears}
use libcomms.Modem.{delayed, notified_sent}
use libcomms.Mc60.Driver.{Modem, Own, Act, own_test, perform, perform_all}
use libcomms.Mc60.Outbox.{Outbox}
use libcomms.Mc60.Responses.{qisack}
use libcomms.Mc60.Responses.QueryAck.{query_ack_run-unread}
use libcomms.Mc60.Run.{run}
use libcomms.Mc60.Run.Answers.{Calm, IsOpen, steps}
use libcomms.Mc60.Run.Exchange.{drops, reports}
use libcomms.Mc60.Run.Moved.{Moved, Moved-by, Moved-trans}
use libcomms.Mc60.State.{State}
use libcomms.Mc60.Table.{state_def}

module _ (max : ℕ) (e : Engine State Own Act Modem (own_test max)) where
  open e use {Input, event, beyond}

  -- An answer to AT+QISACK with no comma behind "+QISACK:", up to the next NUL in memory.
  pub record IsUnread (i : Input) : Type 0 where
    pub calm : Calm max e i
    pub answer : Hears e i (anded (eq "AT+QISACK") (anded (retaining (begins_with "+QISACK: ")) ok))
    pub text : Bytes
    pub rest : Bytes
    pub line : event i ≡ qisack ++ text
    pub no_nul : Lacks 0 text
    pub memory : c_string (beyond i) ≡ some rest
    pub no_comma : Lacks b',' (text ++ rest)

  reads_nothing :
      (i : Input) (m : Modem)
      → m.state ≡ State.network_ack_check
      → IsUnread i
      → Moved m (run max e i m) State.network_ack_check_parse m.box []
        × ((run max e i m).ack_query_retry_no ≡ m.ack_query_retry_no)
        × ((run max e i m).acks.sent ≡ 0)
        × ((run max e i m).acks.acked ≡ 0)
  unfolding state_def first_holding perform_all perform
  reads_nothing i m s a =
      let t =
        when State.network_ack_check_parse
          (anded (eq "AT+QISACK") (anded (retaining (begins_with "+QISACK: ")) ok)) in
      let acks = query_ack_run-unread max a.text (beyond i) a.no_nul a.memory a.no_comma in
      rw
        (
          steps max e i m State.network_ack_check t s refl refl a.calm (rw a.answer refl),
          a.line,
          acks,
        )
        (Moved-by m _ _ _, refl, refl, refl)

-- A driver that has asked for the acknowledgement for the first time, in NETWORK_ACK_CHECK and with
-- a callback, gets an answer "+QISACK:" without a comma, and hears of no closed connection in the
-- next two runs. Then it stores 0 for the sent and for the acknowledged bytes, and yet these three
-- runs drop the announced bytes from the buffer, report their number to the client as sent, and
-- arrive in SMS_BEGIN_SEND.
pub unread_answer_drops :
    (max : ℕ) (e : Engine State Own Act Modem (own_test max)) (m : Modem) (i j k : e.Input)
    → m.state ≡ State.network_ack_check
    → m.ack_query_retry_no ≡ 0
    → m.has_callback ≡ true
    → IsUnread max e i
    → IsOpen max e j
    → IsOpen max e k
    → ((run max e i m).acks.sent ≡ 0)
      × ((run max e i m).acks.acked ≡ 0)
      × Moved m
          (run max e k (run max e j (run max e i m)))
          State.sms_begin_send
          (record m.box { buffer = drop m.box.to_send m.box.buffer })
          (notified_sent m.box.to_send ∷ delayed 1000 ∷ [])
unread_answer_drops max e m i j k s first listens unread open_j open_k =
    let m1 = run max e i m in
    let m2 = run max e j m1 in
    let m3 = run max e k m2 in
    let (a1, polls, sent, acked) = reads_nothing max e i m s unread in
    let a2 = drops max e j m1 a1.arrived open_j (polls ∙ first) (sent ∙ sym acked) in
    let rest =
      a2.left ∙ ap {A = Outbox} (λ y. record y { buffer = drop y.to_send y.buffer }) a1.left in
    let a3 = reports max e k m2 a2.arrived open_k (a2.same_callback ∙ a1.same_callback ∙ listens) in
    let told =
      subst (λ y. Moved m2 m3 State.sms_begin_send y (notified_sent y.to_send ∷ [])) rest a3 in
    (sent, acked, Moved-trans a1 (Moved-trans a2 told))
