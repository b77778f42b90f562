-- ===== src/Mc60/Run/Exchange.antt =====
-- A whole exchange of Mc60Modem with a modem that answers: from CHECK_CONNECTION_PRE_SEND, over the
-- announcement, the bytes, SEND OK and the acknowledgement, to SMS_BEGIN_SEND.
use libcomms.Mc60.Responses.QueryAck.{run-ack_text}
use libcomms.Base.{
  ℕ, ◌<◌, ◌≤◌, ◌≡◌, refl, true, false, [], ◌∷◌, ◌++◌, arith, codes, length, take, drop, min, ltb,
  ◌==◌,
}
use libcomms.CLib.{decimal, upto_nul}
use libcomms.Machine.{
  Engine, Transition, when, when_then, eq, begins_with, retaining, anded, ok, own, always_true,
  first_holding,
}
use libcomms.Modem.{transmitted, delayed, notified_sent, at_command_run}
use libcomms.Mc60.Driver.{
  Modem, Own, Act, own_test, perform, perform_all, reset_retry, sent_action, all_acked,
  bytes_to_send_zero, retry_limit_reached, query_ack_count_limit, on_sent,
}
use libcomms.Mc60.Outbox.{Outbox, gsm_max_bytes_send, declare}
use libcomms.Mc60.Outbox.Queue.{send_round, prepare_lem, send_stage-take, declare-drop}
use libcomms.Mc60.Run.{run}
use libcomms.Mc60.Run.Answers.{IsConnectOk, IsOpen, IsPrompt, IsSendOk, IsAcked, steps}
use libcomms.Mc60.State.{State}
use libcomms.Mc60.Table.{state_def}
use libcomms.Mc60.Run.Moved.{Moved, Moved-by}

declare_lem : (box : Outbox) → declare box ≡ record box { buffer = drop box.to_send box.buffer }
unfolding declare
declare_lem box = ground (arith, declare-drop box)

on_sent_listens :
    (n : ℕ) (m : Modem)
    → m.has_callback ≡ true
    → on_sent n m ≡ record m { log = notified_sent n ∷ m.log }
on_sent_listens n m h = ground arith

module _ (max : ℕ) (e : Engine State Own Act Modem (own_test max)) where
  open e use {Input, holds, holds_always_true, holds_own}

  pub announces :
      (i : Input) (m : Modem)
      → m.state ≡ State.check_connection_pre_send
      → IsConnectOk max e i
      → 0 < length m.box.buffer
      → let n = min (length m.box.buffer) gsm_max_bytes_send in
        Moved m
          (run max e i m)
          State.network_prepare_send
          (record m.box { to_send = n })
          (transmitted (codes "AT+QISEND=" ++ decimal n ++ codes "\r\n") ∷ [])
  unfolding state_def first_holding perform_all perform
  announces i m s a pos =
      let t =
        when State.network_prepare_send
          (anded (anded (eq "AT+QISTATE") ok) (begins_with "STATE: CONNECT OK")) in
      let (command, _, _) = send_round (e.event i) [] m.box pos in
      rw
        (
          steps max e i m State.check_connection_pre_send t s refl refl a.calm
              (rw a.connect_ok refl),
          prepare_lem (e.event i) m.box,
          command,
        )
        (Moved-by m _ _ _)

  pub transmits :
      (i : Input) (m : Modem)
      → m.state ≡ State.network_prepare_send
      → IsPrompt max e i
      → 0 < m.box.to_send
      → m.box.to_send ≤ length m.box.buffer
      → Moved m
          (run max e i m)
          State.network_send
          m.box
          (transmitted (take m.box.to_send m.box.buffer) ∷ [])
  unfolding state_def first_holding perform_all perform own_test
  transmits i m s a pos fits =
      let t : Transition State Own Act = when State.network_send (begins_with "AT+QISEND=") in
      let waits : (m.box.to_send == 0) ≡ false = ground arith in
      rw
        (
          steps max e i m State.network_prepare_send t s refl refl a.calm
              (rw (a.stays_open, holds_own _ i bytes_to_send_zero, waits, a.no_error, a.echo) refl),
          send_stage-take (e.stale i) m.box pos fits,
        )
        (Moved-by m _ _ _)

  pub asks :
      (i : Input) (m : Modem)
      → m.state ≡ State.network_send
      → IsSendOk max e i
      → Moved m
          (run max e i m)
          State.network_ack_check
          m.box
          (transmitted (codes "AT+QISACK\r\n") ∷ [])
        × ((run max e i m).ack_query_retry_no ≡ 0)
  unfolding state_def first_holding perform_all perform at_command_run upto_nul
  asks i m s a =
      let t = when_then State.network_ack_check (eq "SEND OK") (reset_retry ∷ []) in
      rw
        (steps max e i m State.network_send t s refl refl a.calm
          (rw (a.stays_open, a.send_ok) refl))
        (Moved-by m _ _ _, refl)

  pub reads :
      (i : Input) (m : Modem)
      → m.state ≡ State.network_ack_check
      → IsAcked max e i
      → Moved m (run max e i m) State.network_ack_check_parse m.box []
        × ((run max e i m).ack_query_retry_no ≡ m.ack_query_retry_no)
        × ((run max e i m).acks.sent ≡ (run max e i m).acks.acked)
  unfolding state_def first_holding perform_all perform
  reads i m s a =
      let t =
        when State.network_ack_check_parse
          (anded (eq "AT+QISACK") (anded (retaining (begins_with "+QISACK: ")) ok)) in
      let acks = run-ack_text max a.total a.total a.remaining (e.beyond i) a.fits a.fits a.memory in
      rw
        (
          steps max e i m State.network_ack_check t s refl refl a.calm (rw a.answer refl),
          a.line,
          acks,
        )
        (Moved-by m _ _ _, refl, refl)

  pub drops :
      (i : Input) (m : Modem)
      → m.state ≡ State.network_ack_check_parse
      → IsOpen max e i
      → m.ack_query_retry_no ≡ 0
      → m.acks.sent ≡ m.acks.acked
      → let m' = run max e i m in
        Moved m m' State.network_declare_read
          (record m.box { buffer = drop m.box.to_send m.box.buffer })
          (delayed 1000 ∷ [])
  unfolding state_def first_holding perform_all perform own_test
  drops i m s a retry same =
      let t = when_then State.network_declare_read (own all_acked) (reset_retry ∷ []) in
      let few : ltb query_ack_count_limit m.ack_query_retry_no ≡ false = ground arith in
      let all : (m.acks.sent == m.acks.acked) ≡ true = ground arith in
      rw
        (
          steps max e i m State.network_ack_check_parse t s refl refl a.calm (
              rw
                (a.stays_open, holds_own _ i retry_limit_reached, holds_own _ i all_acked, few, all)
                refl),
          declare_lem m.box,
        )
        (Moved-by m _ _ _)

  pub reports :
      (i : Input) (m : Modem)
      → m.state ≡ State.network_declare_read
      → IsOpen max e i
      → m.has_callback ≡ true
      → Moved m (run max e i m) State.sms_begin_send m.box (notified_sent m.box.to_send ∷ [])
  unfolding state_def first_holding perform_all perform
  reports i m s a listens =
      let t = when_then State.sms_begin_send always_true (sent_action ∷ []) in
      let entered = record m {
        state = State.sms_begin_send;
        queue = drop (e.consumed i) m.queue;
      } in
      rw
        (
          steps max e i m State.network_declare_read t s refl refl a.calm
              (rw (a.stays_open, holds_always_true) refl),
          on_sent_listens m.box.to_send entered listens,
        )
        (Moved-by m _ _ _)
