-- ===== src/Bg96/Run/Exchange.antt =====
-- The further runs of an exchange of the BG96's driver with a modem that answers, from the question
-- for the acknowledgement to NETWORK_BEGIN_SEND.
use libcomms.Bg96.Responses.QueryAck.{run-ack_text}
use libcomms.Response.AckText.{acks_read}
use libcomms.Base.{ℕ, ◌≡◌, refl, true, false, [], ◌∷◌, arith, codes, drop, ltb, ◌==◌}
use libcomms.CLib.{decimal, upto_nul}
use libcomms.Circular.{CircularBuffer}
use libcomms.Machine.{
  Engine, Transition, eq, begins_with, own, always_true, when, when_then, first_holding, anded, ok,
  retaining,
}
use libcomms.Machine.Answering.{answered_run}
use libcomms.Machine.Driving.{perform_all}
use libcomms.Modem.{transmitted, delayed, at_command_run}
use libcomms.Bg96.Connections.{BinaryEvent}
use libcomms.Bg96.Driver.{
  Modem, Own, Act, own_test, perform, query_ack_count_limit, parse_recv_len, all_acked,
  retry_limit_reached, reset_retry, store_parsed,
}
use libcomms.Bg96.Outbox.{declare}
use libcomms.Bg96.Responses.{accepts, parsed, recv_length_check}
use libcomms.Bg96.Responses.RecvLength.{copied_length_is_stored}
use libcomms.Bg96.Run.{driver, run, ready, check_effects}
use libcomms.Bg96.Run.Answers.{IsOpen, IsConnected, IsNothing, steps, IsAcked}
use libcomms.Bg96.State.{State}
use libcomms.Bg96.Table.{state_def}

module _ (c : CircularBuffer) (max : ℕ) (e : Engine State Own Act (Modem c) (own_test c max))
    (event : e.Input → BinaryEvent) where
  pub reads :
      (i : e.Input) (m : Modem c)
      → m.state ≡ State.network_ack_check
      → (x : IsAcked c max e event i)
      → run c max e event i m ≡ record m {
        state = State.network_ack_check_parse;
        acks = acks_read max x.total x.total x.remaining x.rest;
        queue = drop (e.consumed i) m.queue;
      }
  unfolding state_def first_holding perform_all perform
  reads i m s x =
      let t : Transition State Own Act =
        when State.network_ack_check_parse (anded ok (retaining (begins_with "+QISEND: "))) in
      rw
        (
          steps c max e event i m State.network_ack_check t s refl refl x.open_still.calm
              (rw (x.open_still.stays_open, x.answer) refl),
          x.line,
          run-ack_text max x.total x.total x.remaining (e.beyond i) x.fits x.fits x.memory,
        )
        refl

  pub drops :
      (i : e.Input) (m : Modem c)
      → m.state ≡ State.network_ack_check_parse
      → IsOpen c max e event i
      → m.ack_query_retry_no ≡ 0
      → m.acks.sent ≡ m.acks.acked
      → run c max e event i m ≡ record m {
        state = State.network_declare_read;
        buffer = declare c m.to_send m.buffer;
        ack_query_retry_no = 0;
        queue = drop (e.consumed i) m.queue;
        log = delayed 1000 ∷ m.log;
      }
  unfolding state_def first_holding perform_all perform own_test
  drops i m s x polls same =
      let t : Transition State Own Act =
        when_then State.network_declare_read (own all_acked) (reset_retry ∷ []) in
      let few : ltb query_ack_count_limit m.ack_query_retry_no ≡ false = ground arith in
      let all : (m.acks.sent == m.acks.acked) ≡ true = ground arith in
      rw
        (steps c max e event i m State.network_ack_check_parse t s refl refl x.calm (
          rw
            (x.stays_open, e.holds_own _ i retry_limit_reached, e.holds_own _ i all_acked, few, all)
            refl))
        refl

  pub checks :
      (i : e.Input) (m : Modem c)
      → m.state ≡ State.network_declare_read
      → IsOpen c max e event i
      → run c max e event i m ≡ record m {
        state = State.check_connection;
        queue = drop (e.consumed i) m.queue;
        log = delayed 50 ∷ transmitted (codes "AT+QISTATE=1,1\r\n") ∷ m.log;
      }
  unfolding state_def first_holding perform_all perform at_command_run upto_nul
  checks i m s x =
      let t : Transition State Own Act = when State.check_connection always_true in
      rw
        (steps c max e event i m State.network_declare_read t s refl refl x.calm
          (rw (x.stays_open, e.holds_always_true) refl))
        refl

  pub connects :
      (i : e.Input) (m : Modem c)
      → m.state ≡ State.check_connection
      → IsConnected c max e event i
      → run c max e event i m ≡ record m {
        state = State.network_begin_receive;
        queue = drop (e.consumed i) m.queue;
        log = transmitted (codes "AT+QIRD=1\r\n") ∷ m.log;
      }
  unfolding state_def first_holding perform_all perform at_command_run upto_nul
  connects i m s x =
      let t : Transition State Own Act =
        when State.network_begin_receive (begins_with "+QISTATE: 1,\"TCP\"") in
      rw (steps c max e event i m State.check_connection t s refl refl x.calm (rw x.answer refl))
        refl

  no_length :
      (i : e.Input) → IsNothing c max e event i → recv_length_check max (e.event i) ≡ parsed 0
  unfolding decimal
  no_length i x = rw x.line (copied_length_is_stored max 0 (omega arith) (omega arith)).0

  nothing_stored :
      (i : e.Input) (m : Modem c) (s : State)
      → s ≡ State.network_begin_receive
      → IsNothing c max e event i
      → check_effects c max e event (e.event i) s m ≡ record m { bytes_received = 0 }
  unfolding check_effects store_parsed
  nothing_stored i m s at_s x = rw (at_s, no_length i x) refl

  nothing_ready :
      (i : e.Input) (m : Modem c)
      → m.state ≡ State.network_begin_receive
      → IsNothing c max e event i
      → ready c max e event i m
        ≡ record m { bytes_received = 0; queue = drop (e.consumed i) m.queue }
  unfolding ready
  nothing_ready i m s x = rw (x.calm.evaluated, nothing_stored i m m.state s x) refl

  pub receives_nothing :
      (i : e.Input) (m : Modem c)
      → m.state ≡ State.network_begin_receive
      → IsNothing c max e event i
      → run c max e event i m ≡ record m {
        state = State.network_begin_send;
        bytes_received = 0;
        queue = drop (e.consumed i) m.queue;
      }
  unfolding state_def first_holding perform_all own_test
  receives_nothing i m s x =
      let t : Transition State Own Act = when State.network_begin_send (eq "+QIRD: 0") in
      let rd = nothing_ready i m s x in
      let declines : accepts (recv_length_check max (e.event i)) ≡ false =
        rw (no_length i x) refl in
      rw
        (
          answered_run (driver c max e event) i m State.network_begin_receive t s x.calm.evaluated
              (rw (x.calm.in_time (ready c max e event i m)) refl)
              (rw (e.holds_own _ i parse_recv_len, declines, x.answer) refl),
          rd,
        )
        refl
