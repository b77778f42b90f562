-- ===== src/Bg96/Run/Answered.antt =====
-- A whole exchange of the BG96's driver with a modem that answers: from NETWORK_BEGIN_SEND back to
-- it.
use libcomms.Base.{ℕ, ◌<◌, ◌≡◌, refl, ap, ◌∙◌, List, ◌∷◌, codes, length, drop, min, subst, sym}
use libcomms.Circular.{CircularBuffer}
use libcomms.Machine.{Engine}
use libcomms.Modem.{transmitted, delayed}
use libcomms.Response.AckText.{acks_read}
use libcomms.Bg96.Connections.{BinaryEvent}
use libcomms.Bg96.Driver.{Modem, Own, Act, own_test}
use libcomms.Bg96.Outbox.{gsm_max_bytes_send, send_stage, declare}
use libcomms.Bg96.Run.{run}
use libcomms.Bg96.Run.Exchange.{reads, drops, checks, connects, receives_nothing}
use libcomms.Bg96.State.{State}
use libcomms.Bg96.Run.Asked.{exchange_log, Exchange, asked, asking, asked_lem}

module _ (c : CircularBuffer) (max : ℕ) (e : Engine State Own Act (Modem c) (own_test c max))
    (event : e.Input → BinaryEvent) where
  abbrev pub exchange_run : Exchange c max e event → Modem c → Modem c
  exchange_run x m =
      let go = run c max e event in
      let m6 = go x.checking (go x.acknowledgement (asked c max e event x m)) in
      go x.receiving (go x.connection (go x.declaring m6))

  -- What the exchange did.
  pub record Exchanged (m m' : Modem c) : Type 0 where
    pub arrived : m'.state ≡ State.network_begin_send
    pub left : m'.buffer ≡ declare c (min (length (c.content m.buffer)) gsm_max_bytes_send) m.buffer
    pub added :
        m'.log
        ≡ exchange_log
            (send_stage c (min (length (c.content m.buffer)) gsm_max_bytes_send) m.buffer)
            m.log

  -- The last five runs, from the question for the acknowledgement.
  declared_lem :
      (x : Exchange c max e event) (m : Modem c) (queue : List BinaryEvent)
      → let go = run c max e event in
        let m6 = go x.checking (go x.acknowledgement (asking c max e event m queue)) in
        Exchanged m (go x.receiving (go x.connection (go x.declaring m6)))
  declared_lem x m queue =
      let go = run c max e event in
      let n = min (length (c.content m.buffer)) gsm_max_bytes_send in
      let a = x.acknowledgement-IsAcked in
      let m4 = asking c max e event m queue in
      let m5 : Modem c = record m4 {
        state = State.network_ack_check_parse;
        acks = acks_read max a.total a.total a.remaining a.rest;
        queue = drop (e.consumed x.acknowledgement) queue;
      } in
      let m6 : Modem c = record m5 {
        state = State.network_declare_read;
        buffer = declare c n m.buffer;
        queue = drop (e.consumed x.checking) m5.queue;
        log = delayed 1000 ∷ m5.log;
      } in
      let m7 : Modem c = record m6 {
        state = State.check_connection;
        queue = drop (e.consumed x.declaring) m6.queue;
        log = delayed 50 ∷ transmitted (codes "AT+QISTATE=1,1\r\n") ∷ m6.log;
      } in
      let m8 : Modem c = record m7 {
        state = State.network_begin_receive;
        queue = drop (e.consumed x.connection) m7.queue;
        log = transmitted (codes "AT+QIRD=1\r\n") ∷ m7.log;
      } in
      let e5 = reads c max e event x.acknowledgement m4 refl a in
      let e6 = drops c max e event x.checking m5 refl x.checking-IsOpen refl refl in
      let e7 = checks c max e event x.declaring m6 refl x.declaring-IsOpen in
      let e8 = connects c max e event x.connection m7 refl x.connection-IsConnected in
      let e9 = receives_nothing c max e event x.receiving m8 refl x.receiving-IsNothing in
      let whole =
        ap (λ y. go x.receiving (go x.connection (go x.declaring (go x.checking y)))) e5
        ∙ ap (λ y. go x.receiving (go x.connection (go x.declaring y))) e6
        ∙ ap (λ y. go x.receiving (go x.connection y)) e7
        ∙ ap (go x.receiving) e8
        ∙ e9 in
      record {
        arrived = ap (λ y. y.state) whole;
        left = ap (λ y. y.buffer) whole;
        added = ap (λ y. y.log) whole;
      }

  pub exchange_run_lem :
      (x : Exchange c max e event) (m : Modem c)
      → m.state ≡ State.network_begin_send
      → 0 < length (c.content m.buffer)
      → Exchanged m (exchange_run x m)
  exchange_run_lem x m s pos =
      let go = run c max e event in
      let (queue, first) = asked_lem c max e event x m s pos in
      subst
        (λ y. Exchanged m (
          go x.receiving
            (go x.connection (go x.declaring (go x.checking (go x.acknowledgement y))))))
        (sym first) (declared_lem x m queue)
