-- ===== src/Bg96/Run/Asked.antt =====
-- The first half of an exchange of the BG96's driver with a modem that answers: from
-- NETWORK_BEGIN_SEND to the question for the acknowledgement.
use libcomms.Base.{
  ℕ, ◌<◌, ◌≡◌, refl, ap, ◌∙◌, List, [], ◌∷◌, ◌++◌, arith, codes, length, length-take, drop, min,
  Bytes,
}
use libcomms.CLib.{decimal}
use libcomms.Circular.{CircularBuffer}
use libcomms.Circular.Parts.{joined}
use libcomms.Machine.{Engine}
use libcomms.Modem.{Output, transmitted, delayed}
use libcomms.Modem.InFlight.{sent_log}
use libcomms.Bg96.Connections.{BinaryEvent}
use libcomms.Bg96.Driver.{Modem, Own, Act, own_test}
use libcomms.Bg96.Outbox.{gsm_max_bytes_send, send_stage}
use libcomms.Bg96.Outbox.Rounds.{announced_is_sent}
use libcomms.Bg96.Run.{run}
use libcomms.Bg96.Run.Answers.{
  IsOpen, IsRange, IsPrompt, IsSendOk, IsAcked, IsConnected, IsNothing, begins_send, announces,
  transmits, asks,
}
use libcomms.Bg96.State.{State}

-- The log behind the exchange of these parts: their number is announced, they are transmitted, the
-- acknowledgement is asked for, and the connection and received data are asked about.
abbrev pub exchange_log : List Bytes → List Output → List Output
exchange_log ps log =
    transmitted (codes "AT+QIRD=1\r\n")
    ∷ delayed 50
    ∷ transmitted (codes "AT+QISTATE=1,1\r\n")
    ∷ delayed 1000
    ∷ transmitted (codes "AT+QISEND=1,0\r\n")
    ∷ sent_log ps (
        transmitted (codes "AT+QISEND=1," ++ decimal (length (joined ps)) ++ codes "\r\n")
        ∷ transmitted (codes "AT+QISEND=?\r\n")
        ∷ delayed 100
        ∷ log)

module _ (c : CircularBuffer) (max : ℕ) (e : Engine State Own Act (Modem c) (own_test c max))
    (event : e.Input → BinaryEvent) where
  -- What nine runs in a row find when the modem answers.
  pub record Exchange : Type 0 where
    pub beginning : e.Input
    pub range : e.Input
    pub prompt : e.Input
    pub confirmation : e.Input
    pub acknowledgement : e.Input
    pub checking : e.Input
    pub declaring : e.Input
    pub connection : e.Input
    pub receiving : e.Input
    pub beginning-IsOpen : IsOpen c max e event beginning
    pub range-IsRange : IsRange c max e event range
    pub prompt-IsPrompt : IsPrompt c max e event prompt
    pub confirmation-IsSendOk : IsSendOk c max e event confirmation
    pub acknowledgement-IsAcked : IsAcked c max e event acknowledgement
    pub checking-IsOpen : IsOpen c max e event checking
    pub declaring-IsOpen : IsOpen c max e event declaring
    pub connection-IsConnected : IsConnected c max e event connection
    pub receiving-IsNothing : IsNothing c max e event receiving

  abbrev pub asked : Exchange → Modem c → Modem c
  asked x m =
      let go = run c max e event in go x.confirmation (go x.prompt (go x.range (go x.beginning m)))

  parts_sized :
      (m : Modem c)
      → 0 < length (c.content m.buffer)
      → let n = min (length (c.content m.buffer)) gsm_max_bytes_send in
        length (joined (send_stage c n m.buffer)) ≡ n
  parts_sized m pos =
      let n = min (length (c.content m.buffer)) gsm_max_bytes_send in
      let (_, sent, _) = announced_is_sent c [] m.buffer pos in
      omega (arith, ap length sent, length-take n (c.content m.buffer))

  -- The driver that has sent these parts and asks for the acknowledgement, with this queue.
  abbrev pub asking : Modem c → List BinaryEvent → Modem c
  asking m queue =
      let n = min (length (c.content m.buffer)) gsm_max_bytes_send in
      let ps = send_stage c n m.buffer in
      record m {
        state = State.network_ack_check;
        to_send = n;
        ack_query_retry_no = 0;
        queue = queue;
        log =
            transmitted (codes "AT+QISEND=1,0\r\n")
            ∷ sent_log ps (
                transmitted (codes "AT+QISEND=1," ++ decimal (length (joined ps)) ++ codes "\r\n")
                ∷ transmitted (codes "AT+QISEND=?\r\n")
                ∷ delayed 100
                ∷ m.log);
      }

  -- The first four runs.
  pub asked_lem :
      (x : Exchange) (m : Modem c)
      → m.state ≡ State.network_begin_send
      → 0 < length (c.content m.buffer)
      → (queue : List BinaryEvent) × (asked x m ≡ asking m queue)
  asked_lem x m s pos =
      let go = run c max e event in
      let n = min (length (c.content m.buffer)) gsm_max_bytes_send in
      let ps = send_stage c n m.buffer in
      let sized = parts_sized m pos in
      let m1 : Modem c = record m {
        state = State.network_query_modem_output_buffer_max_len;
        queue = drop (e.consumed x.beginning) m.queue;
        log = transmitted (codes "AT+QISEND=?\r\n") ∷ delayed 100 ∷ m.log;
      } in
      let m2 : Modem c = record m1 {
        state = State.network_prepare_send;
        to_send = n;
        queue = drop (e.consumed x.range) m1.queue;
        log =
            transmitted (codes "AT+QISEND=1," ++ decimal (length (joined ps)) ++ codes "\r\n")
            ∷ m1.log;
      } in
      let m3 : Modem c = record m2 {
        state = State.network_send;
        queue = drop (e.consumed x.prompt) m2.queue;
        log = sent_log ps m2.log;
      } in
      let e1 = begins_send c max e event x.beginning m s x.beginning-IsOpen pos in
      let e2 : go x.range m1 ≡ m2 =
        announces c max e event x.range m1 refl x.range-IsRange pos ∙ rw sized refl in
      let e3 = transmits c max e event x.prompt m2 refl x.prompt-IsPrompt (omega arith) in
      let e4 = asks c max e event x.confirmation m3 refl x.confirmation-IsSendOk in
      (
        drop (e.consumed x.confirmation) m3.queue,
        ap (λ y. go x.confirmation (go x.prompt (go x.range y))) e1
            ∙ ap (λ y. go x.confirmation (go x.prompt y)) e2
            ∙ ap (go x.confirmation) e3
            ∙ e4,
      )
