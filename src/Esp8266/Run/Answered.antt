-- ===== src/Esp8266/Run/Answered.antt =====
-- A whole exchange of the ESP8266's driver with a card that answers: from NETWORK_BEGIN_SEND back to it.
use libcomms.Base.{
  ◌<◌, ◌≡◌, refl, ap, ◌∙◌, String, List, ◌∷◌, ◌++◌, arith, codes, length, min, Bytes, length-take,
}
use libcomms.CLib.{decimal}
use libcomms.Circular.{CircularBuffer}
use libcomms.Circular.Parts.{joined}
use libcomms.Machine.{Engine}
use libcomms.Modem.{Output, transmitted, delayed}
use libcomms.Modem.InFlight.{sent_log}
use libcomms.Esp8266.Driver.{Card, Own, Act, own_test}
use libcomms.Esp8266.Outbox.{max_bytes_send, send_stage, declare}
use libcomms.Esp8266.Outbox.Rounds.{cipsend_is_sent}
use libcomms.Esp8266.Run.{run}
use libcomms.Esp8266.Run.Answers.{
  Calm, IsOk, IsSendOk, IsConnected, announces, transmits, drops, echoes, connects, joins, returns,
}
use libcomms.Esp8266.State.{State}

-- The log behind the exchange of these parts: their number is announced, they are transmitted, and
-- the connection is made sure of.
abbrev pub exchange_log : List Bytes → List Output → List Output
exchange_log ps log =
    delayed 100
    ∷ delayed 100
    ∷ transmitted (codes "ATE0\r\n")
    ∷ delayed 100
    ∷ transmitted (codes "AT+CIPSTART=0,\"TCP\",\"192.168.0.29\",1883\r\n")
    ∷ transmitted (codes "ATE1\r\n")
    ∷ sent_log ps (
        delayed 100
        ∷ transmitted (codes "AT+CIPSEND=0," ++ decimal (length (joined ps)) ++ codes "\r\n")
        ∷ delayed 100
        ∷ log)

module _ (c : CircularBuffer) (ssid pass : String)
    (e : Engine State Own Act (Card c) (own_test c)) where
  -- What seven runs in a row find when the card answers: nothing in particular, OK, SEND OK, twice
  -- nothing in particular, the connection, and nothing in particular.
  pub record Exchange : Type 0 where
    pub beginning : e.Input
    pub prompt : e.Input
    pub confirmation : e.Input
    pub declaring : e.Input
    pub echo : e.Input
    pub connection : e.Input
    pub returning : e.Input
    pub beginning-Calm : Calm c ssid pass e beginning
    pub prompt-IsOk : IsOk c ssid pass e prompt
    pub confirmation-IsSendOk : IsSendOk c ssid pass e confirmation
    pub declaring-Calm : Calm c ssid pass e declaring
    pub echo-Calm : Calm c ssid pass e echo
    pub connection-IsConnected : IsConnected c ssid pass e connection
    pub returning-Calm : Calm c ssid pass e returning

  abbrev pub exchange_run : Exchange → Card c → Card c
  exchange_run x m =
      let m4 = run c ssid pass e x.declaring (
        run c ssid pass e x.confirmation
          (run c ssid pass e x.prompt (run c ssid pass e x.beginning m))) in
      run c ssid pass e x.returning (run c ssid pass e x.connection (run c ssid pass e x.echo m4))

  -- The driver behind an exchange.
  abbrev pub exchanged : Card c → Card c
  exchanged m =
      let n = min (length (c.content m.buffer)) max_bytes_send in
      record {
        state = State.network_begin_send;
        buffer = declare c n m.buffer;
        to_send = n;
        log = exchange_log (send_stage c n m.buffer) m.log;
      }

  pub parts_sized :
      (m : Card c)
      → 0 < length (c.content m.buffer)
      → let n = min (length (c.content m.buffer)) max_bytes_send in
        length (joined (send_stage c n m.buffer)) ≡ n
  parts_sized m pos =
      let n = min (length (c.content m.buffer)) max_bytes_send in
      let (_, sent, _) = cipsend_is_sent c m.buffer pos in
      omega (arith, ap length sent, length-take n (c.content m.buffer))

  pub exchange_run_lem :
      (x : Exchange) (m : Card c)
      → m.state ≡ State.network_begin_send
      → 0 < length (c.content m.buffer)
      → exchange_run x m ≡ exchanged m
  exchange_run_lem x m s pos =
      let go = run c ssid pass e in
      let n = min (length (c.content m.buffer)) max_bytes_send in
      let ps = send_stage c n m.buffer in
      let sized = parts_sized m pos in
      let m1 : Card c = record m {
        state = State.network_prepare_send;
        to_send = n;
        log =
            delayed 100
            ∷ transmitted (codes "AT+CIPSEND=0," ++ decimal (length (joined ps)) ++ codes "\r\n")
            ∷ delayed 100
            ∷ m.log;
      } in
      let m2 : Card c = record m1 {
        state = State.network_send;
        log = sent_log (send_stage c n m.buffer) m1.log;
      } in
      let m3 : Card c = record m2 {
        state = State.network_declare_read;
        buffer = declare c n m.buffer;
      } in
      let e1 : go x.beginning m ≡ m1 =
        announces c ssid pass e x.beginning m s x.beginning-Calm pos ∙ rw sized refl in
      let e2 =
        ap (go x.prompt) e1
        ∙ transmits c ssid pass e x.prompt m1 refl x.prompt-IsOk (omega arith) in
      let e3 =
        ap (go x.confirmation) e2
        ∙ drops c ssid pass e x.confirmation m2 refl x.confirmation-IsSendOk in
      let e4 = ap (go x.declaring) e3 ∙ echoes c ssid pass e x.declaring m3 refl x.declaring-Calm in
      let e5 = ap (go x.echo) e4 ∙ connects c ssid pass e x.echo _ refl x.echo-Calm in
      let e6 =
        ap (go x.connection) e5
        ∙ joins c ssid pass e x.connection _ refl x.connection-IsConnected in
      ap (go x.returning) e6 ∙ returns c ssid pass e x.returning _ refl x.returning-Calm
