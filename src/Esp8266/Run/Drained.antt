-- ===== src/Esp8266/Run/Drained.antt =====
-- Exchange after exchange of the ESP8266's driver with a card that answers, until nothing waits.
use libcomms.Base.{
  ◌+◌, ◌*◌, ◌<◌, ◌≤◌, ◌≡◌, refl, sym, subst, true, List, [], ◌∷◌, Bytes, length, String, min,
}
use libcomms.Circular.{CircularBuffer}
use libcomms.Circular.Draining.{
  Exchanges, all_joined, is_exchange, exchanges_log, all_exchanges, Drained, drains,
}
use libcomms.Machine.{Engine}
use libcomms.Machine.Steps.{every}
use libcomms.Esp8266.Driver.{Card, Own, Act, own_test}
use libcomms.Esp8266.Outbox.{max_bytes_send, send_stage}
use libcomms.Esp8266.Outbox.Rounds.{cipsend_is_sent}
use libcomms.Esp8266.Run.{Call, runs, call, trace}
use libcomms.Esp8266.Run.Answered.{exchange_log, Exchange, exchange_run, exchange_run_lem}
use libcomms.Circular.Parts.{joined}
use libcomms.Base.{take, drop}
use libcomms.Esp8266.State.{State}

module _ (c : CircularBuffer) (ssid pass : String)
    (e : Engine State Own Act (Card c) (own_test c)) where
  exchange-parts :
      (x : Exchange c ssid pass e) (m : Card c)
      → m.state ≡ State.network_begin_send
      → 0 < length (c.content m.buffer)
      → let n = min (length (c.content m.buffer)) max_bytes_send in
        let m' = exchange_run c ssid pass e x m in
        (m'.state ≡ State.network_begin_send)
        × (c.content m'.buffer ≡ drop n (c.content m.buffer))
        × ((ps : List Bytes) × (joined ps ≡ take n (c.content m.buffer))
            × (m'.log ≡ exchange_log ps m.log))
  exchange-parts x m s pos =
      let n = min (length (c.content m.buffer)) max_bytes_send in
      let (_, sent, dropped) = cipsend_is_sent c m.buffer pos in
      rw (exchange_run_lem c ssid pass e x m s pos)
        (refl, dropped, (send_stage c n m.buffer, sent, refl))

  abbrev exchanges : Exchanges (Card c) (Exchange c ssid pass e)
  exchanges = record {
    capacity = max_bytes_send;
    IsReady = λ m. m.state ≡ State.network_begin_send;
    content = λ m. c.content m.buffer;
    log = λ m. m.log;
    exchange = exchange_run c ssid pass e;
    exchange_log = exchange_log;
    exchange-parts = exchange-parts;
  }

  abbrev pub drain_calls : List (Exchange c ssid pass e) → List (Call e.Input)
  drain_calls [] = []
  drain_calls (x ∷ xs) =
      runs x.beginning
      ∷ runs x.prompt
      ∷ runs x.confirmation
      ∷ runs x.declaring
      ∷ runs x.echo
      ∷ runs x.connection
      ∷ runs x.returning
      ∷ drain_calls xs

  trace-drain_calls :
      (xs : List (Exchange c ssid pass e)) (m : Card c)
      → trace c ssid pass e (drain_calls xs) m ≡ all_exchanges exchanges xs m
  unfolding trace call
  trace-drain_calls [] m = refl
  trace-drain_calls (x ∷ xs) m = trace-drain_calls xs (exchange_run c ssid pass e x m)

-- A card that answers drains the driver. In NETWORK_BEGIN_SEND, let just so many exchanges follow as
-- the bytes that wait need, of at most 2048 bytes each. The runs that find their answers end in
-- NETWORK_BEGIN_SEND with nothing left to send. What waited was transmitted once, in order and
-- without a gap, in exchanges of 1 to 2048 bytes; for each one the number of its bytes was announced
-- before, and behind it the echo was turned on, the connection asked for and the echo turned off,
-- with nothing else done to the outside but delays.
pub answered_exchanges_drain :
    (c : CircularBuffer) (ssid pass : String) (e : Engine State Own Act (Card c) (own_test c))
    (xs : List (Exchange c ssid pass e)) (m : Card c)
    → m.state ≡ State.network_begin_send
    → length (c.content m.buffer) ≤ length xs * max_bytes_send
    → length xs * max_bytes_send < length (c.content m.buffer) + max_bytes_send
    → let m' = trace c ssid pass e (drain_calls c ssid pass e xs) m in
      (m'.state ≡ State.network_begin_send)
      × (c.content m'.buffer ≡ [])
      × ((pss : List (List Bytes)) × (all_joined pss ≡ c.content m.buffer)
          × (every (is_exchange max_bytes_send) pss ≡ true)
          × (m'.log ≡ exchanges_log exchange_log pss m.log))
answered_exchanges_drain c ssid pass e xs m s most more =
    let a =
      subst (Drained (exchanges c ssid pass e) m) (sym (trace-drain_calls c ssid pass e xs m))
        (drains (exchanges c ssid pass e) xs m s most more) in
    (a.arrived, a.emptied, (a.pieces, a.whole, a.bounded, a.added))
