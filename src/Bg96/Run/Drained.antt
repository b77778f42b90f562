-- ===== src/Bg96/Run/Drained.antt =====
-- Exchange after exchange of the BG96's driver with a modem that answers, until nothing waits.
use libcomms.Base.{
  ℕ, ◌+◌, ◌*◌, ◌<◌, ◌≤◌, ◌≡◌, refl, sym, subst, true, List, [], ◌∷◌, Bytes, length, min,
}
use libcomms.Circular.{CircularBuffer}
use libcomms.Circular.Draining.{
  Exchanges, all_joined, is_exchange, exchanges_log, all_exchanges, Drained, drains,
}
use libcomms.Machine.{Engine}
use libcomms.Machine.Steps.{every}
use libcomms.Bg96.Connections.{BinaryEvent}
use libcomms.Bg96.Driver.{Modem, Own, Act, own_test}
use libcomms.Bg96.Outbox.{gsm_max_bytes_send, send_stage}
use libcomms.Bg96.Outbox.Rounds.{announced_is_sent}
use libcomms.Bg96.Run.{Call, runs, call, trace}
use libcomms.Bg96.Run.Asked.{exchange_log, Exchange}
use libcomms.Bg96.Run.Answered.{exchange_run, exchange_run_lem}
use libcomms.Circular.Parts.{joined}
use libcomms.Base.{take, drop, ap, ◌∙◌}
use libcomms.Bg96.State.{State}

module _ (c : CircularBuffer) (max : ℕ) (e : Engine State Own Act (Modem c) (own_test c max))
    (event : e.Input → BinaryEvent) where
  exchange-parts :
      (x : Exchange c max e event) (m : Modem c)
      → m.state ≡ State.network_begin_send
      → 0 < length (c.content m.buffer)
      → let n = min (length (c.content m.buffer)) gsm_max_bytes_send in
        let m' = exchange_run c max e event x m in
        (m'.state ≡ State.network_begin_send)
        × (c.content m'.buffer ≡ drop n (c.content m.buffer))
        × ((ps : List Bytes) × (joined ps ≡ take n (c.content m.buffer))
            × (m'.log ≡ exchange_log ps m.log))
  exchange-parts x m s pos =
      let n = min (length (c.content m.buffer)) gsm_max_bytes_send in
      let (_, sent, dropped) = announced_is_sent c [] m.buffer pos in
      let a = exchange_run_lem c max e event x m s pos in
      (a.arrived, ap c.content a.left ∙ dropped, (send_stage c n m.buffer, sent, a.added))

  abbrev exchanges : Exchanges (Modem c) (Exchange c max e event)
  exchanges = record {
    capacity = gsm_max_bytes_send;
    IsReady = λ m. m.state ≡ State.network_begin_send;
    content = λ m. c.content m.buffer;
    log = λ m. m.log;
    exchange = exchange_run c max e event;
    exchange_log = exchange_log;
    exchange-parts = exchange-parts;
  }

  abbrev pub drain_calls : List (Exchange c max e event) → List (Call e.Input)
  drain_calls [] = []
  drain_calls (x ∷ xs) =
      runs x.beginning
      ∷ runs x.range
      ∷ runs x.prompt
      ∷ runs x.confirmation
      ∷ runs x.acknowledgement
      ∷ runs x.checking
      ∷ runs x.declaring
      ∷ runs x.connection
      ∷ runs x.receiving
      ∷ drain_calls xs

  trace-drain_calls :
      (xs : List (Exchange c max e event)) (m : Modem c)
      → trace c max e event (drain_calls xs) m ≡ all_exchanges exchanges xs m
  unfolding trace call
  trace-drain_calls [] m = refl
  trace-drain_calls (x ∷ xs) m = trace-drain_calls xs (exchange_run c max e event x m)

-- A modem that answers drains the driver. In NETWORK_BEGIN_SEND, let just so many exchanges follow as
-- the bytes that wait need, of at most 1460 bytes each. The runs that find their answers, every
-- acknowledgement among them, end in NETWORK_BEGIN_SEND with nothing left to send. What waited was
-- transmitted once, in order and without a gap, in exchanges of 1 to 1460 bytes; for each one the
-- limit was asked for and the number of its bytes announced before, and the acknowledgement, the
-- connection and received data were asked about behind it, with nothing else done to the outside
-- but delays.
pub acked_exchanges_drain :
    (c : CircularBuffer) (max : ℕ) (e : Engine State Own Act (Modem c) (own_test c max))
    (event : e.Input → BinaryEvent) (xs : List (Exchange c max e event)) (m : Modem c)
    → m.state ≡ State.network_begin_send
    → length (c.content m.buffer) ≤ length xs * gsm_max_bytes_send
    → length xs * gsm_max_bytes_send < length (c.content m.buffer) + gsm_max_bytes_send
    → let m' = trace c max e event (drain_calls c max e event xs) m in
      (m'.state ≡ State.network_begin_send)
      × (c.content m'.buffer ≡ [])
      × ((pss : List (List Bytes)) × (all_joined pss ≡ c.content m.buffer)
          × (every (is_exchange gsm_max_bytes_send) pss ≡ true)
          × (m'.log ≡ exchanges_log exchange_log pss m.log))
acked_exchanges_drain c max e event xs m s most more =
    let a =
      subst (Drained (exchanges c max e event) m) (sym (trace-drain_calls c max e event xs m))
        (drains (exchanges c max e event) xs m s most more) in
    (a.arrived, a.emptied, (a.pieces, a.whole, a.bounded, a.added))
