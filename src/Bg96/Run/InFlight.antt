-- ===== src/Bg96/Run/InFlight.antt =====
-- The bytes of the BG96's driver that were transmitted and wait for their acknowledgement:
-- NETWORK_SEND, NETWORK_ACK_CHECK and NETWORK_ACK_CHECK_PARSE.
use libcomms.Base.{
  zero_or_more, ℕ, ◌<◌, ◌≤◌, ◌≡◌, refl, ap, ◌⊎◌, inl, inr, Bool, true, false, List, [], ◌∷◌, Bytes,
  codes, length, take, drop, arith, length-take, take-le_append,
}
use libcomms.Circular.{CircularBuffer}
use libcomms.Machine.{Engine}
use libcomms.Machine.Driving.{globals_of, locals_of}
use libcomms.Machine.Rounds.{secures, run-within}
use libcomms.Machine.Steps.{every}
use libcomms.Modem.{at_command_run}
use libcomms.Modem.InFlight.{
  InFlight, Joint-InFlight, parts-Joint, same_bytes, same_bytes_sound, sent_log,
}
use libcomms.Bg96.Connections.{BinaryEvent}
use libcomms.Bg96.Driver.{
  Modem, Own, Act, own_test, at, delay, reset_retry, inc_retry, send_action, query_ack_action,
  perform,
}
use libcomms.Bg96.Driver.Effects.{
  perform-is_quiet, perform-send_action-log, perform-query_ack_action-log,
}
use libcomms.Bg96.Outbox.{send_stage}
use libcomms.Bg96.Outbox.Rounds.{send_stage-take}
use libcomms.Bg96.Run.{
  Call, runs, sends, new, context, driver, ready, ready-Same, ready-log, run, call, trace,
}
use libcomms.Bg96.Run.Drops.{acked_is_dropped}
use libcomms.Bg96.Run.Rounds.{in_round, Held, call-Held}
use libcomms.Bg96.State.{State}
use libcomms.Bg96.Table.{state_def}

abbrev pub ack_poll : Bytes
ack_poll = codes "AT+QISEND=1,0\r\n"

abbrev pub in_flight : State → Bool
in_flight State.network_send = true
in_flight State.network_ack_check = true
in_flight State.network_ack_check_parse = true
in_flight _ = false

in_flight-in_round : (s : State) → in_flight s ≡ true → in_round s ≡ true
in_flight-in_round State.network_send h = refl
in_flight-in_round State.network_ack_check h = refl
in_flight-in_round State.network_ack_check_parse h = refl
in_flight-in_round _ h = cc

-- The actions behind which the bytes are still in flight, and the one that transmits them.
abbrev gentle : Act → Bool
gentle (at command) = same_bytes (codes command) ack_poll
gentle (delay ms) = true
gentle reset_retry = true
gentle inc_retry = true
gentle query_ack_action = true
gentle _ = false

abbrev is_send_action : Act → Bool
is_send_action send_action = true
is_send_action _ = false

module _ (c : CircularBuffer) where
  -- The announced bytes, if there are any and they all wait, are in flight.
  abbrev Sent : Modem c → Type 0
  Sent m =
      0 < m.to_send
      → m.to_send ≤ length (c.content m.buffer)
      → InFlight ack_poll (take m.to_send (c.content m.buffer)) m.log

  pub some-InFlight :
      (m : Modem c)
      → Sent m
      → m.to_send ≤ length (c.content m.buffer)
      → (m.to_send ≡ 0) ⊎ InFlight ack_poll (take m.to_send (c.content m.buffer)) m.log
  some-InFlight m h fits = elim (zero_or_more m.to_send) [
    | inl none_announced ↦ inl none_announced
    | inr pos ↦ inr (h pos fits)
  ]

  same-Sent :
      (m m' : Modem c)
      → m'.buffer ≡ m.buffer
      → m'.to_send ≡ m.to_send
      → m'.log ≡ m.log
      → Sent m
      → Sent m'
  same-Sent m m' b n l h = rw (b, n, l) h

module _ (c : CircularBuffer) (max : ℕ) (e : Engine State Own Act (Modem c) (own_test c max))
    (event : e.Input → BinaryEvent) where
  act-gentle :
      (i : e.Input) (a : Act) (m : Modem c)
      → gentle a ≡ true
      → Sent c m
      → Sent c (perform c (context c max e event i) a m)
  unfolding perform at_command_run libcomms.CLib.upto_nul
  act-gentle i (at command) m g h =
      λ pos fits. rw (same_bytes_sound (codes command) ack_poll g) (inr (refl, h pos fits))
  act-gentle i query_ack_action m g h =
      let x = context c max e event i in
      let (_, _, b, n) = perform-is_quiet c x query_ack_action m refl in
      same-Sent c m (perform c x query_ack_action m) b n (perform-query_ack_action-log c x m) h
  act-gentle i (delay ms) m g h = h
  act-gentle i reset_retry m g h = h
  act-gentle i inc_retry m g h = h
  act-gentle i _ m g h = absurd (cc g)

  sends_lem :
      (m : Modem c)
      → 0 < m.to_send
      → m.to_send ≤ length (c.content m.buffer)
      → InFlight ack_poll
          (take m.to_send (c.content m.buffer))
          (sent_log (send_stage c m.to_send m.buffer) m.log)
  sends_lem m pos fits =
      Joint-InFlight ack_poll _ _ (omega (arith, length-take m.to_send (c.content m.buffer))) (
        parts-Joint _ (send_stage c m.to_send m.buffer) m.log
          (send_stage-take c m.to_send m.buffer pos (omega (arith, c.size_content m.buffer))))

  act-sends :
      (i : e.Input) (a : Act) (m : Modem c)
      → is_send_action a ≡ true
      → Sent c (perform c (context c max e event i) a m)
  act-sends i send_action m s =
      let x = context c max e event i in
      let (_, _, b, n) = perform-is_quiet c x send_action m refl in
      rw (b, n, perform-send_action-log c x m) (sends_lem m)
  act-sends i _ m s = absurd (cc s)

  table_secures :
      (s : State)
      → let way =
          secures
            (driver c max e event)
            (Sent c)
            gentle
            is_send_action
            act-gentle
            act-sends
            in_flight
            s in
        (every way (globals_of (driver c max e event) s) ≡ true)
        × (every way (locals_of (driver c max e event) s) ≡ true)
  unfolding state_def
  table_secures State.shut_down = (refl, refl)
  table_secures _ = (refl, refl)

  unfoldable pub Followed : Modem c → Type 0
  Followed m = in_flight m.state ≡ true → Sent c m

  run-Followed : (i : e.Input) (m : Modem c) → Followed m → Followed (run c max e event i m)
  unfolding Followed
  run-Followed =
      run-within (driver c max e event) (Sent c) gentle is_send_action act-gentle act-sends
        in_flight (λ s m h. h)
        (λ i m h.
          let (_, _, b, n) = ready-Same c max e event i m in
          same-Sent c m (ready c max e event i m) b n (ready-log c max e event i m) h)
        table_secures

  send-Followed :
      (bytes : Bytes) (m : Modem c)
      → Held c max e event m
      → Followed m
      → Followed (record m { buffer = (c.store bytes m.buffer).0 })
  unfolding Followed Held
  send-Followed bytes m held h s pos _ =
      let fits = held (in_flight-in_round m.state s) in
      let (more, stored) = c.store_content bytes m.buffer in
      rw (stored, take-le_append m.to_send (c.content m.buffer) more fits) (h s pos fits)

  pub call-Followed :
      (x : Call e.Input) (m : Modem c)
      → Held c max e event m
      → Followed m
      → Followed (call c max e event x m)
  unfolding call Followed
  call-Followed (runs i) m held h = unfold Followed in (run-Followed i m h)
  call-Followed (sends bytes) m held h = unfold Followed in (send-Followed bytes m held h)
  call-Followed _ m held h = h

  trace-Followed :
      (xs : List (Call e.Input)) (m : Modem c)
      → Held c max e event m
      → Followed m
      → Followed (trace c max e event xs m)
  unfolding trace
  trace-Followed [] m held h = h
  trace-Followed (x ∷ xs) m held h =
      trace-Followed xs (call c max e event x m) (call-Held c max e event x m held)
        (call-Followed x m held h)

-- A run leaves the buffer as it is, or, in NETWORK_ACK_CHECK_PARSE and with equal numbers stored for
-- the sent and the acknowledged bytes (which are 0 and 0 behind an answer that could not be read),
-- it drops from its front just the announced number of bytes, which are all there; and
-- unless that number is zero, just these bytes are what was transmitted last, part by part and
-- with nothing between the parts, but for the polls for their acknowledgement.
pub acked_is_transmitted :
    (c : CircularBuffer) (max : ℕ) (e : Engine State Own Act (Modem c) (own_test c max))
    (event : e.Input → BinaryEvent) (xs : List (Call e.Input)) (has_callback status_pin : Bool)
    (i : e.Input)
    → let m = trace c max e event xs (new c has_callback status_pin) in
      let m' = run c max e event i m in
      let n = m.to_send in
      (m'.buffer ≡ m.buffer)
      ⊎ ((m.state ≡ State.network_ack_check_parse)
          × (m.acks.sent ≡ m.acks.acked)
          × (n ≤ length (c.content m.buffer))
          × ((n ≡ 0) ⊎ InFlight ack_poll (take n (c.content m.buffer)) m.log)
          × (c.content m'.buffer ≡ drop n (c.content m.buffer)))
unfolding Followed
acked_is_transmitted c max e event xs has_callback status_pin i =
    let start = new c has_callback status_pin in
    let m = trace c max e event xs start in
    elim (acked_is_dropped c max e event xs has_callback status_pin i) [
      | inl kept ↦ inl kept
      | inr (p, acked, fits, dropped) ↦
          let follows =
            trace-Followed c max e event xs start (unfold Held in (λ s. absurd (cc s)))
              (unfold Followed in (λ s. absurd (cc s))) in
          inr (p, acked, fits, some-InFlight c m (follows (ap in_flight p)) fits, dropped)
    ]
