-- ===== src/Esp8266/Run/InFlight.antt =====
-- The bytes of the ESP8266's driver that were transmitted and wait for SEND OK: NETWORK_SEND.
use libcomms.Base.{
  ◌<◌, ◌≤◌, ◌≡◌, refl, ap, ◌⊎◌, inl, inr, Bool, true, false, List, [], ◌∷◌, String, Bytes, length,
  take, drop, arith, take-le_append, zero_or_more,
}
use libcomms.Circular.{CircularBuffer}
use libcomms.Machine.{Engine, eq}
use libcomms.Machine.Driving.{globals_of, locals_of}
use libcomms.Machine.Rounds.{secures, run-within}
use libcomms.Machine.Steps.{every}
use libcomms.Modem.InFlight.{Joint, parts-Joint}
use libcomms.Esp8266.Driver.{
  Card, Own, Act, own_test, send_action, perform, perform-is_quiet, perform-send_action-log,
}
use libcomms.Esp8266.Outbox.{send_stage}
use libcomms.Esp8266.Outbox.Rounds.{send_stage-take}
use libcomms.Esp8266.Run.{Call, runs, sends, new, driver, run, call, trace}
use libcomms.Esp8266.Run.Drops.{sent_ok_is_dropped}
use libcomms.Esp8266.Run.Rounds.{in_round, Held, call-Held}
use libcomms.Esp8266.State.{State}
use libcomms.Esp8266.Table.{state_def}

abbrev pub in_flight : State → Bool
in_flight State.network_send = true
in_flight _ = false

in_flight-in_round : (s : State) → in_flight s ≡ true → in_round s ≡ true
in_flight-in_round State.network_send h = refl
in_flight-in_round _ h = cc

abbrev is_send_action : Act → Bool
is_send_action send_action = true
is_send_action _ = false

module _ (c : CircularBuffer) where
  -- The announced bytes, if there are any and they all wait, were transmitted last.
  abbrev Sent : Card c → Type 0
  Sent m =
      0 < m.to_send
      → m.to_send ≤ length (c.content m.buffer)
      → Joint (take m.to_send (c.content m.buffer)) m.log

  pub some_in_flight :
      (m : Card c)
      → Sent m
      → m.to_send ≤ length (c.content m.buffer)
      → (m.to_send ≡ 0) ⊎ Joint (take m.to_send (c.content m.buffer)) m.log
  some_in_flight m h fits = elim (zero_or_more m.to_send) [
    | inl none_announced ↦ inl none_announced
    | inr pos ↦ inr (h pos fits)
  ]

  act-keeps : (a : Act) (m : Card c) → false ≡ true → Sent m → Sent (perform c a m)
  act-keeps a m never h = absurd (cc never)

  act-sends : (a : Act) (m : Card c) → is_send_action a ≡ true → Sent (perform c a m)
  act-sends send_action m s =
      let (_, b, n) = perform-is_quiet c send_action m refl in
      rw (b, n, perform-send_action-log c m)
        (λ pos fits.
          parts-Joint _ (send_stage c m.to_send m.buffer) m.log
            (send_stage-take c m.to_send m.buffer pos (omega (arith, c.size_content m.buffer))))
  act-sends _ m s = absurd (cc s)

module _ (c : CircularBuffer) (ssid pass : String)
    (e : Engine State Own Act (Card c) (own_test c)) where
  table_secures :
      (s : State)
      → let way =
          secures
            (driver c ssid pass e)
            (Sent c)
            (λ a. false)
            is_send_action
            (λ i. act-keeps c)
            (λ i. act-sends c)
            in_flight
            s in
        (every way (globals_of (driver c ssid pass e) s) ≡ true)
        × (every way (locals_of (driver c ssid pass e) s) ≡ true)
  unfolding state_def
  table_secures State.init = (refl, refl)
  table_secures _ = (refl, refl)

  unfoldable pub Followed : Card c → Type 0
  Followed m = in_flight m.state ≡ true → Sent c m

  run-Followed : (i : e.Input) (m : Card c) → Followed m → Followed (run c ssid pass e i m)
  unfolding Followed
  run-Followed =
      run-within (driver c ssid pass e) (Sent c) (λ a. false) is_send_action (λ i. act-keeps c)
        (λ i. act-sends c) in_flight (λ s m h. h) (λ i m h. h) table_secures

  send-Followed :
      (bytes : Bytes) (m : Card c)
      → Held c ssid pass e m
      → Followed m
      → Followed (record m { buffer = (c.store bytes m.buffer).0 })
  unfolding Followed Held
  send-Followed bytes m held h s pos _ =
      let fits = held (in_flight-in_round m.state s) in
      let (more, stored) = c.store_content bytes m.buffer in
      rw (stored, take-le_append m.to_send (c.content m.buffer) more fits) (h s pos fits)

  pub call-Followed :
      (x : Call e.Input) (m : Card c)
      → Held c ssid pass e m
      → Followed m
      → Followed (call c ssid pass e x m)
  unfolding call Followed
  call-Followed (runs i) m held h = unfold Followed in (run-Followed i m h)
  call-Followed (sends bytes) m held h = unfold Followed in (send-Followed bytes m held h)
  call-Followed _ m held h = h

  trace-Followed :
      (xs : List (Call e.Input)) (m : Card c)
      → Held c ssid pass e m
      → Followed m
      → Followed (trace c ssid pass e xs m)
  unfolding trace
  trace-Followed [] m held h = h
  trace-Followed (x ∷ xs) m held h =
      trace-Followed xs (call c ssid pass e x m) (call-Held c ssid pass e x m held)
        (call-Followed x m held h)

-- A run leaves the buffer as it is, or, in NETWORK_SEND and in no other state, on a line "SEND OK",
-- it drops from its front just the announced number of bytes, which are all there; and unless that
-- number is zero, just these bytes are what was transmitted last, part by part and with nothing
-- between the parts.
pub confirmed_is_transmitted :
    (c : CircularBuffer) (ssid pass : String) (e : Engine State Own Act (Card c) (own_test c))
    (xs : List (Call e.Input)) (i : e.Input)
    → let m = trace c ssid pass e xs (new c) in
      let m' = run c ssid pass e i m in
      let n = m.to_send in
      (m'.buffer ≡ m.buffer)
      ⊎ ((m.state ≡ State.network_send)
          × (e.holds m i (eq "SEND OK") ≡ true)
          × (n ≤ length (c.content m.buffer))
          × ((n ≡ 0) ⊎ Joint (take n (c.content m.buffer)) m.log)
          × (c.content m'.buffer ≡ drop n (c.content m.buffer)))
unfolding Followed
confirmed_is_transmitted c ssid pass e xs i = elim (sent_ok_is_dropped c ssid pass e xs i) [
  | inl kept ↦ inl kept
  | inr (p, sent_ok, fits, dropped) ↦
      let follows =
        trace-Followed c ssid pass e xs (new c) (unfold Held in (λ s. absurd (cc s)))
          (unfold Followed in (λ s. absurd (cc s))) in
      inr (
        p,
        sent_ok,
        fits,
        some_in_flight c (trace c ssid pass e xs (new c)) (follows (ap in_flight p)) fits,
        dropped,
      )
]
