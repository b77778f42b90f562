-- ===== src/Esp8266/Run/Conserved.antt =====
-- What becomes of the bytes that the ESP8266's driver accepts.
use libcomms.Base.{
  ◌≡◌, ◌∙◌, refl, sym, ap, inl, inr, String, List, [], ◌∷◌, ◌++◌, Bytes, take, ◌⊎◌, true,
}
use libcomms.Circular.{CircularBuffer}
use libcomms.Circular.Conserves.{Conserves, same-Conserves, drop-Conserves, then-Conserves}
use libcomms.Esp8266.Run.InFlight.{in_flight, some_in_flight, Followed, call-Followed}
use libcomms.Modem.InFlight.{Joint}
use libcomms.Machine.{eq}
use libcomms.Machine.{Engine}
use libcomms.Esp8266.Driver.{Card, Own, Act, own_test}
use libcomms.Esp8266.Run.{Call, runs, sends, new, call, trace, capacity}
use libcomms.Esp8266.Run.Drops.{run-drops}
use libcomms.Esp8266.Run.Rounds.{Held, call-Held}
use libcomms.Esp8266.State.{State}

module _ (c : CircularBuffer) (ssid pass : String)
    (e : Engine State Own Act (Card c) (own_test c)) where
  -- What the buffer stores of a send.
  abbrev accepted_by : Call e.Input → Card c → Bytes
  accepted_by (sends bytes) m = (c.store_content bytes m.buffer).0
  accepted_by _ m = []

  pub accepted : List (Call e.Input) → Card c → Bytes
  accepted [] m = []
  accepted (x ∷ xs) m = accepted_by x m ++ accepted xs (call c ssid pass e x m)

  -- What a call may take off the front of the buffer.
  pub Delivers : Call e.Input → Card c → Bytes → Type 0
  Delivers (runs i) m bytes =
      (m.state ≡ State.network_send)
      × (e.holds m i (eq "SEND OK") ≡ true)
      × (bytes ≡ take m.to_send (c.content m.buffer))
      × Joint bytes m.log
  Delivers _ m bytes = ⊥

  -- The bytes left the front in the calls of this history that delivered them.
  pub DeliveredIn : List (Call e.Input) → Card c → Bytes → Type 0
  unfolding Delivers
  DeliveredIn [] m bytes = bytes ≡ []
  DeliveredIn (x ∷ xs) m bytes =
      (piece : Bytes) × (rest : Bytes) × (bytes ≡ piece ++ rest)
      × ((piece ≡ []) ⊎ Delivers x m piece)
      × DeliveredIn xs (call c ssid pass e x m) rest

  abbrev Advances : Call e.Input → Card c → Type 0
  Advances x m =
      (piece : Bytes) × ((piece ≡ []) ⊎ Delivers x m piece)
      × Conserves (c.content m.buffer) (accepted_by x m) piece
          (c.content (call c ssid pass e x m).buffer)

  run-Advances :
      (i : e.Input) (m : Card c)
      → Held c ssid pass e m
      → Followed c ssid pass e m
      → Advances (runs i) m
  unfolding Held Followed Delivers call
  run-Advances i m held follows = elim (run-drops c ssid pass e i m held) [
    | inl kept ↦ ([], inl refl, same-Conserves _ _ (ap c.content kept))
    | inr (p, sent_ok, fits, dropped) ↦ (
      take m.to_send (c.content m.buffer),
      elim (some_in_flight c m (follows (ap in_flight p)) fits) [
        | inl none_announced ↦ inl (rw none_announced refl)
        | inr flies ↦ inr (p, sent_ok, refl, flies)
      ],
      drop-Conserves m.to_send _ _ dropped,
    )
  ]

  call-Advances :
      (x : Call e.Input) (m : Card c)
      → Held c ssid pass e m
      → Followed c ssid pass e m
      → Advances x m
  unfolding call
  call-Advances (runs i) m held follows = run-Advances i m held follows
  call-Advances (sends bytes) m held follows =
      ([], inl refl, sym (c.store_content bytes m.buffer).1)
  call-Advances _ m held follows = ([], inl refl, same-Conserves _ _ refl)

  trace-DeliveredIn :
      (xs : List (Call e.Input)) (m : Card c)
      → Held c ssid pass e m
      → Followed c ssid pass e m
      → (left : Bytes) × DeliveredIn xs m left
        × Conserves
            (c.content m.buffer)
            (accepted xs m)
            left
            (c.content (trace c ssid pass e xs m).buffer)
  unfolding accepted DeliveredIn trace
  trace-DeliveredIn [] m held follows = ([], refl, same-Conserves _ _ refl)
  trace-DeliveredIn (x ∷ xs) m held follows =
      let m' = call c ssid pass e x m in
      let (piece, delivered, conserves) = call-Advances x m held follows in
      let (rest, leave, conserve) =
        trace-DeliveredIn xs m' (call-Held c ssid pass e x m held)
          (call-Followed c ssid pass e x m held follows) in
      (
        piece ++ rest,
        (piece, rest, refl, delivered, leave),
        then-Conserves (c.content m.buffer) (accepted_by x m) piece (c.content m'.buffer)
            (accepted xs m') rest (c.content (trace c ssid pass e xs m').buffer) conserves conserve,
      )

-- After any history of calls and runs, what the buffer accepted is, in this order, what left its
-- front and what waits. What left did so in pieces, each in a run that found the driver in
-- NETWORK_SEND and a line "SEND OK", and each the announced bytes of that moment, which were
-- transmitted last, part by part with nothing between.
pub accepted_passes :
    (c : CircularBuffer) (ssid pass : String) (e : Engine State Own Act (Card c) (own_test c))
    (xs : List (Call e.Input))
    → let start = new c in
      (left : Bytes) × DeliveredIn c ssid pass e xs start left
      × (accepted c ssid pass e xs start ≡ left ++ c.content (trace c ssid pass e xs start).buffer)
unfolding Held Followed
accepted_passes c ssid pass e xs =
    let start = new c in
    let (left, leave, conserves) =
      trace-DeliveredIn c ssid pass e xs start (λ s. absurd (cc s)) (λ s. absurd (cc s)) in
    (
      left,
      leave,
      ap (λ w. w ++ accepted c ssid pass e xs start) (sym (c.created_content capacity)) ∙ conserves,
    )
