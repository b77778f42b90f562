-- ===== src/Bg96/Run/Conserved.antt =====
-- What becomes of the bytes that the BG96's driver accepts.
use libcomms.Base.{
  ℕ, ◌≡◌, ◌∙◌, refl, sym, ap, inl, inr, Bool, List, [], ◌∷◌, ◌++◌, Bytes, take, ◌⊎◌,
}
use libcomms.Circular.{CircularBuffer}
use libcomms.Circular.Conserves.{Conserves, same-Conserves, drop-Conserves, then-Conserves}
use libcomms.Bg96.Run.InFlight.{ack_poll, in_flight, some-InFlight, Followed, call-Followed}
use libcomms.Modem.InFlight.{InFlight}
use libcomms.Machine.{Engine}
use libcomms.Bg96.Connections.{BinaryEvent}
use libcomms.Bg96.Driver.{Modem, Own, Act, own_test}
use libcomms.Bg96.Run.{Call, runs, sends, new, call, trace, capacity}
use libcomms.Bg96.Run.Drops.{run-drops}
use libcomms.Bg96.Run.Rounds.{Held, call-Held}
use libcomms.Bg96.State.{State}

module _ (c : CircularBuffer) (max : ℕ) (e : Engine State Own Act (Modem c) (own_test c max))
    (event : e.Input → BinaryEvent) where
  -- What the buffer stores of a send.
  abbrev accepted_by : Call e.Input → Modem c → Bytes
  accepted_by (sends bytes) m = (c.store_content bytes m.buffer).0
  accepted_by _ m = []

  pub accepted : List (Call e.Input) → Modem c → Bytes
  accepted [] m = []
  accepted (x ∷ xs) m = accepted_by x m ++ accepted xs (call c max e event x m)

  -- What a call may take off the front of the buffer.
  pub Delivers : Call e.Input → Modem c → Bytes → Type 0
  Delivers (runs i) m bytes =
      (m.state ≡ State.network_ack_check_parse)
      × (m.acks.sent ≡ m.acks.acked)
      × (bytes ≡ take m.to_send (c.content m.buffer))
      × InFlight ack_poll bytes m.log
  Delivers _ m bytes = ⊥

  -- The bytes left the front in the calls of this history that delivered them.
  pub DeliveredIn : List (Call e.Input) → Modem c → Bytes → Type 0
  unfolding Delivers
  DeliveredIn [] m bytes = bytes ≡ []
  DeliveredIn (x ∷ xs) m bytes =
      (piece : Bytes) × (rest : Bytes) × (bytes ≡ piece ++ rest)
      × ((piece ≡ []) ⊎ Delivers x m piece)
      × DeliveredIn xs (call c max e event x m) rest

  abbrev Advances : Call e.Input → Modem c → Type 0
  Advances x m =
      (piece : Bytes) × ((piece ≡ []) ⊎ Delivers x m piece)
      × Conserves (c.content m.buffer) (accepted_by x m) piece
          (c.content (call c max e event x m).buffer)

  run-Advances :
      (i : e.Input) (m : Modem c)
      → Held c max e event m
      → Followed c max e event m
      → Advances (runs i) m
  unfolding Held Followed Delivers call
  run-Advances i m held follows = elim (run-drops c max e event i m held) [
    | inl kept ↦ ([], inl refl, same-Conserves _ _ (ap c.content kept))
    | inr (p, acked, fits, dropped) ↦ (
      take m.to_send (c.content m.buffer),
      elim (some-InFlight c m (follows (ap in_flight p)) fits) [
        | inl none_announced ↦ inl (rw none_announced refl)
        | inr flies ↦ inr (p, acked, refl, flies)
      ],
      drop-Conserves m.to_send _ _ dropped,
    )
  ]

  call-Advances :
      (x : Call e.Input) (m : Modem c)
      → Held c max e event m
      → Followed c max e event m
      → Advances x m
  unfolding call
  call-Advances (runs i) m held follows = run-Advances i m held follows
  call-Advances (sends bytes) m held follows =
      ([], inl refl, sym (c.store_content bytes m.buffer).1)
  call-Advances _ m held follows = ([], inl refl, same-Conserves _ _ refl)

  trace-DeliveredIn :
      (xs : List (Call e.Input)) (m : Modem c)
      → Held c max e event m
      → Followed c max e event m
      → (left : Bytes) × DeliveredIn xs m left
        × Conserves
            (c.content m.buffer)
            (accepted xs m)
            left
            (c.content (trace c max e event xs m).buffer)
  unfolding accepted DeliveredIn trace
  trace-DeliveredIn [] m held follows = ([], refl, same-Conserves _ _ refl)
  trace-DeliveredIn (x ∷ xs) m held follows =
      let m' = call c max e event x m in
      let (piece, delivered, conserves) = call-Advances x m held follows in
      let (rest, leave, conserve) =
        trace-DeliveredIn xs m' (call-Held c max e event x m held)
          (call-Followed c max e event x m held follows) in
      (
        piece ++ rest,
        (piece, rest, refl, delivered, leave),
        then-Conserves (c.content m.buffer) (accepted_by x m) piece (c.content m'.buffer)
            (accepted xs m') rest (c.content (trace c max e event xs m').buffer) conserves conserve,
      )

-- After any history of calls and runs, what the buffer accepted is, in this order, what left its
-- front and what waits. What left did so in pieces, each in a run that found the driver in
-- NETWORK_ACK_CHECK_PARSE with equal numbers stored for the sent and the acknowledged bytes, and each
-- the announced bytes of that moment, which were transmitted last but for polls for acknowledgements.
pub accepted_leaves_or_waits :
    (c : CircularBuffer) (max : ℕ) (e : Engine State Own Act (Modem c) (own_test c max))
    (event : e.Input → BinaryEvent) (xs : List (Call e.Input)) (has_callback status_pin : Bool)
    → let start = new c has_callback status_pin in
      (left : Bytes) × DeliveredIn c max e event xs start left
      × (accepted c max e event xs start ≡ left ++ c.content (trace c max e event xs start).buffer)
unfolding Held Followed
accepted_leaves_or_waits c max e event xs has_callback status_pin =
    let start = new c has_callback status_pin in
    let (left, leave, conserves) =
      trace-DeliveredIn c max e event xs start (λ s. absurd (cc s)) (λ s. absurd (cc s)) in
    (
      left,
      leave,
      ap (λ w. w ++ accepted c max e event xs start) (sym (c.created_content capacity)) ∙ conserves,
    )
