-- ===== src/Interface.antt =====
-- What a client sees of a driver: src/ICommunicationInterface.h and src/AbstractModem.h. The calls
-- of the client's callback are outputs in the driver's log. `M` is the state of the driver, and `I`
-- what a call of `run` finds.
use libcomms.Base.{
  ℕ, ◌<◌, ◌≡◌, ◌⊎◌, inl, inr, Bool, true, false, List, [], ◌∷◌, Bytes, length, Bool-cases,
}
use libcomms.Modem.{Output}
use libcomms.Modem.Sms.{SmsCollection}

-- The abstract member functions of ICommunicationInterface. `send` answers a number of bytes, and
-- `connect` whether it was accepted.
pub record CommunicationInterface (M I : Type 0) : Type 0 where
  pub connect : Bytes → ℕ → M → M × Bool
  pub is_connected : M → Bool
  pub disconnect : ℕ → M → M
  pub send : Bytes → M → M × ℕ
  pub is_sending : M → Bool
  pub run : I → M → M

-- What AbstractModem adds.
pub record AbstractModem (M I : Type 0) : Type 0 where
  pub communication : CommunicationInterface M I
  pub power : I → Bool → M → M
  pub get_sms_collection : M → SmsCollection

-- Laws for a client that polls isSending: `Reached` are the states that the driver gets into, and
-- `Delivered` those in which it takes what it sent for delivered.
pub record IsPollable {M I : Type 0} (c : CommunicationInterface M I) (log : M → List Output)
    (Reached Delivered : M → Type 0) : Type 0 where
  -- A send is accepted as a whole, or refused with no effect.
  pub send_whole_or_none :
      (bytes : Bytes) (m : M)
      → let (m', n) = c.send bytes m in
        ((n ≡ 0) × (m' ≡ m)) ⊎ ((n ≡ length bytes) × (0 < n → c.is_sending m' ≡ true))
  -- The calls of the client tell it nothing, and connect or disconnect nothing themselves.
  pub calls_are_quiet :
      (bytes : Bytes) (n : ℕ) (m : M)
      → (log (c.connect bytes n m).0 ≡ log m)
        × (log (c.disconnect n m) ≡ log m)
        × (log (c.send bytes m).0 ≡ log m)
        × (c.is_connected (c.connect bytes n m).0 ≡ c.is_connected m)
        × (c.is_connected (c.disconnect n m) ≡ c.is_connected m)
        × (c.is_connected (c.send bytes m).0 ≡ c.is_connected m)
  pub run-Reached : (i : I) (m : M) → Reached m → Reached (c.run i m)
  -- A run ends the sending where the driver takes it for delivered, or with the connection.
  pub ends :
      (i : I) (m : M)
      → Reached m
      → c.is_sending m ≡ true
      → c.is_sending (c.run i m) ≡ false
      → Delivered m ⊎ ((c.is_connected m ≡ true) × (c.is_connected (c.run i m) ≡ false))

module _ {M I : Type 0} (c : CommunicationInterface M I) where
  abbrev pub all_runs : List I → M → M
  all_runs [] m = m
  all_runs (i ∷ is) m = all_runs is (c.run i m)

  -- One of these runs finds the driver so.
  abbrev pub Somewhere : (I → M → Type 0) → List I → M → Type 0
  Somewhere P [] m = ⊥
  Somewhere P (i ∷ is) m = P i m ⊎ Somewhere P is (c.run i m)

module _ {M I : Type 0} {c : CommunicationInterface M I} {log : M → List Output}
    {Reached Delivered : M → Type 0} (r : IsPollable c log Reached Delivered) where
  abbrev pub Ends : I → M → Type 0
  Ends i m = Delivered m ⊎ ((c.is_connected m ≡ true) × (c.is_connected (c.run i m) ≡ false))

  -- A client that polls isSending: between two calls of it that answer true and false, one of the
  -- runs ended the sending.
  pub sending-Ends :
      (is : List I) (m : M)
      → Reached m
      → c.is_sending m ≡ true
      → c.is_sending (all_runs c is m) ≡ false
      → Somewhere c Ends is m
  sending-Ends [] m h sends stops = absurd (cc (sends, stops))
  sending-Ends (i ∷ is) m h sends stops = elim (Bool-cases (c.is_sending (c.run i m))) [
    | inl still ↦ inr (sending-Ends is (c.run i m) (r.run-Reached i m h) still stops)
    | inr ended ↦ inl (r.ends i m h sends ended)
  ]
