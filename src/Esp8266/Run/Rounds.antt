-- ===== src/Esp8266/Run/Rounds.antt =====
-- The circular buffer of the ESP8266's driver in the states in which a send is under way.
use libcomms.Base.{◌≤◌, ◌≡◌, refl, Bool, true, false, List, [], ◌∷◌, String, length, arith}
use libcomms.Circular.{CircularBuffer}
use libcomms.Circular.Parts.{store-grows}
use libcomms.Machine.{Engine}
use libcomms.Machine.Driving.{globals_of, locals_of}
use libcomms.Machine.Rounds.{secures, run-within}
use libcomms.Machine.Steps.{every}
use libcomms.Esp8266.Driver.{
  Card, Own, Act, own_test, prepare_action, is_quiet, perform, perform-is_quiet, perform-prepare,
}
use libcomms.Esp8266.Outbox.{prepare}
use libcomms.Esp8266.Run.{Call, runs, sends, new, driver, run, call, trace}
use libcomms.Esp8266.State.{State}
use libcomms.Esp8266.Table.{state_def}

-- Between the announcement of a number of bytes and the decision to drop them.
abbrev pub in_round : State → Bool
in_round State.network_prepare_send = true
in_round State.network_send = true
in_round _ = false

abbrev is_prepare : Act → Bool
is_prepare prepare_action = true
is_prepare _ = false

module _ (c : CircularBuffer) where
  -- No more bytes are announced than wait.
  abbrev pub Announced : Card c → Type 0
  Announced m = m.to_send ≤ length (c.content m.buffer)

  prepare-fits : (b : c.Buffer) → (prepare c b).0 ≤ length (c.content b)
  unfolding prepare
  prepare-fits b = ground (arith, c.size_content b)

  act-keeps : (a : Act) (m : Card c) → is_quiet a ≡ true → Announced m → Announced (perform c a m)
  act-keeps a m q h = let (s, b, n) = perform-is_quiet c a m q in rw (b, n) h

  act-makes : (a : Act) (m : Card c) → is_prepare a ≡ true → Announced (perform c a m)
  act-makes prepare_action m p =
      let (n, b) = perform-prepare c m in rw (b, n) (prepare-fits m.buffer)
  act-makes _ m p = absurd (cc p)

module _ (c : CircularBuffer) (ssid pass : String)
    (e : Engine State Own Act (Card c) (own_test c)) where
  table_secures :
      (s : State)
      → let way =
          secures
            (driver c ssid pass e)
            (Announced c)
            is_quiet
            is_prepare
            (λ i. act-keeps c)
            (λ i. act-makes c)
            in_round
            s in
        (every way (globals_of (driver c ssid pass e) s) ≡ true)
        × (every way (locals_of (driver c ssid pass e) s) ≡ true)
  unfolding state_def
  table_secures State.init = (refl, refl)
  table_secures _ = (refl, refl)

  unfoldable pub Held : Card c → Type 0
  Held m = in_round m.state ≡ true → Announced c m

  run-Held : (i : e.Input) (m : Card c) → Held m → Held (run c ssid pass e i m)
  unfolding Held
  run-Held =
      run-within (driver c ssid pass e) (Announced c) is_quiet is_prepare (λ i. act-keeps c)
        (λ i. act-makes c) in_round (λ s m h. h) (λ i m h. h) table_secures

  pub call-Held : (x : Call e.Input) (m : Card c) → Held m → Held (call c ssid pass e x m)
  unfolding call Held
  call-Held (runs i) m h = unfold Held in run-Held i m h
  call-Held (sends bytes) m h =
      λ r. let grows = store-grows c bytes m.buffer in let before = h r in omega arith
  call-Held _ m h = h

  trace-Held : (xs : List (Call e.Input)) (m : Card c) → Held m → Held (trace c ssid pass e xs m)
  unfolding trace
  trace-Held [] m h = h
  trace-Held (x ∷ xs) m h = trace-Held xs (call c ssid pass e x m) (call-Held x m h)

-- After any history of calls and runs, from the announcement of a number of bytes until the decision
-- to drop them the buffer holds at least that many.
pub announced_waits :
    (c : CircularBuffer) (ssid pass : String) (e : Engine State Own Act (Card c) (own_test c))
    (xs : List (Call e.Input))
    → let m = trace c ssid pass e xs (new c) in
      in_round m.state ≡ true → m.to_send ≤ length (c.content m.buffer)
unfolding Held
announced_waits c ssid pass e xs = trace-Held c ssid pass e xs (new c) (λ h. absurd (cc h))
