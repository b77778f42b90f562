-- ===== src/Bg96/Run/Rounds.antt =====
-- The circular buffer in the states of the BG96's driver in which a send is under way.
use libcomms.Base.{ℕ, ◌≤◌, ◌≡◌, refl, Bool, true, false, List, [], ◌∷◌, Bytes, length, arith}
use libcomms.Circular.{CircularBuffer}
use libcomms.Circular.Parts.{store-grows}
use libcomms.Machine.{Engine}
use libcomms.Machine.Driving.{globals_of, locals_of}
use libcomms.Machine.Rounds.{secures, run-within}
use libcomms.Machine.Steps.{every}
use libcomms.Bg96.Connections.{BinaryEvent}
use libcomms.Bg96.Driver.{Modem, Own, Act, own_test, prepare_action, is_quiet, perform}
use libcomms.Bg96.Driver.Effects.{perform-is_quiet, perform-prepare}
use libcomms.Bg96.Outbox.{prepare}
use libcomms.Bg96.Run.{Call, runs, sends, new, context, driver, ready-Same, run, call, trace}
use libcomms.Bg96.State.{State}
use libcomms.Bg96.Table.{state_def}

-- Between the announcement of a number of bytes and the decision to drop them.
abbrev pub in_round : State → Bool
in_round State.network_prepare_send = true
in_round State.network_send = true
in_round State.network_ack_check = true
in_round State.network_ack_check_parse = true
in_round _ = false

abbrev is_prepare : Act → Bool
is_prepare prepare_action = true
is_prepare _ = false

module _ (c : CircularBuffer) where
  -- No more bytes are announced than wait.
  abbrev pub Announced : Modem c → Type 0
  Announced m = m.to_send ≤ length (c.content m.buffer)

  prepare-fits : (event : Bytes) (b : c.Buffer) → (prepare c event b).0 ≤ length (c.content b)
  unfolding prepare
  prepare-fits event b = ground (arith, c.size_content b)

module _ (c : CircularBuffer) (max : ℕ) (e : Engine State Own Act (Modem c) (own_test c max))
    (event : e.Input → BinaryEvent) where
  act-keeps :
      (i : e.Input) (a : Act) (m : Modem c)
      → is_quiet a ≡ true
      → Announced c m
      → Announced c (perform c (context c max e event i) a m)
  act-keeps i a m q h =
      let (s, k, b, n) = perform-is_quiet c (context c max e event i) a m q in rw (b, n) h

  act-makes :
      (i : e.Input) (a : Act) (m : Modem c)
      → is_prepare a ≡ true
      → Announced c (perform c (context c max e event i) a m)
  act-makes i prepare_action m p =
      let (n, b) = perform-prepare c (context c max e event i) m in
      rw (b, n) (prepare-fits c (event i).bytes m.buffer)
  act-makes i _ m p = absurd (cc p)

  table_secures :
      (s : State)
      → let way =
          secures
            (driver c max e event)
            (Announced c)
            is_quiet
            is_prepare
            act-keeps
            act-makes
            in_round
            s in
        (every way (globals_of (driver c max e event) s) ≡ true)
        × (every way (locals_of (driver c max e event) s) ≡ true)
  unfolding state_def
  table_secures State.shut_down = (refl, refl)
  table_secures _ = (refl, refl)

  unfoldable pub Held : Modem c → Type 0
  Held m = in_round m.state ≡ true → Announced c m

  run-Held : (i : e.Input) (m : Modem c) → Held m → Held (run c max e event i m)
  unfolding Held
  run-Held =
      run-within (driver c max e event) (Announced c) is_quiet is_prepare act-keeps act-makes
        in_round (λ s m h. h)
        (λ i m h. let (s, k, b, n) = ready-Same c max e event i m in rw (b, n) h) table_secures

  pub call-Held : (x : Call e.Input) (m : Modem c) → Held m → Held (call c max e event x m)
  unfolding call Held
  call-Held (runs i) m h = unfold Held in run-Held i m h
  call-Held (sends bytes) m h =
      λ r. let grows = store-grows c bytes m.buffer in let before = h r in omega arith
  call-Held _ m h = h

  trace-Held : (xs : List (Call e.Input)) (m : Modem c) → Held m → Held (trace c max e event xs m)
  unfolding trace
  trace-Held [] m h = h
  trace-Held (x ∷ xs) m h = trace-Held xs (call c max e event x m) (call-Held x m h)

-- After any history of calls and runs, from the announcement of a number of bytes until the decision
-- to drop them the buffer holds at least that many.
pub trace_announced :
    (c : CircularBuffer) (max : ℕ) (e : Engine State Own Act (Modem c) (own_test c max))
    (event : e.Input → BinaryEvent) (xs : List (Call e.Input)) (has_callback status_pin : Bool)
    → let m = trace c max e event xs (new c has_callback status_pin) in
      in_round m.state ≡ true → m.to_send ≤ length (c.content m.buffer)
unfolding Held
trace_announced c max e event xs has_callback status_pin =
    trace-Held c max e event xs (new c has_callback status_pin) (λ h. absurd (cc h))
