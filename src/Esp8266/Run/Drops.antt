-- ===== src/Esp8266/Run/Drops.antt =====
-- When the ESP8266's driver takes bytes out of its circular buffer.
use libcomms.Esp8266.Run.Rounds.{in_round, announced_waits}
use libcomms.Base.{
  ℕ, ◌≤◌, ◌≡◌, ◌∙◌, refl, ap, subst, ◌⊎◌, inl, inr, Bool, true, false, not, ◌&&◌, ◌||◌, some, List,
  String, length, drop, arith, Option-cases,
}
use libcomms.Circular.{CircularBuffer}
use libcomms.Machine.{Engine, Guard, Transition, first_holding, eq}
use libcomms.Machine.Driving.{follow, picked, globals_of, locals_of}
use libcomms.Machine.Rounds.{actions_of, view-follow, quiet_until, one_or_three, last-follow}
use libcomms.Machine.Steps.{every, pick-every}
use libcomms.Esp8266.Driver.{
  Card, Own, Act, own_test, prepare_action, declare_action, is_quiet, perform, perform-is_quiet,
  perform-prepare,
}
use libcomms.Esp8266.Outbox.{declare}
use libcomms.Esp8266.Run.{Call, new, driver, run, trace}
use libcomms.Esp8266.State.{State}
use libcomms.Esp8266.Table.{network_send_def, state_def}

abbrev is_declare : Act → Bool
is_declare declare_action = true
is_declare _ = false

abbrev keeps_buffer : Act → Bool
keeps_buffer a = not (is_declare a)

abbrev is_send : State → Bool
is_send State.network_send = true
is_send _ = false

is_send_lem : (s : State) → is_send s ≡ true → s ≡ State.network_send
is_send_lem State.network_send h = refl
is_send_lem _ h = cc

module _ (c : CircularBuffer) (ssid pass : String)
    (e : Engine State Own Act (Card c) (own_test c)) where
  -- The one transition that drops.
  abbrev is_declare_read : State → Bool
  is_declare_read State.network_declare_read = true
  is_declare_read _ = false

  drops : State → Transition State Own Act → Bool
  drops s t =
      every keeps_buffer (actions_of (driver c ssid pass e) s t)
      || (is_send s
          && is_declare_read t.target
          && quiet_until is_quiet is_declare (actions_of (driver c ssid pass e) s t))

  table_drops :
      (s : State)
      → (every (drops s) (globals_of (driver c ssid pass e) s) ≡ true)
        × (every (drops s) (locals_of (driver c ssid pass e) s) ≡ true)
  unfolding state_def drops
  table_drops State.init = (refl, refl)
  table_drops _ = (refl, refl)

  drops_lem :
      (s : State) (t : Transition State Own Act)
      → drops s t ≡ true
      → (every keeps_buffer (actions_of (driver c ssid pass e) s t) ≡ true)
        ⊎ ((is_send s ≡ true)
            × (is_declare_read t.target ≡ true)
            × (quiet_until is_quiet is_declare (actions_of (driver c ssid pass e) s t) ≡ true))
  unfolding drops
  drops_lem s t h = one_or_three _ _ _ _ h

  sent_ok :
      (holds : Guard Own → Bool) (t : Transition State Own Act)
      → first_holding holds network_send_def.transitions ≡ some t
      → is_declare_read t.target ≡ true
      → holds (eq "SEND OK") ≡ true
  unfolding first_holding
  sent_ok holds t h d = ground arith

  sent_ok_picked :
      (i : e.Input) (s : State) (m : Card c) (t : Transition State Own Act)
      → s ≡ State.network_send
      → e.pick m i (globals_of (driver c ssid pass e) s) (locals_of (driver c ssid pass e) s)
        ≡ some t
      → is_declare_read t.target ≡ true
      → e.holds m i (eq "SEND OK") ≡ true
  unfolding state_def first_holding
  sent_ok_picked i s m t h p d =
      elim (e.pick_some m i _ _ (
        subst
          (λ x.
            e.pick m i (globals_of (driver c ssid pass e) x) (locals_of (driver c ssid pass e) x)
            ≡ some t)
          h p)) [ inl global ↦ absurd (ground arith) | inr local ↦ sent_ok (e.holds m i) t local d ]

  abbrev waiting : Card c → c.Buffer × ℕ
  waiting m = (m.buffer, m.to_send)

  waiting-act :
      (i : e.Input) (a : Act) (m : Card c) → is_quiet a ≡ true → waiting (perform c a m) ≡ waiting m
  waiting-act i a m q = let (s, b, n) = perform-is_quiet c a m q in rw (b, n) refl

  buffer-act :
      (i : e.Input) (a : Act) (m : Card c)
      → keeps_buffer a ≡ true
      → (perform c a m).buffer ≡ m.buffer
  buffer-act i prepare_action m q = (perform-prepare c m).1
  buffer-act i declare_action m q = absurd (cc q)
  buffer-act i a m q = (perform-is_quiet c a m refl).1

  declare-act :
      (i : e.Input) (a : Act) (m : Card c)
      → is_declare a ≡ true
      → m.to_send ≤ length (c.content m.buffer)
      → c.content (perform c a m).buffer ≡ drop m.to_send (c.content m.buffer)
  unfolding perform declare
  declare-act i declare_action m p h =
      c.declare_read_content m.to_send m.buffer (omega (arith, c.size_content m.buffer))
  declare-act i _ m p h = absurd (cc p)

  follow-declares :
      (i : e.Input) (s : State) (t : Transition State Own Act) (m : Card c)
      → quiet_until is_quiet is_declare (actions_of (driver c ssid pass e) s t) ≡ true
      → m.to_send ≤ length (c.content m.buffer)
      → c.content (follow (driver c ssid pass e) i s (some t) m).buffer
        ≡ drop m.to_send (c.content m.buffer)
  follow-declares i s t m q h =
      let (before, a, last, same, done) =
        last-follow (driver c ssid pass e) waiting is_quiet waiting-act i s t m is_declare q in
      let b : before.buffer ≡ m.buffer = ap (λ w. w.0) same in
      let n : before.to_send ≡ m.to_send = ap (λ w. w.1) same in
      let declared = declare-act i a before last (rw (b, n) h) in
      ap (λ x. c.content x.buffer) done ∙ declared ∙ rw (b, n) refl

  pub run-drops :
      (i : e.Input) (m : Card c)
      → (in_round m.state ≡ true → m.to_send ≤ length (c.content m.buffer))
      → let m' = run c ssid pass e i m in
        (m'.buffer ≡ m.buffer)
        ⊎ ((m.state ≡ State.network_send)
            × (e.holds m i (eq "SEND OK") ≡ true)
            × (m.to_send ≤ length (c.content m.buffer))
            × (c.content m'.buffer ≡ drop m.to_send (c.content m.buffer)))
  unfolding libcomms.Machine.Driving.run
  run-drops i m held = elim (Option-cases (picked (driver c ssid pass e) i m)) [
    | inl stays ↦ rw (stays, follow) (inl refl)
    | inr (t, taken) ↦
        let (g, l) = table_drops m.state in
        let way = (pick-every e (drops m.state) m i _ _ t g l (unfold picked in taken)).0 in
        rw taken (elim (drops_lem m.state t way) [
          | inl kept ↦ inl (
              view-follow (driver c ssid pass e) (λ x. x.buffer) keeps_buffer buffer-act i m.state t
                m kept)
          | inr (p, target, quiet) ↦
              let s = is_send_lem m.state p in
              let fits = held (ap in_round s) in
              inr (
                s,
                sent_ok_picked i m.state m t s (unfold picked in taken) target,
                fits,
                follow-declares i m.state t m quiet fits,
              )
        ])
  ]

-- A run leaves the buffer as it is, or, in NETWORK_SEND and in no other state, on a line "SEND OK",
-- it drops from its front just the announced number of bytes, which are all there.
pub sent_ok_is_dropped :
    (c : CircularBuffer) (ssid pass : String) (e : Engine State Own Act (Card c) (own_test c))
    (xs : List (Call e.Input)) (i : e.Input)
    → let m = trace c ssid pass e xs (new c) in
      let m' = run c ssid pass e i m in
      (m'.buffer ≡ m.buffer)
      ⊎ ((m.state ≡ State.network_send)
          × (e.holds m i (eq "SEND OK") ≡ true)
          × (m.to_send ≤ length (c.content m.buffer))
          × (c.content m'.buffer ≡ drop m.to_send (c.content m.buffer)))
sent_ok_is_dropped c ssid pass e xs i =
    run-drops c ssid pass e i _ (announced_waits c ssid pass e xs)
