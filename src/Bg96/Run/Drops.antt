-- ===== src/Bg96/Run/Drops.antt =====
-- When the BG96's driver takes bytes out of its circular buffer.
use libcomms.Base.{
  ℕ, ◌≤◌, ◌≡◌, ◌∙◌, refl, ap, sym, subst, ◌⊎◌, inl, inr, Bool, true, false, not, ◌&&◌, ◌||◌, some,
  List, length, drop, arith, Option-cases,
}
use libcomms.Circular.{CircularBuffer}
use libcomms.Machine.{Engine, Guard, Transition, own}
use libcomms.Machine.Driving.{follow, picked, globals_of, locals_of}
use libcomms.Machine.Rounds.{actions_of, view-follow, quiet_until, one_or_three, last-follow}
use libcomms.Machine.Steps.{every, pick-every}
use libcomms.Bg96.Connections.{BinaryEvent}
use libcomms.Bg96.Driver.{
  Modem, Own, Act, own_test, all_acked, prepare_action, declare_action, is_quiet, perform,
}
use libcomms.Bg96.Driver.Effects.{perform-is_quiet, perform-prepare}
use libcomms.Bg96.Outbox.{declare}
use libcomms.Bg96.Run.{Call, new, context, driver, ready-Same, ready-acks, ready, run, trace}
use libcomms.Bg96.Run.Rounds.{in_round, trace_announced}
use libcomms.Bg96.State.{State}
use libcomms.Bg96.Table.{state_def}

abbrev is_declare : Act → Bool
is_declare declare_action = true
is_declare _ = false

abbrev keeps_buffer : Act → Bool
keeps_buffer a = not (is_declare a)

abbrev is_all_acked : Guard Own → Bool
is_all_acked (own all_acked) = true
is_all_acked _ = false

is_all_acked_lem : (g : Guard Own) → is_all_acked g ≡ true → g ≡ own all_acked
is_all_acked_lem (own all_acked) h = refl
is_all_acked_lem _ h = cc

abbrev is_parse : State → Bool
is_parse State.network_ack_check_parse = true
is_parse _ = false

is_parse_lem : (s : State) → is_parse s ≡ true → s ≡ State.network_ack_check_parse
is_parse_lem State.network_ack_check_parse h = refl
is_parse_lem _ h = cc

module _ (c : CircularBuffer) (max : ℕ) (e : Engine State Own Act (Modem c) (own_test c max))
    (event : e.Input → BinaryEvent) where
  buffer-act :
      (i : e.Input) (a : Act) (m : Modem c)
      → keeps_buffer a ≡ true
      → (perform c (context c max e event i) a m).buffer ≡ m.buffer
  buffer-act i prepare_action m q = (perform-prepare c (context c max e event i) m).1
  buffer-act i declare_action m q = absurd (cc q)
  buffer-act i a m q = (perform-is_quiet c (context c max e event i) a m refl).2

  drops : State → Transition State Own Act → Bool
  drops s t =
      every keeps_buffer (actions_of (driver c max e event) s t)
      || (is_parse s
          && is_all_acked t.guard
          && quiet_until is_quiet is_declare (actions_of (driver c max e event) s t))

  table_drops :
      (s : State)
      → (every (drops s) (globals_of (driver c max e event) s) ≡ true)
        × (every (drops s) (locals_of (driver c max e event) s) ≡ true)
  unfolding state_def drops
  table_drops State.shut_down = (refl, refl)
  table_drops _ = (refl, refl)

  drops_lem :
      (s : State) (t : Transition State Own Act)
      → drops s t ≡ true
      → (every keeps_buffer (actions_of (driver c max e event) s t) ≡ true)
        ⊎ ((is_parse s ≡ true)
            × (is_all_acked t.guard ≡ true)
            × (quiet_until is_quiet is_declare (actions_of (driver c max e event) s t) ≡ true))
  unfolding drops
  drops_lem s t h = one_or_three _ _ _ _ h

  abbrev waiting : Modem c → c.Buffer × ℕ
  waiting m = (m.buffer, m.to_send)

  waiting-act :
      (i : e.Input) (a : Act) (m : Modem c)
      → is_quiet a ≡ true
      → waiting (perform c (context c max e event i) a m) ≡ waiting m
  waiting-act i a m q =
      let (s, k, b, n) = perform-is_quiet c (context c max e event i) a m q in rw (b, n) refl

  declare-act :
      (i : e.Input) (a : Act) (m : Modem c)
      → is_declare a ≡ true
      → m.to_send ≤ length (c.content m.buffer)
      → c.content (perform c (context c max e event i) a m).buffer
        ≡ drop m.to_send (c.content m.buffer)
  unfolding perform declare
  declare-act i declare_action m p h =
      c.declare_read_content m.to_send m.buffer (omega (arith, c.size_content m.buffer))
  declare-act i _ m p h = absurd (cc p)

  follow-declares :
      (i : e.Input) (s : State) (t : Transition State Own Act) (m : Modem c)
      → quiet_until is_quiet is_declare (actions_of (driver c max e event) s t) ≡ true
      → m.to_send ≤ length (c.content m.buffer)
      → c.content (follow (driver c max e event) i s (some t) m).buffer
        ≡ drop m.to_send (c.content m.buffer)
  follow-declares i s t m q h =
      let (before, a, last, same, eq) =
        last-follow (driver c max e event) waiting is_quiet waiting-act i s t m is_declare q in
      let b : before.buffer ≡ m.buffer = ap (λ w. w.0) same in
      let n : before.to_send ≡ m.to_send = ap (λ w. w.1) same in
      let declared = declare-act i a before last (rw (b, n) h) in
      ap (λ x. c.content x.buffer) eq ∙ declared ∙ rw (b, n) refl

  acked-drops :
      (i : e.Input) (m : Modem c) (t : Transition State Own Act)
      → is_parse m.state ≡ true
      → is_all_acked t.guard ≡ true
      → e.holds (ready c max e event i m) i t.guard ≡ true
      → (m.state ≡ State.network_ack_check_parse) × (m.acks.sent ≡ m.acks.acked)
  unfolding own_test
  acked-drops i m t p g h =
      let acked =
        sym (e.holds_own (ready c max e event i m) i all_acked)
        ∙ subst (λ x. e.holds (ready c max e event i m) i x ≡ true) (is_all_acked_lem t.guard g)
            h in
      let same = ready-acks c max e event i m in (is_parse_lem m.state p, ground arith)

  pub run-drops :
      (i : e.Input) (m : Modem c)
      → (in_round m.state ≡ true → m.to_send ≤ length (c.content m.buffer))
      → let m' = run c max e event i m in
        (m'.buffer ≡ m.buffer)
        ⊎ ((m.state ≡ State.network_ack_check_parse)
            × (m.acks.sent ≡ m.acks.acked)
            × (m.to_send ≤ length (c.content m.buffer))
            × (c.content m'.buffer ≡ drop m.to_send (c.content m.buffer)))
  unfolding libcomms.Machine.Driving.run
  run-drops i m held =
      let r = ready c max e event i m in
      let (_, _, b, n) = ready-Same c max e event i m in
      elim (Option-cases (picked (driver c max e event) i m)) [
        | inl stays ↦ rw (stays, follow) (inl b)
        | inr (t, taken) ↦
            let (g, l) = table_drops m.state in
            let (way, holds) =
              pick-every e (drops m.state) r i _ _ t g l (unfold picked in taken) in
            rw taken (elim (drops_lem m.state t way) [
              | inl kept ↦ inl (
                  view-follow (driver c max e event) (λ x. x.buffer) keeps_buffer buffer-act i
                    m.state t r kept
                  ∙ b)
              | inr (p, acked, quiet) ↦
                  let (s, all) = acked-drops i m t p acked holds in
                  let fits = held (ap in_round s) in
                  inr (
                    s,
                    all,
                    fits,
                    follow-declares i m.state t r quiet (rw (b, n) fits) ∙ rw (b, n) refl,
                  )
            ])
      ]

-- A run leaves the buffer as it is, or, in NETWORK_ACK_CHECK_PARSE and in no other state, with as
-- many bytes acknowledged as sent, it drops from its front just the announced number of bytes, which
-- are all there.
pub acked_is_dropped :
    (c : CircularBuffer) (max : ℕ) (e : Engine State Own Act (Modem c) (own_test c max))
    (event : e.Input → BinaryEvent) (xs : List (Call e.Input)) (has_callback status_pin : Bool)
    (i : e.Input)
    → let m = trace c max e event xs (new c has_callback status_pin) in
      let m' = run c max e event i m in
      (m'.buffer ≡ m.buffer)
      ⊎ ((m.state ≡ State.network_ack_check_parse)
          × (m.acks.sent ≡ m.acks.acked)
          × (m.to_send ≤ length (c.content m.buffer))
          × (c.content m'.buffer ≡ drop m.to_send (c.content m.buffer)))
acked_is_dropped c max e event xs has_callback status_pin i =
    run-drops c max e event i _ (trace_announced c max e event xs has_callback status_pin)
