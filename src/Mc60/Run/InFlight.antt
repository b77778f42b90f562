-- ===== src/Mc60/Run/InFlight.antt =====
-- The bytes of Mc60Modem that were transmitted and wait for their acknowledgement: NETWORK_SEND,
-- NETWORK_ACK_CHECK and NETWORK_ACK_CHECK_PARSE.
use libcomms.Base.{
  ℕ, ◌<◌, ◌≡◌, refl, ◌⊎◌, inr, Bool, true, false, not, ◌&&◌, ◌||◌, List, [], ◌∷◌, ◌++◌, Bytes,
  codes, arith, take, some,
}
use libcomms.Machine.{Engine, Transition}
use libcomms.Machine.Steps.{every}
use libcomms.Modem.{Output, transmitted, delayed, at_command_run}
use libcomms.Mc60.Driver.{
  Modem, Own, Act, Context, delay, reset_retry, inc_retry, own_test, perform, perform_all,
}
use libcomms.Mc60.Run.{context, follow, entry_of, exit_of, transitions_of, globals_of}
use libcomms.Mc60.Run.Actions.{perform_all-append}
use libcomms.Mc60.State.{State}
use libcomms.Mc60.Table.{state_def}

abbrev pub ack_poll : Bytes
ack_poll = codes "AT+QISACK\r\n"

-- Of what was done to the outside, the newest first, these bytes were transmitted last, but for the
-- polls for their acknowledgement and the delays behind them.
abbrev pub InFlight : Bytes → List Output → Type 0
InFlight bytes [] = ⊥
InFlight bytes (transmitted b ∷ log) = (b ≡ bytes) ⊎ ((b ≡ ack_poll) × InFlight bytes log)
InFlight bytes (delayed ms ∷ log) = InFlight bytes log
InFlight bytes (_ ∷ log) = ⊥

-- What is announced is some bytes, and they are in flight.
abbrev pub Sent : Modem → Type 0
Sent m = (0 < m.box.to_send) × InFlight (take m.box.to_send m.box.buffer) m.log

abbrev pub in_flight : State → Bool
in_flight State.network_send = true
in_flight State.network_ack_check = true
in_flight State.network_ack_check_parse = true
in_flight _ = false

abbrev pub is_waiting : State → Bool
is_waiting State.network_ack_check = true
is_waiting State.network_ack_check_parse = true
is_waiting _ = false

abbrev gentle : Act → Bool
gentle (delay ms) = true
gentle reset_retry = true
gentle inc_retry = true
gentle _ = false

-- The states in which an acknowledgement is waited for are entered from those in which bytes are in
-- flight.
abbrev pub waits_after : State → Transition State Own Act → Bool
waits_after s t =
    not (is_waiting t.target)
    || (in_flight s && every gentle (exit_of (state_def s)) && every gentle t.actions)

pub table_waits_after :
    (s : State)
    → (every (waits_after s) (globals_of (state_def s)) ≡ true)
      × (every (waits_after s) (transitions_of (state_def s)) ≡ true)
unfolding state_def
table_waits_after State.sleep = (refl, refl)
table_waits_after _ = (refl, refl)

perform-Sent : (c : Context) (a : Act) (m : Modem) → gentle a ≡ true → Sent m → Sent (perform c a m)
unfolding perform
perform-Sent c (delay ms) m g h = h
perform-Sent c reset_retry m g h = h
perform-Sent c inc_retry m g h = h
perform-Sent c _ m g h = absurd (cc g)

perform_all-Sent :
    (c : Context) (acts : List Act) (m : Modem)
    → every gentle acts ≡ true
    → Sent m
    → Sent (perform_all c acts m)
unfolding perform_all
perform_all-Sent c [] m g h = h
perform_all-Sent c (a ∷ acts) m g h =
    perform_all-Sent c acts (perform c a m) (ground arith) (perform-Sent c a m (ground arith) h)

entry-Sent :
    (c : Context) (s : State) (m : Modem)
    → is_waiting s ≡ true
    → Sent m
    → Sent (perform_all c (entry_of (state_def s)) m)
unfolding state_def perform_all perform at_command_run libcomms.CLib.upto_nul
entry-Sent c State.network_ack_check m w (pos, flies) = (pos, inr (refl, flies))
entry-Sent c State.network_ack_check_parse m w h = ground arith
entry-Sent c _ m w h = absurd (cc w)

module _ (max : ℕ) (e : Engine State Own Act Modem (own_test max)) where
  open e use {Input, arrange_order}

  pub follow-Sent :
      (i : Input) (s : State) (t : Transition State Own Act) (m : Modem)
      → waits_after s t ≡ true
      → is_waiting t.target ≡ true
      → Sent m
      → Sent (follow max e i s (some t) m)
  unfolding follow
  follow-Sent i s t m a w h =
      let c = context max e i in
      let exit = exit_of (state_def s) in
      let entry = entry_of (state_def t.target) in
      let m' = record m { state = t.target } in
      rw
        (
          arrange_order exit t.actions entry,
          perform_all-append c (exit ++ t.actions) entry m',
          perform_all-append c exit t.actions m',
        )
        (entry-Sent c t.target _ w (
          perform_all-Sent c t.actions _ (ground arith)
            (perform_all-Sent c exit m' (ground arith) h)))
