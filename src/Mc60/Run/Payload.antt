-- ===== src/Mc60/Run/Payload.antt =====
-- What Mc60Modem transmits on the way into NETWORK_SEND.
use libcomms.Base.{
  ℕ, ◌<◌, ◌≤◌, ◌≡◌, ◌≢◌, refl, sym, ap, ◌∙◌, subst, inl, inr, Bool, true, false, not, ◌||◌, some,
  [], ◌∷◌, arith, length, take, Option-cases, none,
}
use libcomms.Machine.{Engine, Guard, own, Transition, first_holding}
use libcomms.Machine.Steps.{every, pick-every}
use libcomms.Modem.{transmitted}
use libcomms.Mc60.Driver.{
  Modem, Own, Act, Context, send_action, bytes_to_send_zero, own_test, perform, perform_all,
}
use libcomms.Mc60.Outbox.{gsm_max_bytes_send}
use libcomms.Mc60.Outbox.Queue.{send_stage-take}
use libcomms.Mc60.Run.{
  context, check_effects, follow, ready, run, picked, transitions_of, globals_of,
}
use libcomms.Mc60.Run.Actions.{perform_all-state}
use libcomms.Mc60.Run.Held.{in_round}
use libcomms.Mc60.Run.Rounds.{IsReachable, IsReachable-Announced, ready_same}
use libcomms.Mc60.State.{State}
use libcomms.Mc60.Table.{network_prepare_send_def, state_def}

abbrev pub is_send : State → Bool
is_send State.network_send = true
is_send _ = false

abbrev is_prepare : State → Bool
is_prepare State.network_prepare_send = true
is_prepare _ = false

is_prepare_lem : (s : State) → is_prepare s ≡ true → s ≡ State.network_prepare_send
is_prepare_lem State.network_prepare_send h = refl
is_prepare_lem _ h = cc

-- NETWORK_SEND is entered from NETWORK_PREPARE_SEND.
abbrev enters : State → Transition State Own Act → Bool
enters s t = not (is_send t.target) || is_prepare s

table_enters :
    (s : State)
    → (every (enters s) (globals_of (state_def s)) ≡ true)
      × (every (enters s) (transitions_of (state_def s)) ≡ true)
unfolding state_def
table_enters State.sleep = (refl, refl)
table_enters _ = (refl, refl)

enters_lem :
    (s : State) (t : Transition State Own Act)
    → enters s t ≡ true
    → is_send t.target ≡ true
    → is_prepare s ≡ true
enters_lem s t h target = ground arith

sends_some :
    (holds : Guard Own → Bool) (t : Transition State Own Act)
    → first_holding holds network_prepare_send_def.transitions ≡ some t
    → is_send t.target ≡ true
    → (t.actions ≡ []) × (holds (own bytes_to_send_zero) ≡ false)
unfolding first_holding
sends_some holds t h s = ground arith

transmits :
    (c : Context) (m : Modem)
    → 0 < m.box.to_send
    → m.box.to_send ≤ length m.box.buffer
    → let m' = perform_all c (send_action ∷ []) m in
      (m'.log ≡ transmitted (take m.box.to_send m.box.buffer) ∷ m.log) × (m'.box ≡ m.box)
unfolding perform perform_all
transmits c m pos fits = rw (send_stage-take c.stale m.box pos fits) (refl, refl)

module _ (max : ℕ) (e : Engine State Own Act Modem (own_test max)) where
  open e use {Input, holds, pick, pick_some, arrange_order, holds_own}

  picked_sends :
      (i : Input) (s : State) (m : Modem) (t : Transition State Own Act)
      → s ≡ State.network_prepare_send
      → pick m i (globals_of (state_def s)) (transitions_of (state_def s)) ≡ some t
      → is_send t.target ≡ true
      → (t.actions ≡ []) × (0 < m.box.to_send)
  unfolding state_def first_holding own_test
  picked_sends i s m t from h target =
      elim (pick_some m i _ _ (
        subst (λ x. pick m i (globals_of (state_def x)) (transitions_of (state_def x)) ≡ some t)
          from h)) [
            | inl global ↦ absurd (ground arith)
            | inr local ↦
                let (empty, not_zero) = sends_some (holds m i) t local target in
                let test = sym (holds_own m i bytes_to_send_zero) ∙ not_zero in
                (empty, ground arith)
          ]

  ready-log :
      (i : Input) (m : Modem) → m.state ≡ State.network_prepare_send → (ready max e i m).log ≡ m.log
  unfolding ready check_effects
  ready-log i m s = ground arith

  pub picked-pick :
      (i : Input) (m : Modem) (t : Transition State Own Act)
      → picked max e i m ≡ some t
      → pick
          (ready max e i m)
          i
          (globals_of (state_def m.state))
          (transitions_of (state_def m.state))
        ≡ some t
  unfolding picked
  picked-pick i m t h = h

  pub run-stays :
      (i : Input) (m : Modem) → picked max e i m ≡ none → run max e i m ≡ ready max e i m
  unfolding run
  run-stays i m h = rw (h, follow) refl

  pub run-takes :
      (i : Input) (m : Modem) (t : Transition State Own Act)
      → picked max e i m ≡ some t
      → run max e i m ≡ follow max e i m.state (some t) (ready max e i m)
  unfolding run
  run-takes i m t h = rw h refl

  pub run-target :
      (i : Input) (m : Modem) (t : Transition State Own Act)
      → picked max e i m ≡ some t
      → (run max e i m).state ≡ t.target
  unfolding run
  run-target i m t h = rw (h, follow) (perform_all-state _ _ _)

  pub arrives_from :
      (i : Input) (m : Modem) (t : Transition State Own Act)
      → picked max e i m ≡ some t
      → is_send t.target ≡ true
      → m.state ≡ State.network_prepare_send
  arrives_from i m t taken target =
      let (g, l) = table_enters m.state in
      let chosen = picked-pick i m t taken in
      let way = (pick-every e (enters m.state) (ready max e i m) i _ _ t g l chosen).0 in
      is_prepare_lem m.state (enters_lem m.state t way target)

  follow-transmits :
      (i : Input) (s : State) (t : Transition State Own Act) (m : Modem)
      → s ≡ State.network_prepare_send
      → t.target ≡ State.network_send
      → t.actions ≡ []
      → 0 < m.box.to_send
      → m.box.to_send ≤ length m.box.buffer
      → let m' = follow max e i s (some t) m in
        (m'.log ≡ transmitted (take m.box.to_send m.box.buffer) ∷ m.log) × (m'.box ≡ m.box)
  unfolding follow state_def
  follow-transmits i s t m from target empty pos fits =
      rw (from, target, empty, arrange_order [] [] (send_action ∷ []))
        (transmits (context max e i) (record m { state = State.network_send }) pos fits)

-- A run that takes a driver, in a state that calls and runs can reach, into NETWORK_SEND comes from
-- NETWORK_PREPARE_SEND, where at least one byte and at most 1460 were announced, all of which wait.
-- It transmits just these bytes, the first of the buffer, does nothing else to the outside, and
-- keeps the buffer.
pub payload_is_announced :
    (max : ℕ) (e : Engine State Own Act Modem (own_test max)) (m : Modem) (i : e.Input)
    → IsReachable max e m
    → m.state ≢ State.network_send
    → (run max e i m).state ≡ State.network_send
    → let n = m.box.to_send in
      (m.state ≡ State.network_prepare_send)
      × (0 < n)
      × (n ≤ length m.box.buffer)
      × (n ≤ gsm_max_bytes_send)
      × ((run max e i m).log ≡ transmitted (take n m.box.buffer) ∷ m.log)
      × ((run max e i m).box ≡ m.box)
payload_is_announced max e m i r other arrives = elim (Option-cases (picked max e i m)) [
  | inl stays ↦ absurd (
      other
        (sym (ap (λ x. x.state) (run-stays max e i m stays) ∙ (ready_same max e i m).1) ∙ arrives))
  | inr (t, taken) ↦
      let rd = ready max e i m in
      let (b, s) = ready_same max e i m in
      let target = sym (run-target max e i m t taken) ∙ arrives in
      let chosen = picked-pick max e i m t taken in
      let from = arrives_from max e i m t taken (ap is_send target) in
      let (empty, pos) = picked_sends max e i m.state rd t from chosen (ap is_send target) in
      let h = IsReachable-Announced max e m r in
      let fits = h.held (ap in_round from) in
      let (log, box) = follow-transmits max e i m.state t rd from target empty pos (rw b fits) in
      (
        from,
        rw b at pos,
        fits,
        h.capped,
        ap (λ x. x.log) (run-takes max e i m t taken) ∙ log ∙ rw (b, ready-log max e i m from) refl,
        ap (λ x. x.box) (run-takes max e i m t taken) ∙ box ∙ b,
      )
]
