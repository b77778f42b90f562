-- ===== src/Mc60/Run/Answers.antt =====
-- What a modem that answers lets a run of Mc60Modem find, state by state, and the transition that
-- the run then takes (the constructor in src/mc60Modem/Mc60Modem.cc).
use libcomms.Base.{
  ℕ, ◌≤◌, ◌≡◌, refl, ap, ◌∙◌, inl, inr, Bool, true, false, none, some, ◌++◌, arith, drop, Bytes,
  Option-cases,
}
use libcomms.CLib.{c_string}
use libcomms.Machine.{
  Engine, Transition, eq, begins_with, retaining, anded, ms_passed, ok, error, first_holding,
}
use libcomms.Machine.Answering.{Hears, Misses}
use libcomms.Response.AckText.{ack_text}
use libcomms.Mc60.Driver.{Modem, Own, Act, own_test, perform_all, soft_reset_delay_ms}
use libcomms.Mc60.Responses.{qisack}
use libcomms.Mc60.Run.{
  context, check_effects, follow, ready, run, picked, entry_of, exit_of, transitions_of, globals_of,
}
use libcomms.Mc60.Run.Payload.{run-takes}
use libcomms.Mc60.State.{State}
use libcomms.Mc60.Table.{disconnected, globals, state_def}

-- The states in which a run evaluates no condition that stores something.
abbrev is_plain : State → Bool
is_plain State.network_begin_receive = false
is_plain _ = true

module _ (max : ℕ) (e : Engine State Own Act Modem (own_test max)) where
  open e use {Input, event, beyond, holds, checked, consumed, pick_some, pick_none, arrange_order}

  -- The run evaluates the conditions of the state, in time, and nobody switches the modem off.
  pub record Calm (i : Input) : Type 0 where
    pub evaluated : checked i ≡ true
    pub in_time : Misses e i (ms_passed soft_reset_delay_ms)
    pub stays_on : Misses e i (eq "_OFF")

  -- "STATE: CONNECT OK" in answer to AT+QISTATE.
  pub record IsConnectOk (i : Input) : Type 0 where
    pub calm : Calm i
    pub connect_ok :
        Hears e i (anded (anded (eq "AT+QISTATE") ok) (begins_with "STATE: CONNECT OK"))

  -- Nothing is heard of a closed connection.
  pub record IsOpen (i : Input) : Type 0 where
    pub calm : Calm i
    pub stays_open : Misses e i disconnected

  -- The echo of AT+QISEND.
  pub record IsPrompt (i : Input) : Type 0 where
    pub calm : Calm i
    pub stays_open : Misses e i disconnected
    pub no_error : Misses e i error
    pub echo : Hears e i (begins_with "AT+QISEND=")

  pub record IsSendOk (i : Input) : Type 0 where
    pub calm : Calm i
    pub stays_open : Misses e i disconnected
    pub send_ok : Hears e i (eq "SEND OK")

  -- The answer to AT+QISACK that all `total` bytes are acknowledged. A NUL stands somewhere in the
  -- memory behind the event.
  pub record IsAcked (i : Input) : Type 0 where
    pub calm : Calm i
    pub answer : Hears e i (anded (eq "AT+QISACK") (anded (retaining (begins_with "+QISACK: ")) ok))
    pub total : ℕ
    pub remaining : ℕ
    pub rest : Bytes
    pub line : event i ≡ qisack ++ ack_text total total remaining
    pub fits : total ≤ max
    pub memory : c_string (beyond i) ≡ some rest

  -- The answer to AT+QISDE=0.
  pub record IsEchoOff (i : Input) : Type 0 where
    pub calm : Calm i
    pub answer : Hears e i (anded (begins_with "AT+QISDE=0") ok)

  -- A run whose conditions are evaluated takes the first transition of the state that holds, unless
  -- a global one does.
  takes :
      (i : Input) (m : Modem) (t : Transition State Own Act)
      → checked i ≡ true
      → first_holding (holds (ready max e i m) i) (globals_of (state_def m.state)) ≡ none
      → first_holding (holds (ready max e i m) i) (transitions_of (state_def m.state)) ≡ some t
      → run max e i m ≡ follow max e i m.state (some t) (ready max e i m)
  unfolding picked
  takes i m t c g l = elim (Option-cases (picked max e i m)) [
    | inl stays ↦ let nothing = (pick_none (ready max e i m) i _ _ stays).1 c in absurd (cc)
    | inr (u, taken) ↦ elim (pick_some (ready max e i m) i _ _ taken) [
      | inl global ↦ absurd (cc)
      | inr local ↦ run-takes max e i m t (cc)
    ]
  ]

  plain_ready :
      (i : Input) (m : Modem)
      → is_plain m.state ≡ true
      → ready max e i m ≡ record m { queue = drop (consumed i) m.queue }
  unfolding ready check_effects
  plain_ready i m p = ground arith

  Calm-globals : (i : Input) (m : Modem) → Calm i → first_holding (holds m i) globals ≡ none
  unfolding first_holding
  Calm-globals i m c = rw (c.in_time m, c.stays_on m) refl

  -- A calm run by a transition of the table: the actions, in their order.
  pub steps :
      (i : Input) (m : Modem) (s : State) (t : Transition State Own Act)
      → m.state ≡ s
      → is_plain s ≡ true
      → globals_of (state_def s) ≡ globals
      → Calm i
      → first_holding
          (holds (record m { queue = drop (consumed i) m.queue }) i)
          (transitions_of (state_def s))
        ≡ some t
      → run max e i m
        ≡ perform_all
            (context max e i)
            (exit_of (state_def s) ++ t.actions ++ entry_of (state_def t.target))
            (record m { state = t.target; queue = drop (consumed i) m.queue })
  unfolding follow
  steps i m s t at_s p global c l =
      let rd = plain_ready i m (rw at_s p) in
      let g = ap (λ x. globals_of (state_def x)) at_s ∙ global in
      takes i m t c.evaluated (rw g (Calm-globals i (ready max e i m) c))
        (rw (ap (λ x. transitions_of (state_def x)) at_s, rd) l)
      ∙ rw
          (
            arrange_order (exit_of (state_def m.state)) t.actions (entry_of (state_def t.target)),
            ap (λ x. exit_of (state_def x)) at_s,
            rd,
          )
          refl
