-- ===== src/Bg96/Run/Answers.antt =====
-- What a modem that answers lets a run of the BG96's driver find, and what the run then does (the
-- constructor in src/bg96Modem/Bg96Modem.cc).
use libcomms.Base.{
  ℕ, ◌<◌, ◌≤◌, ◌≡◌, refl, ap, ◌∙◌, Bool, true, false, some, [], ◌∷◌, ◌++◌, arith, codes, drop,
  length, min, Bytes, ◌==◌,
}
use libcomms.CLib.{c_string, decimal, upto_nul}
use libcomms.Circular.{CircularBuffer}
use libcomms.Machine.{
  Engine, Transition, eq, begins_with, retaining, anded, ok, error, ms_passed, always_true, when,
  when_then, first_holding,
}
use libcomms.Machine.Answering.{Hears, Misses, answered_run}
use libcomms.Machine.Driving.{entry_of, exit_of, globals_of, locals_of, perform_all}
use libcomms.Modem.{transmitted, delayed, at_command_run}
use libcomms.Modem.InFlight.{sent_log}
use libcomms.Response.AckText.{ack_text}
use libcomms.Bg96.Connections.{BinaryEvent}
use libcomms.Bg96.Driver.{
  Modem, Own, Act, own_test, perform, soft_reset_delay_ms, nothing_waits, bytes_to_send_zero,
  reset_retry,
}
use libcomms.Bg96.Driver.Effects.{perform-send_action}
use libcomms.Bg96.Outbox.{gsm_max_bytes_send, send_stage}
use libcomms.Bg96.Outbox.Rounds.{announced_is_sent}
use libcomms.Bg96.Responses.{qisend}
use libcomms.Bg96.Run.{driver, run, ready}
use libcomms.Bg96.State.{State}
use libcomms.Bg96.Table.{disconnected, globals, state_def}

-- The states in which a run evaluates no condition that stores something.
abbrev is_plain : State → Bool
is_plain State.network_begin_receive = false
is_plain _ = true

module _ (c : CircularBuffer) (max : ℕ) (e : Engine State Own Act (Modem c) (own_test c max))
    (event : e.Input → BinaryEvent) where
  -- The run evaluates the conditions of the state, and comes in time.
  pub record Calm (i : e.Input) : Type 0 where
    pub evaluated : e.checked i ≡ true
    pub in_time : Misses e i (ms_passed soft_reset_delay_ms)

  -- Nothing is heard of a closed connection.
  pub record IsOpen (i : e.Input) : Type 0 where
    pub calm : Calm i
    pub stays_open : Misses e i disconnected

  -- The answer to AT+QISEND=?.
  pub record IsRange (i : e.Input) : Type 0 where
    pub open_still : IsOpen i
    pub has_room : Misses e i (begins_with "+QISEND: 0")
    pub range : Hears e i (anded (begins_with "+QISEND: (0-11),(0-1460)") ok)

  -- The echo of AT+QISEND.
  pub record IsPrompt (i : e.Input) : Type 0 where
    pub open_still : IsOpen i
    pub no_error : Misses e i error
    pub echo : Hears e i (begins_with "AT+QISEND=")

  pub record IsSendOk (i : e.Input) : Type 0 where
    pub open_still : IsOpen i
    pub send_ok : Hears e i (eq "SEND OK")

  -- The answer to AT+QISEND=1,0 that all `total` bytes are acknowledged. A NUL stands somewhere in
  -- the memory behind the event.
  pub record IsAcked (i : e.Input) : Type 0 where
    pub open_still : IsOpen i
    pub answer : Hears e i (anded ok (retaining (begins_with "+QISEND: ")))
    pub total : ℕ
    pub remaining : ℕ
    pub rest : Bytes
    pub line : (event i).bytes ≡ qisend ++ ack_text total total remaining
    pub fits : total ≤ max
    pub memory : c_string (e.beyond i) ≡ some rest

  -- The answer to AT+QISTATE.
  pub record IsConnected (i : e.Input) : Type 0 where
    pub calm : Calm i
    pub answer : Hears e i (begins_with "+QISTATE: 1,\"TCP\"")

  -- The answer to AT+QIRD that nothing was received.
  pub record IsNothing (i : e.Input) : Type 0 where
    pub calm : Calm i
    pub line : e.event i ≡ codes "+QIRD: 0"
    pub answer : Hears e i (eq "+QIRD: 0")

  plain_ready :
      (i : e.Input) (m : Modem c)
      → is_plain m.state ≡ true
      → ready c max e event i m ≡ record m { queue = drop (e.consumed i) m.queue }
  unfolding ready
  plain_ready i m p = ground arith

  pub steps :
      (i : e.Input) (m : Modem c) (s : State) (t : Transition State Own Act)
      → m.state ≡ s
      → is_plain s ≡ true
      → globals_of (driver c max e event) s ≡ globals
      → Calm i
      → first_holding
          (e.holds (record m { queue = drop (e.consumed i) m.queue }) i)
          (locals_of (driver c max e event) s)
        ≡ some t
      → run c max e event i m
        ≡ perform_all
            (driver c max e event)
            i
            (exit_of (state_def s) ++ t.actions ++ entry_of (state_def t.target))
            (record m { state = t.target; queue = drop (e.consumed i) m.queue })
  unfolding first_holding
  steps i m s t at_s p global x l =
      let d = driver c max e event in
      let rd = plain_ready i m (rw at_s p) in
      answered_run d i m s t at_s x.evaluated
        (rw (global, x.in_time (ready c max e event i m)) refl) (rw rd l)
      ∙ ap
          (λ y.
            perform_all d i (exit_of (state_def s) ++ t.actions ++ entry_of (state_def t.target))
              (record y { state = t.target }))
          rd

  pub begins_send :
      (i : e.Input) (m : Modem c)
      → m.state ≡ State.network_begin_send
      → IsOpen i
      → 0 < length (c.content m.buffer)
      → run c max e event i m ≡ record m {
        state = State.network_query_modem_output_buffer_max_len;
        queue = drop (e.consumed i) m.queue;
        log = transmitted (codes "AT+QISEND=?\r\n") ∷ delayed 100 ∷ m.log;
      }
  unfolding state_def first_holding perform_all perform own_test at_command_run upto_nul
  begins_send i m s x pos =
      let t : Transition State Own Act =
        when State.network_query_modem_output_buffer_max_len always_true in
      let waits : (c.size m.buffer == 0) ≡ false = ground (arith, c.size_content m.buffer) in
      rw
        (steps i m State.network_begin_send t s refl refl x.calm
          (rw (x.stays_open, e.holds_own _ i nothing_waits, waits, e.holds_always_true) refl))
        refl

  pub announces :
      (i : e.Input) (m : Modem c)
      → m.state ≡ State.network_query_modem_output_buffer_max_len
      → IsRange i
      → 0 < length (c.content m.buffer)
      → let n = min (length (c.content m.buffer)) gsm_max_bytes_send in
        run c max e event i m ≡ record m {
          state = State.network_prepare_send;
          to_send = n;
          queue = drop (e.consumed i) m.queue;
          log = transmitted (codes "AT+QISEND=1," ++ decimal n ++ codes "\r\n") ∷ m.log;
        }
  unfolding state_def first_holding perform_all perform
  announces i m s x pos =
      let t : Transition State Own Act =
        when State.network_prepare_send (anded (begins_with "+QISEND: (0-11),(0-1460)") ok) in
      rw
        (
          steps i m State.network_query_modem_output_buffer_max_len t s refl refl x.open_still.calm
              (rw (x.open_still.stays_open, x.has_room, x.range) refl),
          (announced_is_sent c (event i).bytes m.buffer pos).0,
        )
        refl

  pub transmits :
      (i : e.Input) (m : Modem c)
      → m.state ≡ State.network_prepare_send
      → IsPrompt i
      → 0 < m.to_send
      → run c max e event i m ≡ record m {
        state = State.network_send;
        queue = drop (e.consumed i) m.queue;
        log = sent_log (send_stage c m.to_send m.buffer) m.log;
      }
  unfolding state_def first_holding perform_all own_test
  transmits i m s x pos =
      let t : Transition State Own Act = when State.network_send (begins_with "AT+QISEND=") in
      let waits : (m.to_send == 0) ≡ false = ground arith in
      rw
        (steps i m State.network_prepare_send t s refl refl x.open_still.calm (
          rw
            (x.open_still.stays_open, e.holds_own _ i bytes_to_send_zero, waits, x.no_error, x.echo)
            refl))
        (perform-send_action c _ _)

  pub asks :
      (i : e.Input) (m : Modem c)
      → m.state ≡ State.network_send
      → IsSendOk i
      → run c max e event i m ≡ record m {
        state = State.network_ack_check;
        ack_query_retry_no = 0;
        queue = drop (e.consumed i) m.queue;
        log = transmitted (codes "AT+QISEND=1,0\r\n") ∷ m.log;
      }
  unfolding state_def first_holding perform_all perform at_command_run upto_nul
  asks i m s x =
      let t : Transition State Own Act =
        when_then State.network_ack_check (eq "SEND OK") (reset_retry ∷ []) in
      rw
        (steps i m State.network_send t s refl refl x.open_still.calm
          (rw (x.open_still.stays_open, x.send_ok) refl))
        refl
