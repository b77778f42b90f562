-- ===== src/Esp8266/Run/Answers.antt =====
-- What a card that answers lets a run of the ESP8266's driver find, and what the run then does (the
-- constructor in src/esp8266/Esp8266.cc).
use libcomms.Base.{
  ◌<◌, ◌≡◌, refl, ◌⊎◌, inl, inr, true, false, some, String, [], ◌∷◌, ◌++◌, arith, codes, length,
  min, ◌==◌,
}
use libcomms.CLib.{decimal, upto_nul}
use libcomms.Circular.{CircularBuffer}
use libcomms.Machine.{
  Engine, Transition, eq, like, anded, ok, ms_passed, always_true, when, when_then, first_holding,
}
use libcomms.Machine.Answering.{Hears, Misses, answered_run}
use libcomms.Machine.Driving.{entry_of, exit_of, globals_of, locals_of, perform_all}
use libcomms.Modem.{transmitted, delayed, at_command_run}
use libcomms.Modem.InFlight.{sent_log}
use libcomms.Esp8266.Driver.{
  Card, Own, Act, own_test, perform, perform-send_action-log, soft_reset_delay_ms, nothing_waits,
  bytes_to_send_zero, delay, perform-is_quiet, send_action,
}
use libcomms.Esp8266.Outbox.{max_bytes_send, send_stage, declare}
use libcomms.Esp8266.Outbox.Rounds.{cipsend_is_sent}
use libcomms.Esp8266.Run.{driver, run}
use libcomms.Esp8266.State.{State}
use libcomms.Esp8266.Table.{globals, state_def}

module _ (c : CircularBuffer) (ssid pass : String)
    (e : Engine State Own Act (Card c) (own_test c)) where
  -- The run evaluates the conditions of the state, and comes in time.
  pub record Calm (i : e.Input) : Type 0 where
    pub evaluated : e.checked i ≡ true
    pub in_time : Misses e i (ms_passed soft_reset_delay_ms)

  -- The answer to AT+CIPSEND.
  pub record IsOk (i : e.Input) : Type 0 where
    pub calm : Calm i
    pub answer : Hears e i ok

  pub record IsSendOk (i : e.Input) : Type 0 where
    pub calm : Calm i
    pub send_ok : Hears e i (eq "SEND OK")

  -- The two answers to AT+CIPSTART with which the driver goes on.
  pub record IsConnected (i : e.Input) : Type 0 where
    pub calm : Calm i
    pub answer :
        Hears e i (anded (like "%,CONNECT") ok)
        ⊎ (Misses e i (anded (like "%,CONNECT") ok)
            × Hears e i (anded (eq "ALREADY CONNECTED") (eq "ERROR")))

  steps :
      (i : e.Input) (m : Card c) (s : State) (t : Transition State Own Act)
      → m.state ≡ s
      → globals_of (driver c ssid pass e) s ≡ globals
      → Calm i
      → first_holding (e.holds m i) (locals_of (driver c ssid pass e) s) ≡ some t
      → run c ssid pass e i m
        ≡ perform_all
            (driver c ssid pass e)
            i
            (exit_of (state_def ssid pass s)
              ++ t.actions
              ++ entry_of (state_def ssid pass t.target))
            (record m { state = t.target })
  unfolding first_holding
  steps i m s t at_s global x l =
      answered_run (driver c ssid pass e) i m s t at_s x.evaluated (rw (global, x.in_time m) refl) l

  pub announces :
      (i : e.Input) (m : Card c)
      → m.state ≡ State.network_begin_send
      → Calm i
      → 0 < length (c.content m.buffer)
      → let n = min (length (c.content m.buffer)) max_bytes_send in
        run c ssid pass e i m ≡ record m {
          state = State.network_prepare_send;
          to_send = n;
          log =
              delayed 100
              ∷ transmitted (codes "AT+CIPSEND=0," ++ decimal n ++ codes "\r\n")
              ∷ delayed 100
              ∷ m.log;
        }
  unfolding state_def first_holding perform_all perform own_test
  announces i m s x pos =
      let t : Transition State Own Act = when State.network_prepare_send always_true in
      let waits : (c.size m.buffer == 0) ≡ false = ground (arith, c.size_content m.buffer) in
      rw
        (
          steps i m State.network_begin_send t s refl x
              (rw (e.holds_own m i nothing_waits, waits, e.holds_always_true) refl),
          (cipsend_is_sent c m.buffer pos).0,
        )
        refl

  sends :
      (m : Card c)
      → perform c send_action m
        ≡ record m { log = sent_log (send_stage c m.to_send m.buffer) m.log }
  sends m =
      let (s, b, n) = perform-is_quiet c send_action m refl in
      let l = perform-send_action-log c m in
      λ k. record { state = s k; buffer = b k; to_send = n k; log = l k }

  pub transmits :
      (i : e.Input) (m : Card c)
      → m.state ≡ State.network_prepare_send
      → IsOk i
      → 0 < m.to_send
      → run c ssid pass e i m ≡ record m {
        state = State.network_send;
        log = sent_log (send_stage c m.to_send m.buffer) m.log;
      }
  unfolding state_def first_holding perform_all own_test
  transmits i m s x pos =
      let t : Transition State Own Act = when State.network_send ok in
      let waits : (m.to_send == 0) ≡ false = ground arith in
      rw
        (steps i m State.network_prepare_send t s refl x.calm
          (rw (e.holds_own m i bytes_to_send_zero, waits, x.answer) refl))
        (sends (record m { state = State.network_send }))

  pub drops :
      (i : e.Input) (m : Card c)
      → m.state ≡ State.network_send
      → IsSendOk i
      → run c ssid pass e i m
        ≡ record m { state = State.network_declare_read; buffer = declare c m.to_send m.buffer }
  unfolding state_def first_holding perform_all perform
  drops i m s x =
      let t : Transition State Own Act = when State.network_declare_read (eq "SEND OK") in
      rw (steps i m State.network_send t s refl x.calm (rw x.send_ok refl)) refl

  pub echoes :
      (i : e.Input) (m : Card c)
      → m.state ≡ State.network_declare_read
      → Calm i
      → run c ssid pass e i m
        ≡ record m { state = State.network_echo_on; log = transmitted (codes "ATE1\r\n") ∷ m.log }
  unfolding state_def first_holding perform_all perform at_command_run upto_nul
  echoes i m s x =
      let t : Transition State Own Act = when State.network_echo_on always_true in
      rw (steps i m State.network_declare_read t s refl x (rw e.holds_always_true refl)) refl

  pub connects :
      (i : e.Input) (m : Card c)
      → m.state ≡ State.network_echo_on
      → Calm i
      → run c ssid pass e i m ≡ record m {
        state = State.connect_to_server;
        log = transmitted (codes "AT+CIPSTART=0,\"TCP\",\"192.168.0.29\",1883\r\n") ∷ m.log;
      }
  unfolding state_def first_holding perform_all perform at_command_run upto_nul
  connects i m s x =
      let t : Transition State Own Act = when State.connect_to_server always_true in
      rw (steps i m State.network_echo_on t s refl x (rw e.holds_always_true refl)) refl

  pub joins :
      (i : e.Input) (m : Card c)
      → m.state ≡ State.connect_to_server
      → IsConnected i
      → run c ssid pass e i m ≡ record m {
        state = State.network_echo_off;
        log = delayed 100 ∷ transmitted (codes "ATE0\r\n") ∷ delayed 100 ∷ m.log;
      }
  unfolding state_def first_holding perform_all perform at_command_run upto_nul
  joins i m s x = elim x.answer [
    | inl connect ↦
        let t : Transition State Own Act =
          when_then State.network_echo_off (anded (like "%,CONNECT") ok) (delay 100 ∷ []) in
        rw (steps i m State.connect_to_server t s refl x.calm (rw connect refl)) refl
    | inr (other, already) ↦
        let t : Transition State Own Act =
          when_then State.network_echo_off (anded (eq "ALREADY CONNECTED") (eq "ERROR"))
            (delay 100 ∷ []) in
        rw (steps i m State.connect_to_server t s refl x.calm (rw (other, already) refl)) refl
  ]

  pub returns :
      (i : e.Input) (m : Card c)
      → m.state ≡ State.network_echo_off
      → Calm i
      → run c ssid pass e i m
        ≡ record m { state = State.network_begin_send; log = delayed 100 ∷ m.log }
  unfolding state_def first_holding perform_all perform
  returns i m s x =
      let t : Transition State Own Act = when State.network_begin_send always_true in
      rw (steps i m State.network_echo_off t s refl x (rw e.holds_always_true refl)) refl
