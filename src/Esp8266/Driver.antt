-- ===== src/Esp8266/Driver.antt =====
-- The variables of the ESP8266's driver, its own conditions, and its actions: the members of the
-- class and the static variables of its constructor (src/esp8266/Esp8266.h and .cc).
use libcomms.Base.{
  ℕ, ◌≡◌, refl, Bool, Option, none, some, List, [], ◌∷◌, String, Bytes, codes, ◌==◌, true, false,
}
use libcomms.Circular.{CircularBuffer}
use libcomms.Machine.{StateDef}
use libcomms.Modem.{Output, transmitted, delayed, at_command_run}
use libcomms.Modem.InFlight.{sent_log}
use libcomms.Esp8266.Outbox.{prepare, send_stage, declare}
use libcomms.Esp8266.State.{State}

pub record Card (c : CircularBuffer) : Type 0 where
  pub state : State
  pub buffer : c.Buffer
  pub to_send : ℕ
  -- What was done to the outside, the newest first.
  pub log : List Output

abbrev pub tcp_send_data_delay_ms : ℕ
tcp_send_data_delay_ms = 9000

abbrev pub soft_reset_delay_ms : ℕ
soft_reset_delay_ms = 10000

-- The lambda given to whenf, and the comparison of IntegerCondition.
pub data Own : Type 0 where
  nothing_waits bytes_to_send_zero : Own

pub data Act : Type 0 where
  at : String → Act
  delay : ℕ → Act
  prepare_action send_action declare_action : Act

abbrev pub Def : Type 0
Def = StateDef State Own Act

-- The actions that leave the buffer and the announced number alone.
abbrev pub is_quiet : Act → Bool
is_quiet prepare_action = false
is_quiet declare_action = false
is_quiet _ = true

module _ (c : CircularBuffer) where
  abbrev emit : Output → Card c → Card c
  emit o m = record m { log = o ∷ m.log }

  abbrev transmit : Option Bytes → Card c → Card c
  transmit none m = m
  transmit (some bytes) m = emit (transmitted bytes) m

  transmit_all : List Bytes → Card c → Card c
  transmit_all [] m = m
  transmit_all (p ∷ ps) m = transmit_all ps (emit (transmitted p) m)

  unfoldable pub own_test : Own → Card c → Bytes → Bool
  own_test nothing_waits m event = c.size m.buffer == 0
  own_test bytes_to_send_zero m event = m.to_send == 0

  prepare_buffer : ℕ × Option Bytes → Card c → Card c
  prepare_buffer (n, command) m = transmit command (record m { to_send = n })

  unfoldable pub perform : Act → Card c → Card c
  unfolding transmit_all prepare_buffer at_command_run
  perform (at command) m = emit (at_command_run (codes command) 0) m
  perform (delay ms) m = emit (delayed ms) m
  perform prepare_action m = prepare_buffer (prepare c m.buffer) m
  perform send_action m = transmit_all (send_stage c m.to_send m.buffer) m
  perform declare_action m = record m { buffer = declare c m.to_send m.buffer }

  transmit_all-log : (ps : List Bytes) (m : Card c) → (transmit_all ps m).log ≡ sent_log ps m.log
  unfolding transmit_all
  transmit_all-log [] m = refl
  transmit_all-log (p ∷ ps) m = transmit_all-log ps (emit (transmitted p) m)

  pub perform-send_action-log :
      (m : Card c) → (perform send_action m).log ≡ sent_log (send_stage c m.to_send m.buffer) m.log
  unfolding perform
  perform-send_action-log m = transmit_all-log (send_stage c m.to_send m.buffer) m

  -- What most actions leave alone.
  abbrev pub Same : Card c → Card c → Type 0
  Same m m' = (m'.state ≡ m.state) × (m'.buffer ≡ m.buffer) × (m'.to_send ≡ m.to_send)

  transmit_all-Same : (ps : List Bytes) (m : Card c) → Same m (transmit_all ps m)
  unfolding transmit_all
  transmit_all-Same [] m = (refl, refl, refl)
  transmit_all-Same (p ∷ ps) m = transmit_all-Same ps (emit (transmitted p) m)

  transmit-Same : (o : Option Bytes) (m : Card c) → Same m (transmit o m)
  transmit-Same none m = (refl, refl, refl)
  transmit-Same (some bytes) m = (refl, refl, refl)

  pub state-perform : (a : Act) (m : Card c) → (perform a m).state ≡ m.state
  unfolding perform prepare_buffer
  state-perform (at command) m = refl
  state-perform prepare_action m =
      let (n, command) = prepare c m.buffer in (transmit-Same command (record m { to_send = n })).0
  state-perform send_action m = (transmit_all-Same (send_stage c m.to_send m.buffer) m).0
  state-perform _ m = refl

  pub perform-is_quiet : (a : Act) (m : Card c) → is_quiet a ≡ true → Same m (perform a m)
  unfolding perform
  perform-is_quiet (at command) m q = (refl, refl, refl)
  perform-is_quiet prepare_action m q = absurd (cc q)
  perform-is_quiet declare_action m q = absurd (cc q)
  perform-is_quiet send_action m q = transmit_all-Same (send_stage c m.to_send m.buffer) m
  perform-is_quiet _ m q = (refl, refl, refl)

  pub perform-prepare :
      (m : Card c)
      → let m' = perform prepare_action m in
        (m'.to_send ≡ (prepare c m.buffer).0) × (m'.buffer ≡ m.buffer)
  unfolding perform prepare_buffer
  perform-prepare m =
      let (n, command) = prepare c m.buffer in
      let (s, b, p) = transmit-Same command (record m { to_send = n }) in (p, b)
