-- ===== src/Esp8266/Run.antt =====
-- One call of the ESP8266's driver: `run`, or `send` (src/esp8266/Esp8266.h and .cc). The library
-- is given no name for the state CANCEL_SEND, and what it does there is not modelled: the driver
-- stays where it is.
pub mod Reachable
pub mod Rounds
pub mod Drops
pub mod InFlight
pub mod Conserved
pub mod Timeouts
pub mod Answers
pub mod Answered
pub mod Drained
use libcomms.Base.{ℕ, refl, List, [], ◌∷◌, Bytes, String}
use libcomms.Circular.{CircularBuffer}
use libcomms.Machine.{Engine}
use libcomms.Machine.Driving.{Driver}
use libcomms.Esp8266.Driver.{Card, Own, Act, own_test, perform, state-perform}
use libcomms.Esp8266.State.{State}
use libcomms.Esp8266.Table.{globals, state_def}

abbrev pub capacity : ℕ
capacity = 6144

-- The driver behind its constructor. The initial state is INIT.
abbrev pub new : (c : CircularBuffer) → Card c
new c = record { state = State.init; buffer = c.created capacity; to_send = 0; log = [] }

-- The calls. `connect` and `disconnect` do nothing.
pub data Call (I : Type 0) : Type 0 where
  runs : I → Call I
  sends : Bytes → Call I
  connects : Bytes → ℕ → Call I
  disconnects : Call I

module _ (c : CircularBuffer) (ssid pass : String)
    (e : Engine State Own Act (Card c) (own_test c)) where
  abbrev pub driver : Driver e
  driver = record {
    state_of = λ m. m.state;
    enter = λ s m. record m { state = s };
    act = λ i a m. perform c a m;
    ready = λ i m. m;
    table = state_def ssid pass;
    everywhere = globals;
    state-enter = λ s m. refl;
    state-act = λ i a m. state-perform c a m;
    state-ready = λ i m. refl;
  }

  abbrev pub send : Bytes → Card c → Card c
  send bytes m = record m { buffer = (c.store bytes m.buffer).0 }

  abbrev pub run : e.Input → Card c → Card c
  run i m = libcomms.Machine.Driving.run driver i m

  unfoldable pub call : Call e.Input → Card c → Card c
  call (runs i) m = run i m
  call (sends bytes) m = send bytes m
  call (connects address port) m = m
  call disconnects m = m

  unfoldable pub trace : List (Call e.Input) → Card c → Card c
  trace [] m = m
  trace (x ∷ xs) m = trace xs (call x m)
