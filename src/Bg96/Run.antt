-- ===== src/Bg96/Run.antt =====
-- One call of the BG96's driver: `run`, or a call of the client (src/bg96Modem/Bg96Modem.h and .cc).
pub mod Reachable
pub mod Rounds
pub mod Drops
pub mod Timeouts
pub mod Retries
pub mod InFlight
pub mod Conserved
pub mod Answers
pub mod Exchange
pub mod Asked
pub mod Answered
pub mod Drained
use libcomms.Base.{
  ℕ, ◌≡◌, ◌∙◌, refl, Bool, true, false, Option, none, some, List, [], ◌∷◌, Bytes, drop,
  if◌then◌else◌, arith,
}
use libcomms.Circular.{CircularBuffer}
use libcomms.Response.{no_acks}
use libcomms.Machine.{Engine}
use libcomms.Machine.Driving.{Driver}
use libcomms.Bg96.Connections.{ConnectionState, not_connected, BinaryEvent, connect}
use libcomms.Bg96.Driver.{Modem, Own, Act, Context, own_test, perform, store_parsed}
use libcomms.Bg96.Driver.Effects.{perform_same, store_parsed-Same, Same}
use libcomms.Bg96.Responses.{Parsed, recv_length_check}
use libcomms.Bg96.State.{State}
use libcomms.Bg96.Table.{globals, state_def}

abbrev pub capacity : ℕ
capacity = 2048

abbrev pub no_connections : List ConnectionState
no_connections =
    not_connected ∷ not_connected ∷ not_connected ∷ not_connected ∷ not_connected ∷ not_connected
    ∷ not_connected ∷ not_connected ∷ not_connected ∷ not_connected ∷ not_connected ∷ not_connected
    ∷ []

-- The state of the driver behind its constructor.
abbrev pub new : (c : CircularBuffer) → Bool → Bool → Modem c
new c has_callback status_pin = record {
  state = State.reset_stage_decide;
  buffer = c.created capacity;
  to_send = 0;
  bytes_received = 0;
  ack_query_retry_no = 0;
  acks = no_acks;
  connections = no_connections;
  has_callback = has_callback;
  status_pin = status_pin;
  queue = [];
  faulted = false;
  log = [];
}

-- The calls, and the change of the pin's level. `power` and `disconnect` do nothing.
pub data Call (I : Type 0) : Type 0 where
  runs : I → Call I
  sends : Bytes → Call I
  connects : I → Bytes → ℕ → Call I
  disconnects : Call I
  powers : Bool → Call I
  pin_set : Bool → Call I

-- `event` gives the event of an input with its further members; the engine's own is its bytes.
module _ (c : CircularBuffer) (max : ℕ) (e : Engine State Own Act (Modem c) (own_test c max))
    (event : e.Input → BinaryEvent) where
  abbrev pub context : e.Input → Context
  context i = record { ulong_max = max; event = event i; beyond = e.beyond i }

  check_effects : Bytes → State → Modem c → Modem c
  check_effects bytes State.network_begin_receive m = store_parsed c (recv_length_check max bytes) m
  check_effects bytes _ m = m

  check_effects-Same :
      (bytes : Bytes) (s : State) (m : Modem c) → Same c m (check_effects bytes s m)
  unfolding check_effects
  check_effects-Same bytes State.network_begin_receive m =
      store_parsed-Same c (recv_length_check max bytes) m
  check_effects-Same bytes _ m = (refl, refl, refl, refl)

  unfoldable pub ready : e.Input → Modem c → Modem c
  unfolding check_effects
  ready i m =
      let m' = if e.checked i then check_effects (e.event i) m.state m else m in
      record m' { queue = drop (e.consumed i) m'.queue }

  pub ready-Same : (i : e.Input) (m : Modem c) → Same c m (ready i m)
  unfolding ready
  ready-Same i m = ground (arith, check_effects-Same (e.event i) m.state m)

  check_effects-acks :
      (bytes : Bytes) (s : State) (m : Modem c)
      → let m' = check_effects bytes s m in
        (m'.acks ≡ m.acks) × (m'.ack_query_retry_no ≡ m.ack_query_retry_no) × (m'.log ≡ m.log)
  unfolding check_effects store_parsed
  check_effects-acks bytes State.network_begin_receive m = ground arith
  check_effects-acks bytes _ m = (refl, refl, refl)

  pub ready-acks : (i : e.Input) (m : Modem c) → (ready i m).acks ≡ m.acks
  unfolding ready
  ready-acks i m = ground (arith, check_effects-acks (e.event i) m.state m)

  pub ready-retry :
      (i : e.Input) (m : Modem c) → (ready i m).ack_query_retry_no ≡ m.ack_query_retry_no
  unfolding ready
  ready-retry i m = ground (arith, check_effects-acks (e.event i) m.state m)

  pub ready-log : (i : e.Input) (m : Modem c) → (ready i m).log ≡ m.log
  unfolding ready
  ready-log i m = ground (arith, check_effects-acks (e.event i) m.state m)

  abbrev pub driver : Driver e
  driver = record {
    state_of = λ m. m.state;
    enter = λ s m. record m { state = s };
    act = λ i a m. perform c (context i) a m;
    ready = ready;
    table = state_def;
    everywhere = globals;
    state-enter = λ s m. refl;
    state-act = λ i a m. (perform_same c (context i) a m).0;
    state-ready = λ i m. (ready-Same i m).0;
  }

  abbrev pub send : Bytes → Modem c → Modem c
  send bytes m = record m { buffer = (c.store bytes m.buffer).0 }

  abbrev pub run : e.Input → Modem c → Modem c
  run i m = libcomms.Machine.Driving.run driver i m

  unfoldable pub call : Call e.Input → Modem c → Modem c
  call (runs i) m = run i m
  call (sends bytes) m = send bytes m
  call (connects i address port) m = record m {
    queue = (connect e.queue_size (e.queued i) m.connections address port m.queue).0;
  }
  call disconnects m = m
  call (powers on) m = m
  call (pin_set level) m = record m { status_pin = level }

  unfoldable pub trace : List (Call e.Input) → Modem c → Modem c
  trace [] m = m
  trace (x ∷ xs) m = trace xs (call x m)
