-- ===== src/Mc60/Run.antt =====
-- One call of Mc60Modem: `run`, or a call of the client (src/mc60Modem/Mc60Modem.h and .cc).
-- A run finds an input, and takes the transition that the engine picks in the table.
pub mod Shapes
pub mod Actions
pub mod Counts
pub mod Notifications
pub mod Held
pub mod Rounds
pub mod Retries
pub mod Sent
pub mod Payload
pub mod ShutDown
pub mod Sleep
pub mod Connection
pub mod Declared
pub mod Timeouts
pub mod Views
pub mod Delivers
pub mod Refines
pub mod Passing
pub mod Awaited
pub mod Received
pub mod Known
pub mod Reported
pub mod Clears
pub mod Leaves
pub mod InFlight
pub mod Delivered
pub mod Polls
pub mod Answers
pub mod Moved
pub mod Exchange
pub mod Unread
pub mod Answered
pub mod Turning
pub mod Pieces
pub mod Drained
pub mod Connecting
use libcomms.Base.{
  ℕ, Bool, true, false, Option, none, some, List, [], ◌∷◌, ◌++◌, Bytes, codes, length, drop, leb,
  not, ◌==◌, if◌then◌else◌, ◌+◌,
}
use libcomms.CLib.{upto_nul}
use libcomms.Machine.{Engine, Transition, StateDef}
use libcomms.Response.{Checked, refused, stored, failed, no_acks}
use libcomms.Modem.{error_handled}
use libcomms.Modem.Sms.{SmsCollection}
use libcomms.Mc60.Driver.{Modem, Own, Act, Def, Context, emit, own_test, perform, perform_all}
use libcomms.Mc60.Outbox.{Outbox, send}
use libcomms.Mc60.Responses.{recv_length_check}
use libcomms.Mc60.State.{State}
use libcomms.Mc60.Table.{Rule, rule_action, globals, state_def}

abbrev entry_of : Option Def → List Act
entry_of none = []
entry_of (some d) = d.entry

abbrev exit_of : Option Def → List Act
exit_of none = []
exit_of (some d) = d.exit

abbrev transitions_of : Option Def → List (Transition State Own Act)
transitions_of none = []
transitions_of (some d) = d.transitions

-- A state that suppresses the global transitions has none of them; nor has a state that is not
-- declared, which the machine is never in.
abbrev globals_of : Option Def → List (Transition State Own Act)
globals_of none = []
globals_of (some d) = if d.suppresses then [] else globals

-- ParseRecvLengthCondition stores the length when it is evaluated, and may call Error_Handler.
store_checked : Checked → Modem → Modem
store_checked refused m = m
store_checked (stored n) m = record m { bytes_received = n }
store_checked (failed error) m = emit (error_handled error) m

unfoldable pub check_effects : ℕ → Bytes → State → Modem → Modem
unfolding store_checked
check_effects max event State.network_begin_receive m =
    store_checked (recv_length_check max event) m
check_effects max event _ m = m

-- The state of the driver behind its constructor. The initial state is RESET_STAGE_DECIDE.
abbrev pub new : Bool → Bool → Modem
new has_callback status_pin = record {
  state = State.reset_stage_decide;
  box = record { buffer = []; to_send = 0 };
  sms = [];
  address = [];
  port = 0;
  new_data_to_receive = false;
  new_sms_to_receive = false;
  connected = false;
  sleep_when_nothing_to_send = true;
  bytes_received = 0;
  at_query_retry_no = 0;
  ack_query_retry_no = 0;
  acks = no_acks;
  has_callback = has_callback;
  status_pin = status_pin;
  queue = [];
  log = [];
}

abbrev off_event : Bytes
off_event = codes "_OFF"

-- Mc60Modem::isConnected and isSending.
abbrev pub is_connected : Modem → Bool
is_connected m = m.connected

abbrev pub is_sending : Modem → Bool
is_sending m = not (length m.box.buffer == 0)

-- The calls, the change of the pin's level, and what a client sets in the public members. `I` is
-- the type of the engine's inputs.
pub data Call (I : Type 0) : Type 0 where
  runs : I → Call I
  rule_fires : I → Rule → Call I
  sends : Bytes → Call I
  connects : Bytes → ℕ → Call I
  disconnects : Call I
  powers : I → Bool → Call I
  pin_set : Bool → Call I
  sleep_set : Bool → Call I
  sms_set : SmsCollection → Call I

module _ (max : ℕ) (e : Engine State Own Act Modem (own_test max)) where
  open e use {
    Input, event, beyond, stale, pick, arrange, checked, consumed, queued, queue_size, on_reset,
  }

  abbrev pub context : Input → Context
  context i = record { ulong_max = max; event = event i; beyond = beyond i; stale = stale i }

  -- A transition that is taken: exit actions, its own, and the entry actions of its target.
  unfoldable pub follow : Input → State → Option (Transition State Own Act) → Modem → Modem
  follow i from none m = m
  follow i from (some t) m =
      perform_all (context i)
        (arrange (exit_of (state_def from)) t.actions (entry_of (state_def t.target)))
        (record m { state = t.target })

  -- What a run does before it picks a transition.
  unfoldable pub ready : Input → Modem → Modem
  ready i m =
      let m' = if checked i then check_effects max (event i) m.state m else m in
      record m' { queue = drop (consumed i) m'.queue }

  unfoldable pub picked : Input → Modem → Option (Transition State Own Act)
  picked i m =
      pick (ready i m) i (globals_of (state_def m.state)) (transitions_of (state_def m.state))

  -- Mc60Modem::run.
  unfoldable pub run : Input → Modem → Modem
  unfolding follow ready picked
  run i m = follow i m.state (picked i m) (ready i m)

  -- Mc60Modem::power. `machine.reset ()` goes back to the initial state.
  unfoldable pub power : Input → Bool → Modem → Modem
  power i false m =
      if leb queue_size (length m.queue + queued i)
      then m
      else record m { queue = m.queue ++ off_event ∷ [] }
  power i true m =
      perform_all (context i) (on_reset (entry_of (state_def State.reset_stage_decide)))
        (record m { state = State.reset_stage_decide })

  -- Mc60Modem::connect, which answers true.
  abbrev pub connect : Bytes → ℕ → Modem → Modem
  connect address port m = record m { address = upto_nul address; port = port }

  -- Mc60Modem::disconnect.
  abbrev pub disconnect : Modem → Modem
  disconnect m = record m { address = []; port = 0 }

  unfoldable pub call : Call Input → Modem → Modem
  unfolding run power
  call (runs i) m = run i m
  call (rule_fires i r) m = perform (context i) (rule_action r) m
  call (sends bytes) m = record m { box = (send bytes m.box).0 }
  call (connects address port) m = connect address port m
  call disconnects m = disconnect m
  call (powers i on) m = power i on m
  call (pin_set level) m = record m { status_pin = level }
  call (sleep_set b) m = record m { sleep_when_nothing_to_send = b }
  call (sms_set messages) m = record m { sms = messages }

  -- The driver after a history of calls.
  unfoldable pub trace : List (Call Input) → Modem → Modem
  trace [] m = m
  trace (c ∷ cs) m = trace cs (call c m)
