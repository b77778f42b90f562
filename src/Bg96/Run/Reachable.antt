-- ===== src/Bg96/Run/Reachable.antt =====
-- In which states the BG96's driver can be, and the numbers that it gives to connections.
use libcomms.Base.{
  ℕ, ◌≡◌, ◌∙◌, refl, Bool, true, false, List, [], ◌∷◌, ◌++◌, Bytes, length, leb, Option-cases, inl,
  inr, if◌then◌else◌, ◌+◌,
}
use libcomms.Circular.{CircularBuffer}
use libcomms.Machine.{Engine}
use libcomms.Machine.Driving.{state-run, perform_all, follow, picked, globals_in, transitions_of}
use libcomms.Machine.Steps.{every}
use libcomms.Bg96.Connections.{BinaryEvent, conn_event, connect, first_empty, push}
use libcomms.Bg96.Driver.{Modem, Own, Act, own_test, perform}
use libcomms.Bg96.Driver.Effects.{perform_same}
use libcomms.Bg96.Run.{Call, runs, new, context, driver, ready-Same, run, call, trace}
use libcomms.Bg96.State.{State}
use libcomms.Bg96.Table.{globals, state_def}

-- The states of the shutdown, and those that the constructor does not declare.
abbrev pub is_live : State → Bool
is_live State.shut_down_stage_start = false
is_live State.shut_down_stage_power_off = false
is_live State.shut_down = false
is_live State.reset_stage_power_off = false
is_live State.gprs_attach = false
is_live State.gprs_connection_up = false
is_live _ = true

table_live :
    (s : State)
    → is_live s ≡ true
    → (every (λ t. is_live t.target) (globals_in globals (state_def s)) ≡ true)
      × (every (λ t. is_live t.target) (transitions_of (state_def s)) ≡ true)
unfolding state_def
table_live State.shut_down_stage_start k = cc
table_live State.shut_down_stage_power_off k = cc
table_live State.shut_down k = cc
table_live State.reset_stage_power_off k = cc
table_live _ k = (refl, refl)

module _ (c : CircularBuffer) (max : ℕ) (e : Engine State Own Act (Modem c) (own_test c max))
    (event : e.Input → BinaryEvent) where
  call-is_live :
      (x : Call e.Input) (m : Modem c)
      → is_live m.state ≡ true
      → is_live (call c max e event x m).state ≡ true
  unfolding call
  call-is_live (runs i) m h =
      state-run (driver c max e event) is_live i m (λ s k. (table_live s k).0)
        (λ s k. (table_live s k).1) h
  call-is_live _ m h = h

  trace-is_live :
      (xs : List (Call e.Input)) (m : Modem c)
      → is_live m.state ≡ true
      → is_live (trace c max e event xs m).state ≡ true
  unfolding trace
  trace-is_live [] m h = h
  trace-is_live (x ∷ xs) m h = trace-is_live xs (call c max e event x m) (call-is_live x m h)

  connections-perform_all :
      (i : e.Input) (acts : List Act) (m : Modem c)
      → (perform_all (driver c max e event) i acts m).connections ≡ m.connections
  unfolding perform_all
  connections-perform_all i [] m = refl
  connections-perform_all i (a ∷ acts) m =
      connections-perform_all i acts (perform c (context c max e event i) a m)
      ∙ (perform_same c (context c max e event i) a m).1

  connections-run :
      (i : e.Input) (m : Modem c) → (run c max e event i m).connections ≡ m.connections
  unfolding libcomms.Machine.Driving.run follow
  connections-run i m = elim (Option-cases (picked (driver c max e event) i m)) [
    | inl stays ↦ rw stays (ready-Same c max e event i m).1
    | inr (t, taken) ↦ rw taken (connections-perform_all i _ _ ∙ (ready-Same c max e event i m).1)
  ]

  connections-call :
      (x : Call e.Input) (m : Modem c) → (call c max e event x m).connections ≡ m.connections
  unfolding call
  connections-call (runs i) m = connections-run i m
  connections-call _ m = refl

  connections-trace :
      (xs : List (Call e.Input)) (m : Modem c)
      → (trace c max e event xs m).connections ≡ m.connections
  unfolding trace
  connections-trace [] m = refl
  connections-trace (x ∷ xs) m =
      connections-trace xs (call c max e event x m) ∙ connections-call x m

-- After any history of calls and runs the machine is in none of the states of the shutdown, nor in
-- RESET_STAGE_POWER_OFF, GPRS_ATTACH and GPRS_CONNECTION_UP.
pub trace_live :
    (c : CircularBuffer) (max : ℕ) (e : Engine State Own Act (Modem c) (own_test c max))
    (event : e.Input → BinaryEvent) (xs : List (Call e.Input)) (has_callback status_pin : Bool)
    → is_live (trace c max e event xs (new c has_callback status_pin)).state ≡ true
trace_live c max e event xs has_callback status_pin =
    trace-is_live c max e event xs (new c has_callback status_pin) refl

-- After any history of calls and runs, whatever connections were asked for and opened before,
-- connect gives the next one the number 0, and answers false only if the event queue is full of the
-- client's events and the modem's lines, which share it.
pub connect_gives_zero :
    (c : CircularBuffer) (max : ℕ) (e : Engine State Own Act (Modem c) (own_test c max))
    (event : e.Input → BinaryEvent) (xs : List (Call e.Input)) (has_callback status_pin : Bool)
    (i : e.Input) (address : Bytes) (port : ℕ)
    → let m = trace c max e event xs (new c has_callback status_pin) in
      connect e.queue_size (e.queued i) m.connections address port m.queue ≡ (
        if leb e.queue_size (length m.queue + e.queued i)
        then (m.queue, false)
        else (m.queue ++ conn_event address port 0 ∷ [], true))
unfolding connect push first_empty
connect_gives_zero c max e event xs has_callback status_pin i address port =
    rw (connections-trace c max e event xs (new c has_callback status_pin)) refl
