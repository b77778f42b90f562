-- ===== src/Bg96/Run/Timeouts.antt =====
-- The global transition of the BG96's table, which waits for SOFT_RESET_DELAY_MS.
use libcomms.Base.{ℕ, ◌<◌, ◌≡◌, refl, ◌⊎◌, inl, inr, Bool, true, some, List, ◌∙◌, arith}
use libcomms.Circular.{CircularBuffer}
use libcomms.Machine.{Engine, Guard, Transition, first_holding}
use libcomms.Machine.Driving.{globals_in, locals_of}
use libcomms.Machine.Timeouts.{run-late}
use libcomms.Bg96.Connections.{BinaryEvent}
use libcomms.Bg96.Driver.{Modem, Own, Act, own_test, soft_reset_delay_ms}
use libcomms.Bg96.Run.{Call, new, driver, ready, run, trace}
use libcomms.Bg96.Run.Reachable.{is_live, trace_live}
use libcomms.Bg96.State.{State}
use libcomms.Bg96.Table.{globals, state_def}

-- No state that the machine can be in suppresses the global transition.
live_globals : (s : State) → is_live s ≡ true → globals_in globals (state_def s) ≡ globals
unfolding state_def
live_globals State.shut_down_stage_start h = cc
live_globals State.shut_down_stage_power_off h = cc
live_globals State.shut_down h = cc
live_globals State.gprs_attach h = cc
live_globals State.gprs_connection_up h = cc
live_globals _ h = refl

global_target :
    (holds : Guard Own → Bool) (t : Transition State Own Act)
    → first_holding holds globals ≡ some t
    → t.target ≡ State.gprs_reset
unfolding first_holding
global_target holds t h = ground arith

-- After any history of calls and runs, once more than ten seconds have passed since the last
-- transition, a run takes the driver to GPRS_RESET, or along the first transition of its state whose
-- condition holds.
pub late_run_moves :
    (c : CircularBuffer) (max : ℕ) (e : Engine State Own Act (Modem c) (own_test c max))
    (event : e.Input → BinaryEvent) (xs : List (Call e.Input)) (has_callback status_pin : Bool)
    (i : e.Input)
    → soft_reset_delay_ms < e.elapsed i
    → let m = trace c max e event xs (new c has_callback status_pin) in
      let m' = run c max e event i m in
      (m'.state ≡ State.gprs_reset)
      ⊎ ((t : Transition State Own Act) × (first_holding
              (e.holds (ready c max e event i m) i)
              (locals_of (driver c max e event) m.state)
            ≡ some t)
          × (m'.state ≡ t.target))
late_run_moves c max e event xs has_callback status_pin i late =
    let m = trace c max e event xs (new c has_callback status_pin) in
    let every_state = live_globals m.state (trace_live c max e event xs has_callback status_pin) in
    let (t, arrives, from) =
      run-late (driver c max e event) i m soft_reset_delay_ms (rw every_state (inl refl)) late in
    elim from [
      | inl global ↦ inl (arrives ∙ global_target _ t (rw every_state at global))
      | inr local ↦ inr (t, local, arrives)
    ]
