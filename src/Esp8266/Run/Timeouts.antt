-- ===== src/Esp8266/Run/Timeouts.antt =====
-- The global transition of the ESP8266's table, which waits for SOFT_RESET_DELAY_MS.
use libcomms.Base.{Bool, ◌<◌, ◌≡◌, refl, ◌∙◌, ◌⊎◌, inl, inr, some, List, String, arith}
use libcomms.Circular.{CircularBuffer}
use libcomms.Machine.{Engine, Guard, Transition, first_holding}
use libcomms.Machine.Driving.{globals_in, locals_of}
use libcomms.Machine.Timeouts.{run-late}
use libcomms.Esp8266.Driver.{Card, Own, Act, Def, own_test, soft_reset_delay_ms}
use libcomms.Esp8266.Run.{Call, new, driver, run, trace}
use libcomms.Esp8266.Run.Reachable.{trace_known}
use libcomms.Esp8266.State.{State}
use libcomms.Esp8266.Table.{globals, state_def}

-- No declared state suppresses the global transition.
declared_globals :
    (ssid pass : String) (s : State) (d : Def)
    → state_def ssid pass s ≡ some d
    → globals_in globals (state_def ssid pass s) ≡ globals
unfolding state_def
declared_globals ssid pass State.init d h = refl
declared_globals ssid pass s d h = ground arith

global_target :
    (holds : Guard Own → Bool) (t : Transition State Own Act)
    → first_holding holds globals ≡ some t
    → t.target ≡ State.init
unfolding first_holding
global_target holds t h = ground arith

-- After any history of calls and runs, once more than ten seconds have passed since the last
-- transition, a run takes the driver to INIT, or along the first transition of its state whose
-- condition holds, unless the driver is in CANCEL_SEND.
pub late_card_moves :
    (c : CircularBuffer) (ssid pass : String) (e : Engine State Own Act (Card c) (own_test c))
    (xs : List (Call e.Input)) (i : e.Input)
    → soft_reset_delay_ms < e.elapsed i
    → let m = trace c ssid pass e xs (new c) in
      let m' = run c ssid pass e i m in
      (m.state ≡ State.cancel_send)
      ⊎ (m'.state ≡ State.init)
      ⊎ ((t : Transition State Own Act) × (first_holding
              (e.holds m i)
              (locals_of (driver c ssid pass e) m.state)
            ≡ some t)
          × (m'.state ≡ t.target))
late_card_moves c ssid pass e xs i late =
    let m = trace c ssid pass e xs (new c) in
    elim (trace_known c ssid pass e xs) [
      | inl (cancelled, undeclared) ↦ inl cancelled
      | inr (d, declared) ↦
          let all = declared_globals ssid pass m.state d declared in
          let (t, arrives, from) =
            run-late (driver c ssid pass e) i m soft_reset_delay_ms (rw all (inl refl)) late in
          elim from [
            | inl global ↦ inr (inl (arrives ∙ global_target _ t (rw all at global)))
            | inr local ↦ inr (inr (t, local, arrives))
          ]
    ]
