-- ===== src/Esp8266/Run/Reachable.antt =====
-- In which states the ESP8266's driver can be.
use libcomms.Base.{
  ◌≡◌, ◌⊎◌, inl, inr, refl, Bool, true, false, Option, none, some, List, [], ◌∷◌, String, ◌||◌,
}
use libcomms.Circular.{CircularBuffer}
use libcomms.Machine.{Engine}
use libcomms.Machine.Driving.{state-run, globals_in, transitions_of}
use libcomms.Machine.Steps.{every}
use libcomms.Esp8266.Driver.{Card, Own, Act, Def, own_test}
use libcomms.Esp8266.Run.{Call, runs, new, driver, call, trace}
use libcomms.Esp8266.State.{State}
use libcomms.Esp8266.Table.{globals, state_def}

abbrev is_cancel_send : State → Bool
is_cancel_send State.cancel_send = true
is_cancel_send _ = false

abbrev is_declared : Option Def → Bool
is_declared none = false
is_declared (some _) = true

declared_def : (o : Option Def) → is_declared o ≡ true → (d : Def) × (o ≡ some d)
declared_def none h = cc
declared_def (some d) h = (d, refl)

module _ (ssid pass : String) where
  abbrev is_known : State → Bool
  is_known s = is_cancel_send s || is_declared (state_def ssid pass s)

  table_known :
      (s : State)
      → (every (λ t. is_known t.target) (globals_in globals (state_def ssid pass s)) ≡ true)
        × (every (λ t. is_known t.target) (transitions_of (state_def ssid pass s)) ≡ true)
  unfolding state_def
  table_known State.init = (refl, refl)
  table_known _ = (refl, refl)

  is_known_sound :
      (s : State)
      → is_known s ≡ true
      → ((s ≡ State.cancel_send) × (state_def ssid pass s ≡ none))
        ⊎ ((d : Def) × (state_def ssid pass s ≡ some d))
  unfolding state_def
  is_known_sound State.cancel_send h = inl (refl, refl)
  is_known_sound s h = inr (declared_def (state_def ssid pass s) h)

module _ (c : CircularBuffer) (ssid pass : String)
    (e : Engine State Own Act (Card c) (own_test c)) where
  call-is_known :
      (x : Call e.Input) (m : Card c)
      → is_known ssid pass m.state ≡ true
      → is_known ssid pass (call c ssid pass e x m).state ≡ true
  unfolding call
  call-is_known (runs i) m h =
      state-run (driver c ssid pass e) (is_known ssid pass) i m (λ s k. (table_known ssid pass s).0)
        (λ s k. (table_known ssid pass s).1) h
  call-is_known _ m h = h

  trace-is_known :
      (xs : List (Call e.Input)) (m : Card c)
      → is_known ssid pass m.state ≡ true
      → is_known ssid pass (trace c ssid pass e xs m).state ≡ true
  unfolding trace
  trace-is_known [] m h = h
  trace-is_known (x ∷ xs) m h = trace-is_known xs (call c ssid pass e x m) (call-is_known x m h)

-- After any history of calls and runs the machine is in a state that the constructor declares, or it
-- is in CANCEL_SEND and the constructor does not declare this state.
pub trace_known :
    (c : CircularBuffer) (ssid pass : String) (e : Engine State Own Act (Card c) (own_test c))
    (xs : List (Call e.Input))
    → let s = (trace c ssid pass e xs (new c)).state in
      ((s ≡ State.cancel_send) × (state_def ssid pass s ≡ none))
      ⊎ ((d : Def) × (state_def ssid pass s ≡ some d))
unfolding state_def
trace_known c ssid pass e xs =
    is_known_sound ssid pass _ (trace-is_known c ssid pass e xs (new c) refl)
