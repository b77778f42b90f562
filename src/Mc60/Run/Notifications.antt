-- ===== src/Mc60/Run/Notifications.antt =====
-- What the client of Mc60Modem is told of connections and disconnections.
use libcomms.Base.{ℕ, ◌≡◌, Bool, true, false, Option, none, some, List, [], ◌∷◌, Bytes, arith}
use libcomms.Machine.{Engine, Transition}
use libcomms.Modem.{Output, notified_connected, notified_disconnected}
use libcomms.Response.{Checked, refused, stored, failed}
use libcomms.Mc60.Driver.{Modem, Own, Act, Context, at, own_test, perform, perform_all}
use libcomms.Mc60.Run.{
  Call, runs, rule_fires, powers, store_checked, check_effects, new, follow, ready, run, power,
  call, trace, picked,
}
use libcomms.Mc60.State.{State}

-- What the client was last told; it knows of no connection before the first call.
abbrev pub told : List Output → Bool
told [] = false
told (notified_connected ∷ _) = true
told (notified_disconnected ∷ _) = false
told (_ ∷ log) = told log

-- The client is told of a connection only when it knows of none, and of a disconnection only when
-- it knows of a connection. The log holds the newest first.
abbrev pub Alternates : List Output → Type 0
Alternates [] = Unit
Alternates (notified_connected ∷ log) = (told log ≡ false) × Alternates log
Alternates (notified_disconnected ∷ log) = (told log ≡ true) × Alternates log
Alternates (_ ∷ log) = Alternates log

pub record Notified (m : Modem) : Type 0 where
  pub listens : m.has_callback ≡ true
  pub alternates : Alternates m.log
  pub agrees : told m.log ≡ m.connected

perform-Notified : (c : Context) (a : Act) (m : Modem) → Notified m → Notified (perform c a m)
unfolding perform
perform-Notified c (at command) m h = ground arith
perform-Notified c _ m h = ground arith

perform_all-Notified :
    (c : Context) (acts : List Act) (m : Modem) → Notified m → Notified (perform_all c acts m)
unfolding perform_all
perform_all-Notified c [] m h = h
perform_all-Notified c (a ∷ acts) m h =
    perform_all-Notified c acts (perform c a m) (perform-Notified c a m h)

store_checked-Notified : (r : Checked) (m : Modem) → Notified m → Notified (store_checked r m)
unfolding store_checked
store_checked-Notified refused m h = h
store_checked-Notified (stored n) m h = ground arith
store_checked-Notified (failed x) m h = ground arith

check_effects-Notified :
    (max : ℕ) (event : Bytes) (s : State) (m : Modem)
    → Notified m
    → Notified (check_effects max event s m)
unfolding check_effects
check_effects-Notified max event State.network_begin_receive m h = store_checked-Notified _ m h
check_effects-Notified max event _ m h = h

module _ (max : ℕ) (e : Engine State Own Act Modem (own_test max)) where
  open e use {Input, event, checked}

  follow-Notified :
      (i : Input) (s : State) (o : Option (Transition State Own Act)) (m : Modem)
      → Notified m
      → Notified (follow max e i s o m)
  unfolding follow
  follow-Notified i s none m h = h
  follow-Notified i s (some t) m h = perform_all-Notified _ _ _ (ground arith)

  run-Notified : (i : Input) (m : Modem) → Notified m → Notified (run max e i m)
  unfolding run
  run-Notified i m h =
      follow-Notified i m.state (picked max e i m) (ready max e i m)
        (ground (arith, check_effects-Notified max (event i) m.state m h))

  power-Notified : (i : Input) (on : Bool) (m : Modem) → Notified m → Notified (power max e i on m)
  unfolding power
  power-Notified i true m h = perform_all-Notified _ _ _ (ground arith)
  power-Notified i false m h = ground arith

  call-Notified : (c : Call Input) (m : Modem) → Notified m → Notified (call max e c m)
  unfolding call
  call-Notified (runs i) m h = run-Notified i m h
  call-Notified (rule_fires i r) m h = perform-Notified _ _ m h
  call-Notified (powers i on) m h = power-Notified i on m h
  call-Notified _ m h = ground arith

  trace-Notified : (cs : List (Call Input)) (m : Modem) → Notified m → Notified (trace max e cs m)
  unfolding trace
  trace-Notified [] m h = h
  trace-Notified (c ∷ cs) m h = trace-Notified cs (call max e c m) (call-Notified c m h)

-- After any history of calls and runs of a driver that was built with a callback, the client was
-- told of connections and disconnections strictly in turn, a connection first, and what it was told
-- last is what `isConnected` answers.
pub trace-Alternates :
    (max : ℕ) (e : Engine State Own Act Modem (own_test max)) (status_pin : Bool)
    (cs : List (Call e.Input))
    → let m = trace max e cs (new true status_pin) in Alternates m.log × (told m.log ≡ m.connected)
trace-Alternates max e status_pin cs =
    let h = trace-Notified max e cs (new true status_pin) (ground arith) in (h.alternates, h.agrees)
