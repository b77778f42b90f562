-- ===== src/Bg96/Run/Retries.antt =====
-- The counter ackQueryRetryNo of the BG96's constructor.
use libcomms.Base.{
  ℕ, ◌+◌, ◌≤◌, ◌≡◌, refl, ◌⊎◌, inl, inr, Bool, true, false, some, List, [], ◌∷◌, ◌++◌, arith,
  Option-cases, ◌==◌,
}
use libcomms.Circular.{CircularBuffer}
use libcomms.Machine.{Engine, Guard, Transition, first_holding, own}
use libcomms.Machine.Driving.{
  globals_in, globals_of, locals_of, transitions_of, entry_of, exit_of, perform_all, follow, picked,
}
use libcomms.Machine.Steps.{every, total, first_holding-every}
use libcomms.Bg96.Connections.{BinaryEvent}
use libcomms.Bg96.Driver.{
  Modem, Own, Act, Context, own_test, perform, at, send_action, inc_retry, retry_limit_reached,
}
use libcomms.Bg96.Driver.Effects.{perform-send_action-retry}
use libcomms.Bg96.Run.{Call, runs, new, driver, context, ready, ready-retry, run, call, trace}
use libcomms.Bg96.State.{State}
use libcomms.Bg96.Table.{globals, state_def}

-- How many polls for acks an action counts.
abbrev poll : Act → ℕ
poll inc_retry = 1
poll _ = 0

-- All the actions of a transition, in their order.
abbrev actions : State → Transition State Own Act → List Act
actions s t = exit_of (state_def s) ++ t.actions ++ entry_of (state_def t.target)

abbrev is_calm : State → Transition State Own Act → Bool
is_calm s t = total poll (actions s t) == 0

abbrev is_parse : State → Bool
is_parse State.network_ack_check_parse = true
is_parse _ = false

calm_states :
    (s : State)
    → (s ≡ State.network_ack_check_parse)
      ⊎ (every (is_calm s) (transitions_of (state_def s)) ≡ true)
unfolding state_def
calm_states State.network_ack_check_parse = inl refl
calm_states _ = inr refl

calm_globals : (s : State) → every (is_calm s) (globals_in globals (state_def s)) ≡ true
unfolding state_def
calm_globals State.shut_down = refl
calm_globals _ = refl

parse_counts :
    (holds : Guard Own → Bool) (t : Transition State Own Act)
    → first_holding holds (transitions_of (state_def State.network_ack_check_parse)) ≡ some t
    → (is_calm State.network_ack_check_parse t ≡ true)
      ⊎ ((total poll (actions State.network_ack_check_parse t) ≡ 1)
          × (holds (own retry_limit_reached) ≡ false))
unfolding first_holding state_def
parse_counts holds t h = ground arith

module _ (c : CircularBuffer) (max : ℕ) where
  perform-poll :
      (x : Context) (a : Act) (m : Modem c)
      → (perform c x a m).ack_query_retry_no ≤ m.ack_query_retry_no + poll a
  unfolding perform
  perform-poll x send_action m = omega (arith, perform-send_action-retry c x m)
  perform-poll x (at command) m = ground arith
  perform-poll x _ m = ground arith

module _ (c : CircularBuffer) (max : ℕ) (e : Engine State Own Act (Modem c) (own_test c max))
    (event : e.Input → BinaryEvent) where
  open e use {holds, holds_own, pick_some, pick}

  perform_all-poll :
      (i : e.Input) (acts : List Act) (m : Modem c)
      → (perform_all (driver c max e event) i acts m).ack_query_retry_no
        ≤ m.ack_query_retry_no + total poll acts
  unfolding perform_all
  perform_all-poll i [] m = omega arith
  perform_all-poll i (a ∷ acts) m =
      let x = context c max e event i in
      omega (arith, perform-poll c max x a m, perform_all-poll i acts (perform c x a m))

  -- A poll is counted only if at most eight were.
  abbrev Allows : Modem c → State → Transition State Own Act → Type 0
  Allows m s t = m.ack_query_retry_no + total poll (actions s t) ≤ 9

  calm-Allows :
      (m : Modem c) (s : State) (t : Transition State Own Act)
      → m.ack_query_retry_no ≤ 9
      → is_calm s t ≡ true
      → Allows m s t
  calm-Allows m s t l calm = ground arith

  parse-Allows :
      (i : e.Input) (m : Modem c) (s : State) (t : Transition State Own Act)
      → m.ack_query_retry_no ≤ 9
      → first_holding (holds m i) (transitions_of (state_def s)) ≡ some t
      → s ≡ State.network_ack_check_parse
      → Allows m s t
  unfolding own_test
  parse-Allows i m s t l h p = elim (parse_counts (holds m i) t (rw p at h)) [
    | inl calm ↦ rw p (calm-Allows m State.network_ack_check_parse t l calm)
    | inr (one, below) ↦ rw p (let test = holds_own m i retry_limit_reached in ground arith)
  ]

  picked-Allows :
      (i : e.Input) (m : Modem c) (s : State) (t : Transition State Own Act)
      → m.ack_query_retry_no ≤ 9
      → pick m i (globals_in globals (state_def s)) (transitions_of (state_def s)) ≡ some t
      → Allows m s t
  picked-Allows i m s t l h = elim (pick_some m i _ _ h) [
    | inl global ↦
        calm-Allows m s t l
          (first_holding-every (holds m i) (is_calm s) _ t (calm_globals s) global).0
    | inr local ↦ elim (calm_states s) [
      | inl at_parse ↦ parse-Allows i m s t l local at_parse
      | inr calm ↦
          calm-Allows m s t l (first_holding-every (holds m i) (is_calm s) _ t calm local).0
    ]
  ]

  run-limit :
      (i : e.Input) (m : Modem c)
      → m.ack_query_retry_no ≤ 9
      → (run c max e event i m).ack_query_retry_no ≤ 9
  unfolding libcomms.Machine.Driving.run follow
  run-limit i m l =
      let r = ready c max e event i m in
      let d = driver c max e event in
      let l' : r.ack_query_retry_no ≤ 9 = rw (ready-retry c max e event i m) l in
      elim (Option-cases (picked d i m)) [
        | inl stays ↦ rw stays l'
        | inr (t, taken) ↦
            let a = picked-Allows i r m.state t l' (unfold picked in taken) in
            rw
              (
                taken,
                e.arrange_order (exit_of (state_def m.state)) t.actions
                    (entry_of (state_def t.target)),
              )
              (omega
                (arith, a, perform_all-poll i (actions m.state t) (record r { state = t.target })))
      ]

  call-limit :
      (x : Call e.Input) (m : Modem c)
      → m.ack_query_retry_no ≤ 9
      → (call c max e event x m).ack_query_retry_no ≤ 9
  unfolding call
  call-limit (runs i) m l = run-limit i m l
  call-limit _ m l = l

  trace-limit :
      (xs : List (Call e.Input)) (m : Modem c)
      → m.ack_query_retry_no ≤ 9
      → (trace c max e event xs m).ack_query_retry_no ≤ 9
  unfolding trace
  trace-limit [] m l = l
  trace-limit (x ∷ xs) m l = trace-limit xs (call c max e event x m) (call-limit x m l)

-- After any history of calls and runs, whatever the modem answers, the counter of polls for acks is
-- at most nine.
pub trace-polls_limited :
    (c : CircularBuffer) (max : ℕ) (e : Engine State Own Act (Modem c) (own_test c max))
    (event : e.Input → BinaryEvent) (xs : List (Call e.Input)) (has_callback status_pin : Bool)
    → (trace c max e event xs (new c has_callback status_pin)).ack_query_retry_no ≤ 9
trace-polls_limited c max e event xs has_callback status_pin =
    trace-limit c max e event xs (new c has_callback status_pin) (omega arith)
