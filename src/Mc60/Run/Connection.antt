-- ===== src/Mc60/Run/Connection.antt =====
-- When the driver takes itself for connected.
use libcomms.Base.{
  ℕ, ◌≡◌, refl, ◌∙◌, inl, inr, Bool, true, false, ◌||◌, ◌&&◌, some, List, [], ◌∷◌, ◌++◌, Bytes,
  arith, Bool-cases, Option-cases,
}
use libcomms.Machine.{Engine, Transition}
use libcomms.Machine.Steps.{every, every-append, pick-every}
use libcomms.Response.{Checked, refused}
use libcomms.Mc60.Driver.{
  Modem, Own, Act, Context, at, connected_action, own_test, perform, perform_all,
}
use libcomms.Mc60.Run.{
  store_checked, check_effects, context, follow, ready, run, picked, entry_of, exit_of,
  transitions_of, globals_of,
}
use libcomms.Mc60.Run.Actions.{perform_all-state}
use libcomms.Mc60.State.{State}
use libcomms.Mc60.Table.{state_def}

abbrev connects_no : Act → Bool
connects_no connected_action = false
connects_no _ = true

perform-connects_no :
    (c : Context) (a : Act) (m : Modem)
    → connects_no a ≡ true
    → m.connected ≡ false
    → (perform c a m).connected ≡ false
unfolding perform
perform-connects_no c (at command) m k h = ground arith
perform-connects_no c _ m k h = ground arith

perform_all-connects_no :
    (c : Context) (acts : List Act) (m : Modem)
    → every connects_no acts ≡ true
    → m.connected ≡ false
    → (perform_all c acts m).connected ≡ false
unfolding perform_all
perform_all-connects_no c [] m k h = h
perform_all-connects_no c (a ∷ acts) m k h =
    ground (arith, perform-connects_no c a m, perform_all-connects_no c acts (perform c a m))

states_connect_no :
    (s : State)
    → (every connects_no (exit_of (state_def s)) ≡ true)
      × (every connects_no (entry_of (state_def s)) ≡ true)
unfolding state_def
states_connect_no State.sleep = (refl, refl)
states_connect_no _ = (refl, refl)

is_echo_off : State → Bool
is_echo_off State.network_gps_usart_echo_off = true
is_echo_off _ = false

-- A transition connects nothing, or it leads from CONNECT_TO_SERVER to NETWORK_GPS_USART_ECHO_OFF.
abbrev is_connecting : State → Bool
is_connecting State.connect_to_server = true
is_connecting _ = false

abbrev connects_rightly : State → Transition State Own Act → Bool
connects_rightly from t =
    every connects_no t.actions || (is_connecting from && is_echo_off t.target)

table_connects_rightly :
    (s : State)
    → (every (connects_rightly s) (globals_of (state_def s)) ≡ true)
      × (every (connects_rightly s) (transitions_of (state_def s)) ≡ true)
unfolding state_def is_echo_off
table_connects_rightly State.sleep = (refl, refl)
table_connects_rightly _ = (refl, refl)

store_checked_connected : (r : Checked) (m : Modem) → (store_checked r m).connected ≡ m.connected
unfolding store_checked
store_checked_connected refused m = refl
store_checked_connected _ m = refl

check_effects_connected :
    (max : ℕ) (event : Bytes) (s : State) (m : Modem)
    → (check_effects max event s m).connected ≡ m.connected
unfolding check_effects
check_effects_connected max event State.network_begin_receive m = store_checked_connected _ m
check_effects_connected max event _ m = refl

is_connecting_sound : (s : State) → is_connecting s ≡ true → s ≡ State.connect_to_server
is_connecting_sound s h = ground arith

is_echo_off_sound : (s : State) → is_echo_off s ≡ true → s ≡ State.network_gps_usart_echo_off
unfolding is_echo_off
is_echo_off_sound s h = ground arith

module _ (max : ℕ) (e : Engine State Own Act Modem (own_test max)) where
  open e use {Input, event, arrange_order}

  pub ready_connected : (i : Input) (m : Modem) → (ready max e i m).connected ≡ m.connected
  unfolding ready
  ready_connected i m = ground (arith, check_effects_connected max (event i) m.state m)

  follow-connects_no :
      (i : Input) (from : State) (t : Transition State Own Act) (m : Modem)
      → every connects_no t.actions ≡ true
      → m.connected ≡ false
      → (follow max e i from (some t) m).connected ≡ false
  unfolding follow
  follow-connects_no i from t m k h =
      let exit = exit_of (state_def from) in
      let entry = entry_of (state_def t.target) in
      rw (arrange_order exit t.actions entry) (
        perform_all-connects_no (context max e i) (exit ++ t.actions ++ entry) _
          (every-append connects_no (exit ++ t.actions) entry
            (every-append connects_no exit t.actions (states_connect_no from).0 k)
            (states_connect_no t.target).1)
          h)

-- A run makes a driver connected that was not only from CONNECT_TO_SERVER, where AT+QIOPEN was sent,
-- and it ends in NETWORK_GPS_USART_ECHO_OFF.
pub run_connects :
    (max : ℕ) (e : Engine State Own Act Modem (own_test max)) (i : e.Input) (m : Modem)
    → m.connected ≡ false
    → (run max e i m).connected ≡ true
    → (m.state ≡ State.connect_to_server)
      × ((run max e i m).state ≡ State.network_gps_usart_echo_off)
unfolding run
run_connects max e i m before after = elim (Option-cases (picked max e i m)) [
  | inl stays ↦
      let kept : (ready max e i m).connected ≡ true = rw (stays, follow) at after in
      absurd (cc (ready_connected max e i m))
  | inr (t, taken) ↦
      let (g, l) = table_connects_rightly m.state in
      let rightly =
        (pick-every e (connects_rightly m.state) (ready max e i m) i _ _ t g l
          (unfold picked in taken)).0 in
      let ready' = ready_connected max e i m ∙ before in
      elim (Bool-cases (every connects_no t.actions)) [
        | inl none_ ↦
            let stays = follow-connects_no max e i m.state t (ready max e i m) none_ ready' in
            let rises : (follow max e i m.state (some t) (ready max e i m)).connected ≡ true =
              rw taken at after in
            absurd (cc)
        | inr some_ ↦
            let target = is_echo_off_sound t.target (ground arith) in
            (
              is_connecting_sound m.state (ground arith),
              rw (taken, follow) (perform_all-state _ _ _ ∙ target),
            )
      ]
]
