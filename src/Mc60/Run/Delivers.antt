-- ===== src/Mc60/Run/Delivers.antt =====
-- Mc60Modem as a stream: what each run does to the view of the client.
use libcomms.Mc60.Run.Leaves.{acked}
use libcomms.Mc60.Run.Delivered.{IsReachable-Followed}
use libcomms.Mc60.Run.InFlight.{InFlight, in_flight}
use libcomms.Mc60.Outbox.{Outbox}
use libcomms.Mc60.Run.Shapes.{is_declare_read, entry_declare, is_parse, is_parse_lem, is_all_acked}
use libcomms.Mc60.Run.Connection.{ready_connected}
use libcomms.Base.{
  ℕ, ◌≤◌, ◌≡◌, refl, ap, ◌⊎◌, inl, inr, Bool, true, false, not, ◌&&◌, ◌||◌, some, List, [], ◌++◌,
  Bytes, arith, length, Option-cases, Bool-cases, take, ◌<◌,
}
use libcomms.Machine.{Engine, Transition}
use libcomms.Machine.Steps.{every, every-append, pick-every}
use libcomms.Mc60.Driver.{Modem, Own, Act, own_test, perform_all}
use libcomms.Mc60.Run.{
  context, follow, ready, run, power, picked, entry_of, exit_of, transitions_of, globals_of,
}
use libcomms.Mc60.Run.Actions.{all_keep, all_keep-append, perform_all-keeps_box, perform_all-append}
use libcomms.Mc60.Run.Held.{in_round}
use libcomms.Mc60.Run.Rounds.{IsReachable, IsReachable-Announced, ready_same}
use libcomms.Mc60.State.{State}
use libcomms.Mc60.Table.{state_def}
use libcomms.Mc60.Run.Views.{
  Reaches, no_declare, same-Reaches, perform_all-Reaches, declare-Reaches,
}

-- A transition declares nothing, or it leads from NETWORK_ACK_CHECK_PARSE on equal numbers.
abbrev declares_rightly : State → Transition State Own Act → Bool
declares_rightly from t =
    every no_declare t.actions
    && (not (is_declare_read t.target)
        || (is_parse from
            && is_all_acked t.guard
            && all_keep (exit_of (state_def from))
            && all_keep t.actions))

table_declares_rightly :
    (s : State)
    → (every (declares_rightly s) (globals_of (state_def s)) ≡ true)
      × (every (declares_rightly s) (transitions_of (state_def s)) ≡ true)
unfolding state_def
table_declares_rightly State.sleep = (refl, refl)
table_declares_rightly _ = (refl, refl)

exit-no_declare : (s : State) → every no_declare (exit_of (state_def s)) ≡ true
unfolding state_def
exit-no_declare State.sleep = refl
exit-no_declare _ = refl

entry-no_declare :
    (s : State) → is_declare_read s ≡ false → every no_declare (entry_of (state_def s)) ≡ true
unfolding state_def
entry-no_declare State.network_declare_read h = cc
entry-no_declare State.sleep h = refl
entry-no_declare _ h = refl

module _ (Confirmed : Bytes → Type 0) where
  -- What the third stage may drop of a buffer.
  abbrev Declares : Outbox → Type 0
  Declares box =
      (0 < box.to_send)
      × (box.to_send ≤ length box.buffer)
      × Confirmed (take box.to_send box.buffer)

  -- A run may drop the bytes that are in flight, on equal numbers in NETWORK_ACK_CHECK_PARSE.
  abbrev pub Confirms : Modem → Type 0
  Confirms m =
      m.state ≡ State.network_ack_check_parse
      → m.acks.sent ≡ m.acks.acked
      → InFlight (take m.box.to_send m.box.buffer) m.log
      → Confirmed (take m.box.to_send m.box.buffer)

module _ (Confirmed : Bytes → Type 0) (max : ℕ)
    (e : Engine State Own Act Modem (own_test max)) where
  open e use {Input, holds}

  may_declare :
      (i : Input) (m : Modem) (t : Transition State Own Act)
      → IsReachable max e m
      → Confirms Confirmed m
      → declares_rightly m.state t ≡ true
      → holds (ready max e i m) i t.guard ≡ true
      → is_declare_read t.target ≡ true
      → Declares Confirmed (ready max e i m).box
  may_declare i m t reached confirms rightly guard_holds declares =
      let from = is_parse_lem m.state (ground arith) in
      let equal = acked max e i m t.guard (ground arith) guard_holds in
      let (pos, flies) = IsReachable-Followed max e m reached (ap in_flight from) in
      let fits = (IsReachable-Announced max e m reached).held (ap in_round from) in
      rw (ready_same max e i m).0 (pos, fits, confirms from equal flies)

module _ (max : ℕ) (e : Engine State Own Act Modem (own_test max)) {Confirmed : Bytes → Type 0}
    (start : Modem) {xs : Bytes} where
  open e use {Input, event, arrange_order, on_reset, on_reset_entry}

  follow-Reaches :
      (i : Input) (from : State) (t : Transition State Own Act) (m : Modem)
      → declares_rightly from t ≡ true
      → (is_declare_read t.target ≡ true → Declares Confirmed m.box)
      → Reaches Confirmed start xs m
      → Reaches Confirmed start xs (follow max e i from (some t) m)
  unfolding follow
  follow-Reaches i from t m k held r =
      let c = context max e i in
      let exit = exit_of (state_def from) in
      let entry = entry_of (state_def t.target) in
      let m' = record m { state = t.target } in
      let quiet = every-append no_declare exit t.actions (exit-no_declare from) (ground arith) in
      let r' = perform_all-Reaches start c (exit ++ t.actions) m' quiet r in
      rw (arrange_order exit t.actions entry, perform_all-append c (exit ++ t.actions) entry m')
        (elim (Bool-cases (is_declare_read t.target)) [
          | inl declares ↦
              let kept =
                perform_all-keeps_box c (exit ++ t.actions) m'
                  (all_keep-append exit t.actions (ground arith) (ground arith)) in
              let (pos, fits, confirmed) = held declares in
              rw (entry_declare t.target declares) (
                declare-Reaches start c (perform_all c (exit ++ t.actions) m') (rw kept pos)
                  (rw kept fits) (rw kept confirmed) r')
          | inr other ↦
              perform_all-Reaches start c entry (perform_all c (exit ++ t.actions) m')
                (entry-no_declare t.target other) r'
        ])

  ready-Reaches :
      (i : Input) (m : Modem)
      → Reaches Confirmed start xs m
      → Reaches Confirmed start xs (ready max e i m)
  ready-Reaches i m r =
      same-Reaches start m (ready max e i m) (ready_connected max e i m)
        (ap (λ b. b.buffer) (ready_same max e i m).0) r

  pub run-Reaches :
      (i : Input) (m : Modem)
      → IsReachable max e m
      → Confirms Confirmed m
      → Reaches Confirmed start xs m
      → Reaches Confirmed start xs (run max e i m)
  unfolding run picked
  run-Reaches i m reached confirms r = elim (Option-cases (picked max e i m)) [
    | inl none_picked ↦ rw (none_picked, follow) (ready-Reaches i m r)
    | inr (t, taken) ↦
        let (g, l) = table_declares_rightly m.state in
        let (rightly, guard_holds) =
          pick-every e (declares_rightly m.state) (ready max e i m) i _ _ t g l taken in
        rw taken (
          follow-Reaches i m.state t (ready max e i m) rightly
            (may_declare Confirmed max e i m t reached confirms rightly guard_holds)
            (ready-Reaches i m r))
  ]

  pub power-Reaches :
      (i : Input) (on : Bool) (m : Modem)
      → Reaches Confirmed start xs m
      → Reaches Confirmed start xs (power max e i on m)
  power-Reaches i false m r =
      same-Reaches start m (power max e i false m) (unfold power in ground arith)
        (unfold power in ground arith) r
  power-Reaches i true m r =
      let entry = entry_of (state_def State.reset_stage_decide) in
      unfold power in
      (perform_all-Reaches start (context max e i) (on_reset entry)
        (record m { state = State.reset_stage_decide }) (reset-no_declare (on_reset_entry entry)) r)
    where
      reset-no_declare :
          {acts : List Act}
          → (acts ≡ entry_of (state_def State.reset_stage_decide)) ⊎ (acts ≡ [])
          → every no_declare acts ≡ true
      reset-no_declare (inl same) = rw same (entry-no_declare State.reset_stage_decide refl)
      reset-no_declare (inr none_left) = rw none_left refl
