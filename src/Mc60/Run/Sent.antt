-- ===== src/Mc60/Run/Sent.antt =====
-- The end of a send of Mc60Modem: NETWORK_ACK_CHECK_PARSE, NETWORK_DECLARE_READ and onSent.
use libcomms.Mc60.Run.Shapes.{is_declare_read}
use libcomms.Base.{
  ℕ, ◌≤◌, ◌≡◌, ◌≢◌, refl, sym, ap, subst, ◌∙◌, inl, inr, Bool, true, false, not, ◌||◌, some, List,
  [], ◌∷◌, ◌++◌, arith, length, drop, Option-cases,
}
use libcomms.Machine.{Engine, Transition}
use libcomms.Machine.Steps.{every, pick-every}
use libcomms.Modem.{notified_sent}
use libcomms.Mc60.Driver.{
  Modem, Own, Act, sent_action, declare_action, own_test, perform, perform_all, Context,
}
use libcomms.Mc60.Outbox.{Outbox, declare}
use libcomms.Mc60.Outbox.Queue.{declare-drop}
use libcomms.Mc60.Run.{
  context, follow, ready, run, picked, entry_of, exit_of, transitions_of, globals_of, check_effects,
}
use libcomms.Mc60.Run.Actions.{
  all_keep, all_keep-append, perform_all-keeps_box, perform_all-append, perform_all-state,
}
use libcomms.Mc60.Run.Rounds.{IsReachable, IsReachable-Announced, ready_same}
use libcomms.Mc60.State.{State}
use libcomms.Mc60.Table.{state_def}

pub declare_lem : (box : Outbox) → declare box ≡ record box { buffer = drop box.to_send box.buffer }
unfolding declare
declare_lem box = ground (arith, declare-drop box)

abbrev is_sms_begin_send : State → Bool
is_sms_begin_send State.sms_begin_send = true
is_sms_begin_send _ = false

abbrev is_report : List Act → Bool
is_report (sent_action ∷ []) = true
is_report _ = false

is_report_sound : (acts : List Act) → is_report acts ≡ true → acts ≡ sent_action ∷ []
is_report_sound acts h = ground arith

pub declare_last :
    (c : Context) (acts : List Act) (m : Modem)
    → all_keep acts ≡ true
    → (perform_all c (acts ++ declare_action ∷ []) m).box ≡ declare m.box
unfolding perform_all perform
declare_last c acts m keep =
    rw (perform_all-append c acts (declare_action ∷ []) m)
      (ap declare (perform_all-keeps_box c acts m keep))

module _ (max : ℕ) (e : Engine State Own Act Modem (own_test max)) where
  open e use {Input, event, arrange_order}

  -- A run that changes the state follows a transition to the new state, of which holds what holds
  -- of all the transitions out of the old one.
  pub run_follows :
      (p : Transition State Own Act → Bool) (i : Input) (m : Modem) (from : State)
      → m.state ≡ from
      → (run max e i m).state ≢ from
      → every p (globals_of (state_def from)) ≡ true
      → every p (transitions_of (state_def from)) ≡ true
      → (t : Transition State Own Act) × (run max e i m
          ≡ follow max e i from (some t) (ready max e i m))
        × (t.target ≡ (run max e i m).state)
        × (p t ≡ true)
  unfolding run
  run_follows p i m from s ne g l = elim (Option-cases (picked max e i m)) [
    | inl stays ↦ absurd (ne (rw (stays, follow) ((ready_same max e i m).1 ∙ s)))
    | inr (t, taken) ↦ (
      t,
      rw taken (ap (λ x. follow max e i x (some t) (ready max e i m)) s),
      rw (taken, follow) (sym (perform_all-state _ _ _)),
      (pick-every e p (ready max e i m) i _ _ t
          (subst (λ x. every p (globals_of (state_def x)) ≡ true) (sym s) g)
          (subst (λ x. every p (transitions_of (state_def x)) ≡ true) (sym s) l)
          (unfold picked in taken)).0,
    )
  ]

  -- The decision to drop what was announced: just as many bytes leave the front of the buffer.
  run_declares :
      (i : Input) (m : Modem)
      → m.state ≡ State.network_ack_check_parse
      → (run max e i m).state ≡ State.network_declare_read
      → (run max e i m).box ≡ declare m.box
  unfolding state_def follow
  run_declares i m s s' =
      let (t, runs_to, arrives, keeps) =
        run_follows (λ u. not (is_declare_read u.target) || all_keep u.actions) i m
          State.network_ack_check_parse s (λ x. cc) refl refl in
      let entry : entry_of (state_def t.target) ≡ declare_action ∷ [] =
        ap (λ x. entry_of (state_def x)) (arrives ∙ s') in
      let target = arrives ∙ s' in
      let keep : all_keep t.actions ≡ true = ground arith in
      let exit = exit_of (state_def State.network_ack_check_parse) in
      ap (λ x. x.box) runs_to
      ∙ rw (arrange_order exit t.actions (entry_of (state_def t.target)), entry)
          (declare_last (context max e i) (exit ++ t.actions) _
              (all_keep-append exit t.actions refl keep)
            ∙ ap declare (ready_same max e i m).0)

  ready_declare_read :
      (i : Input) (m : Modem)
      → m.state ≡ State.network_declare_read
      → let m' = ready max e i m in
        (m'.log ≡ m.log) × (m'.has_callback ≡ m.has_callback) × (m'.box ≡ m.box)
  unfolding ready check_effects
  ready_declare_read i m s = ground arith

  run_reports :
      (i : Input) (m : Modem)
      → m.state ≡ State.network_declare_read
      → (run max e i m).state ≡ State.sms_begin_send
      → m.has_callback ≡ true
      → ((run max e i m).log ≡ notified_sent m.box.to_send ∷ m.log) × ((run max e i m).box ≡ m.box)
  unfolding state_def follow perform_all perform
  run_reports i m s s' listens =
      let (t, runs_to, arrives, reports) =
        run_follows (λ u. not (is_sms_begin_send u.target) || is_report u.actions) i m
          State.network_declare_read s (λ x. cc) refl refl in
      let target = arrives ∙ s' in
      let acts = is_report_sound t.actions (ground arith) in
      let entry : entry_of (state_def t.target) ≡ [] = ap (λ x. entry_of (state_def x)) target in
      rw (runs_to, arrange_order [] t.actions (entry_of (state_def t.target)), entry, acts)
        (ground (arith, ready_declare_read i m s))

-- When a driver with a callback, in a state that calls and runs can reach, goes from
-- NETWORK_ACK_CHECK_PARSE to NETWORK_DECLARE_READ and on to the report, it drops just the announced
-- bytes from the front of the buffer, which holds them all, and their number is what the client is
-- told. The number of sent bytes that the modem's answer gave has no part in it.
pub sent_is_dropped :
    (max : ℕ) (e : Engine State Own Act Modem (own_test max)) (m : Modem) (i j : e.Input)
    → IsReachable max e m
    → m.state ≡ State.network_ack_check_parse
    → (run max e i m).state ≡ State.network_declare_read
    → (run max e j (run max e i m)).state ≡ State.sms_begin_send
    → (run max e i m).has_callback ≡ true
    → let after = run max e j (run max e i m) in
      (m.box.to_send ≤ length m.box.buffer)
      × (after.box.buffer ≡ drop m.box.to_send m.box.buffer)
      × (after.log ≡ notified_sent m.box.to_send ∷ (run max e i m).log)
sent_is_dropped max e m i j r s s1 s2 listens =
    let dropped = run_declares max e i m s s1 ∙ declare_lem m.box in
    let (told, kept) = run_reports max e j (run max e i m) s1 s2 listens in
    (
      (IsReachable-Announced max e m r).held (rw s),
      ap (λ b. b.buffer) (kept ∙ dropped),
      told ∙ ap (λ (b : Outbox). notified_sent b.to_send ∷ (run max e i m).log) dropped,
    )
