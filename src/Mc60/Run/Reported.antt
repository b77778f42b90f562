-- ===== src/Mc60/Run/Reported.antt =====
-- The numbers of bytes that Mc60Modem tells the client by onSent.
use libcomms.Mc60.Run.Shapes.{is_declare_read, entry_declare, actions_of}
use libcomms.Mc60.Responses.{recv_length_check}
use libcomms.Response.{Checked, refused, stored, failed}
use libcomms.Base.{
  ℕ, ◌+◌, ◌≤◌, ◌≡◌, refl, ap, ◌∙◌, inl, inr, Bool, true, false, ◌&&◌, ◌||◌, some, List, [], ◌∷◌,
  ◌++◌, Bytes, arith, length, length-append, Option-cases, Bool-cases, if◌then◌else◌, take_all,
}
use libcomms.Machine.{Engine, Transition}
use libcomms.Machine.Steps.{every, pick-every}
use libcomms.Mc60.Driver.{Modem, Own, Act, declare_action, own_test, perform, perform_all}
use libcomms.Mc60.Outbox.{send}
use libcomms.Mc60.Run.{
  Call, runs, rule_fires, sends, powers, new, check_effects, store_checked, context, follow, ready,
  run, power, call, trace, picked, entry_of, exit_of,
}
use libcomms.Mc60.Run.Actions.{perform_all-keeps_box, perform_all-append, perform_all-state}
use libcomms.Mc60.Run.Refines.{accepted, accepted_by}
use libcomms.Mc60.Run.Held.{in_round}
use libcomms.Mc60.Run.Rounds.{IsReachable, IsReachable-Announced, IsReachable-call, ready_same}
use libcomms.Mc60.State.{State}
use libcomms.Mc60.Table.{state_def, qirdi_rule, sms_rule}
use libcomms.Mc60.Run.Known.{
  told_sent, is_plain, reports_first, delivers_last, counts, table_counts, perform_all-told_sent,
  known, perform_all-known, reported_first, owed, owed-bound, owed_elsewhere, declare-known,
}

reporting : (p d f : Bool) → p ≡ false → (p || (d && f)) ≡ true → (d ≡ true) × (f ≡ true)
reporting p d f n h = ground arith

first_branch : (b x y : Bool) → b ≡ true → (if b then x else y) ≡ true → x ≡ true
first_branch b x y c h = ground arith

second_branch : (b x y : Bool) → b ≡ false → (if b then x else y) ≡ true → y ≡ true
second_branch b x y c h = ground arith

store_checked-told_sent :
    (r : Checked) (m : Modem) → told_sent (store_checked r m).log ≡ told_sent m.log
unfolding store_checked
store_checked-told_sent refused m = refl
store_checked-told_sent (stored n) m = refl
store_checked-told_sent (failed error) m = refl

module _ (max : ℕ) (e : Engine State Own Act Modem (own_test max)) where
  open e use {Input, event, checked, on_reset, on_reset_entry, arrange_order}

  follow-delivers :
      (i : Input) (s : State) (t : Transition State Own Act) (m : Modem)
      → is_declare_read t.target ≡ true
      → delivers_last s t ≡ true
      → (in_round s ≡ true → m.box.to_send ≤ length m.box.buffer)
      → let m' = follow max e i s (some t) m in known m' + owed m' ≤ known m
  unfolding follow
  follow-delivers i s t m d k held =
      let c = context max e i in
      let before = exit_of (state_def s) ++ t.actions in
      let m1 = record m { state = t.target } in
      let kept = perform_all-keeps_box c before m1 (ground arith) in
      let told = perform_all-told_sent c before m1 (ground arith) in
      let fits = held (ground arith) in
      rw
        (
          arrange_order (exit_of (state_def s)) t.actions (entry_of (state_def t.target)),
          perform_all-append c before (entry_of (state_def t.target)) m1,
          entry_declare t.target d,
        )
        (let given = declare-known c (perform_all c before m1) (rw kept fits) in
          let same : known (perform_all c before m1) ≡ known m = rw (told, kept) refl in
          let bound = owed-bound (perform_all c (declare_action ∷ []) (perform_all c before m1)) in
          omega arith)

  follow-known :
      (i : Input) (s : State) (t : Transition State Own Act) (m : Modem)
      → is_declare_read t.target ≡ false
      → (every is_plain (actions_of s t) || (is_declare_read s && reports_first (actions_of s t)))
        ≡ true
      → let m' = follow max e i s (some t) m in
        known m' + owed m' ≤ known m + (if is_declare_read s then m.box.to_send else 0)
  unfolding follow
  follow-known i s t m d k =
      let c = context max e i in
      let acts = actions_of s t in
      let m1 = record m { state = t.target } in
      let settled =
        owed_elsewhere (perform_all c acts m1)
          (ap is_declare_read (perform_all-state c acts m1) ∙ d) in
      rw (arrange_order (exit_of (state_def s)) t.actions (entry_of (state_def t.target)))
        (elim (Bool-cases (every is_plain acts)) [
          | inl plain ↦ let less = perform_all-known c acts m1 plain in omega arith
          | inr other ↦
              let (from, first) =
                reporting (every is_plain acts) (is_declare_read s) (reports_first acts) other k in
              let less = reported_first c acts m1 first in
              let due : (if is_declare_read s then m.box.to_send else 0) ≡ m.box.to_send =
                rw from refl in
              omega arith
        ])

  check_effects-told_sent :
      (bytes : Bytes) (s : State) (m : Modem)
      → told_sent (check_effects max bytes s m).log ≡ told_sent m.log
  unfolding check_effects
  check_effects-told_sent bytes State.network_begin_receive m =
      store_checked-told_sent (recv_length_check max bytes) m
  check_effects-told_sent bytes _ m = refl

  ready-told_sent : (i : Input) (m : Modem) → told_sent (ready max e i m).log ≡ told_sent m.log
  unfolding ready
  ready-told_sent i m = ground (arith, check_effects-told_sent (event i) m.state m)

  ready-known :
      (i : Input) (m : Modem)
      → (known (ready max e i m) ≡ known m) × (owed (ready max e i m) ≡ owed m)
  ready-known i m =
      let (b, s) = ready_same max e i m in
      let told = ready-told_sent i m in (rw (told, b) refl, rw (s, b) refl)

  run-known :
      (i : Input) (m : Modem)
      → (in_round m.state ≡ true → m.box.to_send ≤ length m.box.buffer)
      → let m' = run max e i m in known m' + owed m' ≤ known m + owed m
  unfolding run
  run-known i m held =
      let r = ready max e i m in
      let (k, o) = ready-known i m in
      let (b, s) = ready_same max e i m in
      let due : (if is_declare_read m.state then r.box.to_send else 0) ≡ owed m = rw b refl in
      elim (Option-cases (picked max e i m)) [
        | inl stays ↦ rw (stays, follow) (omega arith)
        | inr (t, taken) ↦
            let (g, l) = table_counts m.state in
            let way = (pick-every e (counts m.state) r i _ _ t g l (unfold picked in taken)).0 in
            rw taken (elim (Bool-cases (is_declare_read t.target)) [
              | inl to_declare ↦
                  let less =
                    follow-delivers i m.state t r to_declare
                      (first_branch (is_declare_read t.target) (delivers_last m.state t) _
                        to_declare way)
                      (λ x. rw b (held x)) in
                  omega arith
              | inr other ↦
                  let less = follow-known i m.state t r other (
                    second_branch (is_declare_read t.target) (delivers_last m.state t)
                      (every is_plain (actions_of m.state t)
                        || (is_declare_read m.state && reports_first (actions_of m.state t)))
                      other way) in
                  omega arith
            ])
      ]

  reset-plain : every is_plain (on_reset (entry_of (state_def State.reset_stage_decide))) ≡ true
  unfolding state_def
  reset-plain = elim (on_reset_entry (entry_of (state_def State.reset_stage_decide))) [
    | inl same ↦ rw same refl
    | inr none_left ↦ rw none_left refl
  ]

  power-known :
      (i : Input) (on : Bool) (m : Modem)
      → let m' = power max e i on m in known m' + owed m' ≤ known m + owed m
  unfolding power
  power-known i false m = ground arith
  power-known i true m =
      let c = context max e i in
      let acts = on_reset (entry_of (state_def State.reset_stage_decide)) in
      let m1 = record m { state = State.reset_stage_decide } in
      let less = perform_all-known c acts m1 reset-plain in
      let settled =
        owed_elsewhere (perform_all c acts m1) (ap is_declare_read (perform_all-state c acts m1)) in
      omega arith

  call-known :
      (x : Call Input) (m : Modem)
      → IsReachable max e m
      → let m' = call max e x m in known m' + owed m' ≤ known m + owed m + length (accepted_by x m)
  unfolding call accepted_by
  call-known (runs i) m r =
      let less = run-known i m (IsReachable-Announced max e m r).held in omega arith
  call-known (powers i on) m r = let less = power-known i on m in omega arith
  call-known (sends bytes) m r =
      unfold send in
      (ground (arith, length-append m.box.buffer bytes, take_all (length bytes) bytes))
  call-known (rule_fires i qirdi_rule) m r = unfold perform in (ground arith)
  call-known (rule_fires i sms_rule) m r = unfold perform in (ground arith)
  call-known _ m r = ground arith

  trace-known :
      (xs : List (Call Input)) (m : Modem)
      → IsReachable max e m
      → let m' = trace max e xs m in
        known m' + owed m' ≤ known m + owed m + length (accepted max e xs m)
  unfolding trace accepted
  trace-known [] m r = omega arith
  trace-known (x ∷ xs) m r =
      let m1 = call max e x m in
      let first = call-known x m r in
      let rest = trace-known xs m1 (IsReachable-call max e x m r) in
      let whole = length-append (accepted_by x m) (accepted max e xs m1) in omega arith

-- After any history of calls and runs from the start, the numbers that the client was told by onSent
-- and the number of the bytes that still wait are together no more than the bytes that the driver
-- accepted.
pub reported-accepted :
    (max : ℕ) (e : Engine State Own Act Modem (own_test max)) (has_callback status_pin : Bool)
    (cs : List (Call e.Input))
    → let m = trace max e cs (new has_callback status_pin) in
      told_sent m.log + length m.box.buffer
      ≤ length (accepted max e cs (new has_callback status_pin))
reported-accepted max e has_callback status_pin cs =
    let start = new has_callback status_pin in
    let most = trace-known max e cs start (record {
      has_callback = has_callback;
      status_pin = status_pin;
      calls = [];
      reaches = unfold trace in refl;
    }) in
    omega arith
