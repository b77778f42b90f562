-- ===== src/Mc60/Run/Leaves.antt =====
-- When bytes that wait leave the buffer of Mc60Modem.
use libcomms.Mc60.Run.Shapes.{
  is_declare_read, entry_declare, actions_of, is_parse_lem, is_all_acked, is_all_acked_lem,
}
use libcomms.Base.{
  ℕ, ◌≤◌, ◌≡◌, refl, sym, ap, ◌∙◌, subst, ◌⊎◌, inl, inr, true, false, some, [], ◌++◌, Bytes, arith,
  length, drop, Option-cases,
}
use libcomms.Machine.{Engine, Guard, Transition}
use libcomms.Machine.Steps.{every, pick-every}
use libcomms.Response.{Checked, refused, stored, failed}
use libcomms.Mc60.Driver.{Modem, Own, Act, all_acked, own_test}
use libcomms.Mc60.Responses.{recv_length_check}
use libcomms.Mc60.Run.{
  check_effects, store_checked, context, follow, ready, run, picked, entry_of, exit_of,
}
use libcomms.Mc60.Run.Actions.{all_keep}
use libcomms.Mc60.Run.Connection.{ready_connected}
use libcomms.Mc60.Run.Held.{in_round}
use libcomms.Mc60.Run.Rounds.{IsReachable, IsReachable-Announced, ready_same}
use libcomms.Mc60.Run.Sent.{declare_lem, declare_last}
use libcomms.Mc60.State.{State}
use libcomms.Mc60.Table.{state_def}
use libcomms.Mc60.Run.Clears.{
  no_connected, no_disconnected, Clears, perform_all-cases, perform_all-buffer, leaves,
  table_leaves, leaves_lem,
}

store_checked-acks : (r : Checked) (m : Modem) → (store_checked r m).acks ≡ m.acks
unfolding store_checked
store_checked-acks refused m = refl
store_checked-acks (stored n) m = refl
store_checked-acks (failed error) m = refl

module _ (max : ℕ) (e : Engine State Own Act Modem (own_test max)) where
  open e use {Input, event, arrange_order, holds, holds_own}

  check_effects-acks :
      (bytes : Bytes) (s : State) (m : Modem) → (check_effects max bytes s m).acks ≡ m.acks
  unfolding check_effects
  check_effects-acks bytes State.network_begin_receive m =
      store_checked-acks (recv_length_check max bytes) m
  check_effects-acks bytes _ m = refl

  ready-acks : (i : Input) (m : Modem) → (ready max e i m).acks ≡ m.acks
  unfolding ready
  ready-acks i m = ground (arith, check_effects-acks (event i) m.state m)

  -- The bytes that wait after a call, by the way in which they changed.
  abbrev Leaves : Modem → Modem → Type 0
  Leaves m m' =
      (m'.box.buffer ≡ m.box.buffer)
      ⊎ Clears m m'
      ⊎ ((m.state ≡ State.network_ack_check_parse)
          × (m.acks.sent ≡ m.acks.acked)
          × (m.box.to_send ≤ length m.box.buffer)
          × (m'.box.buffer ≡ drop m.box.to_send m.box.buffer))

  follow-no_connected :
      (i : Input) (s : State) (t : Transition State Own Act) (m : Modem)
      → every no_connected (actions_of s t) ≡ true
      → Leaves m (follow max e i s (some t) m)
  unfolding follow
  follow-no_connected i s t m h =
      rw (arrange_order (exit_of (state_def s)) t.actions (entry_of (state_def t.target)))
        (elim (perform_all-cases (context max e i) (actions_of s t) (record m { state = t.target })
          h) [ inl (b, c) ↦ inl b | inr cleared ↦ inr (inl cleared) ])

  follow-no_disconnected :
      (i : Input) (s : State) (t : Transition State Own Act) (m : Modem)
      → every no_disconnected (actions_of s t) ≡ true
      → (follow max e i s (some t) m).box.buffer ≡ m.box.buffer
  unfolding follow
  follow-no_disconnected i s t m h =
      rw (arrange_order (exit_of (state_def s)) t.actions (entry_of (state_def t.target)))
        (perform_all-buffer (context max e i) (actions_of s t) (record m { state = t.target }) h)

  follow-delivers :
      (i : Input) (s : State) (t : Transition State Own Act) (m : Modem)
      → is_declare_read t.target ≡ true
      → all_keep (exit_of (state_def s) ++ t.actions) ≡ true
      → (follow max e i s (some t) m).box.buffer ≡ drop m.box.to_send m.box.buffer
  unfolding follow
  follow-delivers i s t m d k =
      let before = exit_of (state_def s) ++ t.actions in
      rw
        (
          arrange_order (exit_of (state_def s)) t.actions (entry_of (state_def t.target)),
          entry_declare t.target d,
        )
        (ap (λ b. b.buffer)
          (declare_last (context max e i) before (record m { state = t.target }) k
            ∙ declare_lem m.box))

  pub acked :
      (i : Input) (m : Modem) (g : Guard Own)
      → is_all_acked g ≡ true
      → holds (ready max e i m) i g ≡ true
      → m.acks.sent ≡ m.acks.acked
  unfolding own_test
  acked i m g is h =
      let test =
        sym (holds_own (ready max e i m) i all_acked)
        ∙ subst (λ x. holds (ready max e i m) i x ≡ true) (is_all_acked_lem g is) h in
      let same = ready-acks i m in ground arith

  same-Leaves :
      (m r m' : Modem)
      → r.box ≡ m.box
      → r.connected ≡ m.connected
      → Leaves r m'
      → r.state ≡ m.state
      → r.acks ≡ m.acks
      → Leaves m m'
  same-Leaves m r m' b c (inl kept) s a = inl (kept ∙ ap (λ x. x.buffer) b)
  same-Leaves m r m' b c (inr (inl (u, d, k))) s a = inr (inl (sym c ∙ u, d, k))
  same-Leaves m r m' b c (inr (inr (p, q, f, k))) s a = inr (
      inr (
        sym s ∙ p,
        ap (λ x. x.sent) (sym a) ∙ q ∙ ap (λ x. x.acked) a,
        subst (λ x. x.to_send ≤ length x.buffer) b f,
        k ∙ ap (λ x. drop x.to_send x.buffer) b,
      ))

  run-Leaves :
      (i : Input) (m : Modem)
      → (in_round m.state ≡ true → m.box.to_send ≤ length m.box.buffer)
      → Leaves m (run max e i m)
  unfolding run
  run-Leaves i m held =
      let r = ready max e i m in
      let (b, s) = ready_same max e i m in
      elim (Option-cases (picked max e i m)) [
        | inl stays ↦ rw (stays, follow) (inl (ap (λ x. x.buffer) b))
        | inr (t, taken) ↦
            let (g, l) = table_leaves m.state in
            let (way, guard_holds) =
              pick-every e (leaves m.state) r i _ _ t g l (unfold picked in taken) in
            rw taken (elim (leaves_lem m.state t way) [
              | inl no_connection ↦
                  same-Leaves m r (follow max e i m.state (some t) r) b (ready_connected max e i m)
                    (follow-no_connected i m.state t r no_connection) s (ready-acks i m)
              | inr (inl no_disconnection) ↦
                  inl (follow-no_disconnected i m.state t r no_disconnection ∙ ap (λ x. x.buffer) b)
              | inr (inr (p, all, target, keep)) ↦
                  let from = is_parse_lem m.state p in
                  inr (
                    inr (
                      from,
                      acked i m t.guard all guard_holds,
                      held (ap in_round from),
                      follow-delivers i m.state t r target keep
                          ∙ ap (λ x. drop x.to_send x.buffer) b,
                    ))
            ])
      ]

-- In every state that calls and runs can reach, a run leaves the bytes that wait as they are, or it
-- gives all of them up with a connection that was there and is no more, or, in
-- NETWORK_ACK_CHECK_PARSE and with as many bytes acknowledged as sent, it drops from their front the
-- announced number, which all wait.
pub bytes_leave :
    (max : ℕ) (e : Engine State Own Act Modem (own_test max)) (m : Modem) (i : e.Input)
    → IsReachable max e m
    → let m' = run max e i m in
      (m'.box.buffer ≡ m.box.buffer)
      ⊎ ((m.connected ≡ true) × (m'.connected ≡ false) × (m'.box.buffer ≡ []))
      ⊎ ((m.state ≡ State.network_ack_check_parse)
          × (m.acks.sent ≡ m.acks.acked)
          × (m.box.to_send ≤ length m.box.buffer)
          × (m'.box.buffer ≡ drop m.box.to_send m.box.buffer))
bytes_leave max e m i r = run-Leaves max e i m (IsReachable-Announced max e m r).held
