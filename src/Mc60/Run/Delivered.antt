-- ===== src/Mc60/Run/Delivered.antt =====
-- The bytes that leave the buffer of Mc60Modem are those that it transmitted last.
use libcomms.Base.{
  ℕ, ◌<◌, ◌≤◌, ◌≡◌, refl, sym, ap, ◌∙◌, subst, ◌⊎◌, inl, inr, Bool, true, false, List, [], ◌∷◌,
  Bytes, arith, length, take, drop, take-le_append, Option-cases, if◌then◌else◌,
}
use libcomms.Machine.{Engine}
use libcomms.Machine.Steps.{pick-every}
use libcomms.Mc60.Driver.{Modem, Own, Act, own_test, perform}
use libcomms.Mc60.Outbox.{Outbox, send}
use libcomms.Mc60.Run.{
  Call, runs, rule_fires, sends, powers, new, ready, check_effects, run, picked, power, call, trace,
}
use libcomms.Mc60.Run.Actions.{perform_all-state}
use libcomms.Mc60.Run.InFlight.{
  InFlight, Sent, in_flight, is_waiting, waits_after, table_waits_after, follow-Sent,
}
use libcomms.Mc60.Run.Leaves.{bytes_leave}
use libcomms.Mc60.Run.Payload.{
  payload_is_announced, picked-pick, run-stays, run-takes, run-target, is_send, arrives_from,
}
use libcomms.Mc60.Run.Held.{in_round}
use libcomms.Mc60.Run.Rounds.{IsReachable, IsReachable-Announced, IsReachable-call, ready_same}
use libcomms.Mc60.State.{State}
use libcomms.Mc60.Table.{qirdi_rule, sms_rule}

-- In the states in which bytes are in flight, they are those that were announced.
abbrev Followed : Modem → Type 0
Followed m = in_flight m.state ≡ true → Sent m

in_flight-cases :
    (s : State) → in_flight s ≡ true → (s ≡ State.network_send) ⊎ (is_waiting s ≡ true)
in_flight-cases State.network_send h = inl refl
in_flight-cases State.network_ack_check h = inr refl
in_flight-cases State.network_ack_check_parse h = inr refl
in_flight-cases _ h = cc

in_flight-in_round : (s : State) → in_flight s ≡ true → in_round s ≡ true
in_flight-in_round State.network_send h = refl
in_flight-in_round State.network_ack_check h = refl
in_flight-in_round State.network_ack_check_parse h = refl
in_flight-in_round _ h = cc

send-keeps :
    (bytes : Bytes) (box : Outbox)
    → box.to_send ≤ length box.buffer
    → let box' = (send bytes box).0 in
      (box'.to_send ≡ box.to_send) × (take box.to_send box'.buffer ≡ take box.to_send box.buffer)
unfolding send
send-keeps bytes box h = ground (arith, take-le_append box.to_send box.buffer bytes)

queue-Followed :
    (full : Bool) (queue : List Bytes) (m : Modem)
    → Followed m
    → Followed (if full then m else record m { queue = queue })
queue-Followed true queue m h = h
queue-Followed false queue m h = h

check_effects-log :
    (max : ℕ) (bytes : Bytes) (s : State) (m : Modem)
    → in_flight s ≡ true
    → (check_effects max bytes s m).log ≡ m.log
unfolding check_effects
check_effects-log max bytes State.network_begin_receive m h = cc
check_effects-log max bytes _ m h = refl

module _ (max : ℕ) (e : Engine State Own Act Modem (own_test max)) where
  open e use {Input, event}

  ready-log : (i : Input) (m : Modem) → in_flight m.state ≡ true → (ready max e i m).log ≡ m.log
  unfolding ready
  ready-log i m s = ground (arith, check_effects-log max (event i) m.state m)

  ready-Sent : (i : Input) (m : Modem) → in_flight m.state ≡ true → Sent m → Sent (ready max e i m)
  ready-Sent i m s h = rw ((ready_same max e i m).0, ready-log i m s) h

  run-Followed :
      (i : Input) (m : Modem) → IsReachable max e m → Followed m → Followed (run max e i m)
  run-Followed i m r h s = elim (Option-cases (picked max e i m)) [
    | inl stays ↦
        let same = run-stays max e i m stays in
        let before =
          subst (λ x. in_flight x ≡ true) (ap (λ x. x.state) same ∙ (ready_same max e i m).1) s in
        rw same (ready-Sent i m before (h before))
    | inr (t, taken) ↦ elim (in_flight-cases (run max e i m).state s) [
      | inl at_send ↦
          let target = sym (run-target max e i m t taken) ∙ at_send in
          let from = arrives_from max e i m t taken (ap is_send target) in
          let (f, pos, fits, capped, log, box) =
            payload_is_announced max e m i r (λ x. absurd (cc from)) at_send in
          rw (box, log) (pos, inl refl)
      | inr waits ↦
          let target = subst (λ x. is_waiting x ≡ true) (run-target max e i m t taken) waits in
          let (g, l) = table_waits_after m.state in
          let way =
            (pick-every e (waits_after m.state) (ready max e i m) i _ _ t g l
              (picked-pick max e i m t taken)).0 in
          let before : in_flight m.state ≡ true = ground arith in
          rw (run-takes max e i m t taken) (
            follow-Sent max e i m.state t (ready max e i m) way target
              (ready-Sent i m before (h before)))
    ]
  ]

  call-Followed :
      (c : Call Input) (m : Modem) → IsReachable max e m → Followed m → Followed (call max e c m)
  unfolding call
  call-Followed (runs i) m r h = run-Followed i m r h
  call-Followed (rule_fires i qirdi_rule) m r h = unfold perform in h
  call-Followed (rule_fires i sms_rule) m r h = unfold perform in h
  call-Followed (sends bytes) m r h = λ s.
      let held = (IsReachable-Announced max e m r).held (in_flight-in_round m.state s) in
      let (n, front) = send-keeps bytes m.box held in rw (n, front) (h s)
  call-Followed (powers i false) m r h = unfold power in (queue-Followed _ _ m h)
  call-Followed (powers i true) m r h = unfold power in (λ s. absurd (cc (perform_all-state _ _ _)))
  call-Followed _ m r h = h

  trace-Followed :
      (cs : List (Call Input)) (m : Modem)
      → IsReachable max e m
      → Followed m
      → Followed (trace max e cs m)
  unfolding trace
  trace-Followed [] m r h = h
  trace-Followed (c ∷ cs) m r h =
      trace-Followed cs (call max e c m) (IsReachable-call max e c m r) (call-Followed c m r h)

  pub IsReachable-Followed : (m : Modem) → IsReachable max e m → Followed m
  IsReachable-Followed m r = rw r.reaches (
      trace-Followed r.calls (new r.has_callback r.status_pin)
        (record {
          has_callback = r.has_callback;
          status_pin = r.status_pin;
          calls = [];
          reaches = unfold trace in refl;
        })
        (λ s. absurd (cc s)))

-- In every state that calls and runs can reach, a run leaves the bytes that wait as they are, or it
-- gives all of them up with a connection that was there and is no more, or, in
-- NETWORK_ACK_CHECK_PARSE and with equal numbers stored for the sent and the acknowledged bytes
-- (which are 0 and 0 behind an answer that could not be read), it drops from their front the
-- announced number, which is not zero and which all wait; and just these bytes are what was
-- transmitted last, but for the polls for their acknowledgement.
pub delivered_is_transmitted :
    (max : ℕ) (e : Engine State Own Act Modem (own_test max)) (m : Modem) (i : e.Input)
    → IsReachable max e m
    → let m' = run max e i m in
      let n = m.box.to_send in
      (m'.box.buffer ≡ m.box.buffer)
      ⊎ ((m.connected ≡ true) × (m'.connected ≡ false) × (m'.box.buffer ≡ []))
      ⊎ ((m.state ≡ State.network_ack_check_parse)
          × (m.acks.sent ≡ m.acks.acked)
          × (0 < n)
          × (n ≤ length m.box.buffer)
          × InFlight (take n m.box.buffer) m.log
          × (m'.box.buffer ≡ drop n m.box.buffer))
delivered_is_transmitted max e m i r = elim (bytes_leave max e m i r) [
  | inl kept ↦ inl kept
  | inr (inl cleared) ↦ inr (inl cleared)
  | inr (inr (p, acked, fits, dropped)) ↦
      let (pos, flies) = IsReachable-Followed max e m r (ap in_flight p) in
      inr (inr (p, acked, pos, fits, flies, dropped))
]
