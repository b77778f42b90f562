-- ===== src/Mc60/Run/Refines.antt =====
-- Mc60Modem refines the stream of the client's bytes: its calls and histories of calls.
use libcomms.Mc60.Run.InFlight.{InFlight}
use libcomms.Base.{
  ℕ, ◌+◌, ◌≡◌, refl, inl, inr, Bool, true, false, List, [], ◌∷◌, ◌++◌, Bytes, arith, append-nil,
  append_assoc, length, take, take_all, ltb, Bool-cases, sym, ◌∙◌,
}
use libcomms.Machine.{Engine}
use libcomms.Mc60.Driver.{Modem, Own, Act, own_test, perform}
use libcomms.Mc60.Outbox.{Outbox, output_buffer_size, send}
use libcomms.Mc60.Run.{Call, runs, rule_fires, sends, powers, new, call, trace}
use libcomms.Mc60.Run.Rounds.{IsReachable, IsReachable-call, trace-append}
use libcomms.Mc60.State.{State}
use libcomms.Mc60.Stream.{Moves, stays, accepts, IsSuffix, Moves-IsSuffix}
use libcomms.Mc60.Table.{qirdi_rule, sms_rule}
use libcomms.Mc60.Run.Views.{view, Reaches}
use libcomms.Mc60.Run.Delivers.{run-Reaches, power-Reaches}

-- What one call makes the driver accept: as many bytes of a send as it answers.
unfoldable pub accepted_by : {I : Type 0} → Call I → Modem → Bytes
unfolding send
accepted_by (sends bytes) m = take (send bytes m.box).1 bytes
accepted_by _ m = []

module _ (max : ℕ) (e : Engine State Own Act Modem (own_test max)) where
  open e use {Input}

  -- What a history of calls makes the driver accept.
  unfoldable pub accepted : List (Call Input) → Modem → Bytes
  unfolding accepted_by
  accepted [] m = []
  accepted (c ∷ cs) m = accepted_by c m ++ accepted cs (call max e c m)

abbrev is_full : Bytes → Outbox → Bool
is_full bytes box = ltb output_buffer_size (length box.buffer + length bytes)

send_full : (bytes : Bytes) (box : Outbox) → is_full bytes box ≡ true → send bytes box ≡ (box, 0)
unfolding send
send_full bytes box h = rw h refl

send_fits :
    (bytes : Bytes) (box : Outbox)
    → is_full bytes box ≡ false
    → send bytes box ≡ (record box { buffer = box.buffer ++ bytes }, length bytes)
unfolding send
send_fits bytes box h = rw h refl

send-Reaches :
    {Confirmed : Bytes → Type 0} (start : Modem) {xs : Bytes} (bytes : Bytes) (m : Modem)
    → Reaches Confirmed start xs m
    → Reaches Confirmed start
        (xs ++ take (send bytes m.box).1 bytes)
        (record m { box = (send bytes m.box).0 })
send-Reaches start {xs} bytes m r = elim (Bool-cases (is_full bytes m.box)) [
  | inl full ↦ rw (send_full bytes m.box full, append-nil) r
  | inr fits ↦
      rw (send_fits bytes m.box fits, take_all (length bytes) bytes (omega arith))
        (accepts bytes r (ground arith) refl refl)
]

module _ (max : ℕ) (e : Engine State Own Act Modem (own_test max)) where
  open e use {Input}

  -- In this history from `start` there is a run that finds the driver in NETWORK_ACK_CHECK_PARSE, with
  -- equal numbers stored for the sent and the acknowledged bytes, and these bytes the announced ones,
  -- at the front of the buffer and transmitted last but for polls.
  abbrev pub Confirmed : List (Call Input) → Modem → Bytes → Type 0
  Confirmed cs start bytes =
      (front : List (Call Input)) × (i : Input) × (back : List (Call Input)) × (cs
        ≡ front ++ runs i ∷ back)
      × let m = trace max e front start in
        (m.state ≡ State.network_ack_check_parse)
        × (m.acks.sent ≡ m.acks.acked)
        × (bytes ≡ take m.box.to_send m.box.buffer)
        × InFlight bytes m.log

  -- The call behind `front` in the history `whole`.
  call-Reaches :
      (whole front : List (Call Input)) (c : Call Input) (back : List (Call Input)) (start : Modem)
      {xs : Bytes}
      → whole ≡ front ++ c ∷ back
      → let m = trace max e front start in
        IsReachable max e m
        → Reaches (Confirmed whole start) start xs m
        → Reaches (Confirmed whole start) start (xs ++ accepted_by c m) (call max e c m)
  unfolding call accepted_by perform
  call-Reaches whole front (runs i) back start split h r = rw append-nil (
      run-Reaches max e start i (trace max e front start) h
        (λ at equal flies. (front, i, back, split, (at, equal, refl, flies))) r)
  call-Reaches whole front (sends bytes) back start split h r =
      send-Reaches start bytes (trace max e front start) r
  call-Reaches whole front (powers i on) back start split h r =
      rw append-nil (power-Reaches max e start i on (trace max e front start) r)
  call-Reaches whole front (rule_fires i qirdi_rule) back start split h r = rw append-nil r
  call-Reaches whole front (rule_fires i sms_rule) back start split h r = rw append-nil r
  call-Reaches whole front _ back start split h r = rw append-nil r

  trace-Reaches :
      (whole front cs : List (Call Input)) (xs : Bytes) (start : Modem)
      → whole ≡ front ++ cs
      → let m = trace max e front start in
        IsReachable max e m
        → Reaches (Confirmed whole start) start xs m
        → Reaches (Confirmed whole start) start (xs ++ accepted max e cs m) (trace max e cs m)
  unfolding accepted trace
  trace-Reaches whole front [] xs start split h r = rw append-nil r
  trace-Reaches whole front (c ∷ cs) xs start split h r =
      let m = trace max e front start in
      let next : trace max e (front ++ c ∷ []) start ≡ call max e c m =
        trace-append max e front (c ∷ []) start in
      let later =
        trace-Reaches whole (front ++ c ∷ []) cs (xs ++ accepted_by c m) start
          (split ∙ sym (append_assoc front (c ∷ []) cs)) (rw next (IsReachable-call max e c m h))
          (rw next (call-Reaches whole front c cs start split h r)) in
      rw (next, append_assoc) at later

-- Any history of calls and runs of a reachable driver is a history of the client's stream: bytes are
-- accepted at its end, as many of a send as it answers and never past 6144; it opens only while
-- closed, and closes only while open, losing what waits; and bytes leave its front otherwise only as
-- confirmed ones, which the history has a run for that finds the driver in NETWORK_ACK_CHECK_PARSE
-- with equal numbers stored for the sent and the acknowledged bytes, and just these bytes announced,
-- and transmitted last but for polls. What the stream accepts on the way is what the sends of the
-- history answered for.
pub trace_refines :
    (max : ℕ) (e : Engine State Own Act Modem (own_test max)) (cs : List (Call e.Input)) (m : Modem)
    → IsReachable max e m
    → Moves output_buffer_size
        (Confirmed max e cs m)
        (view m)
        (accepted max e cs m)
        (view (trace max e cs m))
unfolding trace
trace_refines max e cs m h = trace-Reaches max e cs [] cs [] m refl h stays

-- After any history of calls and runs from the start, the bytes that wait in the buffer are the end
-- of the accepted bytes: none was changed, repeated, reordered or made up.
waiting-IsSuffix :
    (max : ℕ) (e : Engine State Own Act Modem (own_test max)) (has_callback status_pin : Bool)
    (cs : List (Call e.Input))
    → IsSuffix
        (trace max e cs (new has_callback status_pin)).box.buffer
        (accepted max e cs (new has_callback status_pin))
waiting-IsSuffix max e has_callback status_pin cs = Moves-IsSuffix (
    trace_refines max e cs (new has_callback status_pin) (record {
      has_callback = has_callback;
      status_pin = status_pin;
      calls = [];
      reaches = unfold trace in refl;
    }))
