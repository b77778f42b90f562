-- ===== src/Mc60/Outbox/Queue.antt =====
-- The outbox of the MC60 as a queue: Mc60Modem::send and the stages of SendNetworkAction.
use libcomms.Base.{
  ℕ, zero, suc, ◌*◌, take-le_append, ◌≤◌, ◌<◌, ◌≡◌, ◌≢◌, refl, sym, ap, ◌∙◌, inl, inr, some, none,
  [], ◌++◌, Option, arith, length, length-append, length-drop, take, drop, take-append,
  take-append-drop, drop_all, Bytes, codes, All-append, leb, Bool-cases, min, nil_of_length,
}
use libcomms.CLib.{decimal, snprintf, upto_nul}
use libcomms.CLib.Decimal.{length-decimal, decimal-Lacks}
use libcomms.CLib.Memory.{snprintf_fits, upto_nul-Lacks}
use libcomms.Mc60.Outbox.{Outbox, prepare, send_stage, declare, gsm_max_bytes_send, cipsend_buf_len}

-- Shifting the rest of the array to its front and shrinking it drops the first bytes.
pub declare-drop : (box : Outbox) → (declare box).buffer ≡ drop box.to_send box.buffer
unfolding declare
declare-drop box = elim (Bool-cases (leb (length box.buffer) box.to_send)) [
  | inl all ↦ rw all (sym (drop_all box.to_send box.buffer (ground arith)))
  | inr some_left ↦
      let rest = drop box.to_send box.buffer in
      rw (some_left, ← length-drop box.to_send box.buffer) (take-append rest _)
]

-- What the first stage announces: all that waits, up to 1460 bytes. Nothing is transmitted for an
-- empty buffer; otherwise the command is not cut by its buffer of 26 bytes.
pub prepare_lem :
    (event : Bytes) (box : Outbox)
    → let n = min (length box.buffer) gsm_max_bytes_send in
      (prepare event box).0 ≡ record box { to_send = n }
unfolding prepare
prepare_lem event box = ground arith

prepare_announces :
    (event : Bytes) (box : Outbox)
    → 0 < length box.buffer
    → let n = min (length box.buffer) gsm_max_bytes_send in
      (prepare event box).1
      ≡ some (upto_nul (snprintf cipsend_buf_len (codes "AT+QISEND=" ++ decimal n ++ codes "\r\n")))
unfolding prepare
prepare_announces event box pos = ground arith

send_command-whole :
    (n : ℕ)
    → n ≤ gsm_max_bytes_send
    → upto_nul (snprintf cipsend_buf_len (codes "AT+QISEND=" ++ decimal n ++ codes "\r\n"))
      ≡ codes "AT+QISEND=" ++ decimal n ++ codes "\r\n"
send_command-whole n h =
    let text = codes "AT+QISEND=" ++ decimal n ++ codes "\r\n" in
    let short = length-decimal 3 n (omega arith) in
    ap upto_nul (
      snprintf_fits cipsend_buf_len text (
        rw
          (
            length-append (codes "AT+QISEND=" ++ decimal n) (codes "\r\n"),
            length-append (codes "AT+QISEND=") (decimal n),
          )
          (omega (arith, short))))
    ∙ upto_nul-Lacks text (
        All-append (λ c. c ≢ 0) (codes "AT+QISEND=" ++ decimal n) _
          (All-append (λ c. c ≢ 0) (codes "AT+QISEND=") (decimal n) (omega arith)
            (decimal-Lacks 0 n refl))
          (omega arith))

-- The stale bytes of the storage are not read while no more is announced than waits.
pub send_stage-take :
    (stale : Bytes) (box : Outbox)
    → 0 < box.to_send
    → box.to_send ≤ length box.buffer
    → send_stage stale box ≡ some (take box.to_send box.buffer)
unfolding send_stage
send_stage-take stale box pos fits =
    ground (arith, take-le_append box.to_send box.buffer stale fits)

-- One round on a buffer that is not empty: the command announces all that waits, up to 1460 bytes,
-- and is not cut by its buffer of 26 bytes; exactly as many bytes are then sent, from the front;
-- and exactly these are dropped. The bytes that are stale in the storage are not sent.
pub send_round :
    (event stale : Bytes) (box : Outbox)
    → 0 < length box.buffer
    → let n = min (length box.buffer) gsm_max_bytes_send in
      let prepared = (prepare event box).0 in
      ((prepare event box).1 ≡ some (codes "AT+QISEND=" ++ decimal n ++ codes "\r\n"))
      × (send_stage stale prepared ≡ some (take n box.buffer))
      × ((declare prepared).buffer ≡ drop n box.buffer)
send_round event stale box pos =
    let n = min (length box.buffer) gsm_max_bytes_send in
    let e = prepare_lem event box in
    (
      prepare_announces event box pos ∙ ap some (send_command-whole n (omega arith)),
      rw e (send_stage-take stale (record box { to_send = n }) (omega arith) (omega arith)),
      rw e (declare-drop (record box { to_send = n })),
    )

-- `k` rounds one after the other: the bytes sent, and the box left.
abbrev payload : Option Bytes → Bytes
payload none = []
payload (some bytes) = bytes

rounds : ℕ → Bytes → Bytes → Outbox → Bytes × Outbox
rounds zero event stale box = ([], box)
rounds (suc k) event stale box =
    let prepared = (prepare event box).0 in
    let (later, box') = rounds k event stale (declare prepared) in
    (payload (send_stage stale prepared) ++ later, box')

payload-send_stage :
    (stale : Bytes) (box : Outbox)
    → box.to_send ≤ length box.buffer
    → payload (send_stage stale box) ≡ take box.to_send box.buffer
unfolding send_stage
payload-send_stage stale box h = ground (arith, take-le_append box.to_send box.buffer stale h)

-- With as many rounds, of at most 1460 bytes each, as the waiting bytes need, every one of these is
-- sent once and in order, and the buffer is then empty.
rounds-drain :
    (k : ℕ) (event stale : Bytes) (box : Outbox)
    → length box.buffer ≤ k * gsm_max_bytes_send
    → ((rounds k event stale box).0 ≡ box.buffer) × ((rounds k event stale box).1.buffer ≡ [])
unfolding rounds
rounds-drain zero event stale box h = let e = nil_of_length box.buffer (omega arith) in (sym e, e)
rounds-drain (suc k) event stale box h =
    let n = min (length box.buffer) gsm_max_bytes_send in
    let prepared : Outbox = record box { to_send = n } in
    let sent = payload-send_stage stale prepared (omega arith) in
    let dropped = declare-drop prepared in
    let fewer = ap length dropped ∙ length-drop n box.buffer in
    let (later, left) = rounds-drain k event stale (declare prepared) (omega (arith, fewer)) in
    rw (prepare_lem event box) (rw (later, sent, dropped) (take-append-drop n box.buffer), left)
