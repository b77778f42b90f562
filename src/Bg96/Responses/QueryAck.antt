-- ===== src/Bg96/Responses/QueryAck.antt =====
-- What the BG96's QueryAckAction reads of a complete response.
use libcomms.Base.{ℕ, ◌<◌, ◌≤◌, ◌^◌, ◌≡◌, ◌∙◌, refl, some, ◌++◌, arith, Bytes}
use libcomms.CLib.{c_string}
use libcomms.CLib.Decimal.{Stops, strtoul-decimal, strtoul_blank}
use libcomms.Response.{Acks}
use libcomms.Response.AckText.{ack_text, acks_read, query_ack-ack_text}
use libcomms.Bg96.Responses.{qisend, query_ack_run}

pub run-ack_text :
    (max s a n : ℕ) (beyond : Bytes) {rest : Bytes}
    → s ≤ max
    → a ≤ max
    → c_string beyond ≡ some rest
    → query_ack_run max (qisend ++ ack_text s a n) beyond ≡ some (acks_read max s a n rest)
unfolding query_ack_run
run-ack_text max s a n beyond hs ha mem =
    query_ack-ack_text qisend max s a n beyond refl (omega arith) hs ha mem

-- Of a complete response whose numbers fit an `int`, the numbers of sent and of acked bytes are read
-- right whatever stands behind the event in memory, and the number of bytes not yet acked if no
-- digit stands there.
acks_are_read :
    (max s a n : ℕ) (beyond : Bytes) {rest : Bytes}
    → s < 2 ^ 31
    → a < 2 ^ 31
    → n < 2 ^ 31
    → 2 ^ 31 ≤ max
    → c_string beyond ≡ some rest
    → (acks : Acks) × (query_ack_run max (qisend ++ ack_text s a n) beyond ≡ some acks)
      × (acks.sent ≡ s)
      × (acks.acked ≡ a)
      × (Stops rest → acks.n_acked ≡ n)
acks_are_read max s a n beyond {rest} hs ha hn hm mem = (
  acks_read max s a n rest,
  run-ack_text max s a n beyond (omega arith) (omega arith) mem,
  omega arith,
  omega arith,
  λ stops.
      let e = strtoul_blank max _ ∙ strtoul-decimal max n rest (omega arith) stops in
      omega (arith, e),
)
