-- ===== src/Mc60/Responses/QueryAck.antt =====
-- What QueryAckAction reads of a complete response of the MC60.
use libcomms.Base.{ℕ, ◌+◌, ◌*◌, ◌≤◌, ◌<◌, ◌^◌, ◌≡◌, ◌∙◌, refl, some, ◌∷◌, ◌++◌, arith, Bytes, Lacks}
use libcomms.CLib.{c_string}
use libcomms.CLib.Decimal.{Stops, strtoul-decimal, strtoul-decimal_digit, strtoul_blank}
use libcomms.Response.{Acks, no_acks}
use libcomms.Response.AckText.{ack_text, acks_read, query_ack-ack_text, query_ack-unread}
use libcomms.Mc60.Responses.{qisack, query_ack_run}

pub run-ack_text :
    (max s a n : ℕ) (beyond : Bytes) {rest : Bytes}
    → s ≤ max
    → a ≤ max
    → c_string beyond ≡ some rest
    → query_ack_run max (qisack ++ ack_text s a n) beyond ≡ some (acks_read max s a n rest)
unfolding query_ack_run
run-ack_text max s a n beyond hs ha mem =
    query_ack-ack_text qisack max s a n beyond refl (omega arith) hs ha mem

-- The event is not NUL-terminated. Of a complete response behind which no digit stands in memory,
-- the numbers of sent and of acked bytes and of those not yet acked are read right, if all three fit
-- an `int` and an `unsigned long`.
pub query_ack_run-ack_text :
    (max s a n : ℕ) (beyond : Bytes) {rest : Bytes}
    → s < 2 ^ 31
    → a < 2 ^ 31
    → n < 2 ^ 31
    → 2 ^ 31 ≤ max
    → c_string beyond ≡ some rest
    → Stops rest
    → (acks : Acks) × (query_ack_run max (qisack ++ ack_text s a n) beyond ≡ some acks)
      × (acks.sent ≡ s)
      × (acks.acked ≡ a)
      × (acks.n_acked ≡ n)
query_ack_run-ack_text max s a n beyond {rest} hs ha hn hm mem stops = (
  acks_read max s a n rest,
  run-ack_text max s a n beyond (omega arith) (omega arith) mem,
  omega arith,
  omega arith,
  (let e = strtoul_blank max _ ∙ strtoul-decimal max n rest (omega arith) stops in
      omega (arith, e)),
)

-- A single digit that stands behind a complete response in memory is read as the last digit of the
-- number of bytes not yet acked, if the number so read fits an `int`; the other two numbers are
-- read right.
pub query_ack_run_reads_on :
    (max s a n d : ℕ) (beyond : Bytes) {rest : Bytes}
    → s < 2 ^ 31
    → a < 2 ^ 31
    → d < 10
    → n * 10 + d < 2 ^ 31
    → 2 ^ 31 ≤ max
    → c_string beyond ≡ some ((b'0' + d) ∷ rest)
    → Stops rest
    → (acks : Acks) × (query_ack_run max (qisack ++ ack_text s a n) beyond ≡ some acks)
      × (acks.sent ≡ s)
      × (acks.acked ≡ a)
      × (acks.n_acked ≡ n * 10 + d)
query_ack_run_reads_on max s a n d beyond {rest} hs ha hd hn hm mem stops = (
  acks_read max s a n ((b'0' + d) ∷ rest),
  run-ack_text max s a n beyond (omega arith) (omega arith) mem,
  omega arith,
  omega arith,
  (let e = strtoul_blank max _ ∙ strtoul-decimal_digit max n d rest hd (omega arith) stops in
      omega (arith, e)),
)

-- Nothing is read of a response without a comma up to the NUL behind it in memory.
pub query_ack_run-unread :
    (max : ℕ) (text beyond : Bytes) {rest : Bytes}
    → Lacks 0 text
    → c_string beyond ≡ some rest
    → Lacks b',' (text ++ rest)
    → query_ack_run max (qisack ++ text) beyond ≡ some no_acks
unfolding query_ack_run
query_ack_run-unread max text beyond whole mem none_there =
    query_ack-unread qisack max text beyond refl (omega arith) whole mem none_there
