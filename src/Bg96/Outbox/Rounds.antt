-- ===== src/Bg96/Outbox/Rounds.antt =====
-- A round of the BG96's three stages.
use libcomms.Base.{
  ℕ, ◌≤◌, ◌<◌, ◌≡◌, ◌≢◌, ◌∙◌, ap, refl, some, [], ◌++◌, arith, Bytes, codes, length, length-append,
  take, drop, min, All-append, ◌==◌, false,
}
use libcomms.CLib.{decimal, snprintf, upto_nul}
use libcomms.CLib.Decimal.{length-decimal, decimal-Lacks}
use libcomms.CLib.Memory.{snprintf_fits, upto_nul-Lacks}
use libcomms.Circular.{CircularBuffer}
use libcomms.Circular.Parts.{joined, joined-parts}
use libcomms.Bg96.Outbox.{
  limit, parse_cipsend_respoinse, prepare, send_command, send_stage, declare, gsm_max_bytes_send,
  cipsend_buf_len,
}

send_command-whole :
    (n : ℕ)
    → n ≤ gsm_max_bytes_send
    → upto_nul (snprintf cipsend_buf_len (codes "AT+QISEND=1," ++ decimal n ++ codes "\r\n"))
      ≡ codes "AT+QISEND=1," ++ decimal n ++ codes "\r\n"
send_command-whole n h =
    let text = codes "AT+QISEND=1," ++ decimal n ++ codes "\r\n" in
    let short = length-decimal 3 n (omega arith) in
    ap upto_nul (
      snprintf_fits cipsend_buf_len text (
        rw
          (
            length-append (codes "AT+QISEND=1," ++ decimal n) (codes "\r\n"),
            length-append (codes "AT+QISEND=1,") (decimal n),
          )
          (omega (arith, short))))
    ∙ upto_nul-Lacks text (
        All-append (λ x. x ≢ 0) (codes "AT+QISEND=1," ++ decimal n) _
          (All-append (λ x. x ≢ 0) (codes "AT+QISEND=1,") (decimal n) (omega arith)
            (decimal-Lacks 0 n refl))
          (omega arith))

pub send_stage-take :
    (c : CircularBuffer) (n : ℕ) (buffer : c.Buffer)
    → 0 < n
    → n ≤ c.size buffer
    → joined (send_stage c n buffer) ≡ take n (c.content buffer)
unfolding send_stage
send_stage-take c n buffer pos fits = ground (
  arith,
  joined-parts (c.retrieve n buffer).0 (c.retrieve n buffer).1,
  c.retrieve_content n buffer fits,
)

limited :
    (size : ℕ)
    → limit size (limit gsm_max_bytes_send (parse_cipsend_respoinse []))
      ≡ min size gsm_max_bytes_send
limited size = ground arith

prepare_announces :
    (c : CircularBuffer) (event : Bytes) (buffer : c.Buffer)
    → 0 < length (c.content buffer)
    → let n = min (length (c.content buffer)) gsm_max_bytes_send in
      prepare c event buffer ≡ (n, some (upto_nul (send_command n)))
unfolding prepare
prepare_announces c event buffer pos =
    let n = min (length (c.content buffer)) gsm_max_bytes_send in
    let some_wait : (n == 0) ≡ false = ground arith in
    rw (c.size_content buffer, limited (length (c.content buffer)), some_wait) refl

-- On a buffer that is not empty, the command announces all that waits, up to 1460 bytes, and is not
-- cut; the parts that are transmitted then are together just as many bytes, from the front; and
-- just these are dropped.
pub announced_is_sent :
    (c : CircularBuffer) (event : Bytes) (buffer : c.Buffer)
    → 0 < length (c.content buffer)
    → let n = min (length (c.content buffer)) gsm_max_bytes_send in
      (prepare c event buffer ≡ (n, some (codes "AT+QISEND=1," ++ decimal n ++ codes "\r\n")))
      × (joined (send_stage c n buffer) ≡ take n (c.content buffer))
      × (c.content (declare c n buffer) ≡ drop n (c.content buffer))
unfolding declare
announced_is_sent c event buffer pos =
    let n = min (length (c.content buffer)) gsm_max_bytes_send in
    let sized = c.size_content buffer in
    let whole = send_command-whole n (omega arith) in
    (
      prepare_announces c event buffer pos ∙ ap (λ x. (n, some x)) whole,
      send_stage-take c n buffer (omega arith) (omega (arith, sized)),
      c.declare_read_content n buffer (omega (arith, sized)),
    )
