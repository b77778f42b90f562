-- ===== src/Response/AckText.antt =====
-- What QueryAckAction reads of a complete response.
use libcomms.Base.{
  ℕ, ◌≤◌, ◌≡◌, refl, ap, ◌∙◌, some, [], ◌∷◌, ◌++◌, append_assoc, append-nil, arith, length,
  drop-append, Bytes, Lacks, All-append, ◌≢◌,
}
use libcomms.CLib.{c_string, split_first, strtoul, decimal}
use libcomms.CLib.Find.{strstr-append, split_first-append, split_first-Lacks}
use libcomms.CLib.Decimal.{strtoul-decimal, strtoul_blank, decimal-Lacks}
use libcomms.CLib.Memory.{c_string-append}
use libcomms.Response.{Acks, to_int, query_ack, ack_fields, first_comma, no_acks}

-- The three numbers of a response, each behind a blank, as the modem prints them.
abbrev pub ack_text : ℕ → ℕ → ℕ → Bytes
ack_text s a n = b' ' ∷ (decimal s ++ b',' ∷ b' ' ∷ (decimal a ++ b',' ∷ b' ' ∷ decimal n))

blank_decimal-Lacks : (b n : ℕ) → b ≡ b',' → Lacks b (b' ' ∷ decimal n)
blank_decimal-Lacks b n e = (λ x. ground arith, decimal-Lacks b n (rw e))

strtoul_blank_decimal : (max n : ℕ) → n ≤ max → strtoul max (b' ' ∷ decimal n) ≡ n
strtoul_blank_decimal max n h =
    strtoul_blank max (decimal n) ∙ (rw append-nil at (strtoul-decimal max n [] h tt))

split_first_blank_decimal :
    (n : ℕ) (rest : Bytes)
    → split_first b',' (b' ' ∷ (decimal n ++ b',' ∷ rest)) ≡ some (b' ' ∷ decimal n, rest)
split_first_blank_decimal n rest =
    split_first-append b',' (b' ' ∷ decimal n) rest (blank_decimal-Lacks b',' n refl)

ack_text-Lacks : (s a n : ℕ) → Lacks 0 (ack_text s a n)
ack_text-Lacks s a n =
    let third : Lacks 0 (decimal n) = decimal-Lacks 0 n refl in
    let second : Lacks 0 (decimal a ++ b',' ∷ b' ' ∷ decimal n) =
      All-append (λ c. c ≢ 0) (decimal a) _ (decimal-Lacks 0 a refl)
        (λ e. ground arith, (λ e. ground arith, third)) in
    (
      λ e. ground arith,
      All-append (λ c. c ≢ 0) (decimal s) _ (decimal-Lacks 0 s refl)
          (λ e. ground arith, (λ e. ground arith, second)),
    )

ack_text-append :
    (s a n : ℕ) (rest : Bytes)
    → ack_text s a n ++ rest
      ≡ b' ' ∷ (decimal s ++ b',' ∷ b' ' ∷ (decimal a ++ b',' ∷ b' ' ∷ (decimal n ++ rest)))
ack_text-append s a n rest = simp append_assoc

-- What is read of a response whose numbers fit, with `rest` behind it in memory.
abbrev pub acks_read : ℕ → ℕ → ℕ → ℕ → Bytes → Acks
acks_read max s a n rest = record {
  sent = to_int s;
  acked = to_int a;
  n_acked = to_int (strtoul max (b' ' ∷ (decimal n ++ rest)));
}

first_comma-ack_text :
    (max s a n : ℕ) (rest : Bytes)
    → s ≤ max
    → a ≤ max
    → first_comma max (split_first b',' (ack_text s a n ++ rest)) ≡ acks_read max s a n rest
unfolding first_comma
first_comma-ack_text max s a n rest hs ha =
    rw (ack_text-append s a n rest, split_first_blank_decimal s _)
      (rw (split_first_blank_decimal a _)
        (rw (strtoul_blank_decimal max s hs, strtoul_blank_decimal max a ha)))

-- A complete response is found at the front of the event, whatever stands behind it in memory.
pub query_ack-ack_text :
    (prefix : Bytes) (max s a n : ℕ) (beyond : Bytes) {rest : Bytes}
    → length prefix ≡ 8
    → Lacks 0 prefix
    → s ≤ max
    → a ≤ max
    → c_string beyond ≡ some rest
    → query_ack prefix max (prefix ++ ack_text s a n) beyond ≡ some (acks_read max s a n rest)
unfolding query_ack ack_fields
query_ack-ack_text prefix max s a n beyond {rest} len nul hs ha mem =
    rw
      (c_string-append (prefix ++ ack_text s a n) beyond
        (All-append (λ c. c ≢ 0) prefix _ nul (ack_text-Lacks s a n)) mem)
      (rw (append_assoc, strstr-append prefix (ack_text s a n ++ rest))
        (rw (← len, drop-append prefix (ack_text s a n ++ rest))
          (ap some (first_comma-ack_text max s a n rest hs ha))))

-- A response without a comma up to the NUL behind it in memory gives no numbers.
pub query_ack-unread :
    (prefix : Bytes) (max : ℕ) (text beyond : Bytes) {rest : Bytes}
    → length prefix ≡ 8
    → Lacks 0 prefix
    → Lacks 0 text
    → c_string beyond ≡ some rest
    → Lacks b',' (text ++ rest)
    → query_ack prefix max (prefix ++ text) beyond ≡ some no_acks
unfolding query_ack ack_fields first_comma
query_ack-unread prefix max text beyond {rest} len nul whole mem none_there =
    rw (c_string-append (prefix ++ text) beyond (All-append (λ c. c ≢ 0) prefix text nul whole) mem)
      (rw (append_assoc, strstr-append prefix (text ++ rest))
        (rw (← len, drop-append prefix (text ++ rest))
          (rw (split_first-Lacks b',' (text ++ rest) none_there) refl)))
