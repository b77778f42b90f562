-- ===== src/Mc60/Run/Pieces.antt =====
-- The pieces in which Mc60Modem sends what waits, and what it does for each of them.
use libcomms.Base.{
  ℕ, zero, suc, ◌+◌, ◌*◌, ◌<◌, ◌≤◌, ◌≡◌, refl, Bool, true, List, [], ◌∷◌, ◌++◌, arith, length,
  length-append, length-drop, take, drop, take-append-drop, Bytes, ltb, leb, ◌&&◌, length-take,
  append-nil,
}
use libcomms.Circular.Parts.{joined}
use libcomms.Machine.Steps.{every}
use libcomms.Modem.{Output, notified_sent}
use libcomms.Mc60.Outbox.{gsm_max_bytes_send}
use libcomms.Mc60.Run.Answered.{exchanged}
use libcomms.Mc60.Run.Known.{told_sent}
use libcomms.Mc60.Run.Turning.{turned}

abbrev pub is_piece : Bytes → Bool
is_piece p = ltb 0 (length p) && leb (length p) gsm_max_bytes_send

-- The bytes in pieces of 1460, and what is left.
abbrev pub pieces : ℕ → Bytes → List Bytes
pieces zero bytes = bytes ∷ []
pieces (suc k) bytes = take gsm_max_bytes_send bytes ∷ pieces k (drop gsm_max_bytes_send bytes)

pub joined-pieces : (k : ℕ) (bytes : Bytes) → joined (pieces k bytes) ≡ bytes
joined-pieces zero bytes = append-nil bytes
joined-pieces (suc k) bytes =
    rw (joined-pieces k (drop gsm_max_bytes_send bytes)) (take-append-drop gsm_max_bytes_send bytes)

pub every-pieces :
    (k : ℕ) (bytes : Bytes)
    → k * gsm_max_bytes_send < length bytes
    → length bytes ≤ (k + 1) * gsm_max_bytes_send
    → every is_piece (pieces k bytes) ≡ true
every-pieces zero bytes more most = ground arith
every-pieces (suc k) bytes more most =
    let rest = length-drop gsm_max_bytes_send bytes in
    ground (
      arith,
      length-take gsm_max_bytes_send bytes,
      rest,
      every-pieces k (drop gsm_max_bytes_send bytes) (omega (arith, rest)) (omega (arith, rest)),
    )

-- The way from one piece to the next, if there is one.
abbrev turning : List Bytes → List Output
turning [] = []
turning (_ ∷ _) = turned

pub turning-pieces : (k : ℕ) (bytes : Bytes) → turning (pieces k bytes) ≡ turned
turning-pieces zero bytes = refl
turning-pieces (suc k) bytes = refl

-- The outputs of the exchanges of these pieces one after the other, the newest first.
abbrev pub conversation : List Bytes → List Output
conversation [] = []
conversation (p ∷ ps) = conversation ps ++ turning ps ++ exchanged p

pub told_sent-append : (xs ys : List Output) → told_sent (xs ++ ys) ≡ told_sent xs + told_sent ys
told_sent-append [] ys = omega arith
told_sent-append (notified_sent n ∷ xs) ys = omega (arith, told_sent-append xs ys)
told_sent-append (_ ∷ xs) ys = told_sent-append xs ys

told_sent-turning : (ps : List Bytes) → told_sent (turning ps) ≡ 0
told_sent-turning [] = refl
told_sent-turning (_ ∷ _) = refl

pub told_sent-conversation : (ps : List Bytes) → told_sent (conversation ps) ≡ length (joined ps)
told_sent-conversation [] = refl
told_sent-conversation (p ∷ ps) =
    rw
      (
        told_sent-append (conversation ps ++ turning ps) (exchanged p),
        told_sent-append (conversation ps) (turning ps),
        told_sent-turning ps,
        length-append p (joined ps),
      )
      (omega (arith, told_sent-conversation ps))
