-- ===== src/Modem/InFlight.antt =====
-- Bytes that a driver with a circular buffer transmitted in parts, in its log, for the BG96 and the
-- ESP8266.
use libcomms.Base.{
  subst, ◌<◌, ◌≡◌, sym, ap, ◌⊎◌, refl, inl, inr, Bool, true, false, ◌&&◌, List, [], ◌∷◌, ◌++◌,
  Bytes, length, append_assoc, append-nil, arith, ◌==◌,
}
use libcomms.Circular.Parts.{joined}
use libcomms.Modem.{Output, transmitted, delayed}

-- These bytes were transmitted last, the newest output first, in parts of which each follows the one
-- before with nothing between them.
abbrev pub Joint : Bytes → List Output → Type 0
Joint bytes (transmitted b ∷ log) =
    (bytes ≡ []) ⊎ ((rest : Bytes) × (bytes ≡ rest ++ b) × Joint rest log)
Joint bytes _ = bytes ≡ []

-- They were transmitted last but for polls of the one kind, and delays.
abbrev pub InFlight : Bytes → Bytes → List Output → Type 0
InFlight poll bytes [] = ⊥
InFlight poll bytes (transmitted b ∷ log) =
    Joint bytes (transmitted b ∷ log) ⊎ ((b ≡ poll) × InFlight poll bytes log)
InFlight poll bytes (delayed ms ∷ log) = InFlight poll bytes log
InFlight poll bytes (_ ∷ log) = ⊥

Joint-nil : (log : List Output) → Joint [] log
Joint-nil (transmitted b ∷ log) = inl refl
Joint-nil _ = refl

pub Joint-InFlight :
    (poll bytes : Bytes) (log : List Output)
    → 0 < length bytes
    → Joint bytes log
    → InFlight poll bytes log
Joint-InFlight poll bytes (transmitted b ∷ log) pos h = inl h
Joint-InFlight poll bytes _ pos h = absurd (omega (arith, ap length h))

-- A log behind the transmission of some parts.
abbrev pub sent_log : List Bytes → List Output → List Output
sent_log [] log = log
sent_log (p ∷ ps) log = sent_log ps (transmitted p ∷ log)

Joint-append :
    (rest : Bytes) (ps : List Bytes) (log : List Output)
    → Joint rest log
    → Joint (rest ++ joined ps) (sent_log ps log)
Joint-append rest [] log h = rw append-nil h
Joint-append rest (p ∷ ps) log h =
    rw (sym (append_assoc rest p (joined ps)))
      (Joint-append (rest ++ p) ps (transmitted p ∷ log) (inr (rest, refl, h)))

Joint-sent_log : (ps : List Bytes) (log : List Output) → Joint (joined ps) (sent_log ps log)
Joint-sent_log ps log = Joint-append [] ps log (Joint-nil log)

pub parts-Joint :
    (bytes : Bytes) (ps : List Bytes) (log : List Output)
    → joined ps ≡ bytes
    → Joint bytes (sent_log ps log)
parts-Joint bytes ps log whole =
    subst (λ x. Joint x (sent_log ps log)) whole (Joint-sent_log ps log)

abbrev pub same_bytes : Bytes → Bytes → Bool
same_bytes [] [] = true
same_bytes [] (y ∷ ys) = false
same_bytes (x ∷ xs) [] = false
same_bytes (x ∷ xs) (y ∷ ys) = (x == y) && same_bytes xs ys

pub same_bytes_sound : (xs ys : Bytes) → same_bytes xs ys ≡ true → xs ≡ ys
same_bytes_sound [] [] h = refl
same_bytes_sound [] (y ∷ ys) h = cc
same_bytes_sound (x ∷ xs) [] h = cc
same_bytes_sound (x ∷ xs) (y ∷ ys) h = ground (arith, same_bytes_sound xs ys)
