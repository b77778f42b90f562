-- ===== src/Mc60/Stream.antt =====
-- What the client of Mc60Modem sees of the bytes to send (src/ICommunicationInterface.h): a stream
-- that accepts bytes at its end, gives confirmed bytes up from its front, and loses the rest when it
-- closes. How the modem is driven, what is announced to it and which commands are sent are forgotten.
use libcomms.Base.{
  ℕ, ◌+◌, ◌≤◌, ◌<◌, ◌≡◌, sym, ap, ◌∙◌, Bool, true, false, [], ◌++◌, Bytes, append-nil, append_assoc,
  take, drop, take-append-drop, length,
}

pub record Stream : Type 0 where
  pub connected : Bool
  pub waiting : Bytes

-- The moves of a stream with room for `capacity` bytes, which gives up from its front only bytes that
-- are `Confirmed`. The index in the middle is what it accepted on the way.
pub data Moves (capacity : ℕ) (Confirmed : Bytes → Type 0) (v : Stream)
    : Bytes → Stream → Type 0 where
  stays : Moves capacity Confirmed v [] v
  accepts :
      {xs ys : Bytes} {w w' : Stream} (bytes : Bytes)
      → Moves capacity Confirmed v xs w
      → length w.waiting + length bytes ≤ capacity
      → ys ≡ xs ++ bytes
      → w' ≡ record w { waiting = w.waiting ++ bytes }
      → Moves capacity Confirmed v ys w'
  delivers :
      {xs : Bytes} {w w' : Stream} (n : ℕ)
      → Moves capacity Confirmed v xs w
      → 0 < n
      → n ≤ length w.waiting
      → Confirmed (take n w.waiting)
      → w' ≡ record w { waiting = drop n w.waiting }
      → Moves capacity Confirmed v xs w'
  opens :
      {xs : Bytes} {w w' : Stream}
      → Moves capacity Confirmed v xs w
      → w.connected ≡ false
      → w' ≡ record w { connected = true }
      → Moves capacity Confirmed v xs w'
  closes :
      {xs : Bytes} {w w' : Stream}
      → Moves capacity Confirmed v xs w
      → w.connected ≡ true
      → w' ≡ record { connected = false; waiting = [] }
      → Moves capacity Confirmed v xs w'

abbrev pub IsSuffix : Bytes → Bytes → Type 0
IsSuffix s whole = (front : Bytes) × (whole ≡ front ++ s)

-- What waits is the end of what waited and was accepted.
pub Moves-IsSuffix :
    {capacity : ℕ} {Confirmed : Bytes → Type 0} {v w : Stream} {xs : Bytes}
    → Moves capacity Confirmed v xs w
    → IsSuffix w.waiting (v.waiting ++ xs)
Moves-IsSuffix {v = v} stays = ([], append-nil v.waiting)
Moves-IsSuffix {v = v} (accepts {xs} {ys} {w} {w'} bytes mv fits e e') =
    let (front, h) = Moves-IsSuffix mv in
    (
      front,
      rw (e, e')
          (sym (append_assoc v.waiting xs bytes)
            ∙ ap (λ s. s ++ bytes) h
            ∙ append_assoc front w.waiting bytes),
    )
Moves-IsSuffix (delivers {xs} {w} {w'} n mv pos fits confirmed e') =
    let (front, h) = Moves-IsSuffix mv in
    (
      front ++ take n w.waiting,
      rw e' (
          h
          ∙ ap (λ s. front ++ s) (sym (take-append-drop n w.waiting))
          ∙ sym (append_assoc front (take n w.waiting) (drop n w.waiting))),
    )
Moves-IsSuffix (opens {xs} {w} {w'} mv c e') = rw e' (Moves-IsSuffix mv)
Moves-IsSuffix {v = v} (closes {xs} {w} {w'} mv c e') =
    (v.waiting ++ xs, rw e' (sym (append-nil (v.waiting ++ xs))))
