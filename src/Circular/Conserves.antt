-- ===== src/Circular/Conserves.antt =====
-- What a call does to the bytes that wait, for the drivers that hold a circular buffer.
use libcomms.Base.{
  ℕ, ◌≡◌, ◌∙◌, sym, ap, [], ◌++◌, Bytes, take, drop, take-append-drop, append-nil, append_assoc,
}

-- What was accepted stands last, the piece left the front, and nothing else changed.
abbrev pub Conserves : Bytes → Bytes → Bytes → Bytes → Type 0
Conserves before more piece after = before ++ more ≡ piece ++ after

pub same-Conserves : (before after : Bytes) → after ≡ before → Conserves before [] [] after
same-Conserves before after same = append-nil before ∙ sym same

pub drop-Conserves :
    (n : ℕ) (before after : Bytes)
    → after ≡ drop n before
    → Conserves before [] (take n before) after
drop-Conserves n before after dropped =
    append-nil before
    ∙ sym (take-append-drop n before)
    ∙ ap (λ rest. take n before ++ rest) (sym dropped)

-- One call after the other.
pub then-Conserves :
    (before more piece middle more' rest after : Bytes)
    → Conserves before more piece middle
    → Conserves middle more' rest after
    → Conserves before (more ++ more') (piece ++ rest) after
then-Conserves before more piece middle more' rest after first second =
    sym (append_assoc before more more')
    ∙ ap (λ x. x ++ more') first
    ∙ append_assoc piece middle more'
    ∙ ap (λ x. piece ++ x) second
    ∙ sym (append_assoc piece rest after)
