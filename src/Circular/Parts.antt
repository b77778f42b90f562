-- ===== src/Circular/Parts.antt =====
-- The parts that the SendNetworkAction of a circular buffer transmits, one after the other.
use libcomms.Circular.{CircularBuffer}
use libcomms.Base.{
  ◌≡◌, refl, List, [], ◌∷◌, ◌++◌, append-nil, arith, Bytes, length, ◌==◌, if◌then◌else◌,
  length-append, ◌≤◌,
}

abbrev pub joined : List Bytes → Bytes
joined [] = []
joined (p ∷ ps) = p ++ joined ps

pub joined-parts :
    (a b : Bytes)
    → joined ((if length a == 0 then [] else a ∷ []) ++ (if length b == 0 then [] else b ∷ []))
      ≡ a ++ b
joined-parts [] [] = refl
joined-parts [] (y ∷ b) = ground (arith, append-nil b)
joined-parts (x ∷ a) [] = ground (arith, append-nil a)
joined-parts (x ∷ a) (y ∷ b) = ground (arith, append-nil b)

-- Whatever the buffer does with bytes that do not fit, it loses none that wait.
pub store-grows :
    (c : CircularBuffer) (bytes : Bytes) (b : c.Buffer)
    → length (c.content b) ≤ length (c.content (c.store bytes b).0)
store-grows c bytes b =
    let (more, stored) = c.store_content bytes b in
    rw (stored, length-append (c.content b) more) (omega arith)
