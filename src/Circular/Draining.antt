-- ===== src/Circular/Draining.antt =====
-- Exchange after exchange of a driver that holds a circular buffer, until nothing waits, for any
-- driver.
use libcomms.Base.{
  ℕ, ◌+◌, ◌*◌, ◌<◌, ◌≤◌, ◌≡◌, refl, sym, ap, ◌∙◌, Bool, true, ◌&&◌, List, [], ◌∷◌, ◌++◌, arith,
  length, length-take, length-drop, take, drop, take-append-drop, nil_of_length, min, Bytes, ltb,
  leb,
}
use native.Mathlib.Nat.{suc-mul}
use libcomms.Circular.Parts.{joined}
use libcomms.Machine.Steps.{every}
use libcomms.Modem.{Output}

-- What waits is transmitted in parts; each exchange has its own.
abbrev pub all_joined : List (List Bytes) → Bytes
all_joined [] = []
all_joined (ps ∷ pss) = joined ps ++ all_joined pss

-- One exchange takes at least one byte, and at most so many.
abbrev pub is_exchange : ℕ → List Bytes → Bool
is_exchange capacity ps = ltb 0 (length (joined ps)) && leb (length (joined ps)) capacity

-- The log behind one exchange after the other.
abbrev pub exchanges_log :
    (List Bytes → List Output → List Output) → List (List Bytes) → List Output → List Output
exchanges_log exchange_log [] log = log
exchanges_log exchange_log (ps ∷ pss) log = exchanges_log exchange_log pss (exchange_log ps log)

-- A driver, `M`, that exchanges what waits with a module that answers, `X`: an exchange takes what
-- waits up to a capacity, and leaves the driver ready for the next one.
pub record Exchanges (M X : Type 0) : Type 1 where
  pub capacity : ℕ
  pub IsReady : M → Type 0
  pub content : M → Bytes
  pub log : M → List Output
  pub exchange : X → M → M
  pub exchange_log : List Bytes → List Output → List Output
  pub exchange-parts :
      (x : X) (m : M)
      → IsReady m
      → 0 < length (content m)
      → let n = min (length (content m)) capacity in
        IsReady (exchange x m)
        × (content (exchange x m) ≡ drop n (content m))
        × ((ps : List Bytes) × (joined ps ≡ take n (content m))
            × (log (exchange x m) ≡ exchange_log ps (log m)))

module _ {M X : Type 0} (d : Exchanges M X) where
  open d use {capacity, IsReady, content, log, exchange, exchange_log, exchange-parts}

  abbrev pub all_exchanges : List X → M → M
  all_exchanges [] m = m
  all_exchanges (x ∷ xs) m = all_exchanges xs (exchange x m)

  -- What several exchanges did: everything was transmitted once, in order and without a gap.
  pub record Drained (m m' : M) : Type 0 where
    pub arrived : IsReady m'
    pub emptied : content m' ≡ []
    pub pieces : List (List Bytes)
    pub whole : all_joined pieces ≡ content m
    pub bounded : every (is_exchange capacity) pieces ≡ true
    pub added : log m' ≡ exchanges_log exchange_log pieces (log m)

  -- Just as many exchanges as the bytes that wait need.
  pub drains :
      (xs : List X) (m : M)
      → IsReady m
      → length (content m) ≤ length xs * capacity
      → length xs * capacity < length (content m) + capacity
      → Drained m (all_exchanges xs m)
  drains [] m s most more =
      let none_left = nil_of_length (content m) (omega arith) in
      record {
        arrived = s;
        emptied = none_left;
        pieces = [];
        whole = sym none_left;
        bounded = refl;
        added = refl;
      }
  drains (x ∷ xs) m s most more =
      let n = min (length (content m)) capacity in
      let round = suc-mul (length xs) capacity in
      let wait : 0 < length (content m) = omega (arith, round) in
      let (ready, dropped, (ps, sent, adds)) = exchange-parts x m s wait in
      let fewer = ap length dropped ∙ length-drop n (content m) in
      let d' =
        drains xs (exchange x m) ready (omega (arith, round, fewer))
          (omega (arith, round, fewer)) in
      let sized = ap length sent ∙ length-take n (content m) in
      record {
        arrived = d'.arrived;
        emptied = d'.emptied;
        pieces = ps ∷ d'.pieces;
        whole = rw (d'.whole, dropped, sent) (take-append-drop n (content m));
        bounded = ground (arith, d'.bounded, sized);
        added = d'.added ∙ ap (exchanges_log exchange_log d'.pieces) adds;
      }
