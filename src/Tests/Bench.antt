-- ===== src/Tests/Bench.antt =====
-- An engine to run the drivers' tables on a bench: the lines heard since the last transition and
-- the time that passed are given.
use libcomms.Base.{
  arith, ℕ, ◌<◌, ◌≡◌, ◌⊎◌, refl, inl, inr, Bool, true, false, not, ◌&&◌, ◌||◌, Option, none, some,
  List, [], ◌∷◌, ◌++◌, Bytes, codes, leb, length, ◌==◌, if◌then◌else◌,
}
use libcomms.CLib.{begins}
use libcomms.Machine.{
  Guard, eq, begins_with, like, retaining, anded, ored, seq, negated, always_true, ms_passed, own,
  Transition, Engine, first_holding,
}

pub record Heard : Type 0 where
  pub event : Bytes
  pub beyond : Bytes
  pub stale : Bytes
  pub lines : List Bytes
  pub elapsed : ℕ
  pub checked : Bool
  pub queued : ℕ

-- Nothing but these lines was heard.
abbrev pub lines_heard : List Bytes → Heard
lines_heard lines = record {
  event = [];
  beyond = 0 ∷ [];
  stale = [];
  lines = lines;
  elapsed = 0;
  checked = true;
  queued = 0;
}

abbrev pub nothing_heard : Heard
nothing_heard = lines_heard []

heard : (Bytes → Bool) → List Bytes → Bool
heard p [] = false
heard p (l ∷ ls) = p l || heard p ls

some_suffix : (Bytes → Bool) → Bytes → Bool
some_suffix p [] = p []
some_suffix p (c ∷ s) = p (c ∷ s) || some_suffix p s

after_byte : ℕ → (Bytes → Bool) → Bytes → Bool
after_byte c p [] = false
after_byte c p (d ∷ s) = c == d && p s

-- A percent sign stands for any text.
matches : Bytes → Bytes → Bool
matches [] [] = true
matches [] (_ ∷ _) = false
matches (c ∷ pattern) s =
    let rest = matches pattern in if c == b'%' then some_suffix rest s else after_byte c rest s

module _ {L M : Type 0} (test : L → M → Bytes → Bool) where
  unfoldable pub bench_holds : M → Heard → Guard L → Bool
  unfolding heard begins matches some_suffix after_byte
  bench_holds m i (eq s) = heard (λ l. begins l (codes s) && (length l == length (codes s))) i.lines
  bench_holds m i (begins_with s) = heard (λ l. begins l (codes s)) i.lines
  bench_holds m i (like s) = heard (matches (codes s)) i.lines
  bench_holds m i (retaining g) = bench_holds m i g
  bench_holds m i (anded g h) = bench_holds m i g && bench_holds m i h
  bench_holds m i (ored g h) = bench_holds m i g || bench_holds m i h
  bench_holds m i (seq g h) = bench_holds m i g && bench_holds m i h
  bench_holds m i (negated g) = not (bench_holds m i g)
  bench_holds m i always_true = true
  bench_holds m i (ms_passed n) = leb n i.elapsed
  bench_holds m i (own l) = test l m i.event

  pub bench_holds_own : (m : M) (i : Heard) (l : L) → bench_holds m i (own l) ≡ test l m i.event
  unfolding bench_holds
  bench_holds_own m i l = refl

  pub bench_holds_ms_passed :
      (m : M) (i : Heard) (n : ℕ) → n < i.elapsed → bench_holds m i (ms_passed n) ≡ true
  unfolding bench_holds
  bench_holds_ms_passed m i n h = ground arith

  pub bench_holds_retained :
      (m : M) (i : Heard) (l : L) (g : Guard L)
      → bench_holds m i (anded (retaining (own l)) g) ≡ true
      → test l m i.event ≡ true
  unfolding bench_holds
  bench_holds_retained m i l g h = ground arith

  pub bench_holds_always_true : (m : M) (i : Heard) → bench_holds m i always_true ≡ true
  unfolding bench_holds
  bench_holds_always_true m i = refl

  pub bench_holds_ored :
      (m : M) (i : Heard) (g h : Guard L)
      → bench_holds m i g ≡ true
      → bench_holds m i (ored g h) ≡ true
  unfolding bench_holds
  bench_holds_ored m i g h e = rw e refl

abbrev first_of_both :
    {S L A : Type 0}
    → Option (Transition S L A)
    → Option (Transition S L A)
    → Option (Transition S L A)
first_of_both none later = later
first_of_both (some t) later = some t

module _ {S L A M : Type 0} (test : L → M → Bytes → Bool) where
  unfoldable pub bench_pick :
      M → Heard → List (Transition S L A) → List (Transition S L A) → Option (Transition S L A)
  unfolding bench_holds first_holding
  bench_pick m i globals locals =
      if i.checked
      then first_of_both (first_holding (bench_holds test m i) globals)
          (first_holding (bench_holds test m i) locals)
      else first_holding (bench_holds test m i) globals

  pub bench_pick-some :
      (m : M) (i : Heard) (globals locals : List (Transition S L A)) {t : Transition S L A}
      → bench_pick m i globals locals ≡ some t
      → (first_holding (bench_holds test m i) globals ≡ some t)
        ⊎ (first_holding (bench_holds test m i) locals ≡ some t)
  bench_pick-some m i globals locals {t} h = chosen i.checked _ _ (unfold bench_pick in h)
    where
      chosen :
          (c : Bool) (g l : Option (Transition S L A))
          → (if c then first_of_both g l else g) ≡ some t
          → (g ≡ some t) ⊎ (l ≡ some t)
      chosen true none l e = inr e
      chosen true (some u) l e = inl e
      chosen false g l e = inl e

  pub bench_pick_checked :
      (m : M) (i : Heard) (globals locals : List (Transition S L A)) {t : Transition S L A}
      → i.checked ≡ false
      → bench_pick m i globals locals ≡ some t
      → first_holding (bench_holds test m i) globals ≡ some t
  unfolding bench_pick
  bench_pick_checked m i globals locals unchecked h = rw unchecked at h

  pub bench_pick-none :
      (m : M) (i : Heard) (globals locals : List (Transition S L A))
      → bench_pick m i globals locals ≡ none
      → (first_holding (bench_holds test m i) globals ≡ none)
        × (i.checked ≡ true → first_holding (bench_holds test m i) locals ≡ none)
  bench_pick-none m i globals locals h = nothing i.checked _ _ (unfold bench_pick in h)
    where
      nothing :
          (c : Bool) (g l : Option (Transition S L A))
          → (if c then first_of_both g l else g) ≡ none
          → (g ≡ none) × (c ≡ true → l ≡ none)
      nothing true none l e = (refl, λ t. e)
      nothing true (some u) l e = cc
      nothing false g l e = (e, λ t. cc)

  abbrev pub bench : Engine S L A M test
  bench = record {
    Input = Heard;
    event = λ i. i.event;
    beyond = λ i. i.beyond;
    holds = bench_holds test;
    pick = bench_pick;
    arrange = λ exit actions entry. exit ++ actions ++ entry;
    checked = λ i. i.checked;
    consumed = λ i. 0;
    queued = λ i. i.queued;
    queue_size = 8;
    elapsed = λ i. i.elapsed;
    stale = λ i. i.stale;
    on_reset = λ entry. entry;
    pick_some = bench_pick-some;
    pick_checked = bench_pick_checked;
    pick_none = bench_pick-none;
    arrange_order = λ exit actions entry. refl;
    on_reset_entry = λ entry. inl refl;
    holds_own = bench_holds_own test;
    holds_always_true = bench_holds_always_true test;
    holds_ored = bench_holds_ored test;
    holds_ms_passed = bench_holds_ms_passed test;
    holds_retained = bench_holds_retained test;
  }
