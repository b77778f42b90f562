-- ===== src/Machine.antt =====
-- The tables of the drivers' state machines, and what a driver relies on in the library that runs
-- them. The library (StateMachine.h, Condition.h, Action.h) is not part of this repository: how it
-- decides that a condition holds is a field of `Engine`, with what the drivers rely on as its laws.
pub mod Steps
pub mod Driving
pub mod Rounds
pub mod Timeouts
pub mod Answering
use libcomms.Base.{
  ℕ, ◌<◌, ◌≡◌, ◌⊎◌, Bool, true, false, ◌||◌, Option, none, some, List, [], ◌∷◌, ◌++◌, String, Bytes,
  if◌then◌else◌,
}

-- The conditions of a transition. `own` is a condition that the driver itself implements: a class
-- of this repository, a lambda, or a comparison of the driver's variables.
pub data Guard (L : Type 0) : Type 0 where
  eq begins_with like : String → Guard L
  retaining : Guard L → Guard L
  anded ored seq : Guard L → Guard L → Guard L
  negated : Guard L → Guard L
  always_true : Guard L
  ms_passed : ℕ → Guard L
  own : L → Guard L

abbrev pub ok : {L : Type 0} → Guard L
ok = eq "OK"

abbrev pub error : {L : Type 0} → Guard L
error = like "%ERROR%"

pub record Transition (S L A : Type 0) : Type 0 where
  pub target : S
  pub guard : Guard L
  pub actions : List A

-- `state (…)->entry (…)->exit (…)` with its transitions in the order of their declaration.
-- `suppresses` is StateFlags::SUPPRESS_GLOBAL_TRANSITIONS.
pub record StateDef (S L A : Type 0) : Type 0 where
  pub suppresses : Bool
  pub entry : List A
  pub exit : List A
  pub transitions : List (Transition S L A)

module _ {S L A : Type 0} where
  -- `->transition (target)->when (guard)`.
  abbrev pub when : S → Guard L → Transition S L A
  when target guard = record { target = target; guard = guard; actions = [] }

  -- `->transition (target)->when (guard)->then (actions)`.
  abbrev pub when_then : S → Guard L → List A → Transition S L A
  when_then target guard actions = record { target = target; guard = guard; actions = actions }

  abbrev pub state : List A → List (Transition S L A) → StateDef S L A
  state entry transitions = record {
    suppresses = false;
    entry = entry;
    exit = [];
    transitions = transitions;
  }

  -- The first transition, in the order of declaration, whose condition holds.
  unfoldable pub first_holding :
      (Guard L → Bool) → List (Transition S L A) → Option (Transition S L A)
  first_holding holds [] = none
  first_holding holds (t ∷ ts) =
      let later = first_holding holds ts in if holds t.guard then some t else later

-- What the drivers rely on in the library. `M` is the state of the driver, and `test` decides its
-- own conditions in it; an `Input` is all else that a call of `run` finds: the lines that arrived
-- and the time that passed.
pub record Engine (S L A M : Type 0) (test : L → M → Bytes → Bool) : Type 1 where
  pub Input : Type 0
  -- The event that the actions of this run are given, and the bytes behind it in memory.
  pub event : Input → Bytes
  pub beyond : Input → Bytes
  pub holds : M → Input → Guard L → Bool
  -- The transition that a run takes, among the global ones and those of the state.
  pub pick :
      M → Input → List (Transition S L A) → List (Transition S L A) → Option (Transition S L A)
  -- The order in which a run performs the exit actions, those of the transition, and the entry
  -- actions of its target.
  pub arrange : List A → List A → List A → List A
  -- Whether the conditions of the state are evaluated in this run.
  pub checked : Input → Bool
  -- The event queue takes the lines of the module and the events that the client's calls push. How
  -- many of the client's events this run takes out of it, how many lines stand in it beside them,
  -- and how many events it has room for.
  pub consumed : Input → ℕ
  pub queued : Input → ℕ
  pub queue_size : ℕ
  -- The time since the last transition, in milliseconds.
  pub elapsed : Input → ℕ
  -- What the storage of the driver's buffer holds behind its last byte.
  pub stale : Input → Bytes
  -- The entry actions that `reset` performs, given those of the initial state.
  pub on_reset : List A → List A
  -- Transitions are tried in the order of their declaration.
  pub pick_some :
      (m : M) (i : Input) (globals locals : List (Transition S L A)) {t : Transition S L A}
      → pick m i globals locals ≡ some t
      → (first_holding (holds m i) globals ≡ some t) ⊎ (first_holding (holds m i) locals ≡ some t)
  pub pick_checked :
      (m : M) (i : Input) (globals locals : List (Transition S L A)) {t : Transition S L A}
      → checked i ≡ false
      → pick m i globals locals ≡ some t
      → first_holding (holds m i) globals ≡ some t
  -- A run that takes no transition found none whose condition holds.
  pub pick_none :
      (m : M) (i : Input) (globals locals : List (Transition S L A))
      → pick m i globals locals ≡ none
      → (first_holding (holds m i) globals ≡ none)
        × (checked i ≡ true → first_holding (holds m i) locals ≡ none)
  pub arrange_order :
      (exit actions entry : List A) → arrange exit actions entry ≡ exit ++ actions ++ entry
  pub on_reset_entry : (entry : List A) → (on_reset entry ≡ entry) ⊎ (on_reset entry ≡ [])
  pub holds_own : (m : M) (i : Input) (l : L) → holds m i (own l) ≡ test l m (event i)
  pub holds_always_true : (m : M) (i : Input) → holds m i always_true ≡ true
  -- A disjunction holds where its first condition does.
  pub holds_ored :
      (m : M) (i : Input) (g h : Guard L) → holds m i g ≡ true → holds m i (ored g h) ≡ true
  -- `msPassed` and TimePassedCondition hold when more time has passed.
  pub holds_ms_passed : (m : M) (i : Input) (n : ℕ) → n < elapsed i → holds m i (ms_passed n) ≡ true
  -- A condition that retains its input has seen the event that the actions are given.
  pub holds_retained :
      (m : M) (i : Input) (l : L) (g : Guard L)
      → holds m i (anded (retaining (own l)) g) ≡ true
      → test l m (event i) ≡ true
