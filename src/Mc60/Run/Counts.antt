-- ===== src/Mc60/Run/Counts.antt =====
-- By how much the transitions of the MC60's table raise its retry counters.
use libcomms.Base.{
  ℕ, ◌+◌, ◌≤◌, ◌≡◌, refl, ◌⊎◌, inl, inr, Bool, true, false, Option, none, some, List, [], ◌∷◌,
  arith, ◌==◌,
}
use libcomms.Machine.{Transition, first_holding, Guard, own, ored, seq, eq, ok}
use libcomms.Machine.Steps.{every, total}
use libcomms.Mc60.Driver.{
  Modem, Own, Act, Def, Context, at, perform, perform_all, inc_retry, at_inc_retry,
  retry_limit_reached, at_retry_limit_reached,
}
use libcomms.Mc60.Run.{entry_of, exit_of, transitions_of, globals_of}
use libcomms.Mc60.State.{State}
use libcomms.Mc60.Table.{state_def}

-- How many polls for acks, and how many probes with AT, a list of actions counts.
abbrev pub poll : Act → ℕ
poll inc_retry = 1
poll _ = 0

abbrev pub probe : Act → ℕ
probe at_inc_retry = 1
probe _ = 0

-- The counters, and by how much a list of actions raises them at most.
perform-counts :
    (c : Context) (a : Act) (m : Modem)
    → ((perform c a m).ack_query_retry_no ≤ m.ack_query_retry_no + poll a)
      × ((perform c a m).at_query_retry_no ≤ m.at_query_retry_no + probe a)
unfolding perform
perform-counts c (at command) m = ground arith
perform-counts c _ m = ground arith

pub perform_all-counts :
    (c : Context) (acts : List Act) (m : Modem)
    → let m' = perform_all c acts m in
      (m'.ack_query_retry_no ≤ m.ack_query_retry_no + total poll acts)
      × (m'.at_query_retry_no ≤ m.at_query_retry_no + total probe acts)
unfolding perform_all
perform_all-counts c [] m = omega arith
perform_all-counts c (a ∷ acts) m =
    omega (arith, perform-counts c a m, perform_all-counts c acts (perform c a m))

-- Exit and entry actions count nothing.
pub quiet :
    (s : State)
    → let d = state_def s in
      (total poll (exit_of d) ≡ 0)
      × (total poll (entry_of d) ≡ 0)
      × (total probe (exit_of d) ≡ 0)
      × (total probe (entry_of d) ≡ 0)
unfolding state_def
quiet State.init = (refl, refl, refl, refl)
quiet _ = (refl, refl, refl, refl)

abbrev pub is_calm : Transition State Own Act → Bool
is_calm t = total poll t.actions + total probe t.actions == 0

-- Only two states have transitions that count.
pub calm_states :
    (s : State)
    → (s ≡ State.init)
      ⊎ (s ≡ State.network_ack_check_parse)
      ⊎ (every is_calm (transitions_of (state_def s)) ≡ true)
unfolding state_def
calm_states State.init = inl refl
calm_states State.network_ack_check_parse = inr (inl refl)
calm_states _ = inr (inr refl)

pub calm_globals : (d : Option Def) → every is_calm (globals_of d) ≡ true
calm_globals none = refl
calm_globals (some d) = ground arith

module _ (holds : Guard Own → Bool) (t : Transition State Own Act) where
  pub parse_counts :
      first_holding holds (transitions_of (state_def State.network_ack_check_parse)) ≡ some t
      → (is_calm t ≡ true)
        ⊎ ((total poll t.actions ≡ 1)
            × (total probe t.actions ≡ 0)
            × (holds (own retry_limit_reached) ≡ false))
  unfolding first_holding state_def
  parse_counts h = ground arith

  pub init_counts :
      first_holding holds (transitions_of (state_def State.init)) ≡ some t
      → (is_calm t ≡ true)
        ⊎ ((total poll t.actions ≡ 0)
            × (total probe t.actions ≡ 1)
            × (holds (ored (own at_retry_limit_reached) (seq (eq "AT") ok)) ≡ false))
  unfolding first_holding state_def
  init_counts h = ground arith
