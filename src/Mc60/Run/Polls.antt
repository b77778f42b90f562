-- ===== src/Mc60/Run/Polls.antt =====
-- The loop of NETWORK_ACK_CHECK and NETWORK_ACK_CHECK_PARSE of Mc60Modem.
use libcomms.Mc60.Run.Shapes.{is_parse}
use libcomms.Base.{
  ℕ, ◌+◌, ◌-◌, ◌*◌, ◌<◌, ◌≤◌, ◌≡◌, ◌≢◌, refl, sym, ap, ◌∙◌, ◌⊎◌, inl, inr, Bool, true, false, not,
  ◌||◌, some, List, [], ◌∷◌, arith, length, if◌then◌else◌,
}
use libcomms.Machine.{Engine, Transition}
use libcomms.Mc60.Driver.{Modem, Own, Act, own_test, inc_retry, perform, perform_all}
use libcomms.Mc60.Run.{check_effects, ready, run, follow, runs, call, exit_of, entry_of}
use libcomms.Mc60.Run.Retries.{IsReachable-Limited}
use libcomms.Mc60.Run.Rounds.{IsReachable, IsReachable-call}
use libcomms.Mc60.Run.Sent.{run_follows}
use libcomms.Mc60.State.{State}
use libcomms.Mc60.Table.{state_def}

abbrev is_ask : State → Bool
is_ask State.network_ack_check = true
is_ask _ = false

abbrev is_inc : List Act → Bool
is_inc (inc_retry ∷ []) = true
is_inc _ = false

abbrev is_nothing : List Act → Bool
is_nothing [] = true
is_nothing _ = false

is_inc_sound : (acts : List Act) → is_inc acts ≡ true → acts ≡ inc_retry ∷ []
is_inc_sound acts h = ground arith

is_nothing_sound : (acts : List Act) → is_nothing acts ≡ true → acts ≡ []
is_nothing_sound acts h = ground arith

is_parse_sound : (s : State) → is_parse s ≡ true → s ≡ State.network_ack_check_parse
is_parse_sound s h = ground arith

is_ask_sound : (s : State) → is_ask s ≡ true → s ≡ State.network_ack_check
is_ask_sound s h = ground arith

-- How many more turns of the loop the counter allows.
abbrev rank : State → ℕ → ℕ
rank s polls = if is_ask s then 2 * (9 - polls) + 1 else 2 * (9 - polls)

rank_asks :
    (s s' : State) (n n' : ℕ)
    → s ≡ State.network_ack_check
    → s' ≡ State.network_ack_check_parse
    → n' ≡ n
    → rank s' n' < rank s n
rank_asks s s' n n' h h' counts = rw (h, h', counts) (omega arith)

rank_counts :
    (s s' : State) (n n' : ℕ)
    → s ≡ State.network_ack_check_parse
    → s' ≡ State.network_ack_check
    → n' ≡ n + 1
    → n' ≤ 9
    → rank s' n' < rank s n
rank_counts s s' n n' h h' counts fits = rw (h, h') (omega arith)

rank_bound : (s : State) (n : ℕ) → rank s n ≤ 19
rank_bound s n = ground arith

module _ (max : ℕ) (e : Engine State Own Act Modem (own_test max)) where
  open e use {Input, arrange_order}

  ready_in_loop :
      (i : Input) (m : Modem)
      → (m.state ≡ State.network_ack_check) ⊎ (m.state ≡ State.network_ack_check_parse)
      → (ready max e i m).ack_query_retry_no ≡ m.ack_query_retry_no
  unfolding ready check_effects
  ready_in_loop i m (inl s) = ground arith
  ready_in_loop i m (inr s) = ground arith

  -- From the question to the answer nothing is counted.
  follow_asks :
      (i : Input) (t : Transition State Own Act) (m : Modem)
      → t.target ≡ State.network_ack_check_parse
      → t.actions ≡ []
      → (follow max e i State.network_ack_check (some t) m).ack_query_retry_no
        ≡ m.ack_query_retry_no
  unfolding state_def follow perform_all perform
  follow_asks i t m target acts =
      rw (arrange_order [] t.actions (entry_of (state_def t.target)), target, acts) (ground arith)

  run_asks :
      (i : Input) (m : Modem)
      → m.state ≡ State.network_ack_check
      → (run max e i m).state ≡ State.network_ack_check_parse
      → (run max e i m).ack_query_retry_no ≡ m.ack_query_retry_no
  unfolding state_def
  run_asks i m s s' =
      let (t, runs_to, arrives, kind) =
        run_follows max e (λ u. not (is_parse u.target) || is_nothing u.actions) i m
          State.network_ack_check s (λ x. cc) refl refl in
      let target = arrives ∙ s' in
      let acts = is_nothing_sound t.actions (ground arith) in
      ap (λ x. x.ack_query_retry_no) runs_to
      ∙ follow_asks i t (ready max e i m) target acts
      ∙ ready_in_loop i m (inl s)

  follow_counts :
      (i : Input) (t : Transition State Own Act) (m : Modem)
      → t.target ≡ State.network_ack_check
      → t.actions ≡ inc_retry ∷ []
      → (follow max e i State.network_ack_check_parse (some t) m).ack_query_retry_no
        ≡ m.ack_query_retry_no + 1
  unfolding state_def follow perform_all perform
  follow_counts i t m target acts =
      let exit = exit_of (state_def State.network_ack_check_parse) in
      rw (arrange_order exit t.actions (entry_of (state_def t.target)), target, acts) (ground arith)

  run_counts :
      (i : Input) (m : Modem)
      → m.state ≡ State.network_ack_check_parse
      → (run max e i m).state ≡ State.network_ack_check
      → (run max e i m).ack_query_retry_no ≡ m.ack_query_retry_no + 1
  unfolding state_def
  run_counts i m s s' =
      let (t, runs_to, arrives, kind) =
        run_follows max e (λ u. not (is_ask u.target) || is_inc u.actions) i m
          State.network_ack_check_parse s (λ x. cc) refl refl in
      let target = arrives ∙ s' in
      let acts = is_inc_sound t.actions (ground arith) in
      ap (λ x. x.ack_query_retry_no) runs_to
      ∙ follow_counts i t (ready max e i m) target acts
      ∙ ap (λ n. n + 1) (ready_in_loop i m (inr s))

  -- Each of these runs takes a transition, and the driver stays in the loop.
  abbrev pub Loops : List Input → Modem → Type 0
  Loops [] m = (m.state ≡ State.network_ack_check) ⊎ (m.state ≡ State.network_ack_check_parse)
  Loops (i ∷ is) m =
      ((m.state ≡ State.network_ack_check) ⊎ (m.state ≡ State.network_ack_check_parse))
      × ((run max e i m).state ≢ m.state)
      × Loops is (run max e i m)

  Loops-first :
      (is : List Input) (m : Modem)
      → Loops is m
      → (m.state ≡ State.network_ack_check) ⊎ (m.state ≡ State.network_ack_check_parse)
  Loops-first [] m h = h
  Loops-first (i ∷ is) m h = h.0

  rank-run :
      (i : Input) (m : Modem)
      → (m.state ≡ State.network_ack_check) ⊎ (m.state ≡ State.network_ack_check_parse)
      → (run max e i m).state ≢ m.state
      → ((run max e i m).state ≡ State.network_ack_check)
        ⊎ ((run max e i m).state ≡ State.network_ack_check_parse)
      → (run max e i m).ack_query_retry_no ≤ 9
      → rank (run max e i m).state (run max e i m).ack_query_retry_no
        < rank m.state m.ack_query_retry_no
  rank-run i m (inl s) moves (inl s') h = absurd (moves (s' ∙ sym s))
  rank-run i m (inl s) moves (inr s') h = rank_asks m.state _ _ _ s s' (run_asks i m s s')
  rank-run i m (inr s) moves (inl s') h = rank_counts m.state _ _ _ s s' (run_counts i m s s') h
  rank-run i m (inr s) moves (inr s') h = absurd (moves (s' ∙ sym s))

  length-Loops :
      (is : List Input) (m : Modem)
      → IsReachable max e m
      → Loops is m
      → length is ≤ rank m.state m.ack_query_retry_no
  length-Loops [] m r h = omega arith
  length-Loops (i ∷ is) m r h =
      let r' : IsReachable max e (run max e i m) =
        unfold call in IsReachable-call max e (runs i) m r in
      let fewer =
        rank-run i m h.0 h.1 (Loops-first is (run max e i m) h.2)
          (IsReachable-Limited max e (run max e i m) r').0 in
      let rest = length-Loops is (run max e i m) r' h.2 in omega arith

-- From a state that calls and runs can reach, the driver takes at most 19 transitions in a row
-- between NETWORK_ACK_CHECK and NETWORK_ACK_CHECK_PARSE, whatever the modem answers.
pub polls_end :
    (max : ℕ) (e : Engine State Own Act Modem (own_test max)) (is : List e.Input) (m : Modem)
    → IsReachable max e m
    → Loops max e is m
    → length is ≤ 19
polls_end max e is m r h =
    omega (arith, length-Loops max e is m r h, rank_bound m.state m.ack_query_retry_no)
