-- ===== src/Mc60/Run/Received.antt =====
-- What onData is given by the states NETWORK_BEGIN_RECEIVE and NETWORK_RECEIVE of Mc60Modem.
use libcomms.Mc60.Run.Awaited.{ready-log, ready-bytes_received, IsReachable-Awaits}
use libcomms.Mc60.Run.Passing.{
  data_given, no_pass, is_receive, is_announced, is_announced_lem, is_pass_only_lem, passes,
  table_passes, perform_all-data_given, passes-data_given, passes_lem,
}
use libcomms.Base.{
  ℕ, ◌<◌, ◌≡◌, refl, ap, ◌∙◌, subst, ◌⊎◌, inl, inr, true, some, [], ◌∷◌, ◌++◌, arith, length,
  Option-cases,
}
use libcomms.Machine.{Engine, Transition}
use libcomms.Machine.Steps.{every, every-append, pick-every}
use libcomms.Mc60.Driver.{Modem, Own, Act, pass_data, received_len, own_test}
use libcomms.Mc60.Run.{context, follow, ready, run, picked, entry_of, exit_of}
use libcomms.Mc60.Run.Rounds.{IsReachable}
use libcomms.Mc60.State.{State}
use libcomms.Mc60.Table.{state_def}

module _ (max : ℕ) (e : Engine State Own Act Modem (own_test max)) where
  open e use {
    Input, event, checked, on_reset, arrange_order, holds_own, holds_retained, pick_checked,
  }

  follow-silent :
      (i : Input) (s : State) (t : Transition State Own Act) (m : Modem)
      → every no_pass (exit_of (state_def s)) ≡ true
      → every no_pass t.actions ≡ true
      → every no_pass (entry_of (state_def t.target)) ≡ true
      → data_given (follow max e i s (some t) m).log ≡ data_given m.log
  unfolding follow
  follow-silent i s t m x a n =
      let exit = exit_of (state_def s) in
      let entry = entry_of (state_def t.target) in
      rw (arrange_order exit t.actions entry) (
        perform_all-data_given _ (exit ++ t.actions ++ entry) _ (
          every-append no_pass (exit ++ t.actions) entry (every-append no_pass exit t.actions x a)
            n))

  follow-passes :
      (i : Input) (s : State) (t : Transition State Own Act) (m : Modem)
      → every no_pass (exit_of (state_def s)) ≡ true
      → t.actions ≡ pass_data ∷ []
      → every no_pass (entry_of (state_def t.target)) ≡ true
      → let log = data_given (follow max e i s (some t) m).log in
        (log ≡ data_given m.log) ⊎ (log ≡ event i ∷ data_given m.log)
  unfolding follow
  follow-passes i s t m x a n =
      rw (arrange_order (exit_of (state_def s)) t.actions (entry_of (state_def t.target)), a)
        (passes-data_given (context max e i) _ _ (record m { state = t.target }) x n)

  -- What a call does to the data that the client was given.
  abbrev Given : Input → Modem → Modem → Type 0
  Given i m m' =
      (data_given m'.log ≡ data_given m.log)
      ⊎ ((m.state ≡ State.network_receive)
          × (data_given m'.log ≡ event i ∷ data_given m.log)
          × (length (event i) ≡ m.bytes_received))

  is_receive_lem : (s : State) → is_receive s ≡ true → s ≡ State.network_receive
  is_receive_lem State.network_receive h = refl
  is_receive_lem _ h = cc

  passing-Given :
      (i : Input) (m : Modem) (t : Transition State Own Act)
      → every no_pass (exit_of (state_def m.state)) ≡ true
      → every no_pass (entry_of (state_def t.target)) ≡ true
      → is_receive m.state ≡ true
      → is_announced t.guard ≡ true
      → t.actions ≡ pass_data ∷ []
      → e.holds (ready max e i m) i t.guard ≡ true
      → Given i m (follow max e i m.state (some t) (ready max e i m))
  unfolding own_test
  passing-Given i m t x n r g a h =
      let (rest, eq) = is_announced_lem t.guard g in
      let len =
        holds_retained (ready max e i m) i received_len rest
          (subst (λ y. e.holds (ready max e i m) i y ≡ true) eq h) in
      let same = ready-bytes_received max e i m r in
      let log = ready-log max e i m in
      elim (follow-passes i m.state t (ready max e i m) x a n) [
        | inl silent ↦ inl (silent ∙ log)
        | inr given ↦ inr (is_receive_lem m.state r, given ∙ ap (event i ∷◌) log, ground arith)
      ]

  run-Given : (i : Input) (m : Modem) → Given i m (run max e i m)
  unfolding run
  run-Given i m = elim (Option-cases (picked max e i m)) [
    | inl stays ↦ rw (stays, follow) (inl (ready-log max e i m))
    | inr (t, taken) ↦
        let (g, l) = table_passes m.state in
        let (way, holds) =
          pick-every e (passes m.state) (ready max e i m) i _ _ t g l (unfold picked in taken) in
        let (x, n, how) = passes_lem m.state t way in
        rw taken (elim how [
          | inl none_given ↦
              inl (follow-silent i m.state t (ready max e i m) x none_given n ∙ ready-log max e i m)
          | inr (r, announced, only) ↦
              passing-Given i m t x n r announced (is_pass_only_lem t.actions only) holds
        ])
  ]

-- A run gives the client's onData nothing, or, in NETWORK_RECEIVE and in no other state, one piece
-- of data: the event of the run, which has as many bytes as the modem announced, at least one.
pub data_is_announced :
    (max : ℕ) (e : Engine State Own Act Modem (own_test max)) (m : Modem) (i : e.Input)
    → IsReachable max e m
    → let given = data_given (run max e i m).log in
      (given ≡ data_given m.log)
      ⊎ ((m.state ≡ State.network_receive)
          × (given ≡ e.event i ∷ data_given m.log)
          × (length (e.event i) ≡ m.bytes_received)
          × (0 < m.bytes_received))
data_is_announced max e m i r = elim (run-Given max e i m) [
  | inl silent ↦ inl silent
  | inr (s, given, len) ↦ inr (s, given, len, IsReachable-Awaits max e m r (ap is_receive s))
]
