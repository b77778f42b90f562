-- ===== src/Mc60/Run/Passing.antt =====
-- The transitions of Mc60Modem that await received data and pass it on.
use libcomms.Base.{
  ◌≡◌, refl, ap, ◌∙◌, ◌⊎◌, inl, inr, Bool, true, false, not, ◌&&◌, ◌||◌, List, [], ◌∷◌, ◌++◌, Bytes,
  arith, Bool-cases,
}
use libcomms.Machine.{Guard, anded, retaining, own, Transition}
use libcomms.Machine.Steps.{every}
use libcomms.Modem.{Output, notified_data}
use libcomms.Mc60.Driver.{
  Modem, Own, Act, Context, at, pass_data, received_len, parse_recv_len, perform, perform_all,
}
use libcomms.Mc60.Run.{entry_of, exit_of, transitions_of, globals_of}
use libcomms.Mc60.Run.Actions.{perform_all-append}
use libcomms.Mc60.State.{State}
use libcomms.Mc60.Table.{state_def}

-- The data that the client was given, the newest first.
abbrev pub data_given : List Output → List Bytes
data_given [] = []
data_given (notified_data bytes ∷ log) = bytes ∷ data_given log
data_given (_ ∷ log) = data_given log

abbrev pub no_pass : Act → Bool
no_pass pass_data = false
no_pass _ = true

abbrev pub is_receive : State → Bool
is_receive State.network_receive = true
is_receive _ = false

abbrev pub is_begin : State → Bool
is_begin State.network_begin_receive = true
is_begin _ = false

abbrev pub is_parse : Guard Own → Bool
is_parse (own parse_recv_len) = true
is_parse _ = false

abbrev pub is_announced : Guard Own → Bool
is_announced (anded (retaining (own received_len)) _) = true
is_announced _ = false

abbrev pub is_pass_only : List Act → Bool
is_pass_only (pass_data ∷ []) = true
is_pass_only _ = false

pub is_parse_lem : (g : Guard Own) → is_parse g ≡ true → g ≡ own parse_recv_len
is_parse_lem (own parse_recv_len) h = refl
is_parse_lem _ h = cc

pub is_announced_lem :
    (g : Guard Own)
    → is_announced g ≡ true
    → (h : Guard Own) × (g ≡ anded (retaining (own received_len)) h)
is_announced_lem (anded (retaining (own received_len)) h) p = (h, refl)
is_announced_lem _ p = cc

pub is_pass_only_lem : (acts : List Act) → is_pass_only acts ≡ true → acts ≡ pass_data ∷ []
is_pass_only_lem (pass_data ∷ []) h = refl
is_pass_only_lem _ h = cc

-- The data is passed on by one transition, out of NETWORK_RECEIVE, which the announced length and
-- nothing else lets happen.
abbrev pub passes : State → Transition State Own Act → Bool
passes s t =
    every no_pass (exit_of (state_def s))
    && every no_pass (entry_of (state_def t.target))
    && (every no_pass t.actions || (is_receive s && is_announced t.guard && is_pass_only t.actions))

-- NETWORK_RECEIVE is entered from NETWORK_BEGIN_RECEIVE, on a parsed length.
abbrev pub enters : State → Transition State Own Act → Bool
enters s t = not (is_receive t.target) || (is_begin s && is_parse t.guard)

abbrev pub elsewhere : Transition State Own Act → Bool
elsewhere t = not (is_receive t.target)

pub table_passes :
    (s : State)
    → (every (passes s) (globals_of (state_def s)) ≡ true)
      × (every (passes s) (transitions_of (state_def s)) ≡ true)
unfolding state_def
table_passes State.sleep = (refl, refl)
table_passes _ = (refl, refl)

pub table_enters :
    (s : State)
    → (every (enters s) (globals_of (state_def s)) ≡ true)
      × (every (enters s) (transitions_of (state_def s)) ≡ true)
      × (every elsewhere (globals_of (state_def s)) ≡ true)
unfolding state_def
table_enters State.sleep = (refl, refl, refl)
table_enters _ = (refl, refl, refl)

pub perform-data_given :
    (c : Context) (a : Act) (m : Modem)
    → no_pass a ≡ true
    → data_given (perform c a m).log ≡ data_given m.log
unfolding perform
perform-data_given c (at command) m h = ground arith
perform-data_given c _ m h = ground arith

pub perform_all-data_given :
    (c : Context) (acts : List Act) (m : Modem)
    → every no_pass acts ≡ true
    → data_given (perform_all c acts m).log ≡ data_given m.log
unfolding perform_all
perform_all-data_given c [] m h = refl
perform_all-data_given c (a ∷ acts) m h =
    ground (arith, perform-data_given c a m, perform_all-data_given c acts (perform c a m))

pub perform-bytes_received :
    (c : Context) (a : Act) (m : Modem) → (perform c a m).bytes_received ≡ m.bytes_received
unfolding perform
perform-bytes_received c (at command) m = ground arith
perform-bytes_received c _ m = ground arith

pub perform_all-bytes_received :
    (c : Context) (acts : List Act) (m : Modem)
    → (perform_all c acts m).bytes_received ≡ m.bytes_received
unfolding perform_all
perform_all-bytes_received c [] m = refl
perform_all-bytes_received c (a ∷ acts) m =
    perform_all-bytes_received c acts (perform c a m) ∙ perform-bytes_received c a m

pub pass-data_given :
    (c : Context) (m : Modem)
    → let log = data_given (perform c pass_data m).log in
      (log ≡ data_given m.log) ⊎ (log ≡ c.event ∷ data_given m.log)
unfolding perform
pass-data_given c m = elim (Bool-cases m.has_callback) [
  | inl heard ↦ inr (rw heard refl)
  | inr unheard ↦ inl (rw unheard refl)
]

pub passes-data_given :
    (c : Context) (exit entry : List Act) (m : Modem)
    → every no_pass exit ≡ true
    → every no_pass entry ≡ true
    → let log = data_given (perform_all c (exit ++ pass_data ∷ [] ++ entry) m).log in
      (log ≡ data_given m.log) ⊎ (log ≡ c.event ∷ data_given m.log)
unfolding perform_all
passes-data_given c exit entry m x n =
    let m1 = perform_all c exit m in
    let before = perform_all-data_given c exit m x in
    let behind = perform_all-data_given c entry (perform c pass_data m1) n in
    rw
      (
        perform_all-append c (exit ++ pass_data ∷ []) entry m,
        perform_all-append c exit (pass_data ∷ []) m,
      )
      (elim (pass-data_given c m1) [
        | inl silent ↦ inl (behind ∙ silent ∙ before)
        | inr given ↦ inr (behind ∙ given ∙ ap (c.event ∷◌) before)
      ])

-- What it means that a test of that form holds.
all_and_either :
    (x n a r g p : Bool)
    → (x && n && (a || (r && g && p))) ≡ true
    → (x ≡ true) × (n ≡ true) × ((a ≡ true) ⊎ ((r ≡ true) × (g ≡ true) × (p ≡ true)))
all_and_either true true true r g p h = (refl, refl, inl refl)
all_and_either true true false true true true h = (refl, refl, inr (refl, refl, refl))
all_and_either true true false false g p h = cc
all_and_either true true false true false p h = cc
all_and_either true true false true true false h = cc
all_and_either true false a r g p h = cc
all_and_either false n a r g p h = cc

pub passes_lem :
    (s : State) (t : Transition State Own Act)
    → passes s t ≡ true
    → (every no_pass (exit_of (state_def s)) ≡ true)
      × (every no_pass (entry_of (state_def t.target)) ≡ true)
      × ((every no_pass t.actions ≡ true)
          ⊎ ((is_receive s ≡ true)
              × (is_announced t.guard ≡ true)
              × (is_pass_only t.actions ≡ true)))
passes_lem s t h = all_and_either _ _ _ _ _ _ h
