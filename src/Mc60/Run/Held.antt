-- ===== src/Mc60/Run/Held.antt =====
-- The outbox over the actions of Mc60Modem while a send is under way: no more bytes are announced than wait.
use libcomms.Base.{
  ◌≤◌, ◌≡◌, refl, ap, ◌∙◌, ◌⊎◌, inl, inr, Bool, true, false, not, ◌&&◌, ◌||◌, List, [], ◌∷◌, ◌++◌,
  arith, length, length-drop,
}
use libcomms.Machine.{Transition}
use libcomms.Machine.Steps.{every}
use libcomms.Mc60.Driver.{
  Modem, Own, Act, Context, prepare_action, declare_action, perform, perform_all,
}
use libcomms.Mc60.Outbox.{Outbox, output_buffer_size, gsm_max_bytes_send, declare}
use libcomms.Mc60.Outbox.Queue.{declare-drop, prepare_lem}
use libcomms.Mc60.Run.{entry_of, exit_of, transitions_of, globals_of}
use libcomms.Mc60.Run.Actions.{all_keep, all_keep-append, perform_all-keeps_box, perform_all-append}
use libcomms.Mc60.State.{State}
use libcomms.Mc60.Table.{state_def}

-- Between the announcement of a number of bytes and the decision to drop them.
abbrev pub in_round : State → Bool
in_round State.network_prepare_send = true
in_round State.network_send = true
in_round State.network_ack_check = true
in_round State.network_ack_check_parse = true
in_round _ = false

abbrev is_prepare : State → Bool
is_prepare State.network_prepare_send = true
is_prepare _ = false

-- A round is entered by the announcement, and goes on only by actions that keep the outbox.
abbrev pub keeps_round : State → List Act → Transition State Own Act → Bool
keeps_round from exit t =
    not (in_round t.target)
    || is_prepare t.target
    || (in_round from
        && all_keep exit
        && all_keep t.actions
        && all_keep (entry_of (state_def t.target)))

-- Every transition of the table, and every global one, is of that kind.
pub table_keeps_rounds :
    (s : State)
    → let exit = exit_of (state_def s) in
      (every (keeps_round s exit) (globals_of (state_def s)) ≡ true)
      × (every (keeps_round s exit) (transitions_of (state_def s)) ≡ true)
unfolding state_def
table_keeps_rounds State.network_send = (refl, refl)
table_keeps_rounds _ = (refl, refl)

-- In a round no more bytes are announced than wait, and never more than 1460.
pub record Announced (m : Modem) : Type 0 where
  pub fits : length m.box.buffer ≤ output_buffer_size
  pub capped : m.box.to_send ≤ gsm_max_bytes_send
  pub held : in_round m.state ≡ true → m.box.to_send ≤ length m.box.buffer

abbrev Bounded : Outbox → Type 0
Bounded box = (length box.buffer ≤ output_buffer_size) × (box.to_send ≤ gsm_max_bytes_send)

declare-Bounded : (box : Outbox) → Bounded box → Bounded (declare box)
unfolding declare
declare-Bounded box h =
    let dropped = ap length (declare-drop box) ∙ length-drop box.to_send box.buffer in
    (omega (arith, dropped), ground arith)

perform-Bounded : (c : Context) (a : Act) (m : Modem) → Bounded m.box → Bounded (perform c a m).box
unfolding perform
perform-Bounded c prepare_action m h = ground (arith, prepare_lem c.event m.box)
perform-Bounded c declare_action m h = declare-Bounded m.box h
perform-Bounded c _ m h = ground arith

pub perform_all-Bounded :
    (c : Context) (acts : List Act) (m : Modem) → Bounded m.box → Bounded (perform_all c acts m).box
unfolding perform_all
perform_all-Bounded c [] m h = h
perform_all-Bounded c (a ∷ acts) m h =
    perform_all-Bounded c acts (perform c a m) (perform-Bounded c a m h)

is_prepare-entry : (s : State) → is_prepare s ≡ true → entry_of (state_def s) ≡ prepare_action ∷ []
unfolding state_def
is_prepare-entry State.network_prepare_send h = refl
is_prepare-entry _ h = absurd (cc)

-- The announcement comes last, and counts what the buffer holds then.
prepare_last :
    (c : Context) (acts : List Act) (m : Modem)
    → let box = (perform_all c (acts ++ prepare_action ∷ []) m).box in
      box.to_send ≤ length box.buffer
unfolding perform_all perform
prepare_last c acts m =
    rw (perform_all-append c acts (prepare_action ∷ []) m)
      (let m' = perform_all c acts m in ground (arith, prepare_lem c.event m'.box))

keeps_round_cases :
    (from : State) (exit : List Act) (t : Transition State Own Act)
    → keeps_round from exit t ≡ true
    → in_round t.target ≡ true
    → (is_prepare t.target ≡ true)
      ⊎ ((in_round from ≡ true)
          × (all_keep (exit ++ t.actions ++ entry_of (state_def t.target)) ≡ true))
keeps_round_cases from exit t k r =
    let entry = entry_of (state_def t.target) in
    ground (arith, all_keep-append exit t.actions, all_keep-append (exit ++ t.actions) entry)

-- The outbox at the end of a transition into a round.
pub enter_round :
    (c : Context) (from : State) (exit : List Act) (t : Transition State Own Act) (m : Modem)
    → keeps_round from exit t ≡ true
    → (in_round from ≡ true → m.box.to_send ≤ length m.box.buffer)
    → in_round t.target ≡ true
    → let box = (perform_all c (exit ++ t.actions ++ entry_of (state_def t.target)) m).box in
      box.to_send ≤ length box.buffer
enter_round c from exit t m k h r = elim (keeps_round_cases from exit t k r) [
  | inl p ↦ rw (is_prepare-entry t.target p) (prepare_last c (exit ++ t.actions) m)
  | inr (r', keep) ↦
      rw (perform_all-keeps_box c (exit ++ t.actions ++ entry_of (state_def t.target)) m keep)
        (h r')
]
