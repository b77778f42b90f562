-- ===== src/Mc60/Run/Clears.antt =====
-- The bytes that wait, over the actions and transitions of Mc60Modem.
use libcomms.Mc60.Run.Shapes.{is_declare_read, actions_of, is_parse, is_all_acked}
use libcomms.Base.{
  ◌≡◌, refl, sym, ◌∙◌, ◌⊎◌, inl, inr, Bool, true, false, ◌&&◌, ◌||◌, List, [], ◌∷◌, ◌++◌, arith,
  Bool-cases,
}
use libcomms.Machine.{Transition}
use libcomms.Machine.Steps.{every}
use libcomms.Mc60.Driver.{
  Modem, Own, Act, Context, at, connected_action, disconnected_action, declare_action,
  prepare_action, on_connected, on_disconnected, perform, perform_all,
}
use libcomms.Mc60.Outbox.Queue.{prepare_lem}
use libcomms.Mc60.Run.{exit_of, transitions_of, globals_of}
use libcomms.Mc60.Run.Actions.{all_keep}
use libcomms.Mc60.Run.Views.{no_declare}
use libcomms.Mc60.State.{State}
use libcomms.Mc60.Table.{state_def}

abbrev pub no_connected : Act → Bool
no_connected connected_action = false
no_connected a = no_declare a

abbrev pub no_disconnected : Act → Bool
no_disconnected disconnected_action = false
no_disconnected a = no_declare a

-- Nothing left, or all did with the connection.
abbrev Stays : Modem → Modem → Type 0
Stays m m' = (m'.box.buffer ≡ m.box.buffer) × (m'.connected ≡ m.connected)

abbrev pub Clears : Modem → Modem → Type 0
Clears m m' = (m.connected ≡ true) × (m'.connected ≡ false) × (m'.box.buffer ≡ [])

on_disconnected-cases : (m : Modem) → Stays m (on_disconnected m) ⊎ Clears m (on_disconnected m)
unfolding on_disconnected
on_disconnected-cases m = elim (Bool-cases m.connected) [
  | inl up ↦ inr (ground arith)
  | inr down ↦ inl (ground arith)
]

perform-Stays :
    (c : Context) (a : Act) (m : Modem)
    → no_connected a ≡ true
    → no_disconnected a ≡ true
    → Stays m (perform c a m)
unfolding perform
perform-Stays c (at command) m h k = ground arith
perform-Stays c prepare_action m h k = ground (arith, prepare_lem c.event m.box)
perform-Stays c _ m h k = ground arith

perform-cases :
    (c : Context) (a : Act) (m : Modem)
    → no_connected a ≡ true
    → Stays m (perform c a m) ⊎ Clears m (perform c a m)
perform-cases c disconnected_action m h = unfold perform in (on_disconnected-cases m)
perform-cases c connected_action m h = absurd (cc h)
perform-cases c declare_action m h = absurd (cc h)
perform-cases c a m h = inl (perform-Stays c a m refl refl)

both :
    (m m1 m2 : Modem)
    → Stays m m1 ⊎ Clears m m1
    → Stays m1 m2 ⊎ Clears m1 m2
    → Stays m m2 ⊎ Clears m m2
both m m1 m2 (inl (b, c)) (inl (b', c')) = inl (b' ∙ b, c' ∙ c)
both m m1 m2 (inl (b, c)) (inr (u, d, e)) = inr (sym c ∙ u, d, e)
both m m1 m2 (inr (u, d, e)) (inl (b', c')) = inr (u, c' ∙ d, b' ∙ e)
both m m1 m2 (inr (u, d, e)) (inr (u', d', e')) = absurd (cc (d, u'))

pub perform_all-cases :
    (c : Context) (acts : List Act) (m : Modem)
    → every no_connected acts ≡ true
    → Stays m (perform_all c acts m) ⊎ Clears m (perform_all c acts m)
unfolding perform_all
perform_all-cases c [] m h = inl (refl, refl)
perform_all-cases c (a ∷ acts) m h =
    both m (perform c a m) (perform_all c acts (perform c a m)) (perform-cases c a m (ground arith))
      (perform_all-cases c acts (perform c a m) (ground arith))

perform-buffer :
    (c : Context) (a : Act) (m : Modem)
    → no_disconnected a ≡ true
    → (perform c a m).box.buffer ≡ m.box.buffer
unfolding perform
perform-buffer c connected_action m h = unfold on_connected in (ground arith)
perform-buffer c disconnected_action m h = absurd (cc h)
perform-buffer c declare_action m h = absurd (cc h)
perform-buffer c a m h = (perform-Stays c a m refl refl).0

pub perform_all-buffer :
    (c : Context) (acts : List Act) (m : Modem)
    → every no_disconnected acts ≡ true
    → (perform_all c acts m).box.buffer ≡ m.box.buffer
unfolding perform_all
perform_all-buffer c [] m h = refl
perform_all-buffer c (a ∷ acts) m h =
    perform_all-buffer c acts (perform c a m) (ground arith) ∙ perform-buffer c a m (ground arith)

-- One transition delivers, on equal numbers of sent and acknowledged bytes; any other does not, and
-- none of them both connects and disconnects.
abbrev pub leaves : State → Transition State Own Act → Bool
leaves s t =
    every no_connected (actions_of s t)
    || every no_disconnected (actions_of s t)
    || (is_parse s
        && is_all_acked t.guard
        && is_declare_read t.target
        && all_keep (exit_of (state_def s) ++ t.actions))

pub table_leaves :
    (s : State)
    → (every (leaves s) (globals_of (state_def s)) ≡ true)
      × (every (leaves s) (transitions_of (state_def s)) ≡ true)
unfolding state_def
table_leaves State.sleep = (refl, refl)
table_leaves _ = (refl, refl)

one_of_three :
    (a b p g d k : Bool)
    → (a || b || (p && g && d && k)) ≡ true
    → (a ≡ true) ⊎ (b ≡ true) ⊎ ((p ≡ true) × (g ≡ true) × (d ≡ true) × (k ≡ true))
one_of_three true b p g d k h = inl refl
one_of_three false true p g d k h = inr (inl refl)
one_of_three false false p g d k h = inr (inr (ground arith))

pub leaves_lem :
    (s : State) (t : Transition State Own Act)
    → leaves s t ≡ true
    → (every no_connected (actions_of s t) ≡ true)
      ⊎ (every no_disconnected (actions_of s t) ≡ true)
      ⊎ ((is_parse s ≡ true)
          × (is_all_acked t.guard ≡ true)
          × (is_declare_read t.target ≡ true)
          × (all_keep (exit_of (state_def s) ++ t.actions) ≡ true))
leaves_lem s t h = one_of_three _ _ _ _ _ _ h
