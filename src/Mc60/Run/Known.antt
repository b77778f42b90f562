-- ===== src/Mc60/Run/Known.antt =====
-- The numbers that Mc60Modem reports and the bytes that wait: single actions and transitions.
use libcomms.Mc60.Run.Shapes.{is_declare_read, actions_of}
use libcomms.Base.{
  ℕ, ◌+◌, ◌≤◌, ◌≡◌, refl, Bool, true, false, ◌&&◌, ◌||◌, List, [], ◌∷◌, ◌++◌, arith, length,
  length-drop, if◌then◌else◌,
}
use libcomms.Machine.{Transition}
use libcomms.Machine.Steps.{every}
use libcomms.Modem.{Output, notified_sent}
use libcomms.Mc60.Driver.{
  Modem, Own, Act, Context, at, sent_action, declare_action, perform, perform_all, prepare_action,
}
use libcomms.Mc60.Outbox.Queue.{prepare_lem}
use libcomms.Mc60.Run.{exit_of, transitions_of, globals_of}
use libcomms.Mc60.Run.Actions.{all_keep}
use libcomms.Mc60.Run.Held.{in_round}
use libcomms.Mc60.Run.Sent.{declare_lem}
use libcomms.Mc60.Run.Views.{no_declare}
use libcomms.Mc60.State.{State}
use libcomms.Mc60.Table.{state_def}

-- How many bytes the client was told of in all.
abbrev pub told_sent : List Output → ℕ
told_sent [] = 0
told_sent (notified_sent n ∷ log) = n + told_sent log
told_sent (_ ∷ log) = told_sent log

abbrev no_sent : Act → Bool
no_sent sent_action = false
no_sent _ = true

-- Neither a report nor a delivery.
abbrev pub is_plain : Act → Bool
is_plain a = no_sent a && no_declare a

abbrev pub reports_first : List Act → Bool
reports_first (sent_action ∷ acts) = every is_plain acts
reports_first _ = false

abbrev pub delivers_last : State → Transition State Own Act → Bool
delivers_last s t =
    in_round s
    && all_keep (exit_of (state_def s) ++ t.actions)
    && every no_sent (exit_of (state_def s) ++ t.actions)

-- A transition into NETWORK_DECLARE_READ delivers at its end, in a round; any other delivers
-- nothing, and reports nothing unless it leaves that state, and then once.
abbrev pub counts : State → Transition State Own Act → Bool
counts s t =
    if is_declare_read t.target
    then delivers_last s t
    else (every is_plain (actions_of s t) || (is_declare_read s && reports_first (actions_of s t)))

pub table_counts :
    (s : State)
    → (every (counts s) (globals_of (state_def s)) ≡ true)
      × (every (counts s) (transitions_of (state_def s)) ≡ true)
unfolding state_def
table_counts State.sleep = (refl, refl)
table_counts _ = (refl, refl)

perform-told_sent :
    (c : Context) (a : Act) (m : Modem)
    → no_sent a ≡ true
    → told_sent (perform c a m).log ≡ told_sent m.log
unfolding perform
perform-told_sent c (at command) m h = ground arith
perform-told_sent c _ m h = ground arith

perform-shrinks :
    (c : Context) (a : Act) (m : Modem)
    → is_plain a ≡ true
    → length (perform c a m).box.buffer ≤ length m.box.buffer
unfolding perform
perform-shrinks c (at command) m h = ground arith
perform-shrinks c prepare_action m h = ground (arith, prepare_lem c.event m.box)
perform-shrinks c _ m h = ground arith

pub perform_all-told_sent :
    (c : Context) (acts : List Act) (m : Modem)
    → every no_sent acts ≡ true
    → told_sent (perform_all c acts m).log ≡ told_sent m.log
unfolding perform_all
perform_all-told_sent c [] m h = refl
perform_all-told_sent c (a ∷ acts) m h =
    ground (arith, perform-told_sent c a m, perform_all-told_sent c acts (perform c a m))

-- What was reported or waits.
abbrev pub known : Modem → ℕ
known m = told_sent m.log + length m.box.buffer

pub perform_all-known :
    (c : Context) (acts : List Act) (m : Modem)
    → every is_plain acts ≡ true
    → known (perform_all c acts m) ≤ known m
unfolding perform_all
perform_all-known c [] m h = omega arith
perform_all-known c (a ∷ acts) m h =
    let rest = perform_all-known c acts (perform c a m) (ground arith) in
    let told = perform-told_sent c a m (ground arith) in
    let less = perform-shrinks c a m (ground arith) in omega arith

sent-known : (c : Context) (m : Modem) → known (perform c sent_action m) ≤ known m + m.box.to_send
unfolding perform
sent-known c m = ground arith

pub reported_first :
    (c : Context) (acts : List Act) (m : Modem)
    → reports_first acts ≡ true
    → known (perform_all c acts m) ≤ known m + m.box.to_send
unfolding perform_all
reported_first c (sent_action ∷ acts) m h =
    let rest = perform_all-known c acts (perform c sent_action m) h in
    let first = sent-known c m in omega arith
reported_first c _ m h = absurd (cc h)

-- The announced bytes were delivered, and the client is yet to be told.
abbrev pub owed : Modem → ℕ
owed m = if is_declare_read m.state then m.box.to_send else 0

pub owed-bound : (m : Modem) → owed m ≤ m.box.to_send
owed-bound m = ground arith

pub owed_elsewhere : (m : Modem) → is_declare_read m.state ≡ false → owed m ≡ 0
owed_elsewhere m h = rw h refl

pub declare-known :
    (c : Context) (m : Modem)
    → m.box.to_send ≤ length m.box.buffer
    → let m' = perform_all c (declare_action ∷ []) m in known m' + m'.box.to_send ≡ known m
unfolding perform perform_all
declare-known c m h = rw (declare_lem m.box, length-drop m.box.to_send m.box.buffer) (omega arith)
