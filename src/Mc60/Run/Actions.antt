-- ===== src/Mc60/Run/Actions.antt =====
-- What lists of actions do to the outbox and to the state of the MC60's driver.
use libcomms.Base.{ℕ, ◌≡◌, refl, ◌∙◌, Bool, true, false, ◌&&◌, List, [], ◌∷◌, ◌++◌, Bytes, arith}
use libcomms.Response.{Checked, refused}
use libcomms.Mc60.Driver.{
  Modem, Act, Context, disconnected_action, prepare_action, declare_action, at, perform,
  perform_all,
}
use libcomms.Mc60.Run.{store_checked, check_effects}
use libcomms.Mc60.State.{State}

-- The actions that leave the outbox alone.
abbrev pub keeps_box : Act → Bool
keeps_box disconnected_action = false
keeps_box prepare_action = false
keeps_box declare_action = false
keeps_box _ = true

abbrev pub all_keep : List Act → Bool
all_keep [] = true
all_keep (a ∷ acts) = keeps_box a && all_keep acts

perform-keeps_box :
    (c : Context) (a : Act) (m : Modem) → keeps_box a ≡ true → (perform c a m).box ≡ m.box
unfolding perform
perform-keeps_box c (at command) m h = ground arith
perform-keeps_box c _ m h = ground arith

pub perform_all-keeps_box :
    (c : Context) (acts : List Act) (m : Modem)
    → all_keep acts ≡ true
    → (perform_all c acts m).box ≡ m.box
unfolding perform_all
perform_all-keeps_box c [] m h = refl
perform_all-keeps_box c (a ∷ acts) m h =
    ground (arith, perform-keeps_box c a m, perform_all-keeps_box c acts (perform c a m))

perform-state : (c : Context) (a : Act) (m : Modem) → (perform c a m).state ≡ m.state
unfolding perform
perform-state c (at command) m = ground arith
perform-state c _ m = ground arith

pub perform_all-state :
    (c : Context) (acts : List Act) (m : Modem) → (perform_all c acts m).state ≡ m.state
unfolding perform_all
perform_all-state c [] m = refl
perform_all-state c (a ∷ acts) m = perform_all-state c acts (perform c a m) ∙ perform-state c a m

pub perform_all-append :
    (c : Context) (xs ys : List Act) (m : Modem)
    → perform_all c (xs ++ ys) m ≡ perform_all c ys (perform_all c xs m)
unfolding perform_all
perform_all-append c [] ys m = refl
perform_all-append c (a ∷ xs) ys m = perform_all-append c xs ys (perform c a m)

pub all_keep-append :
    (xs ys : List Act) → all_keep xs ≡ true → all_keep ys ≡ true → all_keep (xs ++ ys) ≡ true
all_keep-append [] ys hx hy = hy
all_keep-append (a ∷ xs) ys hx hy = ground (arith, all_keep-append xs ys)

store_checked_same :
    (r : Checked) (m : Modem)
    → ((store_checked r m).box ≡ m.box) × ((store_checked r m).state ≡ m.state)
unfolding store_checked
store_checked_same refused m = (refl, refl)
store_checked_same _ m = (refl, refl)

pub check_effects_same :
    (max : ℕ) (event : Bytes) (s : State) (m : Modem)
    → let m' = check_effects max event s m in (m'.box ≡ m.box) × (m'.state ≡ m.state)
unfolding check_effects
check_effects_same max event State.network_begin_receive m = store_checked_same _ m
check_effects_same max event _ m = (refl, refl)
