-- ===== src/Mc60/Run/Shapes.antt =====
-- The states, conditions and transitions of Mc60Modem by which the bytes to send are delivered.
use libcomms.Base.{◌≡◌, refl, Bool, true, false, List, [], ◌∷◌, ◌++◌}
use libcomms.Machine.{Guard, own, Transition}
use libcomms.Mc60.Driver.{Own, Act, all_acked, declare_action}
use libcomms.Mc60.Run.{entry_of, exit_of}
use libcomms.Mc60.State.{State}
use libcomms.Mc60.Table.{state_def}

abbrev pub is_declare_read : State → Bool
is_declare_read State.network_declare_read = true
is_declare_read _ = false

abbrev pub is_parse : State → Bool
is_parse State.network_ack_check_parse = true
is_parse _ = false

pub is_parse_lem : (s : State) → is_parse s ≡ true → s ≡ State.network_ack_check_parse
is_parse_lem State.network_ack_check_parse h = refl
is_parse_lem _ h = cc

abbrev pub is_all_acked : Guard Own → Bool
is_all_acked (own all_acked) = true
is_all_acked _ = false

pub is_all_acked_lem : (g : Guard Own) → is_all_acked g ≡ true → g ≡ own all_acked
is_all_acked_lem (own all_acked) h = refl
is_all_acked_lem _ h = cc

-- The actions of a transition, in their order.
abbrev pub actions_of : State → Transition State Own Act → List Act
actions_of s t = exit_of (state_def s) ++ t.actions ++ entry_of (state_def t.target)

pub entry_declare :
    (s : State) → is_declare_read s ≡ true → entry_of (state_def s) ≡ declare_action ∷ []
unfolding state_def
entry_declare State.network_declare_read h = refl
entry_declare State.sleep h = cc
entry_declare _ h = cc
