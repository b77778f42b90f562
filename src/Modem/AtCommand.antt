-- ===== src/Modem/AtCommand.antt =====
-- AtCommandAction with its constructors and factories: src/AtCommandAction.h and .cc, and the second
-- copy in src/modem/GsmCommandAction.h and .cc.
use libcomms.Base.{
  ℕ, ◌^◌, ◌≡◌, refl, ap, List, [], ◌∷◌, ◌++◌, Bytes, arith, length, Lacks, ◌%◌, ◌<◌, take_all,
}
use libcomms.CLib.{upto_nul}
use libcomms.CLib.Memory.{upto_nul-Lacks}
use libcomms.Modem.{Output, transmitted, at_command_run}

-- `command` is the memory from the pointer on.
pub record AtCommandAction : Type 0 where
  pub command : Bytes
  pub len : ℕ

abbrev pub at : Bytes → AtCommandAction
at command = record { command = command; len = 0 }

-- `len` is a uint16_t.
abbrev pub at_bin : Bytes → ℕ → AtCommandAction
at_bin command len = record { command = command; len = len % 2 ^ 16 }

-- AtCommandAction::run.
unfoldable pub run : AtCommandAction → Output
run action = at_command_run action.command action.len

-- AtCommandAction::run in a build for the unit tests, which records the commands.
abbrev pub run_recorded : AtCommandAction → List Bytes → List Bytes
run_recorded action gsm_modem_commands_issued =
    gsm_modem_commands_issued ++ upto_nul action.command ∷ []

-- A text command is transmitted whole, and so is a binary one of up to 65535 bytes, its NULs
-- included; of a binary one of 65536 bytes only the text up to its first NUL is.
run-whole :
    (command : Bytes)
    → (Lacks 0 command → run (at command) ≡ transmitted command)
      × (0 < length command
          → length command < 2 ^ 16
          → run (at_bin command (length command)) ≡ transmitted command)
      × (length command ≡ 2 ^ 16
          → run (at_bin command (length command)) ≡ transmitted (upto_nul command))
unfolding run at_command_run
run-whole command = (
  λ lacks. ap transmitted (upto_nul-Lacks command lacks),
  λ pos short. ground (arith, take_all (length command) command),
  λ long. rw long refl,
)
