-- ===== src/Modem/Sms.antt =====
-- Short messages and SmsSendSingleAction: src/modem/Sms.h and SmsSendSingleAction.cc.
pub mod Outgoing
use libcomms.Base.{ℕ, Option, none, some, List, [], ◌∷◌, ◌++◌, Bytes, codes}
use libcomms.CLib.{upto_nul, snprintf}

pub record Sms : Type 0 where
  pub number : Bytes
  pub body : Bytes

abbrev pub max_number : ℕ
max_number = 16

abbrev pub max_body : ℕ
max_body = 160

-- etl::deque<Sms, 4>.
abbrev pub SmsCollection : Type 0
SmsCollection = List Sms

abbrev pub max_messages : ℕ
max_messages = 4

pub data Stage : Type 0 where
  number_stage body_stage remove_stage : Stage

abbrev pub buf_len : ℕ
buf_len = 200

abbrev pub ctrl_z : ℕ
ctrl_z = 26

abbrev pub number_command : Sms → Bytes
number_command sms = snprintf buf_len (codes "AT+CMGS=\"" ++ upto_nul sms.number ++ codes "\"\r")

abbrev pub body_command : Sms → Bytes
body_command sms = snprintf buf_len (upto_nul sms.body ++ ctrl_z ∷ [])

-- SmsSendSingleAction::run: the collection after the call, and what is transmitted.
unfoldable pub sms_run : Stage → SmsCollection → SmsCollection × Option Bytes
sms_run stage [] = ([], none)
sms_run number_stage (sms ∷ rest) = (sms ∷ rest, some (upto_nul (number_command sms)))
sms_run body_stage (sms ∷ rest) = (sms ∷ rest, some (upto_nul (body_command sms)))
sms_run remove_stage (sms ∷ rest) = (rest, none)
