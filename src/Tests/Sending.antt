-- ===== src/Tests/Sending.antt =====
-- The outbox of the MC60 and the short messages on a few bytes.
use libcomms.Base.{◌≡◌, refl, some, none, [], ◌∷◌, ◌++◌, codes, arith, drop}
use libcomms.Mc60.Outbox.{Outbox, declare}
use libcomms.Mc60.Outbox.Queue.{declare-drop}
use libcomms.Modem.Sms.{Sms, number_stage, body_stage, remove_stage, sms_run, ctrl_z}
use libcomms.Modem.Sms.Outgoing.{IsText, sms_run-rounds}

abbrev five : Outbox
five = record { buffer = 1 ∷ 2 ∷ 3 ∷ 4 ∷ 5 ∷ []; to_send = 2 }

two_dropped : (declare five).buffer ≡ 3 ∷ 4 ∷ 5 ∷ []
unfolding declare
two_dropped = refl

declare-drop_example : (declare five).buffer ≡ drop 2 (1 ∷ 2 ∷ 3 ∷ 4 ∷ 5 ∷ [])
declare-drop_example = declare-drop five

abbrev greeting : Sms
greeting = record { number = codes "+48600100200"; body = codes "hello" }

greeting-IsText : IsText greeting
greeting-IsText = record {
  number_fits = omega arith;
  body_fits = omega arith;
  number_text = omega arith;
  body_text = omega arith;
}

sms_run-rounds_example :
    (sms_run number_stage (greeting ∷ [])
      ≡ (greeting ∷ [], some (codes "AT+CMGS=\"" ++ greeting.number ++ codes "\"\r")))
    × (sms_run body_stage (greeting ∷ []) ≡ (greeting ∷ [], some (greeting.body ++ ctrl_z ∷ [])))
    × (sms_run remove_stage (greeting ∷ []) ≡ ([], none))
sms_run-rounds_example = sms_run-rounds greeting [] greeting-IsText
