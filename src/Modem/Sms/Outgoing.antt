-- ===== src/Modem/Sms/Outgoing.antt =====
-- The three stages of SmsSendSingleAction on one message.
use libcomms.Base.{
  ◌≤◌, ◌<◌, ◌≡◌, ◌≢◌, refl, ◌∙◌, ap, some, none, [], ◌∷◌, ◌++◌, arith, length, length-append, Bytes,
  codes, Lacks, All-append,
}
use libcomms.CLib.{upto_nul, snprintf}
use libcomms.CLib.Memory.{snprintf_fits, upto_nul-Lacks}
use libcomms.Modem.Sms.{
  Sms, SmsCollection, number_stage, body_stage, remove_stage, sms_run, max_number, max_body, ctrl_z,
  buf_len,
}

-- A message that the containers can hold, whose texts hold no NUL.
pub record IsText (sms : Sms) : Type 0 where
  pub number_fits : length sms.number ≤ max_number
  pub body_fits : length sms.body ≤ max_body
  pub number_text : Lacks 0 sms.number
  pub body_text : Lacks 0 sms.body

whole :
    (text : Bytes) → length text < buf_len → Lacks 0 text → upto_nul (snprintf buf_len text) ≡ text
whole text fits h = ap upto_nul (snprintf_fits buf_len text fits) ∙ upto_nul-Lacks text h

-- The temporary buffer of 200 bytes holds every command, so no message is cut: the first stage
-- transmits the number in its command, the second the body and Ctrl-Z, both leave the collection as
-- it is, and the third drops the message and transmits nothing.
pub sms_run-rounds :
    (sms : Sms) (rest : SmsCollection)
    → IsText sms
    → (sms_run number_stage (sms ∷ rest)
        ≡ (sms ∷ rest, some (codes "AT+CMGS=\"" ++ sms.number ++ codes "\"\r")))
      × (sms_run body_stage (sms ∷ rest) ≡ (sms ∷ rest, some (sms.body ++ ctrl_z ∷ [])))
      × (sms_run remove_stage (sms ∷ rest) ≡ (rest, none))
unfolding sms_run
sms_run-rounds sms rest t =
    let nt = upto_nul-Lacks sms.number t.number_text in
    let bt = upto_nul-Lacks sms.body t.body_text in
    let quoted = codes "AT+CMGS=\"" ++ sms.number in
    (
      rw nt (
          rw (
            whole (quoted ++ codes "\"\r") (rw length-append (omega (arith, t))) (
              All-append (λ c. c ≢ 0) quoted (codes "\"\r")
                (All-append (λ c. c ≢ 0) (codes "AT+CMGS=\"") sms.number (omega arith)
                  t.number_text)
                (omega arith)))),
      rw bt (
          rw (
            whole (sms.body ++ ctrl_z ∷ []) (rw length-append (omega (arith, t)))
              (All-append (λ c. c ≢ 0) sms.body _ t.body_text (omega arith)))),
      refl,
    )
