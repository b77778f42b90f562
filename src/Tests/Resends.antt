-- ===== src/Tests/Resends.antt =====
-- A send of the MC60's driver that is cancelled after TCP_SEND_DATA_DELAY_MS, and whose SEND OK
-- comes late.
use libcomms.Base.{ℕ, ◌+◌, ◌≡◌, refl, true, false, List, [], ◌∷◌, ◌++◌, Bytes, if◌then◌else◌}
use libcomms.CLib.{begins}
use libcomms.Machine.{first_holding}
use libcomms.Modem.{Output, transmitted}
use libcomms.Modem.InFlight.{same_bytes}
use libcomms.Mc60.Driver.{Modem, own_test, perform, perform_all}
use libcomms.Mc60.Outbox.{prepare, send_stage, send}
use libcomms.Mc60.Run.{Call, runs, new, run, trace, call, follow, ready, picked, check_effects}
use libcomms.Mc60.Table.{state_def}
use libcomms.Tests.Bench.{Heard, nothing_heard, bench_pick, bench_holds}
use libcomms.Tests.Driving.{max, desk, hears, startup, to_announcement}

abbrev cancelled : List (Call Heard)
cancelled =
    startup
    ++ to_announcement
    ++ (hears ("AT+QISEND=3" ∷ [])
        ∷ runs (record nothing_heard { elapsed = 9500 })
        ∷ hears ("SEND OK" ∷ [])
        ∷ hears ("AT+QISTATE" ∷ "OK" ∷ "STATE: CONNECT OK" ∷ [])
        ∷ hears ("AT+QISDE=0" ∷ "OK" ∷ [])
        ∷ hears []
        ∷ hears []
        ∷ hears ("AT+QISTATE" ∷ "OK" ∷ "STATE: CONNECT OK" ∷ [])
        ∷ hears ("AT+QISEND=3" ∷ [])
        ∷ [])

-- How many times these bytes were transmitted.
times_sent : Bytes → List Output → ℕ
times_sent bytes [] = 0
times_sent bytes (transmitted b ∷ log) =
    let earlier = times_sent bytes log in if same_bytes b bytes then earlier + 1 else earlier
times_sent bytes (_ ∷ log) = times_sent bytes log

abbrev after : Modem
after = trace max desk cancelled (new true false)

-- On one connection the same three bytes were transmitted twice.
sent_twice : (times_sent (1 ∷ 2 ∷ 3 ∷ []) after.log ≡ 2) × (after.connected ≡ true)
unfolding times_sent trace call run follow picked ready check_effects bench_pick bench_holds
    first_holding state_def own_test perform_all perform libcomms.CLib.upto_nul send prepare
    send_stage libcomms.CLib.snprintf
sent_twice = (refl, refl)
