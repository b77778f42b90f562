-- ===== src/Tests/Driving.antt =====
-- A session of the MC60's driver on the bench: from the modem's RDY to the report of three bytes.
use libcomms.Base.{
  ℕ, ◌-◌, ◌^◌, ◌≤◌, ◌≡◌, refl, true, false, List, [], ◌∷◌, ◌++◌, String, codes, length, drop, map,
  ◌⊎◌,
}
use libcomms.CLib.{begins, c_string, strstr, split_first, strtoul, decimal}
use libcomms.Machine.{Engine, first_holding}
use libcomms.Modem.{notified_sent}
use libcomms.Mc60.Driver.{Modem, Own, Act, own_test, perform, perform_all}
use libcomms.Mc60.Outbox.{prepare, send_stage, send}
use libcomms.Mc60.Responses.{query_ack_run}
use libcomms.Mc60.Run.{
  Call, runs, rule_fires, sends, connects, powers, new, run, trace, call, follow, ready, picked,
  check_effects,
}
use libcomms.Mc60.Run.Notifications.{Alternates, told, trace-Alternates}
use libcomms.Mc60.Run.Held.{in_round}
use libcomms.Mc60.Run.Rounds.{IsReachable, announced_bytes_wait}
use libcomms.Mc60.Run.Retries.{IsReachable-Limited}
use libcomms.Mc60.Run.Sent.{sent_is_dropped}
use libcomms.Mc60.Run.Connection.{run_connects}
use libcomms.Mc60.Run.Sleep.{trace_asleep}
use libcomms.Mc60.Run.ShutDown.{trace_shut_down}
use libcomms.Mc60.State.{State}
use libcomms.Mc60.Table.{qirdi_rule, state_def}
use libcomms.Tests.Bench.{Heard, lines_heard, nothing_heard, bench, bench_pick, bench_holds}

abbrev pub max : ℕ
max = 2 ^ 32 - 1

abbrev pub desk : Engine State Own Act Modem (own_test max)
desk = bench (own_test max)

abbrev pub hears : List String → Call Heard
hears lines = runs (lines_heard (map codes lines))

-- The answers of the modem up to its readiness.
abbrev pub startup : List (Call Heard)
startup =
    hears ("RDY" ∷ [])
    ∷ hears ("+CPIN: READY" ∷ "OK" ∷ [])
    ∷ hears ("OK" ∷ [])
    ∷ hears ("+CSQ: 24,0" ∷ "OK" ∷ [])
    ∷ hears ("+CREG: 1,1" ∷ "OK" ∷ [])
    ∷ hears ("+CGATT: 1" ∷ "OK" ∷ [])
    ∷ hears ("OK" ∷ [])
    ∷ hears ("OK" ∷ [])
    ∷ hears ("AT+QIFGCNT=0" ∷ "OK" ∷ [])
    ∷ hears ("AT+QICSGP=1" ∷ "OK" ∷ [])
    ∷ hears ("AT+QIMUX=0" ∷ "OK" ∷ [])
    ∷ hears ("AT+QIMODE=0" ∷ "OK" ∷ [])
    ∷ hears ("AT+QIDNSIP=1" ∷ "OK" ∷ [])
    ∷ hears ("AT+QINDI=1" ∷ "OK" ∷ [])
    ∷ connects (codes "example.org") 1883
    ∷ hears []
    ∷ hears ("AT+QISTATE" ∷ "OK" ∷ "STATE: INITIAL" ∷ [])
    ∷ []

-- Three bytes are sent, up to the announcement of their number.
abbrev pub to_announcement : List (Call Heard)
to_announcement =
    hears ("OK" ∷ "CONNECT OK" ∷ [])
    ∷ sends (1 ∷ 2 ∷ 3 ∷ [])
    ∷ hears ("AT+QISDE=0" ∷ "OK" ∷ [])
    ∷ hears []
    ∷ hears []
    ∷ hears ("AT+QISTATE" ∷ "OK" ∷ "STATE: CONNECT OK" ∷ [])
    ∷ []

-- And up to the question whether they were acknowledged.
abbrev pub sending : List (Call Heard)
sending = to_announcement ++ (hears ("AT+QISEND=3" ∷ []) ∷ hears ("SEND OK" ∷ []) ∷ [])

abbrev exchange : List (Call Heard)
exchange =
    sending
    ++ (runs (record (lines_heard (map codes ("AT+QISACK" ∷ "+QISACK: 3, 3, 0" ∷ "OK" ∷ []))) {
      event = codes "+QISACK: 3, 3, 0";
    })
        ∷ [])

abbrev pub conversation : List (Call Heard)
conversation = startup ++ exchange

abbrev opening : Modem
opening = trace max desk startup (new true false)

opening-state : opening.state ≡ State.connect_to_server
unfolding trace call run follow picked ready check_effects bench_pick bench_holds first_holding
    state_def own_test perform_all perform libcomms.CLib.upto_nul
opening-state = refl

abbrev pub parsing : Modem
parsing = trace max desk conversation (new true false)

pub parsing-state : parsing.state ≡ State.network_ack_check_parse
unfolding trace call run follow picked ready check_effects bench_pick bench_holds first_holding
    state_def own_test perform_all perform libcomms.CLib.upto_nul send prepare send_stage
    query_ack_run c_string strstr split_first strtoul
parsing-state = refl

parsing-box : parsing.box ≡ record { buffer = 1 ∷ 2 ∷ 3 ∷ []; to_send = 3 }
unfolding trace call run follow picked ready check_effects bench_pick bench_holds first_holding
    state_def own_test perform_all perform libcomms.CLib.upto_nul send prepare send_stage
    query_ack_run c_string strstr split_first strtoul
parsing-box = refl

pub parsing-IsReachable : IsReachable max desk parsing
parsing-IsReachable = record {
  has_callback = true;
  status_pin = false;
  calls = conversation;
  reaches = refl;
}

declaring-state : (run max desk nothing_heard parsing).state ≡ State.network_declare_read
unfolding trace call run follow picked ready check_effects bench_pick bench_holds first_holding
    state_def own_test perform_all perform libcomms.CLib.upto_nul send prepare send_stage
    query_ack_run c_string strstr split_first strtoul
declaring-state = refl

reported-state :
    (run max desk nothing_heard (run max desk nothing_heard parsing)).state ≡ State.sms_begin_send
unfolding trace call run follow picked ready check_effects bench_pick bench_holds first_holding
    state_def own_test perform_all perform libcomms.CLib.upto_nul send prepare send_stage
    query_ack_run c_string strstr split_first strtoul
reported-state = refl

declaring-listens : (run max desk nothing_heard parsing).has_callback ≡ true
unfolding trace call run follow picked ready check_effects bench_pick bench_holds first_holding
    state_def own_test perform_all perform libcomms.CLib.upto_nul send prepare send_stage
    query_ack_run c_string strstr split_first strtoul
declaring-listens = refl

sent_is_dropped_example :
    let declaring = run max desk nothing_heard parsing in
    let reported = run max desk nothing_heard declaring in
    (parsing.box.to_send ≤ length parsing.box.buffer)
    × (reported.box.buffer ≡ drop parsing.box.to_send parsing.box.buffer)
    × (reported.log ≡ notified_sent parsing.box.to_send ∷ declaring.log)
sent_is_dropped_example =
    sent_is_dropped max desk parsing nothing_heard nothing_heard parsing-IsReachable parsing-state
      declaring-state reported-state declaring-listens

trace-Alternates_example :
    let m = trace max desk conversation (new true false) in
    Alternates m.log × (told m.log ≡ m.connected)
trace-Alternates_example = trace-Alternates max desk false conversation

announced_bytes_wait_example :
    (length parsing.box.buffer ≤ 6144)
    × (parsing.box.to_send ≤ 1460)
    × ((in_round parsing.state ≡ false) ⊎ (parsing.box.to_send ≤ length parsing.box.buffer))
announced_bytes_wait_example = announced_bytes_wait max desk parsing parsing-IsReachable

IsReachable-Limited_example : (parsing.ack_query_retry_no ≤ 9) × (parsing.at_query_retry_no ≤ 6)
IsReachable-Limited_example = IsReachable-Limited max desk parsing parsing-IsReachable

opening-connected : opening.connected ≡ false
unfolding trace call run follow picked ready check_effects bench_pick bench_holds first_holding
    state_def own_test perform_all perform libcomms.CLib.upto_nul send prepare send_stage
    query_ack_run c_string strstr split_first strtoul
opening-connected = refl

answered : Heard
answered = lines_heard (map codes ("OK" ∷ "CONNECT OK" ∷ []))

answered-connected : (run max desk answered opening).connected ≡ true
unfolding trace call run follow picked ready check_effects bench_pick bench_holds first_holding
    state_def own_test perform_all perform libcomms.CLib.upto_nul send prepare send_stage
    query_ack_run c_string strstr split_first strtoul answered
answered-connected = refl

run_connects_example :
    (opening.state ≡ State.connect_to_server)
    × ((run max desk answered opening).state ≡ State.network_gps_usart_echo_off)
run_connects_example = run_connects max desk answered opening opening-connected answered-connected

abbrev off : Modem
off = record (new true false) { state = State.shut_down }

abbrev off_calls : List (Call Heard)
off_calls =
    hears ("RDY" ∷ []) ∷ powers nothing_heard false ∷ connects (codes "example.org") 1883 ∷ []

trace_shut_down_example : (trace max desk off_calls off).state ≡ State.shut_down
trace_shut_down_example = trace_shut_down max desk off_calls off refl refl

-- With nothing to send the driver falls asleep, hears of data and of a command to switch off, and
-- sleeps on.
abbrev drowsy_calls : List (Call Heard)
drowsy_calls =
    startup
    ++ (hears ("OK" ∷ "CONNECT OK" ∷ [])
        ∷ hears ("AT+QISDE=0" ∷ "OK" ∷ [])
        ∷ hears []
        ∷ hears []
        ∷ [])

abbrev drowsy : Modem
drowsy = trace max desk drowsy_calls (new true false)

drowsy-state : drowsy.state ≡ State.sleep
unfolding trace call run follow picked ready check_effects bench_pick bench_holds first_holding
    state_def own_test perform_all perform libcomms.CLib.upto_nul
drowsy-state = refl

drowsy-buffer : drowsy.box.buffer ≡ []
unfolding trace call run follow picked ready check_effects bench_pick bench_holds first_holding
    state_def own_test perform_all perform libcomms.CLib.upto_nul
drowsy-buffer = refl

abbrev night : List (Call Heard)
night =
    runs (record nothing_heard { elapsed = 60000 })
    ∷ rule_fires nothing_heard qirdi_rule
    ∷ powers nothing_heard false
    ∷ hears ("_OFF" ∷ [])
    ∷ []

trace_asleep_example :
    ((trace max desk night drowsy).state ≡ State.sleep)
    × ((trace max desk night drowsy).box.buffer ≡ [])
trace_asleep_example = trace_asleep max desk night drowsy refl drowsy-state drowsy-buffer
