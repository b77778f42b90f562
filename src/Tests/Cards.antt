-- ===== src/Tests/Cards.antt =====
-- Histories of the drivers of the BG96 and the ESP8266 on the bench, up to the bytes that a run
-- drops.
use libcomms.Base.{
  ℕ, ◌≡◌, ◌⊎◌, ◌≤◌, ◌^◌, ◌-◌, refl, true, false, some, List, [], ◌∷◌, String, Bytes, codes, length,
  drop, map, take, arith, ◌++◌,
}
use libcomms.CLib.{c_string, strstr, split_first, strtoul}
use libcomms.Machine.{Engine, Transition, eq, first_holding}
use libcomms.Machine.Driving.{locals_of}
use libcomms.Modem.InFlight.{InFlight, Joint}
use libcomms.Bg96
use libcomms.Bg96.Connections.{BinaryEvent}
use libcomms.Bg96.Run.Conserved.{accepted_leaves_or_waits}
use libcomms.Bg96.Run.InFlight.{acked_is_transmitted}
use libcomms.Bg96.Run.Retries.{trace-polls_limited}
use libcomms.Bg96.Run.Timeouts.{late_run_moves}
use libcomms.Esp8266
use libcomms.Esp8266.Run.Conserved.{accepted_passes}
use libcomms.Esp8266.Run.InFlight.{confirmed_is_transmitted}
use libcomms.Esp8266.Run.Timeouts.{late_card_moves}
use libcomms.Tests.Bench.{Heard, lines_heard, nothing_heard, bench}
use libcomms.Tests.Ring.{ring}

abbrev max : ℕ
max = 2 ^ 32 - 1

abbrev three : Bytes
three = 1 ∷ 2 ∷ 3 ∷ []

abbrev gsm :
    Engine Bg96.State.State Bg96.Driver.Own Bg96.Driver.Act
      (Bg96.Driver.Modem ring)
      (Bg96.Driver.own_test ring max)
gsm = bench (Bg96.Driver.own_test ring max)

-- The event of a run, with what was given to connect.
abbrev with_address : Heard → BinaryEvent
with_address i = record {
  bytes = i.event;
  arg_str = some (codes "example.org");
  arg_int1 = 1883;
  arg_int2 = 0;
}

abbrev says : List String → Bg96.Run.Call Heard
says lines = Bg96.Run.runs (lines_heard (map codes lines))

abbrev session : List (Bg96.Run.Call Heard)
session =
    says []
    ∷ says []
    ∷ says ("AT" ∷ "OK" ∷ [])
    ∷ says ("OK" ∷ [])
    ∷ says ("+QGPS: 1" ∷ [])
    ∷ says ("+CPIN: READY" ∷ "OK" ∷ [])
    ∷ says ("+CSQ: 24,0" ∷ "OK" ∷ [])
    ∷ says ("+CREG: 0,1" ∷ "OK" ∷ [])
    ∷ says ("AT+QICSGP=1" ∷ "OK" ∷ [])
    ∷ says ("+QIACT: 1,1" ∷ [])
    ∷ says ("AT+QIDNSCFG=1" ∷ "OK" ∷ [])
    ∷ says ("AT+QISDE=0" ∷ "OK" ∷ [])
    ∷ says ("_CONN" ∷ [])
    ∷ says ("+QISTATE: 1,\"TCP\"" ∷ [])
    ∷ says ("+QIRD: 0" ∷ [])
    ∷ Bg96.Run.sends three
    ∷ says []
    ∷ says ("+QISEND: (0-11),(0-1460)" ∷ "OK" ∷ [])
    ∷ says ("AT+QISEND=1,3" ∷ [])
    ∷ says ("SEND OK" ∷ [])
    ∷ Bg96.Run.runs (record (lines_heard (map codes ("OK" ∷ "+QISEND: 3,3,0" ∷ []))) {
      event = codes "+QISEND: 3,3,0";
    })
    ∷ []

abbrev modem : Bg96.Driver.Modem ring
modem = Bg96.Run.trace ring max gsm with_address session (Bg96.Run.new ring true false)

modem-state : modem.state ≡ Bg96.State.State.network_ack_check_parse
unfolding libcomms.Machine.Driving.run libcomms.Machine.Driving.follow
    libcomms.Machine.Driving.picked libcomms.Machine.Driving.perform_all Bg96.Table.state_def
    Bg96.Driver.perform Bg96.Driver.own_test Bg96.Run.trace Bg96.Run.call Bg96.Run.ready
    first_holding libcomms.Tests.Bench.bench_pick libcomms.Tests.Bench.bench_holds
    Bg96.Outbox.prepare Bg96.Outbox.send_stage Bg96.Responses.query_ack_run
    Bg96.Responses.recv_length_check c_string strstr split_first strtoul Bg96.Driver.store_parsed
modem-state = refl

acked_is_transmitted_example :
    let after = Bg96.Run.run ring max gsm with_address nothing_heard modem in
    (after.buffer ≡ modem.buffer)
    ⊎ ((modem.state ≡ Bg96.State.State.network_ack_check_parse)
        × (modem.acks.sent ≡ modem.acks.acked)
        × (modem.to_send ≤ length modem.buffer)
        × ((modem.to_send ≡ 0)
            ⊎ InFlight Bg96.Run.InFlight.ack_poll (take modem.to_send modem.buffer) modem.log)
        × (after.buffer ≡ drop modem.to_send modem.buffer))
acked_is_transmitted_example =
    acked_is_transmitted ring max gsm with_address session true false nothing_heard

abbrev wifi :
    Engine Esp8266.State.State Esp8266.Driver.Own Esp8266.Driver.Act
      (Esp8266.Driver.Card ring)
      (Esp8266.Driver.own_test ring)
wifi = bench (Esp8266.Driver.own_test ring)

abbrev answers : List String → Esp8266.Run.Call Heard
answers lines = Esp8266.Run.runs (lines_heard (map codes lines))

abbrev joining : List (Esp8266.Run.Call Heard)
joining =
    answers ("OK" ∷ [])
    ∷ answers ("+CWMODE_DEF:1" ∷ [])
    ∷ answers ("+CWJAP_DEF:net" ∷ [])
    ∷ answers ("192.168.0.2" ∷ [])
    ∷ answers ("AT+CIPMUX=1" ∷ "OK" ∷ [])
    ∷ answers ("0,CONNECT" ∷ "OK" ∷ [])
    ∷ answers []
    ∷ Esp8266.Run.sends three
    ∷ answers []
    ∷ answers ("OK" ∷ [])
    ∷ []

abbrev card : Esp8266.Driver.Card ring
card = Esp8266.Run.trace ring "net" "secret" wifi joining (Esp8266.Run.new ring)

card-state : card.state ≡ Esp8266.State.State.network_send
unfolding libcomms.Machine.Driving.run libcomms.Machine.Driving.follow
    libcomms.Machine.Driving.picked libcomms.Machine.Driving.perform_all Esp8266.Table.state_def
    Esp8266.Driver.perform Esp8266.Driver.own_test Esp8266.Run.trace Esp8266.Run.call first_holding
    libcomms.Tests.Bench.bench_pick libcomms.Tests.Bench.bench_holds Esp8266.Outbox.prepare
    Esp8266.Outbox.send_stage
card-state = refl

abbrev confirmed : Heard
confirmed = lines_heard (codes "SEND OK" ∷ [])

confirmed_is_transmitted_example :
    let after = Esp8266.Run.run ring "net" "secret" wifi confirmed card in
    (after.buffer ≡ card.buffer)
    ⊎ ((card.state ≡ Esp8266.State.State.network_send)
        × (wifi.holds card confirmed (eq "SEND OK") ≡ true)
        × (card.to_send ≤ length card.buffer)
        × ((card.to_send ≡ 0) ⊎ Joint (take card.to_send card.buffer) card.log)
        × (after.buffer ≡ drop card.to_send card.buffer))
confirmed_is_transmitted_example =
    confirmed_is_transmitted ring "net" "secret" wifi joining confirmed

-- Eleven seconds without a line.
abbrev late : Heard
late = record nothing_heard { elapsed = 11000 }

late_run_moves_example :
    let after = Bg96.Run.run ring max gsm with_address late modem in
    (after.state ≡ Bg96.State.State.gprs_reset)
    ⊎ ((t : Transition Bg96.State.State Bg96.Driver.Own Bg96.Driver.Act) × (first_holding
            (gsm.holds (Bg96.Run.ready ring max gsm with_address late modem) late)
            (locals_of (Bg96.Run.driver ring max gsm with_address) modem.state)
          ≡ some t)
        × (after.state ≡ t.target))
late_run_moves_example =
    late_run_moves ring max gsm with_address session true false late (omega arith)

trace-polls_limited_example : modem.ack_query_retry_no ≤ 9
trace-polls_limited_example = trace-polls_limited ring max gsm with_address session true false

late_card_moves_example :
    let after = Esp8266.Run.run ring "net" "secret" wifi late card in
    (card.state ≡ Esp8266.State.State.cancel_send)
    ⊎ (after.state ≡ Esp8266.State.State.init)
    ⊎ ((t : Transition Esp8266.State.State Esp8266.Driver.Own Esp8266.Driver.Act) × (first_holding
            (wifi.holds card late)
            (locals_of (Esp8266.Run.driver ring "net" "secret" wifi) card.state)
          ≡ some t)
        × (after.state ≡ t.target))
late_card_moves_example = late_card_moves ring "net" "secret" wifi joining late (omega arith)

accepted_leaves_or_waits_example :
    let start = Bg96.Run.new ring true false in
    (left : Bytes) × Bg96.Run.Conserved.DeliveredIn ring max gsm with_address session start left
    × (Bg96.Run.Conserved.accepted ring max gsm with_address session start ≡ left ++ modem.buffer)
accepted_leaves_or_waits_example =
    accepted_leaves_or_waits ring max gsm with_address session true false

accepted_passes_example :
    let start = Esp8266.Run.new ring in
    (left : Bytes) × Esp8266.Run.Conserved.DeliveredIn ring "net" "secret" wifi joining start left
    × (Esp8266.Run.Conserved.accepted ring "net" "secret" wifi joining start ≡ left ++ card.buffer)
accepted_passes_example = accepted_passes ring "net" "secret" wifi joining
