-- ===== src/Tests/Others.antt =====
-- The drivers of the BG96 and the ESP8266 at fixed inputs.
use libcomms.Base.{
  ℕ, ◌-◌, ◌≡◌, ◌<◌, ◌≤◌, ◌^◌, ◌⊎◌, refl, true, false, some, List, [], ◌∷◌, ◌++◌, Bytes, codes,
  length, leb, if◌then◌else◌, ◌+◌, none,
}
use libcomms.CLib.{strtoul, upto_nul}
use libcomms.Response.{to_int}
use libcomms.Machine.{Engine}
use libcomms.Bg96
use libcomms.Bg96.Responses.{parsed, overrun, qird_pattern, recv_length_check}
use libcomms.Bg96.Responses.RecvLength.{ten_bytes_overrun}
use libcomms.Bg96.Connections.{BinaryEvent, conn_event, connect}
use libcomms.Bg96.Run.Reachable.{is_live, trace_live, connect_gives_zero}
use libcomms.Esp8266
use libcomms.Esp8266.Run.Reachable.{trace_known}
use libcomms.Tests.Bench.{Heard, lines_heard, nothing_heard, bench}
use libcomms.Tests.Ring.{ring}

abbrev max : ℕ
max = 2 ^ 32 - 1

abbrev five : Bytes
five = 1 ∷ 2 ∷ 3 ∷ 4 ∷ 5 ∷ []

ten_bytes_overrun_example :
    ((10 ≤ 10) × (recv_length_check max (qird_pattern ++ codes "1234567890") ≡ overrun))
    ⊎ ((10 < 10)
        × (recv_length_check max (qird_pattern ++ codes "1234567890")
            ≡ parsed (to_int (strtoul max (upto_nul (codes "1234567890"))))))
ten_bytes_overrun_example = ten_bytes_overrun max (codes "1234567890")

abbrev gsm :
    Engine Bg96.State.State Bg96.Driver.Own Bg96.Driver.Act
      (Bg96.Driver.Modem ring)
      (Bg96.Driver.own_test ring max)
gsm = bench (Bg96.Driver.own_test ring max)

-- The event `_CONN` of a client stands in for every event.
abbrev asked : Heard → BinaryEvent
asked i = conn_event (codes "example.org") 1883 0

abbrev calls : List (Bg96.Run.Call Heard)
calls =
    Bg96.Run.runs nothing_heard
    ∷ Bg96.Run.connects nothing_heard (codes "example.org") 1883
    ∷ Bg96.Run.runs nothing_heard
    ∷ []

trace_live_example :
    is_live (Bg96.Run.trace ring max gsm asked calls (Bg96.Run.new ring true false)).state ≡ true
trace_live_example = trace_live ring max gsm asked calls true false

connect_gives_zero_example :
    let m = Bg96.Run.trace ring max gsm asked calls (Bg96.Run.new ring true false) in
    connect 8 7 m.connections (codes "example.org") 1883 m.queue ≡ (
      if leb 8 (length m.queue + 7)
      then (m.queue, false)
      else (m.queue ++ conn_event (codes "example.org") 1883 0 ∷ [], true))
connect_gives_zero_example =
    connect_gives_zero ring max gsm asked calls true false (record nothing_heard { queued = 7 })
      (codes "example.org") 1883

abbrev wifi :
    Engine Esp8266.State.State Esp8266.Driver.Own Esp8266.Driver.Act
      (Esp8266.Driver.Card ring)
      (Esp8266.Driver.own_test ring)
wifi = bench (Esp8266.Driver.own_test ring)

abbrev steps : List (Esp8266.Run.Call Heard)
steps = Esp8266.Run.runs (lines_heard (codes "OK" ∷ [])) ∷ Esp8266.Run.sends five ∷ []

trace_known_example :
    let s = (Esp8266.Run.trace ring "net" "secret" wifi steps (Esp8266.Run.new ring)).state in
    ((s ≡ Esp8266.State.State.cancel_send) × (Esp8266.Table.state_def "net" "secret" s ≡ none))
    ⊎ ((d : Esp8266.Driver.Def) × (Esp8266.Table.state_def "net" "secret" s ≡ some d))
trace_known_example = trace_known ring "net" "secret" wifi steps

-- The state that the ESP8266's constructor does not declare is reached, 9 seconds after a send.
cancelled :
    (Esp8266.Run.run ring "net" "secret" wifi
      (record nothing_heard { elapsed = 9000 })
      (record (Esp8266.Run.new ring) { state = Esp8266.State.State.network_send })).state
    ≡ Esp8266.State.State.cancel_send
unfolding libcomms.Machine.Driving.run libcomms.Machine.Driving.follow
    libcomms.Machine.Driving.picked libcomms.Machine.Driving.perform_all Esp8266.Table.state_def
    Esp8266.Driver.perform libcomms.Machine.first_holding libcomms.Tests.Bench.bench_pick
    libcomms.Tests.Bench.bench_holds
cancelled = refl
