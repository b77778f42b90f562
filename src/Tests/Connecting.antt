-- ===== src/Tests/Connecting.antt =====
-- The MC60's driver on the bench opens a connection.
use libcomms.CLib.Decimal.{length-decimal}
use libcomms.Base.{◌≡◌, refl, true, false, [], ◌∷◌, ◌++◌, codes, arith, map}
use libcomms.Modem.{transmitted, delayed, notified_connected}
use libcomms.Mc60.Driver.{Modem}
use libcomms.Mc60.Opening.{opening}
use libcomms.Mc60.Run.{connects, runs, new, trace}
use libcomms.Mc60.Run.Connecting.{IsNoConnection, IsOpened, Connecting, answered_connect}
use libcomms.Mc60.State.{State}
use libcomms.Tests.Bench.{Heard, lines_heard, nothing_heard, bench_holds}
use libcomms.Tests.Driving.{max, desk}
use libcomms.Tests.Exchanges.{nothing-Calm}

abbrev initial : Heard
initial = lines_heard (map codes ("AT+QISTATE" ∷ "OK" ∷ "STATE: INITIAL" ∷ []))

abbrev opened : Heard
opened = lines_heard (map codes ("OK" ∷ "CONNECT OK" ∷ []))

initial-IsNoConnection : IsNoConnection max desk initial
unfolding bench_holds
initial-IsNoConnection = record {
  calm = record { evaluated = refl; in_time = λ m. refl; stays_on = λ m. refl };
  not_connected = λ m. refl;
  answer = λ m. refl;
}

link-IsOpened : IsOpened max desk opened
unfolding bench_holds
link-IsOpened = record {
  calm = record { evaluated = refl; in_time = λ m. refl; stays_on = λ m. refl };
  answer = λ m. refl;
}

abbrev connecting : Connecting max desk
connecting = record {
  waiting = nothing_heard;
  state = initial;
  opened = opened;
  waiting-Calm = nothing-Calm;
  state-IsNoConnection = initial-IsNoConnection;
  opened-IsOpened = link-IsOpened;
}

-- A driver that waits for connect.
abbrev idle : Modem
idle = record (new true false) { state = State.control_wait_for_connect }

answered_connect_example :
    let m' =
      trace max desk
        (connects (codes "example.org") 1883 ∷ runs nothing_heard ∷ runs initial ∷ runs opened ∷ [])
        idle in
    (m'.state ≡ State.network_gps_usart_echo_off)
    × (m'.connected ≡ true)
    × (m'.box ≡ idle.box)
    × (m'.log
        ≡ transmitted (codes "AT+QISDE=0\r\n")
          ∷ notified_connected
          ∷ delayed 1000
          ∷ transmitted (opening (codes "example.org") 1883 ++ b'\n' ∷ [])
          ∷ transmitted (codes "AT+QISTATE\r\n")
          ∷ [])
answered_connect_example =
    answered_connect max desk connecting (codes "example.org") 1883 idle refl refl refl
      (omega arith) (omega arith) (omega arith) (omega (arith, length-decimal 4 1883 (omega arith)))
