-- ===== src/Tests/Wifi.antt =====
-- Exchanges of the ESP8266's driver on the bench, with a card that answers.
use libcomms.Base.{◌≡◌, refl, inr, true, String, List, [], ◌∷◌, Bytes, codes, arith, map}
use libcomms.Machine.{Engine}
use libcomms.Machine.Steps.{every}
use libcomms.Esp8266.Driver.{Card, Own, Act, own_test}
use libcomms.Esp8266.Run.{trace}
use libcomms.Esp8266.Run.Answers.{Calm, IsOk, IsSendOk, IsConnected}
use libcomms.Circular.Draining.{all_joined, is_exchange, exchanges_log}
use libcomms.Esp8266.Outbox.{max_bytes_send}
use libcomms.Esp8266.Run.Answered.{Exchange, exchange_log}
use libcomms.Esp8266.Run.Drained.{drain_calls, answered_exchanges_drain}
use libcomms.Esp8266.State.{State}
use libcomms.Tests.Bench.{Heard, lines_heard, nothing_heard, bench, bench_holds}
use libcomms.Tests.Exchanges.{many, length-many}
use libcomms.Tests.Ring.{ring}

abbrev wifi : Engine State Own Act (Card ring) (own_test ring)
wifi = bench (own_test ring)

abbrev heard : List String → Heard
heard lines = lines_heard (map codes lines)

nothing-Calm : Calm ring "net" "secret" wifi nothing_heard
unfolding bench_holds
nothing-Calm = record { evaluated = refl; in_time = λ m. refl }

answer-IsOk : IsOk ring "net" "secret" wifi (heard ("OK" ∷ []))
unfolding bench_holds
answer-IsOk = record { calm = record { evaluated = refl; in_time = λ m. refl }; answer = λ m. refl }

sent-IsSendOk : IsSendOk ring "net" "secret" wifi (heard ("SEND OK" ∷ []))
unfolding bench_holds
sent-IsSendOk = record {
  calm = record { evaluated = refl; in_time = λ m. refl };
  send_ok = λ m. refl;
}

joined-IsConnected :
    IsConnected ring "net" "secret" wifi (heard ("ALREADY CONNECTED" ∷ "ERROR" ∷ []))
unfolding bench_holds
joined-IsConnected = record {
  calm = record { evaluated = refl; in_time = λ m. refl };
  answer = inr (λ m. refl, λ m. refl);
}

abbrev exchange : Exchange ring "net" "secret" wifi
exchange = record {
  beginning = nothing_heard;
  prompt = heard ("OK" ∷ []);
  confirmation = heard ("SEND OK" ∷ []);
  declaring = nothing_heard;
  echo = nothing_heard;
  connection = heard ("ALREADY CONNECTED" ∷ "ERROR" ∷ []);
  returning = nothing_heard;
  beginning-Calm = nothing-Calm;
  prompt-IsOk = answer-IsOk;
  confirmation-IsSendOk = sent-IsSendOk;
  declaring-Calm = nothing-Calm;
  echo-Calm = nothing-Calm;
  connection-IsConnected = joined-IsConnected;
  returning-Calm = nothing-Calm;
}

-- A card about to send these bytes.
abbrev about_to_send : Bytes → Card ring
about_to_send bytes = record {
  state = State.network_begin_send;
  buffer = bytes;
  to_send = 0;
  log = [];
}

answered_exchanges_drain_example :
    let m = about_to_send (many 3000) in
    let m' =
      trace ring "net" "secret" wifi
        (drain_calls ring "net" "secret" wifi (exchange ∷ exchange ∷ []))
        m in
    (m'.state ≡ State.network_begin_send)
    × (m'.buffer ≡ [])
    × ((pss : List (List Bytes)) × (all_joined pss ≡ many 3000)
        × (every (is_exchange max_bytes_send) pss ≡ true)
        × (m'.log ≡ exchanges_log exchange_log pss m.log))
answered_exchanges_drain_example =
    answered_exchanges_drain ring "net" "secret" wifi (exchange ∷ exchange ∷ [])
      (about_to_send (many 3000)) refl (omega (arith, length-many 3000))
      (omega (arith, length-many 3000))
