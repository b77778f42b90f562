-- ===== src/Tests/Gsm.antt =====
-- Exchanges of the BG96's driver on the bench, with a modem that answers.
use libcomms.Base.{
  ℕ, ◌≡◌, ◌^◌, ◌-◌, refl, none, true, false, String, List, [], ◌∷◌, ◌++◌, Bytes, codes, arith, map,
}
use libcomms.CLib.{c_string}
use libcomms.Circular.Draining.{all_joined, is_exchange, exchanges_log}
use libcomms.Machine.{Engine}
use libcomms.Machine.Steps.{every}
use libcomms.Response.AckText.{ack_text}
use libcomms.Bg96.Connections.{BinaryEvent}
use libcomms.Bg96.Driver.{Modem, Own, Act, own_test}
use libcomms.Bg96.Outbox.{gsm_max_bytes_send}
use libcomms.Bg96.Responses.{qisend}
use libcomms.Bg96.Run.{new, trace}
use libcomms.Bg96.Run.Answers.{IsOpen, IsRange, IsPrompt, IsSendOk, IsAcked, IsConnected, IsNothing}
use libcomms.Bg96.Run.Asked.{Exchange, exchange_log}
use libcomms.Bg96.Run.Drained.{drain_calls, acked_exchanges_drain}
use libcomms.Bg96.State.{State}
use libcomms.Tests.Bench.{Heard, lines_heard, nothing_heard, bench, bench_holds}
use libcomms.Tests.Exchanges.{many, length-many}
use libcomms.Tests.Ring.{ring}

abbrev max : ℕ
max = 2 ^ 32 - 1

abbrev gsm : Engine State Own Act (Modem ring) (own_test ring max)
gsm = bench (own_test ring max)

abbrev event_of : Heard → BinaryEvent
event_of i = record { bytes = i.event; arg_str = none; arg_int1 = 0; arg_int2 = 0 }

abbrev heard : List String → Heard
heard lines = lines_heard (map codes lines)

abbrev range : Heard
range = heard ("+QISEND: (0-11),(0-1460)" ∷ "OK" ∷ [])

abbrev prompt : Heard
prompt = heard ("AT+QISEND=1,1460" ∷ [])

abbrev acked : Heard
acked = record (heard ("OK" ∷ "+QISEND: 5, 5, 0" ∷ [])) { event = qisend ++ ack_text 5 5 0 }

abbrev joined : Heard
joined = heard ("+QISTATE: 1,\"TCP\"" ∷ [])

abbrev empty : Heard
empty = record (heard ("+QIRD: 0" ∷ [])) { event = codes "+QIRD: 0" }

nothing-IsOpen : IsOpen ring max gsm event_of nothing_heard
unfolding bench_holds
nothing-IsOpen = record {
  calm = record { evaluated = refl; in_time = λ m. refl };
  stays_open = λ m. refl;
}

range-IsRange : IsRange ring max gsm event_of range
unfolding bench_holds
range-IsRange = record {
  open_still = record {
    calm = record { evaluated = refl; in_time = λ m. refl };
    stays_open = λ m. refl;
  };
  has_room = λ m. refl;
  range = λ m. refl;
}

prompt-IsPrompt : IsPrompt ring max gsm event_of prompt
unfolding bench_holds
prompt-IsPrompt = record {
  open_still = record {
    calm = record { evaluated = refl; in_time = λ m. refl };
    stays_open = λ m. refl;
  };
  no_error = λ m. refl;
  echo = λ m. refl;
}

sent-IsSendOk : IsSendOk ring max gsm event_of (heard ("SEND OK" ∷ []))
unfolding bench_holds
sent-IsSendOk = record {
  open_still = record {
    calm = record { evaluated = refl; in_time = λ m. refl };
    stays_open = λ m. refl;
  };
  send_ok = λ m. refl;
}

acked-IsAcked : IsAcked ring max gsm event_of acked
unfolding bench_holds c_string
acked-IsAcked = record {
  open_still = record {
    calm = record { evaluated = refl; in_time = λ m. refl };
    stays_open = λ m. refl;
  };
  answer = λ m. refl;
  total = 5;
  remaining = 0;
  rest = [];
  line = refl;
  fits = omega arith;
  memory = refl;
}

joined-IsConnected : IsConnected ring max gsm event_of joined
unfolding bench_holds
joined-IsConnected = record {
  calm = record { evaluated = refl; in_time = λ m. refl };
  answer = λ m. refl;
}

empty-IsNothing : IsNothing ring max gsm event_of empty
unfolding bench_holds
empty-IsNothing = record {
  calm = record { evaluated = refl; in_time = λ m. refl };
  line = refl;
  answer = λ m. refl;
}

abbrev exchange : Exchange ring max gsm event_of
exchange = record {
  beginning = nothing_heard;
  range = range;
  prompt = prompt;
  confirmation = heard ("SEND OK" ∷ []);
  acknowledgement = acked;
  checking = nothing_heard;
  declaring = nothing_heard;
  connection = joined;
  receiving = empty;
  beginning-IsOpen = nothing-IsOpen;
  range-IsRange = range-IsRange;
  prompt-IsPrompt = prompt-IsPrompt;
  confirmation-IsSendOk = sent-IsSendOk;
  acknowledgement-IsAcked = acked-IsAcked;
  checking-IsOpen = nothing-IsOpen;
  declaring-IsOpen = nothing-IsOpen;
  connection-IsConnected = joined-IsConnected;
  receiving-IsNothing = empty-IsNothing;
}

-- A driver about to send these bytes.
abbrev about_to_send : Bytes → Modem ring
about_to_send bytes = record (new ring true false) {
  state = State.network_begin_send;
  buffer = bytes;
}

acked_exchanges_drain_example :
    let m = about_to_send (many 2000) in
    let m' =
      trace ring max gsm event_of
        (drain_calls ring max gsm event_of (exchange ∷ exchange ∷ []))
        m in
    (m'.state ≡ State.network_begin_send)
    × (m'.buffer ≡ [])
    × ((pss : List (List Bytes)) × (all_joined pss ≡ many 2000)
        × (every (is_exchange gsm_max_bytes_send) pss ≡ true)
        × (m'.log ≡ exchanges_log exchange_log pss m.log))
acked_exchanges_drain_example =
    acked_exchanges_drain ring max gsm event_of (exchange ∷ exchange ∷ [])
      (about_to_send (many 2000)) refl (omega (arith, length-many 2000))
      (omega (arith, length-many 2000))
