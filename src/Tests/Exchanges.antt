-- ===== src/Tests/Exchanges.antt =====
-- Whole exchanges of the MC60's driver on the bench, with a modem that answers.
use libcomms.Modem.{notified_sent, delayed}
use libcomms.Mc60.Run.Unread.{IsUnread, unread_answer_drops}
use libcomms.Base.{
  ℕ, zero, suc, ◌+◌, ◌≡◌, refl, true, false, List, [], ◌∷◌, ◌++◌, String, Bytes, codes, arith,
  length, map, ap,
}
use libcomms.CLib.{c_string}
use libcomms.Circular.Parts.{joined}
use libcomms.Machine.Steps.{every}
use libcomms.Mc60.Driver.{Modem}
use libcomms.Mc60.Responses.{qisack}
use libcomms.Mc60.Run.{new, trace, is_sending, run}
use libcomms.Mc60.Run.Answers.{Calm, IsConnectOk, IsOpen, IsPrompt, IsSendOk, IsAcked, IsEchoOff}
use libcomms.Mc60.Run.Answered.{Exchange, exchange_calls, exchanged, answered_exchange}
use libcomms.Mc60.Run.Drained.{drain_calls, answered_rounds_drain}
use libcomms.Mc60.Run.Known.{told_sent}
use libcomms.Mc60.Run.Moved.{Moved}
use libcomms.Mc60.Run.Pieces.{is_piece, conversation}
use libcomms.Mc60.Run.Turning.{Turn}
use libcomms.Mc60.State.{State}
use libcomms.Response.AckText.{ack_text}
use libcomms.Tests.Bench.{Heard, lines_heard, nothing_heard, bench_holds}
use libcomms.Tests.Driving.{max, desk}

abbrev heard : List String → Heard
heard lines = lines_heard (map codes lines)

abbrev connected : Heard
connected = heard ("AT+QISTATE" ∷ "OK" ∷ "STATE: CONNECT OK" ∷ [])

abbrev prompt : Heard
prompt = heard ("AT+QISEND=3" ∷ [])

abbrev confirmed : Heard
confirmed = heard ("SEND OK" ∷ [])

abbrev acked : Heard
acked = record (heard ("AT+QISACK" ∷ "+QISACK: 3, 3, 0" ∷ "OK" ∷ [])) {
  event = qisack ++ ack_text 3 3 0;
}

abbrev echoed : Heard
echoed = heard ("AT+QISDE=0" ∷ "OK" ∷ [])

pub nothing-Calm : Calm max desk nothing_heard
unfolding bench_holds
nothing-Calm = record { evaluated = refl; in_time = λ m. refl; stays_on = λ m. refl }

connected-IsConnectOk : IsConnectOk max desk connected
unfolding bench_holds
connected-IsConnectOk = record {
  calm = record { evaluated = refl; in_time = λ m. refl; stays_on = λ m. refl };
  connect_ok = λ m. refl;
}

nothing-IsOpen : IsOpen max desk nothing_heard
unfolding bench_holds
nothing-IsOpen = record { calm = nothing-Calm; stays_open = λ m. refl }

prompt-IsPrompt : IsPrompt max desk prompt
unfolding bench_holds
prompt-IsPrompt = record {
  calm = record { evaluated = refl; in_time = λ m. refl; stays_on = λ m. refl };
  stays_open = λ m. refl;
  no_error = λ m. refl;
  echo = λ m. refl;
}

confirmed-IsSendOk : IsSendOk max desk confirmed
unfolding bench_holds
confirmed-IsSendOk = record {
  calm = record { evaluated = refl; in_time = λ m. refl; stays_on = λ m. refl };
  stays_open = λ m. refl;
  send_ok = λ m. refl;
}

acked-IsAcked : IsAcked max desk acked
unfolding bench_holds c_string
acked-IsAcked = record {
  calm = record { evaluated = refl; in_time = λ m. refl; stays_on = λ m. refl };
  answer = λ m. refl;
  total = 3;
  remaining = 0;
  rest = [];
  line = refl;
  fits = omega arith;
  memory = refl;
}

echoed-IsEchoOff : IsEchoOff max desk echoed
unfolding bench_holds
echoed-IsEchoOff = record {
  calm = record { evaluated = refl; in_time = λ m. refl; stays_on = λ m. refl };
  answer = λ m. refl;
}

abbrev exchange : Exchange max desk
exchange = record {
  connection = connected;
  prompt = prompt;
  confirmation = confirmed;
  acknowledgement = acked;
  checking = nothing_heard;
  declaring = nothing_heard;
  connection-IsConnectOk = connected-IsConnectOk;
  prompt-IsPrompt = prompt-IsPrompt;
  confirmation-IsSendOk = confirmed-IsSendOk;
  acknowledgement-IsAcked = acked-IsAcked;
  checking-IsOpen = nothing-IsOpen;
  declaring-IsOpen = nothing-IsOpen;
}

abbrev turn : Turn max desk
turn = record {
  leaving = nothing_heard;
  connection = connected;
  echo = echoed;
  receiving = nothing_heard;
  beginning = nothing_heard;
  leaving-Calm = nothing-Calm;
  connection-IsConnectOk = connected-IsConnectOk;
  echo-IsEchoOff = echoed-IsEchoOff;
  receiving-Calm = nothing-Calm;
  beginning-IsOpen = nothing-IsOpen;
}

-- A driver about to send these bytes.
abbrev about_to_send : Bytes → Modem
about_to_send bytes = record (new true false) {
  state = State.check_connection_pre_send;
  connected = true;
  box = record { buffer = bytes; to_send = 0 };
}

answered_exchange_example :
    Moved
      (about_to_send (1 ∷ 2 ∷ 3 ∷ []))
      (trace max desk (exchange_calls exchange) (about_to_send (1 ∷ 2 ∷ 3 ∷ [])))
      State.sms_begin_send
      (record { buffer = []; to_send = 3 })
      (exchanged (1 ∷ 2 ∷ 3 ∷ []))
answered_exchange_example =
    answered_exchange max desk exchange (about_to_send (1 ∷ 2 ∷ 3 ∷ [])) refl (omega arith) refl

-- More bytes than one exchange takes.
pub many : ℕ → Bytes
many zero = []
many (suc n) = 7 ∷ many n

pub length-many : (n : ℕ) → length (many n) ≡ n
unfolding many
length-many zero = refl
length-many (suc n) = ap suc (length-many n)

answered_rounds_drain_example :
    let m = about_to_send (many 1500) in
    let m' = trace max desk (drain_calls max desk ((exchange, turn) ∷ []) exchange) m in
    (m'.state ≡ State.sms_begin_send)
    × (is_sending m' ≡ false)
    × (told_sent m'.log ≡ told_sent m.log + length (many 1500))
    × ((ps : List Bytes) × (joined ps ≡ many 1500)
        × (every is_piece ps ≡ true)
        × (m'.log ≡ conversation ps ++ m.log))
answered_rounds_drain_example =
    answered_rounds_drain max desk ((exchange, turn) ∷ []) exchange (about_to_send (many 1500)) refl
      refl refl refl (omega (arith, length-many 1500)) (omega (arith, length-many 1500))

-- The answer "+QISACK: x", behind which a NUL stands in memory.
abbrev garbled : Heard
garbled = record (heard ("AT+QISACK" ∷ "+QISACK: x" ∷ "OK" ∷ [])) { event = codes "+QISACK: x" }

garbled-IsUnread : IsUnread max desk garbled
unfolding bench_holds c_string
garbled-IsUnread = record {
  calm = record { evaluated = refl; in_time = λ m. refl; stays_on = λ m. refl };
  answer = λ m. refl;
  text = codes " x";
  rest = [];
  line = refl;
  no_nul = omega arith;
  memory = refl;
  no_comma = omega arith;
}

abbrev asking : Modem
asking = record (about_to_send (1 ∷ 2 ∷ 3 ∷ [])) {
  state = State.network_ack_check;
  box = record { buffer = 1 ∷ 2 ∷ 3 ∷ []; to_send = 3 };
}

unread_answer_drops_example :
    ((run max desk garbled asking).acks.sent ≡ 0)
    × ((run max desk garbled asking).acks.acked ≡ 0)
    × Moved asking
        (run max desk nothing_heard (run max desk nothing_heard (run max desk garbled asking)))
        State.sms_begin_send
        (record { buffer = []; to_send = 3 })
        (notified_sent 3 ∷ delayed 1000 ∷ [])
unread_answer_drops_example =
    unread_answer_drops max desk asking garbled nothing_heard nothing_heard refl refl refl
      garbled-IsUnread nothing-IsOpen nothing-IsOpen
