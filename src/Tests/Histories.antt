-- ===== src/Tests/Histories.antt =====
-- Histories of the MC60's driver on the bench: what it receives, polls and reports.
use libcomms.Modem.{transmitted}
use libcomms.Mc60.Run.Payload.{payload_is_announced}
use libcomms.Base.{
  ◌+◌, ◌<◌, ◌≤◌, ◌≡◌, ◌⊎◌, refl, inl, true, false, some, List, [], ◌∷◌, ◌++◌, Bytes, codes, arith,
  length, drop, map, inr, take,
}
use libcomms.CLib.{begins, search_pos, c_string, strstr, split_first, strtoul}
use libcomms.Interface.{Somewhere, all_runs}
use libcomms.Machine.{first_holding, Transition}
use libcomms.Mc60.Client.{communication, Delivered, is_sending_ends}
use libcomms.Mc60.Driver.{Modem, Own, Act, own_test, perform, perform_all}
use libcomms.Mc60.Outbox.{output_buffer_size, prepare, send_stage, send, declare}
use libcomms.Mc60.Responses.{query_ack_run, recv_length_check}
use libcomms.Mc60.Run.{
  Call, runs, rule_fires, new, run, trace, call, follow, ready, picked, check_effects, is_sending,
}
use libcomms.Mc60.Run.InFlight.{InFlight}
use libcomms.Mc60.Run.Delivered.{delivered_is_transmitted}
use libcomms.Mc60.Run.Passing.{data_given}
use libcomms.Mc60.Run.Polls.{Loops, polls_end}
use libcomms.Mc60.Run.Received.{data_is_announced}
use libcomms.Mc60.Run.Refines.{Confirmed, accepted, trace_refines}
use libcomms.Mc60.Run.Known.{told_sent}
use libcomms.Mc60.Run.Reported.{reported-accepted}
use libcomms.Mc60.Run.Rounds.{IsReachable, IsReachable-call}
use libcomms.Mc60.Run.Timeouts.{picks_in_time}
use libcomms.Mc60.Run.Views.{view}
use libcomms.Mc60.State.{State}
use libcomms.Mc60.Stream.{Moves}
use libcomms.Mc60.Table.{qirdi_rule, state_def}
use libcomms.Tests.Bench.{Heard, lines_heard, nothing_heard, bench_pick, bench_holds}
use libcomms.Tests.Driving.{
  max, desk, hears, startup, conversation, parsing, parsing-IsReachable, parsing-state, sending,
  to_announcement,
}

-- Sixteen seconds without a line.
abbrev late : Heard
late = record nothing_heard { elapsed = 16000 }

picks_in_time_example :
    (t : Transition State Own Act) × (picked max desk late parsing ≡ some t)
    × ((run max desk late parsing).state ≡ t.target)
picks_in_time_example =
    picks_in_time max desk parsing late parsing-IsReachable refl (omega arith)
      (λ s. absurd (cc (s, parsing-state))) (λ s. absurd (cc (s, parsing-state)))
      (λ s. cc (s, parsing-state))

trace_refines_example :
    Moves output_buffer_size
      (Confirmed max desk (hears [] ∷ hears [] ∷ []) parsing)
      (view parsing)
      (accepted max desk (hears [] ∷ hears [] ∷ []) parsing)
      (view (trace max desk (hears [] ∷ hears [] ∷ []) parsing))
trace_refines_example =
    trace_refines max desk (hears [] ∷ hears [] ∷ []) parsing parsing-IsReachable

reported-accepted_example :
    let m = trace max desk conversation (new true false) in
    told_sent m.log + length m.box.buffer ≤ length (accepted max desk conversation (new true false))
reported-accepted_example = reported-accepted max desk true false conversation

delivered_is_transmitted_example :
    let m' = run max desk nothing_heard parsing in
    (m'.box.buffer ≡ parsing.box.buffer)
    ⊎ ((parsing.connected ≡ true) × (m'.connected ≡ false) × (m'.box.buffer ≡ []))
    ⊎ ((parsing.state ≡ State.network_ack_check_parse)
        × (parsing.acks.sent ≡ parsing.acks.acked)
        × (0 < parsing.box.to_send)
        × (parsing.box.to_send ≤ length parsing.box.buffer)
        × InFlight (take parsing.box.to_send parsing.box.buffer) parsing.log
        × (m'.box.buffer ≡ drop parsing.box.to_send parsing.box.buffer))
delivered_is_transmitted_example =
    delivered_is_transmitted max desk parsing nothing_heard parsing-IsReachable

parsing-is_sending : is_sending parsing ≡ true
unfolding trace call run follow picked ready check_effects bench_pick bench_holds first_holding
    state_def own_test perform_all perform libcomms.CLib.upto_nul send prepare send_stage
    query_ack_run c_string strstr split_first strtoul
parsing-is_sending = refl

sending_is_over :
    is_sending (all_runs (communication max desk) (nothing_heard ∷ nothing_heard ∷ []) parsing)
    ≡ false
unfolding trace call run follow picked ready check_effects bench_pick bench_holds first_holding
    state_def own_test perform_all perform libcomms.CLib.upto_nul send prepare send_stage declare
    query_ack_run c_string strstr split_first strtoul
sending_is_over = refl

is_sending_ends_example :
    Somewhere
      (communication max desk)
      (λ i n. Delivered n ⊎ ((n.connected ≡ true) × ((run max desk i n).connected ≡ false)))
      (nothing_heard ∷ nothing_heard ∷ [])
      parsing
is_sending_ends_example =
    is_sending_ends max desk (nothing_heard ∷ nothing_heard ∷ []) parsing parsing-IsReachable
      parsing-is_sending sending_is_over

-- Four bytes are announced, and arrive.
abbrev receiving_calls : List (Call Heard)
receiving_calls =
    startup
    ++ (hears ("OK" ∷ "CONNECT OK" ∷ [])
        ∷ rule_fires nothing_heard qirdi_rule
        ∷ hears ("AT+QISDE=0" ∷ "OK" ∷ [])
        ∷ hears []
        ∷ runs (record nothing_heard { event = codes "+QIRD: 10.0.0.1:1883,TCP,4" })
        ∷ [])

abbrev receiving : Modem
receiving = trace max desk receiving_calls (new true false)

abbrev four : Bytes
four = 9 ∷ 8 ∷ 7 ∷ 6 ∷ []

abbrev four_bytes : Heard
four_bytes = record (lines_heard (codes "OK" ∷ [])) { event = four }

receiving-IsReachable : IsReachable max desk receiving
receiving-IsReachable = record {
  has_callback = true;
  status_pin = false;
  calls = receiving_calls;
  reaches = refl;
}

four_are_given : data_given (run max desk four_bytes receiving).log ≡ four ∷ []
unfolding trace call run follow picked ready check_effects bench_pick bench_holds first_holding
    state_def own_test perform_all perform libcomms.CLib.upto_nul recv_length_check
    libcomms.Response.store_field search_pos begins split_first strtoul
four_are_given = refl

data_is_announced_example :
    let given = data_given (run max desk four_bytes receiving).log in
    (given ≡ data_given receiving.log)
    ⊎ ((receiving.state ≡ State.network_receive)
        × (given ≡ four ∷ data_given receiving.log)
        × (length four ≡ receiving.bytes_received)
        × (0 < receiving.bytes_received))
data_is_announced_example = data_is_announced max desk receiving four_bytes receiving-IsReachable

-- One byte of three is not acknowledged yet.
abbrev partly_acked : Heard
partly_acked = record (lines_heard (map codes ("AT+QISACK" ∷ "+QISACK: 3, 2, 1" ∷ "OK" ∷ []))) {
  event = codes "+QISACK: 3, 2, 1";
}

abbrev checking : Modem
checking = trace max desk (startup ++ sending) (new true false)

abbrev polling : Modem
polling = run max desk partly_acked checking

polling-IsReachable : IsReachable max desk polling
unfolding run call
polling-IsReachable =
    IsReachable-call max desk (runs partly_acked) checking (record {
      has_callback = true;
      status_pin = false;
      calls = startup ++ sending;
      reaches = refl;
    })

polling-state : polling.state ≡ State.network_ack_check_parse
unfolding trace call run follow picked ready check_effects bench_pick bench_holds first_holding
    state_def own_test perform_all perform libcomms.CLib.upto_nul send prepare send_stage
    query_ack_run c_string strstr split_first strtoul
polling-state = refl

asks_again : (run max desk nothing_heard polling).state ≡ State.network_ack_check
unfolding trace call run follow picked ready check_effects bench_pick bench_holds first_holding
    state_def own_test perform_all perform libcomms.CLib.upto_nul send prepare send_stage
    query_ack_run c_string strstr split_first strtoul
asks_again = refl

polling-Loops : Loops max desk (nothing_heard ∷ []) polling
polling-Loops = (inr polling-state, λ h. cc (h, polling-state, asks_again), inl asks_again)

polls_end_example : 1 ≤ 19
polls_end_example =
    polls_end max desk (nothing_heard ∷ []) polling polling-IsReachable polling-Loops

-- The announcement of three bytes is echoed.
abbrev announcing : Modem
announcing = trace max desk (startup ++ to_announcement) (new true false)

abbrev echoed : Heard
echoed = lines_heard (codes "AT+QISEND=3" ∷ [])

announcing-IsReachable : IsReachable max desk announcing
announcing-IsReachable = record {
  has_callback = true;
  status_pin = false;
  calls = startup ++ to_announcement;
  reaches = refl;
}

announcing-state : announcing.state ≡ State.network_prepare_send
unfolding trace call run follow picked ready check_effects bench_pick bench_holds first_holding
    state_def own_test perform_all perform libcomms.CLib.upto_nul send prepare
announcing-state = refl

echoed-state : (run max desk echoed announcing).state ≡ State.network_send
unfolding trace call run follow picked ready check_effects bench_pick bench_holds first_holding
    state_def own_test perform_all perform libcomms.CLib.upto_nul send prepare send_stage
echoed-state = refl

payload_is_announced_example :
    let n = announcing.box.to_send in
    (announcing.state ≡ State.network_prepare_send)
    × (0 < n)
    × (n ≤ length announcing.box.buffer)
    × (n ≤ 1460)
    × ((run max desk echoed announcing).log
        ≡ transmitted (take n announcing.box.buffer) ∷ announcing.log)
    × ((run max desk echoed announcing).box ≡ announcing.box)
payload_is_announced_example =
    payload_is_announced max desk announcing echoed announcing-IsReachable
      (λ h. cc (h, announcing-state)) echoed-state
