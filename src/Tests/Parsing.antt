-- ===== src/Tests/Parsing.antt =====
-- The parsers of the MC60's responses on the answers of a modem.
use libcomms.Base.{ℕ, ◌-◌, ◌^◌, ◌≡◌, refl, some, [], ◌∷◌, ◌++◌, Bytes, codes, arith, Lacks}
use libcomms.CLib.{
  begins, search_pos, split_first, after_last, strtoul, c_string, upto_nul, decimal,
}
use libcomms.Response.{Acks, refused, stored, failed, quirdi_parse_size_gt, store_field}
use libcomms.Response.AckText.{ack_text}
use libcomms.Mc60.Responses.{qirdi_check, qird_pattern, recv_length_check, qisack, query_ack_run}
use libcomms.Mc60.Responses.RecvLength
use libcomms.Mc60.Responses.RecvLength.{recv_length_check-decimal, recv_length_check_sound}
use libcomms.Mc60.Responses.QueryAck.{query_ack_run-ack_text, query_ack_run_reads_on}
use libcomms.Mc60.Driver.{qiopen_command}
use libcomms.Mc60.Opening.{qiopen_command-cut}

abbrev max : ℕ
max = 2 ^ 32 - 1

-- The first notification of src/test/01QirdiTest.cc.
notification : qirdi_check max (codes "+QIRDI: 0,1,0,1,6,11") ≡ stored 11
unfolding qirdi_check search_pos begins after_last store_field strtoul upto_nul
notification = refl

long_notification :
    qirdi_check max (codes "+QIRDI: 0,1,0,1,1,1234567890") ≡ failed quirdi_parse_size_gt
unfolding qirdi_check search_pos begins after_last store_field
long_notification = refl

response : recv_length_check max (codes "+QIRD: 37.139.6.49:1883,TCP,42") ≡ stored 42
unfolding recv_length_check search_pos begins split_first store_field strtoul upto_nul
response = refl

other_line : recv_length_check max (codes "+QIRDI: 0,1,0,1,6,11") ≡ refused
unfolding recv_length_check search_pos begins
other_line = refl

recv_length_check-decimal_example :
    recv_length_check max
      (qird_pattern ++ codes "37.139.6.49:1883" ++ b',' ∷ (codes "TCP" ++ b',' ∷ decimal 42))
    ≡ stored 42
recv_length_check-decimal_example =
    recv_length_check-decimal max (codes "37.139.6.49:1883") (codes "TCP") 42 (omega arith)
      (omega arith) (omega arith) (omega arith)

recv_length_check_sound_example :
    RecvLength.Outcome max
      (codes "+QIRD: 1:1,TCP,42")
      (recv_length_check max (codes "+QIRD: 1:1,TCP,42"))
recv_length_check_sound_example = recv_length_check_sound max (codes "+QIRD: 1:1,TCP,42")

query_ack_run-ack_text_example :
    (acks : Acks) × (query_ack_run max (qisack ++ ack_text 3 2 1) (0 ∷ []) ≡ some acks)
    × (acks.sent ≡ 3)
    × (acks.acked ≡ 2)
    × (acks.n_acked ≡ 1)
query_ack_run-ack_text_example =
    query_ack_run-ack_text max 3 2 1 (0 ∷ []) {rest = []} (omega arith) (omega arith) (omega arith)
      (omega arith) (unfold c_string in refl) tt

query_ack_run_reads_on_example :
    (acks : Acks) × (query_ack_run max (qisack ++ ack_text 3 3 0) (b'7' ∷ 0 ∷ []) ≡ some acks)
    × (acks.sent ≡ 3)
    × (acks.acked ≡ 3)
    × (acks.n_acked ≡ 7)
query_ack_run_reads_on_example =
    query_ack_run_reads_on max 3 3 0 7 (b'7' ∷ 0 ∷ []) {rest = []} (omega arith) (omega arith)
      (omega arith) (omega arith) (omega arith) (unfold c_string in refl) tt

-- Forty characters and a port of four digits.
abbrev long_address : Bytes
long_address = codes "a-name-of-forty-characters.example.co.uk"

qiopen_command-cut_example : Lacks b'\n' (upto_nul (qiopen_command long_address 1883))
qiopen_command-cut_example =
    qiopen_command-cut long_address 1883 (omega arith) (omega arith)
      (unfold decimal in (omega arith))
