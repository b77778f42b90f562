-- ===== src/Mc60/Client.antt =====
-- Mc60Modem as the implementation of ICommunicationInterface and AbstractModem
-- (src/mc60Modem/Mc60Modem.h).
use libcomms.Base.{
  ℕ, ◌<◌, ◌≡◌, refl, sym, ap, ◌∙◌, ◌⊎◌, inl, inr, true, false, not, List, Bytes, arith, length,
  Bool-cases, ltb, length-append, ◌==◌, ◌+◌,
}
use libcomms.Interface.{
  CommunicationInterface, AbstractModem, IsPollable, Somewhere, all_runs, sending-Ends,
}
use libcomms.Machine.{Engine}
use libcomms.Mc60.Driver.{Modem, Own, Act, own_test}
use libcomms.Mc60.Outbox.{send, output_buffer_size}
use libcomms.Mc60.Run.{runs, connect, disconnect, run, power, call, is_connected, is_sending}
use libcomms.Mc60.Run.Leaves.{bytes_leave}
use libcomms.Mc60.Run.Rounds.{IsReachable, IsReachable-call}
use libcomms.Mc60.State.{State}

module _ (max : ℕ) (e : Engine State Own Act Modem (own_test max)) where
  -- The overrides of Mc60Modem. `disconnect` ignores the connection's number.
  abbrev pub communication : CommunicationInterface Modem e.Input
  communication = record {
    connect = λ address port m. (connect max e address port m, true);
    is_connected = is_connected;
    disconnect = λ connection_id m. disconnect max e m;
    send = λ bytes m. (record m { box = (send bytes m.box).0 }, (send bytes m.box).1);
    is_sending = is_sending;
    run = run max e;
  }

  abbrev pub mc60_modem : AbstractModem Modem e.Input
  mc60_modem = record {
    communication = communication;
    power = power max e;
    get_sms_collection = λ m. m.sms;
  }

-- The driver is about to compare the two numbers of the last answer to AT+QISACK, and they are
-- equal: as many bytes acknowledged as sent, or 0 and 0, which also stand for an answer that could
-- not be read.
abbrev pub Delivered : Modem → Type 0
Delivered m = (m.state ≡ State.network_ack_check_parse) × (m.acks.sent ≡ m.acks.acked)

send_cases :
    (bytes : Bytes) (m : Modem)
    → let m' = record m { box = (send bytes m.box).0 } in
      let n = (send bytes m.box).1 in
      ((n ≡ 0) × (m' ≡ m)) ⊎ ((n ≡ length bytes) × (0 < n → is_sending m' ≡ true))
unfolding send
send_cases bytes m =
    elim (Bool-cases (ltb output_buffer_size (length m.box.buffer + length bytes))) [
      | inl full ↦ inl (rw full (refl, refl))
      | inr fits ↦ inr (rw fits (refl, λ h. ground (arith, length-append m.box.buffer bytes)))
    ]

module _ (max : ℕ) (e : Engine State Own Act Modem (own_test max)) where
  ended :
      (i : e.Input) (m : Modem)
      → IsReachable max e m
      → is_sending m ≡ true
      → is_sending (run max e i m) ≡ false
      → Delivered m ⊎ ((m.connected ≡ true) × ((run max e i m).connected ≡ false))
  ended i m r sends stops = elim (bytes_leave max e m i r) [
    | inl kept ↦
        absurd (cc (sym sends ∙ ap (λ (b : Bytes). not (length b == 0)) (sym kept) ∙ stops))
    | inr (inl (up, down, cleared)) ↦ inr (up, down)
    | inr (inr (s, acked, fits, dropped)) ↦ inl (s, acked)
  ]

  -- The laws for Mc60Modem: a send is accepted whole or refused with
  -- no effect; connect, disconnect and send tell the client nothing and leave isConnected as it is;
  -- and a run of a reachable driver after which isSending no longer answers true found as many bytes
  -- acknowledged as sent in NETWORK_ACK_CHECK_PARSE, or turned isConnected from true to false.
  pub mc60-IsPollable :
      IsPollable (communication max e) (λ m. m.log) (λ m. IsReachable max e m) Delivered
  unfolding call
  mc60-IsPollable = record {
    send_whole_or_none = send_cases;
    calls_are_quiet = λ bytes n m. (refl, refl, refl, refl, refl, refl);
    run-Reached = λ i m r. IsReachable-call max e (runs i) m r;
    ends = ended;
  }

-- A client polls isSending between runs of a driver that calls and runs can reach. If it answers
-- true first and false at last, then one of the runs in between found as many bytes acknowledged as
-- sent in NETWORK_ACK_CHECK_PARSE, or it ended the connection: isConnected answered true before this
-- run and false after it.
pub is_sending_ends :
    (max : ℕ) (e : Engine State Own Act Modem (own_test max)) (is : List e.Input) (m : Modem)
    → IsReachable max e m
    → is_sending m ≡ true
    → is_sending (all_runs (communication max e) is m) ≡ false
    → Somewhere
        (communication max e)
        (λ i n. Delivered n ⊎ ((n.connected ≡ true) × ((run max e i n).connected ≡ false)))
        is
        m
is_sending_ends max e is m r sends stops = sending-Ends (mc60-IsPollable max e) is m r sends stops
