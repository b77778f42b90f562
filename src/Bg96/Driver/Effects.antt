-- ===== src/Bg96/Driver/Effects.antt =====
-- What the actions of the BG96's driver leave alone.
use libcomms.Base.{arith, ℕ, ◌≡◌, refl, true, Option, none, some, List, [], ◌∷◌, Bytes, ◌%◌, ◌^◌}
use libcomms.Circular.{CircularBuffer}
use libcomms.Response.{Acks}
use libcomms.Modem.{Output, transmitted, notified_connected, notified_data}
use libcomms.Modem.InFlight.{sent_log}
use libcomms.Bg96.Outbox.{prepare, send_stage}
use libcomms.Bg96.Responses.{Parsed, declined, query_ack_run}
use libcomms.Bg96.Driver.{
  Modem, Act, Context, emit, transmit, transmit_all, notify, perform, store_acks, open_with,
  prepare_buffer, store_parsed, is_quiet, at, open_connection, connected, pass_data, prepare_action,
  declare_action, send_action, query_ack_action,
}

first_two : {A B C D : Type 0} → A × B × C × D → A × B
first_two (a, b, _, _) = (a, b)

module _ (c : CircularBuffer) where
  transmit_all-retry :
      (ps : List Bytes) (m : Modem c)
      → (transmit_all c ps m).ack_query_retry_no ≡ m.ack_query_retry_no
  unfolding transmit_all
  transmit_all-retry [] m = refl
  transmit_all-retry (p ∷ ps) m = transmit_all-retry ps (emit c (transmitted p) m)

  pub perform-send_action-retry :
      (x : Context) (m : Modem c)
      → (perform c x send_action m).ack_query_retry_no ≡ m.ack_query_retry_no
  unfolding perform
  perform-send_action-retry x m = transmit_all-retry (send_stage c m.to_send m.buffer) m

  transmit_all-log : (ps : List Bytes) (m : Modem c) → (transmit_all c ps m).log ≡ sent_log ps m.log
  unfolding transmit_all
  transmit_all-log [] m = refl
  transmit_all-log (p ∷ ps) m = transmit_all-log ps (emit c (transmitted p) m)

  pub perform-send_action-log :
      (x : Context) (m : Modem c)
      → (perform c x send_action m).log ≡ sent_log (send_stage c m.to_send m.buffer) m.log
  unfolding perform
  perform-send_action-log x m = transmit_all-log (send_stage c m.to_send m.buffer) m

  store_acks-log : (o : Option Acks) (m : Modem c) → (store_acks c o m).log ≡ m.log
  unfolding store_acks
  store_acks-log none m = refl
  store_acks-log (some acks) m = refl

  pub perform-query_ack_action-log :
      (x : Context) (m : Modem c) → (perform c x query_ack_action m).log ≡ m.log
  unfolding perform
  perform-query_ack_action-log x m =
      store_acks-log (query_ack_run x.ulong_max x.event.bytes x.beyond) m

  -- What most actions leave alone.
  abbrev pub Same : Modem c → Modem c → Type 0
  Same m m' =
      (m'.state ≡ m.state)
      × (m'.connections ≡ m.connections)
      × (m'.buffer ≡ m.buffer)
      × (m'.to_send ≡ m.to_send)

  transmit_all-Same : (ps : List Bytes) (m : Modem c) → Same m (transmit_all c ps m)
  unfolding transmit_all
  transmit_all-Same [] m = (refl, refl, refl, refl)
  transmit_all-Same (p ∷ ps) m = transmit_all-Same ps (emit c (transmitted p) m)

  transmit-Same : (o : Option Bytes) (m : Modem c) → Same m (transmit c o m)
  transmit-Same none m = (refl, refl, refl, refl)
  transmit-Same (some bytes) m = (refl, refl, refl, refl)

  open_with-Same : (o : Option Bytes) (port : ℕ) (m : Modem c) → Same m (open_with c o port m)
  unfolding open_with
  open_with-Same none port m = (refl, refl, refl, refl)
  open_with-Same (some bytes) port m = (refl, refl, refl, refl)

  store_acks-Same : (o : Option Acks) (m : Modem c) → Same m (store_acks c o m)
  unfolding store_acks
  store_acks-Same none m = (refl, refl, refl, refl)
  store_acks-Same (some acks) m = (refl, refl, refl, refl)

  notify-Same : (o : Output) (m : Modem c) → Same m (notify c o m)
  notify-Same o m = ground arith

  pub store_parsed-Same : (r : Parsed) (m : Modem c) → Same m (store_parsed c r m)
  unfolding store_parsed
  store_parsed-Same declined m = (refl, refl, refl, refl)
  store_parsed-Same _ m = (refl, refl, refl, refl)

  -- No action changes the state, nor which connections are taken.
  pub perform_same :
      (x : Context) (a : Act) (m : Modem c)
      → ((perform c x a m).state ≡ m.state) × ((perform c x a m).connections ≡ m.connections)
  unfolding perform prepare_buffer
  perform_same x (at command) m = (refl, refl)
  perform_same x open_connection m =
      first_two (open_with-Same x.event.arg_str (x.event.arg_int1 % 2 ^ 16) m)
  perform_same x connected m = first_two (notify-Same notified_connected m)
  perform_same x pass_data m = first_two (notify-Same (notified_data x.event.bytes) m)
  perform_same x prepare_action m =
      let (n, command) = prepare c x.event.bytes m.buffer in
      first_two (transmit-Same command (record m { to_send = n }))
  perform_same x send_action m = first_two (transmit_all-Same (send_stage c m.to_send m.buffer) m)
  perform_same x query_ack_action m =
      first_two (store_acks-Same (query_ack_run x.ulong_max x.event.bytes x.beyond) m)
  perform_same x _ m = (refl, refl)

  pub perform-is_quiet :
      (x : Context) (a : Act) (m : Modem c) → is_quiet a ≡ true → Same m (perform c x a m)
  unfolding perform
  perform-is_quiet x (at command) m q = (refl, refl, refl, refl)
  perform-is_quiet x open_connection m q =
      open_with-Same x.event.arg_str (x.event.arg_int1 % 2 ^ 16) m
  perform-is_quiet x connected m q = notify-Same notified_connected m
  perform-is_quiet x pass_data m q = notify-Same (notified_data x.event.bytes) m
  perform-is_quiet x prepare_action m q = absurd (cc q)
  perform-is_quiet x declare_action m q = absurd (cc q)
  perform-is_quiet x send_action m q = transmit_all-Same (send_stage c m.to_send m.buffer) m
  perform-is_quiet x query_ack_action m q =
      store_acks-Same (query_ack_run x.ulong_max x.event.bytes x.beyond) m
  perform-is_quiet x _ m q = (refl, refl, refl, refl)

  pub perform-prepare :
      (x : Context) (m : Modem c)
      → let m' = perform c x prepare_action m in
        (m'.to_send ≡ (prepare c x.event.bytes m.buffer).0) × (m'.buffer ≡ m.buffer)
  unfolding perform prepare_buffer
  perform-prepare x m =
      let (n, command) = prepare c x.event.bytes m.buffer in
      let (s, k, b, p) = transmit-Same command (record m { to_send = n }) in (p, b)

  transmit_all_lem :
      (ps : List Bytes) (m : Modem c) → transmit_all c ps m ≡ record m { log = sent_log ps m.log }
  unfolding transmit_all
  transmit_all_lem [] m = refl
  transmit_all_lem (p ∷ ps) m = transmit_all_lem ps (emit c (transmitted p) m)

  pub perform-send_action :
      (x : Context) (m : Modem c)
      → perform c x send_action m
        ≡ record m { log = sent_log (send_stage c m.to_send m.buffer) m.log }
  unfolding perform
  perform-send_action x m = transmit_all_lem (send_stage c m.to_send m.buffer) m
