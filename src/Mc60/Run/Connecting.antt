-- ===== src/Mc60/Run/Connecting.antt =====
-- How Mc60Modem opens a connection with a modem that answers: from Mc60Modem::connect in
-- CONTROL_WAIT_FOR_CONNECT, over CHECK_CONNECTION and CONNECT_TO_SERVER, to the report of it.
use libcomms.Base.{
  ℕ, ◌+◌, ◌<◌, ◌≤◌, ◌≡◌, refl, ap, ◌∙◌, true, false, [], ◌∷◌, ◌++◌, arith, codes, drop, length,
  Bytes, Lacks, ltb, ◌&&◌,
}
use libcomms.CLib.{decimal, upto_nul}
use libcomms.CLib.Memory.{upto_nul-Lacks}
use libcomms.Machine.{
  Engine, Transition, eq, begins_with, anded, ored, own, ok, when, when_then, first_holding,
}
use libcomms.Machine.Answering.{Hears, Misses}
use libcomms.Modem.{transmitted, delayed, notified_connected, at_command_run}
use libcomms.Mc60.Driver.{
  Modem, Own, Act, own_test, perform, perform_all, address_known, delay, connected_action,
  on_connected, qiopen_command,
}
use libcomms.Mc60.Opening.{opening, qiopen_command-whole}
use libcomms.Mc60.Run.{runs, connects, run, call, trace}
use libcomms.Mc60.Run.Answers.{Calm, steps}
use libcomms.Mc60.State.{State}
use libcomms.Mc60.Table.{state_def}

module _ (max : ℕ) (e : Engine State Own Act Modem (own_test max)) where
  -- The answer to AT+QISTATE that there is no connection.
  pub record IsNoConnection (i : e.Input) : Type 0 where
    pub calm : Calm max e i
    pub not_connected :
        Misses e i (anded (anded (eq "AT+QISTATE") ok) (begins_with "STATE: CONNECT OK"))
    pub answer : Hears e i (anded (anded (eq "AT+QISTATE") ok) (begins_with "STATE:"))

  -- The answer to AT+QIOPEN that the connection is there.
  pub record IsOpened (i : e.Input) : Type 0 where
    pub calm : Calm max e i
    pub answer : Hears e i (anded ok (ored (eq "CONNECT OK") (eq "ALREADY CONNECT")))

  waits :
      (i : e.Input) (m : Modem)
      → m.state ≡ State.control_wait_for_connect
      → Calm max e i
      → 0 < length m.address
      → 0 < m.port
      → run max e i m ≡ record m {
        state = State.check_connection;
        queue = drop (e.consumed i) m.queue;
        log = transmitted (codes "AT+QISTATE\r\n") ∷ m.log;
      }
  unfolding state_def first_holding perform_all perform own_test at_command_run upto_nul
  waits i m s x address port =
      let t : Transition State Own Act = when State.check_connection (own address_known) in
      let known : (ltb 0 (length m.address) && ltb 0 m.port) ≡ true = ground arith in
      rw
        (steps max e i m State.control_wait_for_connect t s refl refl x
          (rw (e.holds_own _ i address_known, known) refl))
        refl

  opens :
      (i : e.Input) (m : Modem)
      → m.state ≡ State.check_connection
      → IsNoConnection i
      → run max e i m ≡ record m {
        state = State.connect_to_server;
        queue = drop (e.consumed i) m.queue;
        log = transmitted (upto_nul (qiopen_command m.address m.port)) ∷ m.log;
      }
  unfolding state_def first_holding perform_all perform
  opens i m s x =
      let t : Transition State Own Act =
        when State.connect_to_server (anded (anded (eq "AT+QISTATE") ok) (begins_with "STATE:")) in
      rw
        (steps max e i m State.check_connection t s refl refl x.calm
          (rw (x.not_connected, x.answer) refl))
        refl

  on_connected-first :
      (m : Modem)
      → m.connected ≡ false
      → m.has_callback ≡ true
      → on_connected m ≡ record m { connected = true; log = notified_connected ∷ m.log }
  unfolding on_connected
  on_connected-first m c h = ground arith

  reports :
      (i : e.Input) (m : Modem)
      → m.state ≡ State.connect_to_server
      → IsOpened i
      → m.connected ≡ false
      → m.has_callback ≡ true
      → run max e i m ≡ record m {
        state = State.network_gps_usart_echo_off;
        connected = true;
        queue = drop (e.consumed i) m.queue;
        log = transmitted (codes "AT+QISDE=0\r\n") ∷ notified_connected ∷ delayed 1000 ∷ m.log;
      }
  unfolding state_def first_holding perform_all perform at_command_run upto_nul
  reports i m s x c h =
      let t : Transition State Own Act =
        when_then State.network_gps_usart_echo_off
          (anded ok (ored (eq "CONNECT OK") (eq "ALREADY CONNECT")))
          (delay 1000 ∷ connected_action ∷ []) in
      let before = record m {
        state = State.network_gps_usart_echo_off;
        queue = drop (e.consumed i) m.queue;
        log = delayed 1000 ∷ m.log;
      } in
      rw
        (
          steps max e i m State.connect_to_server t s refl refl x.calm (rw x.answer refl),
          on_connected-first before c h,
        )
        refl

  -- What three runs in a row find when the modem opens the connection.
  pub record Connecting : Type 0 where
    pub waiting : e.Input
    pub state : e.Input
    pub opened : e.Input
    pub waiting-Calm : Calm max e waiting
    pub state-IsNoConnection : IsNoConnection state
    pub opened-IsOpened : IsOpened opened

-- A client connects a driver that waits in CONTROL_WAIT_FOR_CONNECT, has a callback and is not
-- connected, to an address without NUL and a port above 0, together of at most 40 characters. The
-- three runs that find the answers of a modem that has no connection and opens one ask for the
-- state, send the whole command with this address and port, wait a second, report the connection to
-- the client, and send AT+QISDE=0; nothing else is done to the outside. Then isConnected answers
-- true, and what waits to be sent is unchanged.
pub answered_connect :
    (max : ℕ) (e : Engine State Own Act Modem (own_test max)) (x : Connecting max e)
    (address : Bytes) (port : ℕ) (m : Modem)
    → m.state ≡ State.control_wait_for_connect
    → m.connected ≡ false
    → m.has_callback ≡ true
    → Lacks 0 address
    → 0 < length address
    → 0 < port
    → length address + length (decimal port) ≤ 40
    → let m' =
        trace max e
          (connects address port ∷ runs x.waiting ∷ runs x.state ∷ runs x.opened ∷ [])
          m in
      (m'.state ≡ State.network_gps_usart_echo_off)
      × (m'.connected ≡ true)
      × (m'.box ≡ m.box)
      × (m'.log
          ≡ transmitted (codes "AT+QISDE=0\r\n")
            ∷ notified_connected
            ∷ delayed 1000
            ∷ transmitted (opening address port ++ b'\n' ∷ [])
            ∷ transmitted (codes "AT+QISTATE\r\n")
            ∷ m.log)
unfolding trace call
answered_connect max e x address port m s c h clean some_address some_port fits =
    let m0 : Modem = record m { address = address; port = port } in
    let m1 : Modem = record m0 {
      state = State.check_connection;
      queue = drop (e.consumed x.waiting) m.queue;
      log = transmitted (codes "AT+QISTATE\r\n") ∷ m.log;
    } in
    let m2 : Modem = record m1 {
      state = State.connect_to_server;
      queue = drop (e.consumed x.state) m1.queue;
      log = transmitted (opening address port ++ b'\n' ∷ []) ∷ m1.log;
    } in
    let e1 = waits max e x.waiting m0 s x.waiting-Calm some_address some_port in
    let e2 : run max e x.state m1 ≡ m2 =
      opens max e x.state m1 refl x.state-IsNoConnection
      ∙ rw (qiopen_command-whole address port clean fits) refl in
    let e3 = reports max e x.opened m2 refl x.opened-IsOpened c h in
    let e0 = upto_nul-Lacks address clean in
    let whole =
      ap
        (λ a.
          run max e x.opened
            (run max e x.state (run max e x.waiting (record m { address = a; port = port }))))
        e0
      ∙ ap (λ y. run max e x.opened (run max e x.state y)) e1
      ∙ ap (run max e x.opened) e2
      ∙ e3 in
    (
      ap (λ y. y.state) whole,
      ap (λ y. y.connected) whole,
      ap (λ y. y.box) whole,
      ap (λ y. y.log) whole,
    )
