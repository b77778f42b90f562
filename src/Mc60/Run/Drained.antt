-- ===== src/Mc60/Run/Drained.antt =====
-- Exchange after exchange of Mc60Modem with a modem that answers, until nothing is left to send.
use libcomms.Base.{
  ℕ, suc, ◌+◌, ◌*◌, ◌<◌, ◌≤◌, ◌≡◌, refl, sym, ap, ◌∙◌, true, false, List, [], ◌∷◌, ◌++◌,
  append_assoc, arith, length, length-drop, take, drop, drop_all, take-append-drop, min, Bytes,
  append-nil, subst,
}
use libcomms.Machine.{Engine}
use libcomms.Circular.Parts.{joined}
use libcomms.Machine.Steps.{every}
use libcomms.Modem.{Output}
use libcomms.Mc60.Driver.{Modem, Own, Act, own_test}
use libcomms.Mc60.Outbox.{gsm_max_bytes_send, Outbox}
use libcomms.Mc60.Run.{Call, trace, is_sending}
use libcomms.Mc60.Run.Answered.{Exchange, exchange_calls, exchanged, answered_exchange}
use libcomms.Mc60.Run.Moved.{Moved, Moved-trans, Moved-leaves}
use libcomms.Mc60.Run.Known.{told_sent}
use libcomms.Mc60.Run.Rounds.{trace-append}
use libcomms.Mc60.Run.Turning.{Turn, turn_calls, turned, answered_turn}
use libcomms.Mc60.State.{State}
use libcomms.Mc60.Run.Pieces.{
  is_piece, pieces, joined-pieces, every-pieces, turning-pieces, conversation, told_sent-append,
  told_sent-conversation,
}

module _ (max : ℕ) (e : Engine State Own Act Modem (own_test max)) where
  -- The calls of as many exchanges, each but the last with the way to the next one.
  abbrev pub drain_calls : List (Exchange max e × Turn max e) → Exchange max e → List (Call e.Input)
  drain_calls [] last = exchange_calls last
  drain_calls ((x, y) ∷ rest) last = exchange_calls x ++ turn_calls y ++ drain_calls rest last

  record Drained (m m' : Modem) (done : List Output) : Type 0 where
    pub arrived : m'.state ≡ State.sms_begin_send
    pub emptied : m'.box.buffer ≡ []
    pub added : m'.log ≡ done ++ m.log

  drains_last :
      (last : Exchange max e) (m : Modem)
      → m.state ≡ State.check_connection_pre_send
      → m.has_callback ≡ true
      → 0 < length m.box.buffer
      → length m.box.buffer ≤ gsm_max_bytes_send
      → Drained m (trace max e (exchange_calls last) m) (exchanged m.box.buffer)
  drains_last last m s listens more most =
      let n = min (length m.box.buffer) gsm_max_bytes_send in
      let a = answered_exchange max e last m s more listens in
      let none_left = drop_all n m.box.buffer (omega arith) in
      let whole =
        sym (append-nil (take n m.box.buffer))
        ∙ ap (λ r. take n m.box.buffer ++ r) (sym none_left)
        ∙ take-append-drop n m.box.buffer in
      record {
        arrived = a.arrived;
        emptied = ap (λ b. b.buffer) a.left ∙ none_left;
        added = a.added ∙ ap (λ p. exchanged p ++ m.log) whole;
      }

  drain_calls_lem :
      (x : Exchange max e) (y : Turn max e) (rest : List (Exchange max e × Turn max e))
      (last : Exchange max e) (m : Modem)
      → trace max e (drain_calls ((x, y) ∷ rest) last) m
        ≡ trace max e
            (drain_calls rest last)
            (trace max e (turn_calls y) (trace max e (exchange_calls x) m))
  drain_calls_lem x y rest last m =
      trace-append max e (exchange_calls x ++ turn_calls y) (drain_calls rest last) m
      ∙ ap (trace max e (drain_calls rest last))
          (trace-append max e (exchange_calls x) (turn_calls y) m)

  Drained-after :
      {m m' m'' : Modem} {s : State} {box : Outbox} {done done' : List Output}
      → Moved m m' s box done
      → Drained m' m'' done'
      → Drained m m'' (done' ++ done)
  Drained-after {m} {done = done} {done' = done'} a d = record {
    arrived = d.arrived;
    emptied = d.emptied;
    added = d.added ∙ ap (λ l. done' ++ l) a.added ∙ sym (append_assoc done' done m.log);
  }

  -- One exchange of 1460 bytes, and the way to the next.
  drains_first :
      (x : Exchange max e) (y : Turn max e) (m : Modem)
      → m.state ≡ State.check_connection_pre_send
      → m.has_callback ≡ true
      → m.sms ≡ []
      → m.new_data_to_receive ≡ false
      → gsm_max_bytes_send < length m.box.buffer
      → Moved m
          (trace max e (turn_calls y) (trace max e (exchange_calls x) m))
          State.check_connection_pre_send
          (record { buffer = drop gsm_max_bytes_send m.box.buffer; to_send = gsm_max_bytes_send })
          (turned ++ exchanged (take gsm_max_bytes_send m.box.buffer))
  drains_first x y m s listens no_sms no_data more =
      let n = min (length m.box.buffer) gsm_max_bytes_send in
      let all : n ≡ gsm_max_bytes_send = omega arith in
      let exchange = answered_exchange max e x m s (omega arith) listens in
      let a = (rw all at exchange) in
      let m1 = trace max e (exchange_calls x) m in
      let waits : 0 < length m1.box.buffer =
        rw a.left (omega (arith, length-drop gsm_max_bytes_send m.box.buffer)) in
      let b =
        answered_turn max e y m1 a.arrived waits (a.same_sms ∙ no_sms) (a.same_data ∙ no_data) in
      Moved-leaves a.left (Moved-trans a b)

  drains :
      (rounds : List (Exchange max e × Turn max e)) (last : Exchange max e) (m : Modem)
      → m.state ≡ State.check_connection_pre_send
      → m.has_callback ≡ true
      → m.sms ≡ []
      → m.new_data_to_receive ≡ false
      → length rounds * gsm_max_bytes_send < length m.box.buffer
      → length m.box.buffer ≤ (length rounds + 1) * gsm_max_bytes_send
      → Drained m
          (trace max e (drain_calls rounds last) m)
          (conversation (pieces (length rounds) m.box.buffer))
  drains [] last m s listens no_sms no_data more most =
      drains_last last m s listens (omega arith) (omega arith)
  drains ((x, y) ∷ rounds) last m s listens no_sms no_data more most =
      let rest = drop gsm_max_bytes_send m.box.buffer in
      let m2 = trace max e (turn_calls y) (trace max e (exchange_calls x) m) in
      let a = drains_first x y m s listens no_sms no_data (omega arith) in
      let b = ap (λ z. z.buffer) a.left in
      let fewer = ap length b ∙ length-drop gsm_max_bytes_send m.box.buffer in
      let ps = pieces (length rounds) rest in
      let first = exchanged (take gsm_max_bytes_send m.box.buffer) in
      let d =
        subst
          (λ z.
            Drained m2 (trace max e (drain_calls rounds last) m2)
              (conversation (pieces (length rounds) z)))
          b
          (drains rounds last m2 a.arrived (a.same_callback ∙ listens) (a.same_sms ∙ no_sms)
            (a.same_data ∙ no_data) (omega (arith, fewer)) (omega (arith, fewer))) in
      let order =
        ap (λ z. conversation ps ++ z ++ first) (turning-pieces (length rounds) rest)
        ∙ append_assoc (conversation ps) turned first in
      subst (λ m'. Drained m m' (conversation (pieces (suc (length rounds)) m.box.buffer)))
        (sym (drain_calls_lem x y rounds last m))
        (subst (Drained m (trace max e (drain_calls rounds last) m2)) (sym order)
          (Drained-after a d))

-- A modem that answers drains the driver. In CHECK_CONNECTION_PRE_SEND, with a callback, no short
-- message and nothing to receive, let `rounds` exchanges of 1460 bytes and one last one of at least
-- one byte be what the buffer needs. The runs that find the answers of these exchanges, and between
-- them those on the way to the next one, arrive in SMS_BEGIN_SEND, where isSending answers false.
-- What waited was cut into pieces of 1 to 1460 bytes, in order and without a gap; each piece was
-- announced, transmitted, asked about and reported before the next, with nothing else done to the
-- outside but the checks in between; and the client was told of as many bytes as waited.
pub answered_rounds_drain :
    (max : ℕ) (e : Engine State Own Act Modem (own_test max))
    (rounds : List (Exchange max e × Turn max e)) (last : Exchange max e) (m : Modem)
    → m.state ≡ State.check_connection_pre_send
    → m.has_callback ≡ true
    → m.sms ≡ []
    → m.new_data_to_receive ≡ false
    → length rounds * gsm_max_bytes_send < length m.box.buffer
    → length m.box.buffer ≤ (length rounds + 1) * gsm_max_bytes_send
    → let m' = trace max e (drain_calls max e rounds last) m in
      (m'.state ≡ State.sms_begin_send)
      × (is_sending m' ≡ false)
      × (told_sent m'.log ≡ told_sent m.log + length m.box.buffer)
      × ((ps : List Bytes) × (joined ps ≡ m.box.buffer)
          × (every is_piece ps ≡ true)
          × (m'.log ≡ conversation ps ++ m.log))
answered_rounds_drain max e rounds last m s listens no_sms no_data more most =
    let ps = pieces (length rounds) m.box.buffer in
    let m' = trace max e (drain_calls max e rounds last) m in
    let d = drains max e rounds last m s listens no_sms no_data more most in
    let told = ap told_sent d.added ∙ told_sent-append (conversation ps) m.log in
    let whole = joined-pieces (length rounds) m.box.buffer in
    let count = told_sent-conversation ps ∙ ap length whole in
    let empty : is_sending m' ≡ false = rw d.emptied refl in
    (
      d.arrived,
      empty,
      omega (arith, told, count),
      (ps, whole, every-pieces (length rounds) m.box.buffer more most, d.added),
    )
