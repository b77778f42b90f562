-- ===== src/Mc60/Run/Views.antt =====
-- Mc60Modem as a stream: what each action does to the view of the client.
use libcomms.Base.{
  ◌≤◌, ◌<◌, ◌≡◌, take, refl, sym, subst, inl, inr, Bool, true, false, List, [], ◌∷◌, Bytes, arith,
  length, Bool-cases,
}
use libcomms.Machine.Steps.{every}
use libcomms.Mc60.Driver.{
  Modem, Act, Context, at, declare_action, connected_action, disconnected_action, prepare_action,
  on_connected, on_disconnected, perform, perform_all,
}
use libcomms.Mc60.Outbox.{output_buffer_size}
use libcomms.Mc60.Outbox.Queue.{prepare_lem}
use libcomms.Mc60.Run.Sent.{declare_lem}
use libcomms.Mc60.Stream.{Stream, Moves, delivers, opens, closes}

abbrev pub view : Modem → Stream
view m = record { connected = m.connected; waiting = m.box.buffer }

abbrev pub Reaches : (Bytes → Type 0) → Modem → Bytes → Modem → Type 0
Reaches Confirmed start xs m = Moves output_buffer_size Confirmed (view start) xs (view m)

abbrev is_silent : Act → Bool
is_silent connected_action = false
is_silent disconnected_action = false
is_silent declare_action = false
is_silent _ = true

abbrev pub no_declare : Act → Bool
no_declare declare_action = false
no_declare _ = true

connected-silent :
    (c : Context) (a : Act) (m : Modem)
    → is_silent a ≡ true
    → (perform c a m).connected ≡ m.connected
unfolding perform
connected-silent c (at command) m h = ground arith
connected-silent c _ m h = ground arith

waiting-silent :
    (c : Context) (a : Act) (m : Modem)
    → is_silent a ≡ true
    → (perform c a m).box.buffer ≡ m.box.buffer
unfolding perform
waiting-silent c prepare_action m h = ground (arith, prepare_lem c.event m.box)
waiting-silent c _ m h = ground arith

view_fields :
    (n : Modem) {b : Bool} {s : Bytes}
    → n.connected ≡ b
    → n.box.buffer ≡ s
    → view n ≡ record { connected = b; waiting = s }
view_fields n h k = rw (h, k) refl

on_connected-view :
    (m : Modem) → view (on_connected m) ≡ record { connected = true; waiting = m.box.buffer }
unfolding on_connected
on_connected-view m = view_fields (on_connected m) (ground arith) (ground arith)

on_disconnected-view :
    (m : Modem)
    → m.connected ≡ true
    → view (on_disconnected m) ≡ record { connected = false; waiting = [] }
unfolding on_disconnected
on_disconnected-view m h = view_fields (on_disconnected m) (ground arith) (ground arith)

-- A driver that is not connected ignores a disconnection, and a connected one a connection.
connected_again : (m : Modem) → m.connected ≡ true → on_connected m ≡ m
unfolding on_connected
connected_again m h = rw h refl

disconnected_again : (m : Modem) → m.connected ≡ false → on_disconnected m ≡ m
unfolding on_disconnected
disconnected_again m h = rw h refl

module _ {Confirmed : Bytes → Type 0} (start : Modem) {xs : Bytes} where
  pub same-Reaches :
      (m n : Modem)
      → n.connected ≡ m.connected
      → n.box.buffer ≡ m.box.buffer
      → Reaches Confirmed start xs m
      → Reaches Confirmed start xs n
  same-Reaches m n h k r =
      subst (λ v. Moves output_buffer_size Confirmed (view start) xs v) (sym (view_fields n h k)) r

  on_connected-Reaches :
      (m : Modem) → Reaches Confirmed start xs m → Reaches Confirmed start xs (on_connected m)
  on_connected-Reaches m r = elim (Bool-cases m.connected) [
    | inl already ↦ subst (λ n. Reaches Confirmed start xs n) (sym (connected_again m already)) r
    | inr not_yet ↦ opens r not_yet (on_connected-view m)
  ]

  on_disconnected-Reaches :
      (m : Modem) → Reaches Confirmed start xs m → Reaches Confirmed start xs (on_disconnected m)
  on_disconnected-Reaches m r = elim (Bool-cases m.connected) [
    | inl now ↦ closes r now (on_disconnected-view m now)
    | inr already ↦ subst (λ n. Reaches Confirmed start xs n) (sym (disconnected_again m already)) r
  ]

  perform-Reaches :
      (c : Context) (a : Act) (m : Modem)
      → no_declare a ≡ true
      → Reaches Confirmed start xs m
      → Reaches Confirmed start xs (perform c a m)
  perform-Reaches c connected_action m h r = unfold perform in (on_connected-Reaches m r)
  perform-Reaches c disconnected_action m h r = unfold perform in (on_disconnected-Reaches m r)
  perform-Reaches c declare_action m h r = cc
  perform-Reaches c a m h r =
      same-Reaches m (perform c a m) (connected-silent c a m refl) (waiting-silent c a m refl) r

  pub perform_all-Reaches :
      (c : Context) (acts : List Act) (m : Modem)
      → every no_declare acts ≡ true
      → Reaches Confirmed start xs m
      → Reaches Confirmed start xs (perform_all c acts m)
  unfolding perform_all
  perform_all-Reaches c [] m h r = r
  perform_all-Reaches c (a ∷ acts) m h r =
      perform_all-Reaches c acts (perform c a m) (ground arith)
        (perform-Reaches c a m (ground arith) r)

  -- The announced bytes are delivered, if they all wait and are confirmed.
  pub declare-Reaches :
      (c : Context) (m : Modem)
      → 0 < m.box.to_send
      → m.box.to_send ≤ length m.box.buffer
      → Confirmed (take m.box.to_send m.box.buffer)
      → Reaches Confirmed start xs m
      → Reaches Confirmed start xs (perform_all c (declare_action ∷ []) m)
  unfolding perform perform_all
  declare-Reaches c m pos fits confirmed r =
      delivers m.box.to_send r pos fits confirmed (rw (declare_lem m.box) refl)
