-- ===== src/Bg96/Connections.antt =====
-- The numbers of the BG96's connections, and the event `_CONN` that asks for one: Mc60Modem::connect
-- in src/bg96Modem/Bg96Modem.cc.
use libcomms.Base.{
  ℕ, suc, ◌≡◌, refl, Bool, true, false, Option, none, some, List, [], ◌∷◌, ◌++◌, Bytes, codes,
  length, leb, if◌then◌else◌, All, ap, ◌+◌,
}

pub data ConnectionState : Type 0 where
  not_connected tcp_connected : ConnectionState

abbrev pub max_connections : ℕ
max_connections = 12

-- The events of the driver's queue (src/BinaryEvent.h): the bytes, and the three further members.
pub record BinaryEvent : Type 0 where
  pub bytes : Bytes
  pub arg_str : Option Bytes
  pub arg_int1 : ℕ
  pub arg_int2 : ℕ

abbrev next : Option ℕ → Option ℕ
next none = none
next (some i) = some (suc i)

-- The loop for firstEmptyConnectionNumber; `none` is -1.
unfoldable pub first_empty : List ConnectionState → Option ℕ
first_empty [] = none
first_empty (not_connected ∷ _) = some 0
first_empty (tcp_connected ∷ states) = next (first_empty states)

abbrev pub conn_event : Bytes → ℕ → ℕ → BinaryEvent
conn_event address port number = record {
  bytes = codes "_CONN";
  arg_str = some address;
  arg_int1 = port;
  arg_int2 = number;
}

-- The queue of `queue_size` events holds `others` lines of the modem beside the client's events.
unfoldable pub push : ℕ → ℕ → Option ℕ → Bytes → ℕ → List BinaryEvent → List BinaryEvent × Bool
push queue_size others none address port queue = (queue, false)
push queue_size others (some number) address port queue =
    if leb queue_size (length queue + others)
    then (queue, false)
    else (queue ++ conn_event address port number ∷ [], true)

-- Mc60Modem::connect: the client's events in the queue after the call, and what it answers.
unfoldable pub connect :
    ℕ → ℕ → List ConnectionState → Bytes → ℕ → List BinaryEvent → List BinaryEvent × Bool
unfolding push
connect queue_size others states address port queue =
    push queue_size others (first_empty states) address port queue

abbrev pub FirstEmpty : List ConnectionState → Option ℕ → Type 0
FirstEmpty states none = All (λ s. s ≡ tcp_connected) states
FirstEmpty states (some n) =
    (taken : List ConnectionState) × (rest : List ConnectionState) × (states
      ≡ taken ++ not_connected ∷ rest)
    × (length taken ≡ n)
    × All (λ s. s ≡ tcp_connected) taken

next-FirstEmpty :
    (states : List ConnectionState) (o : Option ℕ)
    → FirstEmpty states o
    → FirstEmpty (tcp_connected ∷ states) (next o)
next-FirstEmpty states none h = (refl, h)
next-FirstEmpty states (some n) (taken, rest, splits, len, all) =
    (tcp_connected ∷ taken, rest, ap (λ x. tcp_connected ∷ x) splits, ap suc len, (refl, all))

-- The loop of connect finds the first connection that is not taken: all before it are, and it finds
-- none only if all are taken.
first_empty_sound : (states : List ConnectionState) → FirstEmpty states (first_empty states)
unfolding first_empty
first_empty_sound [] = tt
first_empty_sound (not_connected ∷ states) = ([], states, refl, refl, tt)
first_empty_sound (tcp_connected ∷ states) =
    next-FirstEmpty states (first_empty states) (first_empty_sound states)
