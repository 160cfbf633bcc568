-- ===== src/Proxy/Bridge.antt =====
-- internal/proxy/ws_handler.go: `HandleUpgrade`, which copies between a WebSocket and the target's
-- connection. What the upgrade, the dial, the reads and the writes answer is an argument, in the
-- order in which the loops and the handler act.
pub mod Relay
use pspxy.Base.{
  ℕ, Bool, true, false, ◌&&◌, ◌||◌, List, [], ◌∷◌, ◌++◌, take, Option, none, some, if◌then◌else◌,
  Text,
}

-- The kinds of messages.
pub data MsgType : Type 0 where
  text_message binary_message other_message : MsgType

-- One copying loop: whether it has returned, and what it has written.
pub record Pump (A : Type 0) : Type 0 where
  pub is_done : Bool
  pub out : List A

-- One turn of it: the read fails; all is written; the write fails after some.
pub data Turn (A : Type 0) : Type 0 where
  read_failed : Turn A
  all_written : List A → Turn A
  write_failed : List A → ℕ → Turn A

module _ {A : Type 0} where
  turn : Turn A → Pump A → Pump A
  turn read_failed p = record p { is_done = true }
  turn (all_written xs) p = record p { out = p.out ++ xs }
  turn (write_failed xs n) p = record { is_done = true; out = p.out ++ take n xs }

  unfoldable pub pump : Turn A → Pump A → Pump A
  unfolding turn
  pump t p = if p.is_done then p else turn t p

-- The two loops, and whether the handler has returned and closed both connections.
pub record Bridge : Type 0 where
  pub to_target : Pump ℕ
  pub to_client : Pump Text
  pub is_closed : Bool

-- A message of the client, unless the read fails, and after how many bytes its write fails; a chunk
-- of the target, and whether it is sent; the handler goes on where `done` has an element.
pub data Event : Type 0 where
  from_client : Option (MsgType × Text) → Option ℕ → Event
  from_target : Option Text → Bool → Event
  finish : Event

unfoldable pub client_turn : Option (MsgType × Text) → Option ℕ → Turn ℕ
client_turn none w = read_failed
client_turn (some (other_message, d)) w = all_written []
client_turn (some (k, d)) none = all_written d
client_turn (some (k, d)) (some n) = write_failed d n

unfoldable pub target_turn : Option Text → Bool → Turn Text
target_turn none sent = read_failed
target_turn (some d) true = all_written (d ∷ [])
target_turn (some d) false = write_failed (d ∷ []) 0

-- Every read fails on a closed connection.
unfoldable pub step : Event → Bridge → Bridge
unfolding pump client_turn target_turn
step (from_client m w) b = record b {
  to_target = pump (if b.is_closed then read_failed else client_turn m w) b.to_target;
}
step (from_target d sent) b = record b {
  to_client = pump (if b.is_closed then read_failed else target_turn d sent) b.to_client;
}
step finish b = record b { is_closed = b.is_closed || b.to_target.is_done || b.to_client.is_done }

unfoldable pub run : List Event → Bridge → Bridge
unfolding step
run [] b = b
run (e ∷ es) b = run es (step e b)

abbrev pub opened : Bridge
opened = record {
  to_target = record { is_done = false; out = [] };
  to_client = record { is_done = false; out = [] };
  is_closed = false;
}

-- The upgrade and the dial first; without both, no loop starts.
unfoldable pub handle_upgrade : Bool → Bool → List Event → Option Bridge
unfolding run
handle_upgrade upgraded dialed es = if upgraded && dialed then some (run es opened) else none
