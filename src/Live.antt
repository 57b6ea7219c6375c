-- ===== src/Live.antt =====
-- The hub of a trip in backend/internal/http/handlers/ws.go: the loop of `Hub.run` over its channels.
-- A panic of Go is `none`.
pub mod Panics
pub mod Changes
pub mod Took
pub mod Delivery
pub mod Messages
pub mod Admission
mod Tests
use uitgo_monorepo.Base.{
  ℕ, zero, suc, String, Bool, true, false, Option, none, some, List, [], ◌∷◌, ◌++◌, length, ltb,
  if◌then◌else◌,
}

-- Whether `writePump` runs, or has returned: the message that it took and could not write, if there was
-- one.
pub data Pump : Type 0 where
  writing : Pump
  stopped : Option String → Pump

-- A `*Client` with its channel `send`: whether the map of the hub has it, what the channel holds and
-- whether it is closed, what `writePump` has written, whether that still runs, and whether `readPump`
-- has ended.
pub record Client : Type 0 where
  pub in_hub : Bool
  pub buffer : List String
  pub closed : Bool
  pub written : List String
  pub pump : Pump
  pub left : Bool

-- `make(chan []byte, 16)`
abbrev pub capacity : ℕ
capacity = 16

abbrev pub new_client : Client
new_client = record {
  in_hub = true;
  buffer = [];
  closed = false;
  written = [];
  pump = writing;
  left = false;
}

-- `delete(h.clients, client)` and `close(client.send)`: closing a closed channel panics.
unfoldable pub drop_client : Client → Option Client
drop_client c = if c.closed then none else some (record c { in_hub = false; closed = true })

-- The case of `h.unregister`.
unfoldable pub unregister_client : Client → Option Client
unfolding drop_client
unregister_client c = if c.in_hub then drop_client c else some c

-- One round of the case of `h.broadcast`: sending on a closed channel panics, and a client whose
-- channel is full is dropped.
unfoldable pub broadcast_client : String → Client → Option Client
unfolding drop_client
broadcast_client message c =
    if c.in_hub
    then if c.closed
      then none
      else if ltb (length c.buffer) capacity
      then some (record c { buffer = c.buffer ++ message ∷ [] })
      else drop_client c
    else some c

-- `client.send <- payload` of the handler. It waits while the channel is full.
unfoldable pub snapshot_client : String → Client → Option Client
snapshot_client message c =
    if c.closed
    then none
    else if ltb (length c.buffer) capacity
    then some (record c { buffer = c.buffer ++ message ∷ [] })
    else some c

-- With nothing left, `writePump` waits, and returns where the channel is closed.
unfoldable pub written_front : Client → List String → Client
written_front c [] = if c.closed then record c { pump = stopped none } else c
written_front c (message ∷ rest) = record c { buffer = rest; written = c.written ++ message ∷ [] }

unfoldable pub failed_front : Client → List String → Client
failed_front c [] = c
failed_front c (message ∷ rest) = record c { buffer = rest; pump = stopped (some message) }

-- A step of `writePump`, which makes none after it has returned.
unfoldable pub while_writing : Pump → Client → Client → Client
while_writing writing c' c = c'
while_writing (stopped o) c' c = c

-- `writePump` takes the next message, also of a closed channel, and writes it.
unfoldable pub write_client : Client → Option Client
unfolding written_front while_writing
write_client c = some (while_writing c.pump (written_front c c.buffer) c)

-- `writePump` takes the next message and returns, since it could not be written: the message is lost.
unfoldable pub fail_write_client : Client → Option Client
unfolding failed_front while_writing
fail_write_client c = some (while_writing c.pump (failed_front c c.buffer) c)

-- `writePump` returns, since a ping could not be written.
unfoldable pub fail_ping_client : Client → Option Client
unfolding while_writing
fail_ping_client c = some (while_writing c.pump (record c { pump = stopped none }) c)

unfoldable pub mark_left : Option Client → Option Client
mark_left none = none
mark_left (some c) = some (record c { left = true })

-- `readPump` ends once, and then sends its client to `h.unregister`.
unfoldable pub leave_client : Client → Option Client
unfolding mark_left
leave_client c = if c.left then some c else mark_left (unregister_client c)

-- The clients that were ever registered, the oldest first.
abbrev pub Hub : Type 0
Hub = List Client

abbrev pub put_front : Option Client → Option Hub → Option Hub
put_front none h = none
put_front (some c) none = none
put_front (some c) (some h) = some (c ∷ h)

abbrev pub with_rest : Option Client → Hub → Option Hub
with_rest none h = none
with_rest (some c) h = some (c ∷ h)

-- One client is changed; there may be none at the place.
unfoldable pub modify : ℕ → (Client → Option Client) → Hub → Option Hub
modify i f [] = some []
modify zero f (c ∷ h) = with_rest (f c) h
modify (suc i) f (c ∷ h) = put_front (some c) (modify i f h)

-- Every client is changed in turn.
unfoldable pub each : (Client → Option Client) → Hub → Option Hub
each f [] = some []
each f (c ∷ h) = put_front (f c) (each f h)

-- What happens at a hub: a case of the loop, or a step of a goroutine of a client.
pub data Event : Type 0 where
  registers : Event
  broadcasts : String → Event
  leaves writes fails_write fails_ping : ℕ → Event
  snapshots : ℕ → String → Event

unfoldable pub step : Event → Hub → Option Hub
step registers h = some (h ++ new_client ∷ [])
step (broadcasts message) h = each (broadcast_client message) h
step (leaves i) h = modify i leave_client h
step (writes i) h = modify i write_client h
step (fails_write i) h = modify i fail_write_client h
step (fails_ping i) h = modify i fail_ping_client h
step (snapshots i message) h = modify i (snapshot_client message) h

abbrev pub and_then : Option Hub → (Hub → Option Hub) → Option Hub
and_then none f = none
and_then (some h) f = f h

unfoldable pub run : List Event → Hub → Option Hub
run [] h = some h
run (e ∷ es) h = and_then (step e h) (run es)
