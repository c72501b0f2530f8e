-- ===== src/Events.antt =====
-- internal/events/hub.go: the hub of the events. The lock makes each call atomic, so a run is a sequence of calls.
-- A subscriber is named by the number of those before it, and is kept behind its end with its channel; a call that sends on a closed channel, or closes one again, panics.
pub mod Runs
mod Tests
use system_wrangler_backend.Prelude.{
  ℕ, ◌+◌, Bool, true, false, ◌&&◌, not, Option, none, some, List, [], ◌∷◌, ◌++◌, length, ltb,
  nat_beq, if◌then◌else◌, Bytes,
}
use system_wrangler_backend.Prelude.Maybe.{◌>>=◌}

-- A subscriber with the buffer of its channel; `is_registered` says if it is in the hub's set.
pub record Subscriber : Type 0 where
  pub buffer : List Bytes
  pub is_open : Bool
  pub is_registered : Bool

pub record Hub : Type 0 where
  pub subscribers : List Subscriber
  pub closed : Bool

abbrev pub new_hub : Hub
new_hub = record { subscribers = []; closed = false }

abbrev pub capacity : ℕ
capacity = 16

-- `close(s.Ch)`
close_channel : Subscriber → Option Subscriber
close_channel s = if s.is_open then some (record s { is_open = false }) else none

-- `delete(h.subscribers, s)` and the close of the channel, of one that is in the set.
unregister : Subscriber → Option Subscriber
unfolding close_channel
unregister s =
    if s.is_registered then close_channel (record s { is_registered = false }) else some s

-- The `select` of `Broadcast`; the default drops the event.
send : Bytes → Subscriber → Option Subscriber
send e s =
    if not s.is_registered
    then some s
    else if not s.is_open
    then none
    else if ltb (length s.buffer) capacity
    then some (record s { buffer = s.buffer ++ e ∷ [] })
    else some s

-- A receive of the owner takes the oldest event, if there is one.
behind_first : List Bytes → List Bytes
behind_first [] = []
behind_first (_ ∷ rest) = rest

receive : Subscriber → Option Subscriber
unfolding behind_first
receive s = some (record s { buffer = behind_first s.buffer })

-- A change of every subscriber, and of the one with a number.
unfoldable pub each : (Subscriber → Option Subscriber) → List Subscriber → Option (List Subscriber)
each f [] = some []
each f (s ∷ rest) = do s' ← f s; others ← each f rest; some (s' ∷ others)

unfoldable pub nth :
    (Subscriber → Option Subscriber) → ℕ → List Subscriber → Option (List Subscriber)
nth f n [] = some []
nth f n (s ∷ rest) = do
  s' ← if nat_beq n (length rest) then f s else some s
  others ← nth f n rest
  some (s' ∷ others)

pub data Op : Type 0 where
  subscribe close : Op
  unsubscribe receive_from : ℕ → Op
  broadcast : Bytes → Op

with_subscribers : Hub → List Subscriber → Hub
with_subscribers h subs = record h { subscribers = subs }

pub step : Op → Hub → Option Hub
unfolding unregister send receive each nth with_subscribers
step subscribe h = some (
    with_subscribers h (
      record { buffer = []; is_open = not h.closed; is_registered = not h.closed } ∷ h.subscribers))
step (unsubscribe n) h = do subs ← nth unregister n h.subscribers; some (with_subscribers h subs)
step close h =
    if h.closed
    then some h
    else (each unregister h.subscribers >>= λ subs.
        some (record { subscribers = subs; closed = true }))
step (broadcast e) h = do subs ← each (send e) h.subscribers; some (with_subscribers h subs)
step (receive_from n) h = do subs ← nth receive n h.subscribers; some (with_subscribers h subs)

pub run : List Op → Hub → Option Hub
unfolding step
run [] h = some h
run (op ∷ ops) h = step op h >>= run ops
