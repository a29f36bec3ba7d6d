-- ===== src/Realtime/Connection.antt =====
-- src/realtime.rs: `run_connection`, one turn of whose loop is one step. Times are nanoseconds. A
-- connection's subscription is the list of what it will still read from the channel, which is a
-- library's: what others publish joins it between turns, and what it lost shows as `lagged`. The
-- socket takes as many frames as it has room for and fails from then on.
use luxor.Base.{
  ℕ, zero, suc, ◌+◌, ◌-◌, ◌*◌, Bool, true, false, Option, none, some, List, [], ◌∷◌, ◌++◌, Text,
  codes, to_decimal, leb, if◌then◌else◌,
}
use luxor.RateLimit.{nanos_per_second}
use luxor.Realtime.{RealtimeHub, release, SendQuota, new_quota}
use luxor.Realtime.Commands.{
  Participant, Limits, joined, left, EventPayload, welcome, presence, tick, notice, ClientCommand,
  Outcome, broadcast_outcome, notice_outcome, handle_command,
}

abbrev pub idle_timeout : ℕ
idle_timeout = 60 * nanos_per_second

pub record ServerEvent : Type 0 where
  pub at : ℕ
  pub connections : ℕ
  pub payload : EventPayload

-- What a read of the subscription gives.
pub data Received : Type 0 where
  received : ServerEvent → Received
  lagged : ℕ → Received
  closed : Received

pub data Frame : Type 0 where
  event_frame : ServerEvent → Frame
  ping_frame : Frame
  close_frame : Text → Frame

pub data Message : Type 0 where
  text_message : Text → Message
  binary_message close_message control_message : Message

-- What wakes the loop: the subscription, the socket (`none` once it is gone), or the timer.
pub data Wake : Type 0 where
  on_event on_tick : Wake
  on_socket : Option Message → Wake

pub record Connection : Type 0 where
  pub hub : RealtimeHub
  pub released : Bool
  pub quota : SendQuota
  pub last_seen : ℕ
  pub tick_sequence : ℕ
  pub pending : List Received
  pub room : ℕ
  pub written : List Frame

-- The result of a fallible send, and of a turn: whether the loop goes on.
abbrev pub Going : Type 0
Going = Bool × Connection

unfoldable pub envelope : ℕ → EventPayload → Connection → ServerEvent
envelope now payload c = record { at = now; connections = c.hub.connections; payload = payload }

abbrev pub put : ℕ → Frame → Connection → Going
put zero frame c = (false, c)
put (suc room) frame c = (true, record c { room = room; written = c.written ++ frame ∷ [] })

unfoldable pub send : Frame → Connection → Going
send frame c = put c.room frame c

-- `RealtimeHub::publish`, as this connection's own subscription sees it.
unfoldable pub fan_out : ℕ → EventPayload → Connection → Connection
unfolding envelope
fan_out now payload c = record c { pending = c.pending ++ received (envelope now payload c) ∷ [] }

abbrev pub lagged_detail : ℕ → Text
lagged_detail missed =
    to_decimal missed ++ codes " events were dropped because this connection fell behind"

unfoldable pub forward_event : ℕ → Received → Connection → Going
unfolding send envelope to_decimal
forward_event now (received event) c = send (event_frame event) c
forward_event now (lagged missed) c =
    send (event_frame (envelope now (notice (codes "lagged") (lagged_detail missed)) c)) c
forward_event now closed c = (false, c)

-- `?` on a send, and what follows it.
unfoldable pub and_then : Going → (Connection → Going) → Going
and_then (false, c) next = (false, c)
and_then (true, c) next = next c

-- The loop of `send_directly`, which reads until nothing is pending.
unfoldable pub drain : ℕ → List Received → Connection → Going
unfolding forward_event and_then
drain now [] c = (true, record c { pending = [] })
drain now (r ∷ rest) c =
    and_then (forward_event now r (record c { pending = rest })) (drain now rest)

unfoldable pub send_directly : ℕ → EventPayload → Connection → Going
unfolding drain send envelope and_then
send_directly now payload c =
    and_then (drain now c.pending c) (λ d. send (event_frame (envelope now payload d)) d)

module _ (parse : Text → Option ClientCommand) (who : Participant) where
  abbrev pub take_outcome : ℕ → Option Outcome → Connection → Going
  take_outcome now none c = (true, c)
  take_outcome now (some (broadcast_outcome payload)) c = (true, fan_out now payload c)
  take_outcome now (some (notice_outcome payload)) c = send_directly now payload c

  abbrev pub answer_command : ℕ → Connection → Option Outcome × (RealtimeHub × SendQuota) → Going
  answer_command now c (outcome, (hub, quota)) =
      take_outcome now outcome (record c { hub = hub; quota = quota })

  abbrev pub unsupported_frame : EventPayload
  unsupported_frame =
      notice (codes "unsupported_frame") (codes "this endpoint speaks JSON text frames")

  unfoldable pub on_message : ℕ → Message → Connection → Going
  unfolding handle_command send_directly
  on_message now (text_message text) c =
      answer_command now c (handle_command parse now c.hub who text c.quota)
  on_message now binary_message c = send_directly now unsupported_frame c
  on_message now close_message c = (false, c)
  on_message now control_message c = (true, c)

  abbrev pub read_next : ℕ → List Received → Connection → Going
  read_next now [] c = (true, c)
  read_next now (r ∷ rest) c = forward_event now r (record c { pending = rest })

  unfoldable pub on_timer : ℕ → Connection → Going
  unfolding send send_directly and_then
  on_timer now c =
      if leb idle_timeout (now - c.last_seen)
      then (false, (send (close_frame (codes "idle timeout")) c).1)
      else and_then
          (send_directly now (tick (c.tick_sequence + 1))
            (record c { tick_sequence = c.tick_sequence + 1 }))
          (send ping_frame)

  -- One turn of the loop.
  unfoldable pub turn : ℕ → Wake → Connection → Going
  unfolding on_message on_timer forward_event
  turn now on_event c = read_next now c.pending c
  turn now (on_socket none) c = (false, c)
  turn now (on_socket (some m)) c = on_message now m (record c { last_seen = now })
  turn now on_tick c = on_timer now c

  -- What others publish between two turns, then the turn.
  unfoldable pub connection_loop : List (ℕ × List Received × Wake) → Connection → Going
  unfolding turn and_then
  connection_loop [] c = (true, c)
  connection_loop ((now, arrived, wake) ∷ rest) c =
      and_then (turn now wake (record c { pending = c.pending ++ arrived })) (connection_loop rest)

  -- `ConnectionSlot::release`.
  abbrev released_slot : Connection → Bool × RealtimeHub → Connection
  released_slot c (flag, hub) = record c { released = flag; hub = hub }

  unfoldable pub drop_slot : Connection → Connection
  unfolding release
  drop_slot c = released_slot c (release c.released c.hub)

  -- What follows the loop; the slot is dropped again at the end.
  unfoldable pub departed : ℕ → ℕ → Connection → Connection
  unfolding drop_slot fan_out send
  departed id now c =
      drop_slot
        (send (close_frame (codes "connection closed"))
          (fan_out now (presence left id who) (drop_slot c))).1

  -- A connection that still runs when the turns end is left as it is.
  abbrev pub finished : ℕ → ℕ → Going → Going
  finished id later (true, c) = (true, c)
  finished id later (false, c) = (false, departed id later c)

  unfoldable pub begin_loop : ℕ → ℕ → Connection → Connection
  unfolding fan_out new_quota
  begin_loop id now c = record (fan_out now (presence joined id who) c) {
    quota = new_quota now;
    last_seen = now;
    tick_sequence = 0;
  }

  -- After the welcome.
  abbrev pub welcomed : ℕ → ℕ → ℕ → List (ℕ × List Received × Wake) → Going → Going
  welcomed id now later turns (false, c) = (false, drop_slot c)
  welcomed id now later turns (true, c) =
      finished id later (connection_loop turns (begin_loop id now c))

  unfoldable pub run_connection :
      Limits → ℕ → ℕ → ℕ → List (ℕ × List Received × Wake) → Connection → Going
  unfolding envelope send connection_loop begin_loop drop_slot departed
  run_connection limits id now later turns c =
      welcomed id now later turns (send (event_frame (envelope now (welcome id who limits) c)) c)
