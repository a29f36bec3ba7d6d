-- ===== src/Realtime/Departure.antt =====
-- src/realtime.rs: the slot of a connection on every way out of its loop.
use luxor.Base.{
  ℕ, zero, suc, ◌-◌, ◌+◌, ◌≡◌, refl, ◌∙◌, Bool, true, false, Option, none, some, codes, List, [],
  ◌∷◌, ◌++◌, Text, leb, Bool-cases, Option-cases, Result-cases, inl, inr,
}
use luxor.Realtime.{RealtimeHub, release, SendQuota, allow, next_sequence}
use luxor.Realtime.Commands.{
  Participant, Limits, EventPayload, presence, left, ClientCommand, broadcast, Outcome,
  broadcast_outcome, notice_outcome, handle_command, publish, validate_text,
}
use luxor.Realtime.Connection.{
  Received, received, lagged, closed, Frame, close_frame, Message, text_message, binary_message,
  close_message, control_message, Wake, on_event, on_tick, on_socket, Connection, Going, put, send,
  fan_out, forward_event, and_then, drain, send_directly, take_outcome, answer_command, on_message,
  read_next, on_timer, turn, connection_loop, drop_slot, departed, finished, begin_loop, welcomed,
  run_connection, idle_timeout,
}

-- Neither the slot nor the count of connections has changed.
abbrev IsKept : Connection → Connection → Type 0
IsKept c d = (d.released ≡ c.released) × (d.hub.connections ≡ c.hub.connections)

Kept : Connection → Going → Type 0
Kept c (going, d) = IsKept c d

and_then-Kept :
    (c : Connection) (g : Going) (next : Connection → Going)
    → Kept c g
    → ((d : Connection) → Kept d (next d))
    → Kept c (and_then g next)
unfolding and_then Kept
and_then-Kept c (false, d) next k h = k
and_then-Kept c (true, d) next (a, b) h = let (p, q) = h d in (p ∙ a, q ∙ b)

put-Kept : (room : ℕ) (frame : Frame) (c : Connection) → Kept c (put room frame c)
unfolding Kept
put-Kept zero frame c = (refl, refl)
put-Kept (suc room) frame c = (refl, refl)

send-Kept : (frame : Frame) (c : Connection) → Kept c (send frame c)
unfolding send
send-Kept frame c = put-Kept c.room frame c

forward_event-Kept : (now : ℕ) (r : Received) (c : Connection) → Kept c (forward_event now r c)
unfolding forward_event Kept
forward_event-Kept now (received event) c = send-Kept _ c
forward_event-Kept now (lagged missed) c = send-Kept _ c
forward_event-Kept now closed c = (refl, refl)

drain-Kept : (now : ℕ) (rs : List Received) (c : Connection) → Kept c (drain now rs c)
unfolding drain Kept
drain-Kept now [] c = (refl, refl)
drain-Kept now (r ∷ rest) c =
    and_then-Kept c _ _ (forward_event-Kept now r (record c { pending = rest }))
      (drain-Kept now rest)

send_directly-Kept :
    (now : ℕ) (payload : EventPayload) (c : Connection) → Kept c (send_directly now payload c)
unfolding send_directly
send_directly-Kept now payload c =
    and_then-Kept c _ _ (drain-Kept now c.pending c) (λ d. send-Kept _ d)

publish_connections :
    (who : Participant) (text : Text) (hub : RealtimeHub) (d : Bool × SendQuota)
    → (publish who text hub d).1.0.connections ≡ hub.connections
unfolding publish next_sequence
publish_connections who text hub (false, q) = refl
publish_connections who text hub (true, q) = refl

module _ (parse : Text → Option ClientCommand) (who : Participant) where
  handle_command_connections :
      (now : ℕ) (hub : RealtimeHub) (raw : Text) (q : SendQuota)
      → (handle_command parse now hub who raw q).1.0.connections ≡ hub.connections
  unfolding handle_command
  handle_command_connections now hub raw q = elim (Option-cases (parse raw)) [
    | inl unread ↦ rw (unread, handle_command) refl
    | inr (broadcast text, read) ↦ elim (Result-cases (validate_text text)) [
      | inl (valid, fits) ↦
          rw (read, handle_command, fits) (publish_connections who valid hub (allow now q))
      | inr (detail, refused) ↦ rw (read, handle_command, refused) refl
    ]
  ]

  take_outcome-Kept :
      (now : ℕ) (outcome : Option Outcome) (c : Connection)
      → Kept c (take_outcome parse who now outcome c)
  unfolding Kept fan_out
  take_outcome-Kept now none c = (refl, refl)
  take_outcome-Kept now (some (broadcast_outcome payload)) c = (refl, refl)
  take_outcome-Kept now (some (notice_outcome payload)) c = send_directly-Kept now payload c

  answer_command-Kept :
      (now : ℕ) (c : Connection) (r : Option Outcome × (RealtimeHub × SendQuota))
      → r.1.0.connections ≡ c.hub.connections
      → Kept c (answer_command parse who now c r)
  unfolding Kept
  answer_command-Kept now c (outcome, (hub, quota)) e =
      let (a, b) = take_outcome-Kept now outcome (record c { hub = hub; quota = quota }) in
      (a, b ∙ e)

  on_message-Kept : (now : ℕ) (m : Message) (c : Connection) → Kept c (on_message parse who now m c)
  unfolding Kept on_message
  on_message-Kept now (text_message text) c =
      answer_command-Kept now c _ (handle_command_connections now c.hub text c.quota)
  on_message-Kept now binary_message c = send_directly-Kept now _ c
  on_message-Kept now close_message c = (refl, refl)
  on_message-Kept now control_message c = (refl, refl)

  read_next-Kept :
      (now : ℕ) (rs : List Received) (c : Connection) → Kept c (read_next parse who now rs c)
  unfolding Kept
  read_next-Kept now [] c = (refl, refl)
  read_next-Kept now (r ∷ rest) c = forward_event-Kept now r (record c { pending = rest })

  on_timer-Kept : (now : ℕ) (c : Connection) → Kept c (on_timer parse who now c)
  unfolding Kept on_timer
  on_timer-Kept now c = elim (Bool-cases (leb idle_timeout (now - c.last_seen))) [
    | inl idle ↦ rw idle (send-Kept _ c)
    | inr live ↦ rw live (
        and_then-Kept c _ _
          (send_directly-Kept now _ (record c { tick_sequence = c.tick_sequence + 1 }))
          (send-Kept _))
  ]

  turn-Kept : (now : ℕ) (wake : Wake) (c : Connection) → Kept c (turn parse who now wake c)
  unfolding Kept turn
  turn-Kept now on_event c = read_next-Kept now c.pending c
  turn-Kept now (on_socket none) c = (refl, refl)
  turn-Kept now (on_socket (some m)) c = on_message-Kept now m (record c { last_seen = now })
  turn-Kept now on_tick c = on_timer-Kept now c

  connection_loop-Kept :
      (turns : List (ℕ × List Received × Wake)) (c : Connection)
      → Kept c (connection_loop parse who turns c)
  unfolding Kept connection_loop
  connection_loop-Kept [] c = (refl, refl)
  connection_loop-Kept ((now, arrived, wake) ∷ rest) c =
      and_then-Kept c _ _ (turn-Kept now wake (record c { pending = c.pending ++ arrived }))
        (connection_loop-Kept rest)

  -- How a connection leaves the slot: as it was while it runs, given back once it has ended.
  pub LeavesSlot : Connection → Going → Type 0
  LeavesSlot c (true, d) = (d.released ≡ false) × (d.hub.connections ≡ c.hub.connections)
  LeavesSlot c (false, d) = (d.released ≡ true) × (d.hub.connections ≡ c.hub.connections - 1)

  drop_slot_lem :
      (c d : Connection)
      → c.released ≡ false
      → IsKept c d
      → ((drop_slot parse who d).released ≡ true)
        × ((drop_slot parse who d).hub.connections ≡ c.hub.connections - 1)
  unfolding drop_slot release
  drop_slot_lem c d fresh (a, b) = rw (a, fresh) (refl, rw b refl)

  drop_slot_again :
      (d : Connection)
      → d.released ≡ true
      → ((drop_slot parse who d).released ≡ true)
        × ((drop_slot parse who d).hub.connections ≡ d.hub.connections)
  unfolding drop_slot release
  drop_slot_again d gone = rw gone (refl, refl)

  departed_lem :
      (id later : ℕ) (c d : Connection)
      → c.released ≡ false
      → IsKept c d
      → LeavesSlot c (false, departed parse who id later d)
  unfolding LeavesSlot departed fan_out Kept
  departed_lem id later c d fresh kept =
      let (given, count) = drop_slot_lem c d fresh kept in
      let frame = close_frame (codes "connection closed") in
      let told = fan_out later (presence left id who) (drop_slot parse who d) in
      let (same_flag, same_count) = send-Kept frame told in
      let (flag, total) = drop_slot_again (send frame told).1 (same_flag ∙ given) in
      (flag, total ∙ (same_count ∙ count))

  finished_lem :
      (id later : ℕ) (c : Connection) (g : Going)
      → c.released ≡ false
      → Kept c g
      → LeavesSlot c (finished parse who id later g)
  unfolding LeavesSlot Kept
  finished_lem id later c (true, d) fresh (a, b) = (a ∙ fresh, b)
  finished_lem id later c (false, d) fresh kept = departed_lem id later c d fresh kept

  begin_loop-IsKept : (id now : ℕ) (c : Connection) → IsKept c (begin_loop parse who id now c)
  unfolding begin_loop fan_out
  begin_loop-IsKept id now c = (refl, refl)

  welcomed_lem :
      (id now later : ℕ) (turns : List (ℕ × List Received × Wake)) (c : Connection) (g : Going)
      → c.released ≡ false
      → Kept c g
      → LeavesSlot c (welcomed parse who id now later turns g)
  unfolding Kept LeavesSlot
  welcomed_lem id now later turns c (false, d) fresh kept = drop_slot_lem c d fresh kept
  welcomed_lem id now later turns c (true, d) fresh (a, b) =
      let (f, h) = begin_loop-IsKept id now d in
      let (p, q) = connection_loop-Kept turns (begin_loop parse who id now d) in
      finished_lem id later c (connection_loop parse who turns (begin_loop parse who id now d))
        fresh (p ∙ (f ∙ a), q ∙ (h ∙ b))

  -- Whatever others publish, the peer sends, the timer does and wherever the socket fails, a
  -- connection that begins with its slot still has it, and the hub the same count, while it runs,
  -- and once it has ended the slot is released and the count is one less.
  pub run_connection-LeavesSlot :
      (limits : Limits) (id now later : ℕ) (turns : List (ℕ × List Received × Wake))
      (c : Connection)
      → c.released ≡ false
      → LeavesSlot c (run_connection parse who limits id now later turns c)
  unfolding run_connection
  run_connection-LeavesSlot limits id now later turns c fresh =
      welcomed_lem id now later turns c _ fresh (send-Kept _ c)
