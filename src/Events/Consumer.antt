-- ===== src/Events/Consumer.antt =====
-- src/events/mod.rs: the loop that reads the in-process bus, and the task that it runs on. A turn of
-- the loop is what the signal and the channel, both a library's, say when `select!` polls them.
use luxor.Base.{ℕ, ◌+◌, Bool, true, false, List, [], ◌∷◌, if◌then◌else◌}
use luxor.Base.{Option, none, some}
use luxor.Tasks.{Shutdown, Timer, channel, fire}
use luxor.Events.Envelope.{ConsumedEvent}
use luxor.Events.{EventLog, record_event}

pub data RecvResult (P : Type 0) : Type 0 where
  event : ConsumedEvent P → RecvResult P
  lagged : ℕ → RecvResult P
  closed : RecvResult P

pub record Turn (P : Type 0) : Type 0 where
  pub requested : Bool
  pub received : RecvResult P

module _ {P S : Type 0} (handle : ConsumedEvent P → S → S) where
  -- One arm of `match received`; `false` breaks the loop.
  unfoldable pub on_received : RecvResult P → S → Bool × S
  on_received (event e) s = (true, handle e s)
  on_received (lagged missed) s = (true, s)
  on_received closed s = (false, s)

  -- The loop over the turns that it is given; `biased` puts the signal first.
  unfoldable pub consume : List (Turn P) → S → S
  unfolding on_received
  consume [] s = s
  consume (turn ∷ turns) s =
      let (more, next) = on_received turn.received s in
      let rest = consume turns next in if turn.requested then s else if more then rest else next

-- `EventHandler for EventLog`.
unfoldable pub handle_log :
    {P : Type 0} → ConsumedEvent P → EventLog (ConsumedEvent P) → EventLog (ConsumedEvent P)
unfolding record_event
handle_log e log = record_event e log

abbrev pub consumer_shutdown_timeout : ℕ
consumer_shutdown_timeout = 5000

pub record ConsumerTask (H : Type 0) : Type 0 where
  pub trigger : Shutdown
  pub task : H

-- The task is started with the signal and gives its handle.
unfoldable pub spawn_consumer : {H : Type 0} → (Shutdown → H) → ConsumerTask H
spawn_consumer run = record { trigger = channel; task = run channel }

-- Whether the task is said to have stopped, which a panic counts as.
abbrev pub has_stopped : Option Bool → Bool
has_stopped (some result) = true
has_stopped none = false

unfoldable pub stop : {H : Type 0} → Timer H → ℕ → ConsumerTask H → Shutdown × Bool × ℕ
stop timeout_at now consumer =
    let (result, last) = timeout_at now (now + consumer_shutdown_timeout) consumer.task in
    (fire consumer.trigger, has_stopped result, last)
