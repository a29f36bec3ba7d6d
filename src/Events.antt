-- ===== src/Events.antt =====
-- src/events/mod.rs: the log of recent events, whose lock makes each operation one step. The deque
-- is a list, oldest first; the consumed count has no bound.
pub mod Recent
pub mod Envelope
pub mod Bus
pub mod Domain
pub mod Consumer
pub mod Delivery
pub mod Kafka
use luxor.Base.{ℕ, ◌+◌, List, [], ◌∷◌, ◌++◌, length, take, ◌==◌, if◌then◌else◌}

abbrev pub event_log_capacity : ℕ
event_log_capacity = 100

pub record EventLog (E : Type 0) : Type 0 where
  pub events : List E
  pub consumed : ℕ

module _ {E : Type 0} where
  abbrev pub pop_front : List E → List E
  pop_front [] = []
  pop_front (e ∷ es) = es

  unfoldable pub reverse : List E → List E
  reverse [] = []
  reverse (e ∷ es) = reverse es ++ e ∷ []

  unfoldable pub new_log : EventLog E
  new_log = record { events = []; consumed = 0 }

  -- `record`, whose name is a keyword here, for any capacity.
  unfoldable pub record_within : ℕ → E → EventLog E → EventLog E
  record_within capacity e log = record {
    events = (if length log.events == capacity then pop_front log.events else log.events) ++ e ∷ [];
    consumed = log.consumed + 1;
  }

  unfoldable pub record_event : E → EventLog E → EventLog E
  unfolding record_within
  record_event e log = record_within event_log_capacity e log

  unfoldable pub recent : ℕ → EventLog E → List E
  unfolding reverse
  recent limit log = take limit (reverse log.events)

  -- Events recorded one after the other, the first of the list first.
  unfoldable pub record_all : List E → EventLog E → EventLog E
  unfolding record_event
  record_all [] log = log
  record_all (e ∷ es) log = record_all es (record_event e log)
