-- ===== src/Events/Bus.antt =====
-- src/events/mod.rs: the bus that stands in for a broker. The broadcast channel is a library's:
-- `sent` is what the bus has handed to it, oldest first. An offset is the word of 64 bits that the
-- atomic counter holds.
use luxor.Base.{ℕ, ◌+◌, ◌%◌, ◌^◌, List, [], ◌∷◌, ◌++◌, Text, Result, ok}
use luxor.Error.{AppError}
use luxor.Events.Envelope.{Event, PublishReceipt, ConsumedEvent, new_envelope}

-- The events that the channel keeps for one subscriber.
abbrev pub memory_bus_capacity : ℕ
memory_bus_capacity = 256

pub record MemoryEventBus (P : Type 0) : Type 0 where
  pub sent : List (ConsumedEvent P)
  pub next_offset : ℕ

-- A call of `publish`: the event, the identifier drawn, and the clock's two answers.
pub record Publication (P : Type 0) : Type 0 where
  pub event : P
  pub id : Text
  pub now : ℕ
  pub later : ℕ

unfoldable pub new_bus : {P : Type 0} → MemoryEventBus P
new_bus = record { sent = []; next_offset = 0 }

module _ {P : Type 0} (event : Event P) where
  unfoldable pub publish_memory :
      Publication P → MemoryEventBus P → Result AppError (PublishReceipt P) × MemoryEventBus P
  unfolding new_envelope
  publish_memory call bus =
      let envelope = new_envelope event call.id call.now call.event in
      let offset = bus.next_offset in
      (
        ok record { partition = 0; offset = offset; envelope = envelope },
        record {
          sent =
              bus.sent
              ++ record {
                partition = 0;
                offset = offset;
                consumed_at = call.later;
                envelope = envelope;
              }
                ∷ [];
          next_offset = (bus.next_offset + 1) % 2 ^ 64;
        },
      )

  -- The answers to calls made one after the other, and the bus after them.
  unfoldable pub publish_all :
      List (Publication P)
      → MemoryEventBus P
      → List (Result AppError (PublishReceipt P)) × MemoryEventBus P
  unfolding publish_memory
  publish_all [] bus = ([], bus)
  publish_all (call ∷ calls) bus =
      let (answer, next) = publish_memory call bus in
      let (answers, last) = publish_all calls next in (answer ∷ answers, last)
