-- ===== src/Events/Kafka/Replay.antt =====
-- src/events/kafka.rs: the order of what the consumer does with a record and what it commits.
use luxor.Base.{
  ℕ, ◌≡◌, refl, Option, none, some, List, [], ◌∷◌, ◌++◌, Text, Result, ok, err, inl, inr,
  Bool-cases,
}
use luxor.Events.Envelope.{EventEnvelope}
use luxor.Events.Kafka.{KafkaError, is_missing_topic}
use luxor.Events.Kafka.Reading.{
  BorrowedMessage, Effect, handle, skip, commit_message, sleep, KafkaTurn, refused, decode,
  hand_over, consume_message, report, on_recv, is_no_offset, commit_on_shutdown, consume_kafka,
}

module _ {P : Type 0} where
  -- The record that an effect settles: it has been handled, or cannot be read.
  abbrev settled : Effect P → Option (ℕ × ℕ) → Option (ℕ × ℕ)
  settled (handle e) last = some (e.partition, e.offset)
  settled (skip partition offset reason) last = some (partition, offset)
  settled _ last = last

  abbrev IsDue : Effect P → Option (ℕ × ℕ) → Type 0
  IsDue (commit_message partition offset) last = last ≡ some (partition, offset)
  IsDue _ last = Unit

  -- Each record that is committed is the one that was settled last.
  unfoldable pub IsAfterSettling : Option (ℕ × ℕ) → List (Effect P) → Type 0
  IsAfterSettling last [] = Unit
  IsAfterSettling last (effect ∷ effects) =
      IsDue effect last × IsAfterSettling (settled effect last) effects

  refused-IsAfterSettling :
      (refusal : Option KafkaError) (rest : List (Effect P)) (last : Option (ℕ × ℕ))
      → IsAfterSettling last rest
      → IsAfterSettling last (refused refusal ++ rest)
  unfolding refused IsAfterSettling
  refused-IsAfterSettling none rest last h = h
  refused-IsAfterSettling (some e) rest last h = (tt, h)

  hand_over-IsAfterSettling :
      (message : BorrowedMessage) (now : ℕ) (d : Result Text (EventEnvelope P))
      (rest : List (Effect P)) (last : Option (ℕ × ℕ))
      → IsAfterSettling (some (message.partition, message.offset)) rest
      → IsAfterSettling last
          (hand_over message now d ∷ commit_message message.partition message.offset ∷ rest)
  unfolding hand_over IsAfterSettling
  hand_over-IsAfterSettling message now (ok envelope) rest last h = (tt, (refl, h))
  hand_over-IsAfterSettling message now (err reason) rest last h = (tt, (refl, h))

  report-IsAfterSettling :
      (e : KafkaError) (rest : List (Effect P)) (last : Option (ℕ × ℕ))
      → IsAfterSettling last rest
      → IsAfterSettling last (report e ∷ rest)
  unfolding report IsAfterSettling
  report-IsAfterSettling e rest last h = elim (Bool-cases (is_missing_topic e)) [
    | inl missing ↦ rw missing (tt, h)
    | inr present ↦ rw present (tt, h)
  ]

module _ (P : Type 0) where
  commit_on_shutdown-IsAfterSettling :
      (answer : Result KafkaError (Unit {0})) (last : Option (ℕ × ℕ))
      → IsAfterSettling last (commit_on_shutdown {P = P} answer)
  unfolding commit_on_shutdown IsAfterSettling
  commit_on_shutdown-IsAfterSettling (ok _) last = (tt, tt)
  commit_on_shutdown-IsAfterSettling (err e) last = elim (Bool-cases (is_no_offset e)) [
    | inl idle ↦ rw idle (tt, tt)
    | inr busy ↦ rw busy (tt, (tt, tt))
  ]

module _ {P : Type 0} (from_slice : Text → Result Text (EventEnvelope P)) where
  on_recv-IsAfterSettling :
      (turn : KafkaTurn) (r : Result KafkaError BorrowedMessage) (rest : List (Effect P))
      (last : Option (ℕ × ℕ))
      → ((now : Option (ℕ × ℕ)) → IsAfterSettling now rest)
      → IsAfterSettling last (on_recv from_slice turn r ++ rest)
  unfolding on_recv consume_message IsAfterSettling
  on_recv-IsAfterSettling turn (ok message) rest last h =
      hand_over-IsAfterSettling message turn.now (decode from_slice message)
        (refused turn.refusal ++ rest) last (refused-IsAfterSettling turn.refusal rest _ (h _))
  on_recv-IsAfterSettling turn (err e) rest last h =
      report-IsAfterSettling e (sleep ∷ rest) last (tt, h last)

  consume_kafka-after :
      (answer : Result KafkaError (Unit {0})) (turns : List KafkaTurn) (last : Option (ℕ × ℕ))
      → IsAfterSettling last (consume_kafka from_slice answer turns)
  unfolding consume_kafka IsAfterSettling
  consume_kafka-after answer [] last = tt
  consume_kafka-after answer (turn ∷ turns) last = elim (Bool-cases turn.requested) [
    | inl stop ↦ rw stop (commit_on_shutdown-IsAfterSettling P answer last)
    | inr go ↦ rw go (
        on_recv-IsAfterSettling turn turn.received (consume_kafka from_slice answer turns) last
          (consume_kafka-after answer turns))
  ]

  -- At least once: whatever the consumer reads, it commits the place of a record only when that record
  -- is the last it has handled, or has found to be no event.
  pub consume_kafka-IsAfterSettling :
      (answer : Result KafkaError (Unit {0})) (turns : List KafkaTurn)
      → IsAfterSettling none (consume_kafka from_slice answer turns)
  consume_kafka-IsAfterSettling answer turns = consume_kafka-after answer turns none
