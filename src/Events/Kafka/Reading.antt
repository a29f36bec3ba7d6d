-- ===== src/Events/Kafka/Reading.antt =====
-- src/events/kafka.rs: the consumer's loop, and what it does with one record.
use luxor.Base.{
  ℕ, Bool, false, Option, none, some, List, [], ◌∷◌, ◌++◌, Text, codes, Result, ok, err, ◌>>=◌,
  ok_or, if◌then◌else◌, text_eq,
}
use luxor.Events.Envelope.{EventEnvelope, ConsumedEvent}
use luxor.Events.Kafka.{KafkaError, consumer_commit, is_missing_topic, no_offset}

-- A record as it is received.
pub record BorrowedMessage : Type 0 where
  pub partition : ℕ
  pub offset : ℕ
  pub payload : Option Text

pub data Effect (P : Type 0) : Type 0 where
  handle : ConsumedEvent P → Effect P
  skip : ℕ → ℕ → Text → Effect P
  commit_message : ℕ → ℕ → Effect P
  awaiting_topic : Effect P
  read_failed : KafkaError → Effect P
  sleep : Effect P
  commit_consumer_state : Effect P
  commit_failed : KafkaError → Effect P

-- What the poll of one turn finds: whether the shutdown is asked for, what `recv` answers, the clock,
-- and whether the commit that may follow is refused.
pub record KafkaTurn : Type 0 where
  pub requested : Bool
  pub received : Result KafkaError BorrowedMessage
  pub now : ℕ
  pub refusal : Option KafkaError

unfoldable pub is_no_offset : KafkaError → Bool
unfolding text_eq
is_no_offset (consumer_commit code) = text_eq code no_offset
is_no_offset _ = false

module _ {P : Type 0} where
  unfoldable pub refused : Option KafkaError → List (Effect P)
  refused none = []
  refused (some e) = commit_failed e ∷ []

  -- What is done with a record that has been decoded, or not.
  unfoldable pub hand_over : BorrowedMessage → ℕ → Result Text (EventEnvelope P) → Effect P
  hand_over message now (ok envelope) = handle record {
    partition = message.partition;
    offset = message.offset;
    consumed_at = now;
    envelope = envelope;
  }
  hand_over message now (err reason) = skip message.partition message.offset reason

  unfoldable pub report : KafkaError → Effect P
  unfolding is_missing_topic
  report e = if is_missing_topic e then awaiting_topic else read_failed e

  unfoldable pub commit_on_shutdown : Result KafkaError (Unit {0}) → List (Effect P)
  unfolding is_no_offset
  commit_on_shutdown (ok _) = commit_consumer_state ∷ []
  commit_on_shutdown (err e) =
      commit_consumer_state ∷ (if is_no_offset e then [] else commit_failed e ∷ [])

module _ {P : Type 0} (from_slice : Text → Result Text (EventEnvelope P)) where
  unfoldable pub decode : BorrowedMessage → Result Text (EventEnvelope P)
  unfolding ◌>>=◌
  decode message = ok_or message.payload (codes "the record has no payload") >>= from_slice

  unfoldable pub consume_message : BorrowedMessage → ℕ → Option KafkaError → List (Effect P)
  unfolding decode hand_over refused
  consume_message message now refusal =
      hand_over message now (decode message)
      ∷ commit_message message.partition message.offset
      ∷ refused refusal

  unfoldable pub on_recv : KafkaTurn → Result KafkaError BorrowedMessage → List (Effect P)
  unfolding consume_message report
  on_recv turn (ok message) = consume_message message turn.now turn.refusal
  on_recv turn (err e) = report e ∷ sleep ∷ []

  -- `kafka::consume` over the turns that it is given, and the broker's answer to the last commit.
  unfoldable pub consume_kafka : Result KafkaError (Unit {0}) → List KafkaTurn → List (Effect P)
  unfolding on_recv commit_on_shutdown
  consume_kafka answer [] = []
  consume_kafka answer (turn ∷ turns) =
      let rest = consume_kafka answer turns in
      if turn.requested then commit_on_shutdown answer else on_recv turn turn.received ++ rest
