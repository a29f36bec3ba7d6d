-- ===== src/Events/Kafka.antt =====
-- src/events/kafka.rs: publishing to a topic and reading it. The client library and the JSON codec
-- are parameters; what the consumer does is the list of its effects, in order.
pub mod Client
pub mod Reading
pub mod Replay
pub mod Stream
pub mod Relay
use luxor.Base.{
  ℕ, ◌+◌, Bool, true, false, Option, none, some, List, [], ◌∷◌, ◌++◌, Text, codes, to_decimal,
  Result, ok, err, ◌>>=◌, map_err, ok_or, if◌then◌else◌, text_eq,
}
use luxor.Error.{AppError, event_stream, serialization}
use luxor.Config.Kafka.{KafkaSettings}
use luxor.Events.Envelope.{
  Event, EventEnvelope, PublishReceipt, ConsumedEvent, new_envelope, envelope_kind,
}

-- The errors of the client library that the code tells apart, each with the library's code.
pub data KafkaError : Type 0 where
  message_consumption global consumer_commit : Text → KafkaError
  other : Text → KafkaError

abbrev pub unknown_topic_or_partition : Text
unknown_topic_or_partition = codes "UnknownTopicOrPartition"

abbrev pub no_offset : Text
no_offset = codes "NoOffset"

unfoldable pub is_missing_topic : KafkaError → Bool
unfolding text_eq
is_missing_topic (message_consumption code) = text_eq code unknown_topic_or_partition
is_missing_topic (global code) = text_eq code unknown_topic_or_partition
is_missing_topic _ = false

-- A record as the broker keeps it: `FutureRecord` going out, with the topic that it goes to.
pub record KafkaRecord : Type 0 where
  pub topic : Text
  pub key : Text
  pub payload : Text
  pub headers : List (Text × Text)

pub record Delivery : Type 0 where
  pub partition : ℕ
  pub offset : ℕ

module _ {P : Type 0} (event : Event P) where
  -- `traces` is what the propagator injects for the span, nothing in a build without it.
  unfoldable pub record_headers : EventEnvelope P → List (Text × Text) → List (Text × Text)
  unfolding envelope_kind
  record_headers envelope traces =
      (codes "content-type", codes "application/json")
      ∷ (codes "event-id", envelope.id)
      ∷ (codes "event-kind", envelope_kind event envelope)
      ∷ (codes "schema-version", to_decimal envelope.schema_version)
      ∷ traces

  abbrev receipt_of : EventEnvelope P → Delivery → Result AppError (PublishReceipt P)
  receipt_of envelope delivery =
      ok record { partition = delivery.partition; offset = delivery.offset; envelope = envelope }

  -- `KafkaPublisher::publish`, with the library's two operations and with the identifier and the
  -- time that the envelope is given.
  unfoldable pub publish_kafka :
      (to_vec : EventEnvelope P → Result Text Text) (send : KafkaRecord → ℕ → Result Text Delivery)
      → KafkaSettings
      → Text
      → ℕ
      → List (Text × Text)
      → P
      → Result AppError (PublishReceipt P)
  unfolding new_envelope record_headers ◌>>=◌
  publish_kafka to_vec send settings id now traces payload =
      let envelope = new_envelope event id now payload in
      map_err serialization (to_vec envelope) >>= λ bytes.
      map_err event_stream (
        send
          record {
            topic = settings.topic;
            key = envelope.key;
            payload = bytes;
            headers = record_headers envelope traces;
          }
          settings.delivery_timeout_seconds)
      >>= receipt_of envelope
