-- ===== src/Events/Kafka/Relay.antt =====
-- src/events/kafka.rs: an event on its way through a topic, from the publisher to the consumer.
use luxor.Base.{
  ℕ, ◌≡◌, refl, Option, some, ◌∷◌, Text, Result, ok, ◌>>=◌, map_err, map_err_ok, List, Ensures,
  Ensures-bind,
}
use luxor.Error.{event_stream, serialization}
use luxor.Config.Kafka.{KafkaSettings}
use luxor.Events.Envelope.{Event, EventEnvelope, PublishReceipt, new_envelope}
use luxor.Events.Kafka.{KafkaRecord, Delivery, KafkaError, publish_kafka, record_headers}
use luxor.Events.Kafka.Reading.{
  BorrowedMessage, handle, commit_message, refused, decode, hand_over, consume_message,
}

module _ {P : Type 0} (event : Event P) where
  -- The record that the broker gives a reader at a place of the topic.
  abbrev pub read_back : KafkaRecord → Delivery → BorrowedMessage
  read_back r d = record { partition = d.partition; offset = d.offset; payload = some r.payload }

  -- The codec reads back what it writes.
  abbrev pub IsCodec :
      (EventEnvelope P → Result Text Text) → (Text → Result Text (EventEnvelope P)) → Type 0
  IsCodec to_vec from_slice =
      (e : EventEnvelope P) (bytes : Text) → to_vec e ≡ ok bytes → from_slice bytes ≡ ok e

  -- What a receipt promises of a record that was sent.
  unfoldable pub IsRelayed :
      (Text → Result Text (EventEnvelope P))
      → (KafkaRecord → ℕ → Result Text Delivery)
      → KafkaSettings
      → P
      → PublishReceipt P
      → Type 0
  IsRelayed from_slice send settings payload receipt =
      (sent : KafkaRecord) × (place : Delivery) × (send sent settings.delivery_timeout_seconds
        ≡ ok place)
      × (sent.topic ≡ settings.topic)
      × (sent.key ≡ event.key payload)
      × (receipt.envelope.payload ≡ payload)
      × ((now : ℕ) (refusal : Option KafkaError)
          → consume_message from_slice (read_back sent place) now refusal
            ≡ handle record {
              partition = receipt.partition;
              offset = receipt.offset;
              consumed_at = now;
              envelope = receipt.envelope;
            }
              ∷ commit_message receipt.partition receipt.offset
              ∷ refused refusal)

  -- With a codec that reads back what it writes, a publish that is answered by a receipt has sent one
  -- record to the configured topic under the event's key, and a consumer that reads this record at its
  -- place hands on the event in the very envelope of the receipt, with the partition and offset of the
  -- receipt, and then commits that place.
  pub publish_kafka-IsRelayed :
      (to_vec : EventEnvelope P → Result Text Text)
      (from_slice : Text → Result Text (EventEnvelope P))
      (send : KafkaRecord → ℕ → Result Text Delivery) (settings : KafkaSettings) (id : Text)
      (now : ℕ) (traces : List (Text × Text)) (payload : P)
      → IsCodec to_vec from_slice
      → Ensures
          (IsRelayed from_slice send settings payload)
          (publish_kafka event to_vec send settings id now traces payload)
  unfolding publish_kafka IsRelayed Ensures new_envelope consume_message decode hand_over ◌>>=◌
  publish_kafka-IsRelayed to_vec from_slice send settings id now traces payload codec =
      let envelope = new_envelope event id now payload in
      Ensures-bind _ (map_err serialization (to_vec envelope)) _ λ bytes written.
        let sent : KafkaRecord = record {
          topic = settings.topic;
          key = envelope.key;
          payload = bytes;
          headers = record_headers event envelope traces;
        } in
        let sending = send sent settings.delivery_timeout_seconds in
        let read = codec envelope bytes (map_err_ok serialization _ bytes written) in
        Ensures-bind _ (map_err event_stream sending) _ λ place answer. (
          sent,
          place,
          map_err_ok event_stream sending place answer,
          refl,
          refl,
          refl,
          λ later refusal. rw read refl,
        )
