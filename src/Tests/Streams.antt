-- ===== src/Tests/Streams.antt =====
-- Inputs for the event streams, and runs of the bus and of the consumers.
use luxor.Base.{
  ℕ, ◌+◌, ◌≡◌, refl, true, false, Option, none, some, List, [], ◌∷◌, ◌++◌, length, take, Text,
  codes, Result, ok, err, arith, Ensures,
}
use luxor.Config.Kafka.{KafkaSettings, plaintext}
use luxor.Events.{new_log, recent, reverse, event_log_capacity}
use luxor.Events.Envelope.{Event, EventEnvelope}
use luxor.Events.Bus.{Publication, new_bus, publish_all}
use luxor.Events.Consumer.{closed, consume, handle_log}
use luxor.Events.Delivery.{IsNumbered, delivered, stopping, consume-publish_all}
use luxor.Events.Kafka.{KafkaRecord, Delivery, KafkaError, message_consumption, publish_kafka}
use luxor.Events.Kafka.Reading.{BorrowedMessage, KafkaTurn, consume_kafka}
use luxor.Events.Kafka.Replay.{IsAfterSettling}
use luxor.Events.Kafka.Stream.{
  events_of, places_of, events_read, places_read, consume_kafka_complete,
}
use luxor.Events.Kafka.Relay.{IsRelayed, publish_kafka-IsRelayed}

-- Events that are numbers, keyed by the empty text.
abbrev numbers : Event ℕ
numbers = record { kind = λ n. codes "number"; key = λ n. codes "k" }

abbrev call : ℕ → Publication ℕ
call n = record { event = n; id = codes "e"; now = n; later = n + 1 }

abbrev calls : List (Publication ℕ)
calls = call 7 ∷ call 8 ∷ call 9 ∷ []

consume-publish_all_example :
    let (answers, last) = publish_all numbers calls new_bus in
    let log = consume handle_log (delivered last.sent ++ stopping closed ∷ []) new_log in
    IsNumbered numbers 0 calls answers last.sent
    × (recent 2 log ≡ take 2 (take event_log_capacity (reverse last.sent)))
    × (log.consumed ≡ length calls)
consume-publish_all_example = consume-publish_all numbers calls 2 closed [] (omega arith)

-- A codec that writes the one envelope, and reads one for every text but the empty one.
abbrev envelope : EventEnvelope ℕ
envelope = record {
  id = codes "e";
  schema_version = 1;
  key = codes "k";
  occurred_at = 5;
  payload = 7;
}

abbrev read_one : Text → Result Text (EventEnvelope ℕ)
read_one [] = err (codes "empty")
read_one (c ∷ text) = ok envelope

abbrev message : ℕ → Option Text → BorrowedMessage
message offset payload = record { partition = 1; offset = offset; payload = payload }

abbrev turn : Result KafkaError BorrowedMessage → KafkaTurn
turn received = record { requested = false; received = received; now = 6; refusal = none }

-- An event, a record with nothing in it, one that is no event, and an error of the broker.
abbrev turns : List KafkaTurn
turns =
    turn (ok (message 4 (some (codes "x"))))
    ∷ turn (ok (message 5 none))
    ∷ turn (ok (message 6 (some [])))
    ∷ turn (err (message_consumption (codes "UnknownTopicOrPartition")))
    ∷ turn (ok (message 7 (some (codes "y"))))
    ∷ []

abbrev last_turn : KafkaTurn
last_turn = record {
  requested = true;
  received = ok (message 8 (some (codes "z")));
  now = 9;
  refusal = none;
}

consume_kafka_complete_example :
    let effects = consume_kafka read_one (ok tt) (turns ++ last_turn ∷ []) in
    (events_of effects ≡ events_read read_one turns)
    × (places_of effects ≡ places_read turns)
    × IsAfterSettling none effects
consume_kafka_complete_example =
    consume_kafka_complete read_one (ok tt) turns last_turn []
      (refl, (refl, (refl, (refl, (refl, tt))))) refl

abbrev places : List (ℕ × ℕ)
places = places_of (consume_kafka read_one (ok tt) (turns ++ last_turn ∷ []))

places_run : places ≡ (1, 4) ∷ (1, 5) ∷ (1, 6) ∷ (1, 7) ∷ []
unfolding consume_kafka places_of
places_run = refl

-- A codec of three numbers, for envelopes whose texts are empty.
abbrev written : Text → Text → List ℕ → Result Text Text
written [] [] body = ok body
written _ _ body = err (codes "unsupported")

abbrev to_vec : EventEnvelope ℕ → Result Text Text
to_vec e = written e.id e.key (e.schema_version ∷ e.occurred_at ∷ e.payload ∷ [])

abbrev from_slice : Text → Result Text (EventEnvelope ℕ)
from_slice (version ∷ time ∷ payload ∷ []) =
    ok record { id = []; schema_version = version; key = []; occurred_at = time; payload = payload }
from_slice _ = err (codes "unsupported")

IsCodec_lem :
    (id key : Text) (version time payload : ℕ) (bytes : Text)
    → written id key (version ∷ time ∷ payload ∷ []) ≡ ok bytes
    → from_slice bytes
      ≡ ok record {
        id = id;
        schema_version = version;
        key = key;
        occurred_at = time;
        payload = payload;
      }
IsCodec_lem [] [] version time payload bytes h =
    let same : bytes ≡ version ∷ time ∷ payload ∷ [] = cc in rw same refl
IsCodec_lem [] (c ∷ key) version time payload bytes h = cc
IsCodec_lem (c ∷ id) [] version time payload bytes h = cc
IsCodec_lem (c ∷ id) (d ∷ key) version time payload bytes h = cc

abbrev unkeyed : Event ℕ
unkeyed = record { kind = λ n. codes "number"; key = λ n. [] }

abbrev settings : KafkaSettings
settings = record {
  brokers = codes "kafka:9092";
  topic = codes "events";
  consumer_group = codes "group";
  client_id = codes "client";
  security_protocol = plaintext;
  sasl = none;
  delivery_timeout_seconds = 5;
}

abbrev send : KafkaRecord → ℕ → Result Text Delivery
send r timeout = ok record { partition = 2; offset = 11 }

publish_kafka-IsRelayed_example :
    Ensures
      (IsRelayed unkeyed from_slice send settings 7)
      (publish_kafka unkeyed to_vec send settings [] 5 [] 7)
publish_kafka-IsRelayed_example =
    publish_kafka-IsRelayed unkeyed to_vec from_slice send settings [] 5 [] 7
      (λ e bytes h. IsCodec_lem e.id e.key e.schema_version e.occurred_at e.payload bytes h)
