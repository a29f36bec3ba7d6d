-- ===== src/Events/Kafka/Stream.antt =====
-- src/events/kafka.rs: the consumer's loop against the list of what it reads, up to the shutdown.
use luxor.Base.{
  ℕ, ◌≡◌, refl, sym, ap, ◌∙◌, true, false, Option, none, some, List, [], ◌∷◌, ◌++◌, Text, Result,
  ok, err, inl, inr, All, append_assoc, Bool-cases,
}
use luxor.Events.Envelope.{EventEnvelope, ConsumedEvent}
use luxor.Events.Kafka.{KafkaError, is_missing_topic}
use luxor.Events.Kafka.Replay.{IsAfterSettling, consume_kafka-IsAfterSettling}
use luxor.Events.Kafka.Reading.{
  BorrowedMessage, Effect, handle, commit_message, sleep, KafkaTurn, refused, decode, hand_over,
  consume_message, report, on_recv, is_no_offset, commit_on_shutdown, consume_kafka,
}

module _ {P : Type 0} where
  abbrev event_of : Effect P → List (ConsumedEvent P)
  event_of (handle e) = e ∷ []
  event_of _ = []

  abbrev place_of : Effect P → List (ℕ × ℕ)
  place_of (commit_message partition offset) = (partition, offset) ∷ []
  place_of _ = []

  -- The events that are handled, and the places that are committed, in order.
  unfoldable pub events_of : List (Effect P) → List (ConsumedEvent P)
  events_of [] = []
  events_of (effect ∷ effects) = event_of effect ++ events_of effects

  unfoldable pub places_of : List (Effect P) → List (ℕ × ℕ)
  places_of [] = []
  places_of (effect ∷ effects) = place_of effect ++ places_of effects

  events_of-append : (xs ys : List (Effect P)) → events_of (xs ++ ys) ≡ events_of xs ++ events_of ys
  unfolding events_of
  events_of-append [] ys = refl
  events_of-append (x ∷ xs) ys =
      ap (◌++◌ (event_of x)) (events_of-append xs ys)
      ∙ sym (append_assoc (event_of x) (events_of xs) (events_of ys))

  places_of-append : (xs ys : List (Effect P)) → places_of (xs ++ ys) ≡ places_of xs ++ places_of ys
  unfolding places_of
  places_of-append [] ys = refl
  places_of-append (x ∷ xs) ys =
      ap (◌++◌ (place_of x)) (places_of-append xs ys)
      ∙ sym (append_assoc (place_of x) (places_of xs) (places_of ys))

  -- Effects that neither handle an event nor commit a place.
  abbrev IsQuiet : List (Effect P) → Type 0
  IsQuiet xs = (events_of xs ≡ []) × (places_of xs ≡ [])

module _ (P : Type 0) where
  refused-IsQuiet : (refusal : Option KafkaError) → IsQuiet (refused {P = P} refusal)
  unfolding refused events_of places_of
  refused-IsQuiet none = (refl, refl)
  refused-IsQuiet (some e) = (refl, refl)

  report-IsQuiet : (e : KafkaError) → IsQuiet {P = P} (report e ∷ sleep ∷ [])
  unfolding report events_of places_of
  report-IsQuiet e = elim (Bool-cases (is_missing_topic e)) [
    | inl missing ↦ rw missing (refl, refl)
    | inr present ↦ rw present (refl, refl)
  ]

  commit_on_shutdown-IsQuiet :
      (answer : Result KafkaError (Unit {0})) → IsQuiet (commit_on_shutdown {P = P} answer)
  unfolding commit_on_shutdown events_of places_of
  commit_on_shutdown-IsQuiet (ok _) = (refl, refl)
  commit_on_shutdown-IsQuiet (err e) = elim (Bool-cases (is_no_offset e)) [
    | inl idle ↦ rw idle (refl, refl)
    | inr busy ↦ rw busy (refl, refl)
  ]

abbrev place_read : Result KafkaError BorrowedMessage → List (ℕ × ℕ)
place_read (err e) = []
place_read (ok message) = (message.partition, message.offset) ∷ []

unfoldable pub places_read : List KafkaTurn → List (ℕ × ℕ)
places_read [] = []
places_read (turn ∷ turns) = place_read turn.received ++ places_read turns

module _ {P : Type 0} (from_slice : Text → Result Text (EventEnvelope P)) where
  -- What was read in a turn, as an event if it is one, and its place.
  abbrev read_event : ℕ → BorrowedMessage → Result Text (EventEnvelope P) → List (ConsumedEvent P)
  read_event now message (err reason) = []
  read_event now message (ok envelope) =
      record {
        partition = message.partition;
        offset = message.offset;
        consumed_at = now;
        envelope = envelope;
      }
      ∷ []

  abbrev event_read : ℕ → Result KafkaError BorrowedMessage → List (ConsumedEvent P)
  event_read now (err e) = []
  event_read now (ok message) = read_event now message (decode from_slice message)

  unfoldable pub events_read : List KafkaTurn → List (ConsumedEvent P)
  events_read [] = []
  events_read (turn ∷ turns) = event_read turn.now turn.received ++ events_read turns

  -- What a turn that reads does.
  IsFaithful : KafkaTurn → Result KafkaError BorrowedMessage → Type 0
  IsFaithful turn r =
      (events_of (on_recv from_slice turn r) ≡ event_read turn.now r)
      × (places_of (on_recv from_slice turn r) ≡ place_read r)

  consumed-IsFaithful :
      (turn : KafkaTurn) (message : BorrowedMessage) (d : Result Text (EventEnvelope P))
      → d ≡ decode from_slice message
      → IsFaithful turn (ok message)
  unfolding IsFaithful on_recv consume_message hand_over events_of places_of
  consumed-IsFaithful turn message (ok envelope) e =
      let (no_events, no_places) = refused-IsQuiet P turn.refusal in
      rw (sym e) (rw (no_events, no_places) (refl, refl))
  consumed-IsFaithful turn message (err reason) e =
      let (no_events, no_places) = refused-IsQuiet P turn.refusal in
      rw (sym e) (rw (no_events, no_places) (refl, refl))

  on_recv-IsFaithful :
      (turn : KafkaTurn) (r : Result KafkaError BorrowedMessage) → IsFaithful turn r
  unfolding IsFaithful on_recv
  on_recv-IsFaithful turn (ok message) =
      consumed-IsFaithful turn message (decode from_slice message) refl
  on_recv-IsFaithful turn (err e) = report-IsQuiet P e

  consume_kafka-reads :
      (answer : Result KafkaError (Unit {0})) (turns : List KafkaTurn) (stop : KafkaTurn)
      (more : List KafkaTurn)
      → All (λ turn. turn.requested ≡ false) turns
      → stop.requested ≡ true
      → let effects = consume_kafka from_slice answer (turns ++ stop ∷ more) in
        (events_of effects ≡ events_read turns) × (places_of effects ≡ places_read turns)
  unfolding consume_kafka events_read places_read IsFaithful
  consume_kafka-reads answer [] stop more h s = rw s (commit_on_shutdown-IsQuiet P answer)
  consume_kafka-reads answer (turn ∷ turns) stop more (go, h) s =
      let (events, places) = on_recv-IsFaithful turn turn.received in
      let (more_events, more_places) = consume_kafka-reads answer turns stop more h s in
      rw go (
        events_of-append (on_recv from_slice turn turn.received) _ ∙ rw (events, more_events) refl,
        places_of-append (on_recv from_slice turn turn.received) _ ∙ rw (places, more_places) refl,
      )

  -- Until the shutdown is asked for, the handler is given every record that is an event of the
  -- application, and the place of every record is committed, both in the order in which they are
  -- read: neither a record that is no event nor an error of the broker ends the loop or skips a
  -- record. A place is committed only when its record is the last that has been handled or found to
  -- be no event. What would be read from the shutdown on is left alone.
  pub consume_kafka_complete :
      (answer : Result KafkaError (Unit {0})) (turns : List KafkaTurn) (stop : KafkaTurn)
      (more : List KafkaTurn)
      → All (λ turn. turn.requested ≡ false) turns
      → stop.requested ≡ true
      → let effects = consume_kafka from_slice answer (turns ++ stop ∷ more) in
        (events_of effects ≡ events_read turns)
        × (places_of effects ≡ places_read turns)
        × IsAfterSettling none effects
  consume_kafka_complete answer turns stop more h s =
      let (events, places) = consume_kafka-reads answer turns stop more h s in
      (events, places, consume_kafka-IsAfterSettling from_slice answer (turns ++ stop ∷ more))
