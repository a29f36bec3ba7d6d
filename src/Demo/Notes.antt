-- ===== src/Demo/Notes.antt =====
-- src/demo/handlers/events.rs: publishing a note, and the tail of the stream.
use luxor.Base.{
  ℕ, ◌&&◌, ◌||◌, Option, none, some, List, length, any, is_control, is_empty, trim, Text, codes,
  leb, ltb, if◌then◌else◌, Result, ok, err,
}
use luxor.Error.{AppError, bad_request}
use luxor.Config.Kafka.{KafkaSettings}
use luxor.Events.{EventLog, recent}
use luxor.Events.Envelope.{ConsumedEvent, PublishReceipt}
use luxor.Events.Domain.{DomainEvent, note}

abbrev pub note_max_characters : ℕ
note_max_characters = 280

abbrev pub default_event_limit : ℕ
default_event_limit = 20

abbrev pub max_event_limit : ℕ
max_event_limit = 100

abbrev pub note_length : AppError
note_length = bad_request (codes "text must contain 1-280 characters")

abbrev pub note_control : AppError
note_control = bad_request (codes "text must not contain control characters")

abbrev checked_note : Text → Result AppError Text
checked_note text =
    if is_empty text || ltb note_max_characters (length text)
    then err note_length
    else if any is_control text
    then err note_control
    else ok text

unfoldable pub validate_note : Text → Result AppError Text
unfolding trim is_control
validate_note text = checked_note (trim text)

pub record PublishResponse : Type 0 where
  pub status : Text
  pub receipt : PublishReceipt DomainEvent

module _ {B : Type 0}
    (publish : DomainEvent → B → Result AppError (PublishReceipt DomainEvent) × B) where
  abbrev accepted :
      Result AppError (PublishReceipt DomainEvent) × B → Result AppError (ℕ × PublishResponse) × B
  accepted (err e, stream) = (err e, stream)
  accepted (ok receipt, stream) =
      (ok (202, record { status = codes "published"; receipt = receipt }), stream)

  abbrev publish_if : Text → Result AppError Text → B → Result AppError (ℕ × PublishResponse) × B
  publish_if account (err e) stream = (err e, stream)
  publish_if account (ok text) stream = accepted (publish (note account text) stream)

  -- The endpoint, for the account that calls it.
  unfoldable pub publish_note : Text → Text → B → Result AppError (ℕ × PublishResponse) × B
  unfolding validate_note
  publish_note account text stream = publish_if account (validate_note text) stream

pub record StreamResponse : Type 0 where
  pub backend : Text
  pub topic : Option Text
  pub consumer_group : Option Text
  pub consumed : ℕ
  pub events : List (ConsumedEvent DomainEvent)

abbrev unwrap_or : Option ℕ → ℕ → ℕ
unwrap_or none n = n
unwrap_or (some m) n = m

abbrev topic_of : Option KafkaSettings → Option Text
topic_of none = none
topic_of (some settings) = some settings.topic

abbrev group_of : Option KafkaSettings → Option Text
group_of none = none
group_of (some settings) = some settings.consumer_group

abbrev pub invalid_limit : AppError
invalid_limit = bad_request (codes "limit must be between 1 and 100")

unfoldable pub page :
    Text → Option KafkaSettings → EventLog (ConsumedEvent DomainEvent) → ℕ → StreamResponse
unfolding recent
page backend kafka log limit = record {
  backend = backend;
  topic = topic_of kafka;
  consumer_group = group_of kafka;
  consumed = log.consumed;
  events = recent limit log;
}

abbrev pub page_within :
    Text
    → Option KafkaSettings
    → EventLog (ConsumedEvent DomainEvent)
    → ℕ
    → Result AppError StreamResponse
page_within backend kafka log limit =
    if leb 1 limit && leb limit max_event_limit
    then ok (page backend kafka log limit)
    else err invalid_limit

unfoldable pub stream :
    Text
    → Option KafkaSettings
    → EventLog (ConsumedEvent DomainEvent)
    → Option ℕ
    → Result AppError StreamResponse
unfolding page
stream backend kafka log limit = page_within backend kafka log (unwrap_or limit default_event_limit)
