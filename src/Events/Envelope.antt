-- ===== src/Events/Envelope.antt =====
-- src/events/mod.rs: events on their way to the stream and back. An identifier is its text and a
-- point in time a number; both are arguments, where the source draws or reads them.
use luxor.Base.{ℕ, Text, Result, ok, err, List, [], ◌∷◌}
use luxor.Error.{AppError}

-- The trait: what a type of events provides.
pub record Event (P : Type 0) : Type 0 where
  pub kind : P → Text
  pub key : P → Text

abbrev pub event_schema_version : ℕ
event_schema_version = 1

pub record EventEnvelope (P : Type 0) : Type 0 where
  pub id : Text
  pub schema_version : ℕ
  pub key : Text
  pub occurred_at : ℕ
  pub payload : P

pub record PublishReceipt (P : Type 0) : Type 0 where
  pub partition : ℕ
  pub offset : ℕ
  pub envelope : EventEnvelope P

pub record ConsumedEvent (P : Type 0) : Type 0 where
  pub partition : ℕ
  pub offset : ℕ
  pub consumed_at : ℕ
  pub envelope : EventEnvelope P

module _ {P : Type 0} (event : Event P) where
  unfoldable pub new_envelope : Text → ℕ → P → EventEnvelope P
  new_envelope id now payload = record {
    id = id;
    schema_version = event_schema_version;
    key = event.key payload;
    occurred_at = now;
    payload = payload;
  }

  unfoldable pub envelope_kind : EventEnvelope P → Text
  envelope_kind envelope = event.kind envelope.payload

  -- The line of the log that `publish_or_log` writes, if any, from what the publisher answered: the
  -- event's kind and the error.
  unfoldable pub publish_or_log : P → Result AppError (PublishReceipt P) → List (Text × AppError)
  publish_or_log payload (ok receipt) = []
  publish_or_log payload (err e) = (event.kind payload, e) ∷ []
