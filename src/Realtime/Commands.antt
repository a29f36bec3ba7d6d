-- ===== src/Realtime/Commands.antt =====
-- src/realtime.rs: `handle_command` and `validate_text`. Reading a command from JSON is a library's
-- and comes as the parameter `parse`.
use luxor.Base.{
  ℕ, Bool, true, false, Option, none, some, Text, codes, trim, is_empty, length, any, is_control,
  ltb, if◌then◌else◌, Result, ok, err,
}
use luxor.Access.{Role}
use luxor.Realtime.{RealtimeHub, SendQuota, allow, next_sequence, max_text_characters}

pub record Participant : Type 0 where
  pub user_id : ℕ
  pub role : Role

pub record Limits : Type 0 where
  pub max_connections : ℕ
  pub max_text_characters : ℕ
  pub messages_per_window : ℕ
  pub message_window_seconds : ℕ
  pub tick_interval_seconds : ℕ
  pub idle_timeout_seconds : ℕ

pub data PresenceChange : Type 0 where
  joined left : PresenceChange

pub data EventPayload : Type 0 where
  welcome : ℕ → Participant → Limits → EventPayload
  presence : PresenceChange → ℕ → Participant → EventPayload
  message : ℕ → Participant → Text → EventPayload
  tick : ℕ → EventPayload
  notice : Text → Text → EventPayload

pub data ClientCommand : Type 0 where
  broadcast : Text → ClientCommand

-- `Outcome::Broadcast` and `Outcome::Notice`.
pub data Outcome : Type 0 where
  broadcast_outcome notice_outcome : EventPayload → Outcome

-- `validate_text`, on the trimmed text.
unfoldable pub validate_trimmed : Text → Result Text Text
unfolding is_control
validate_trimmed text =
    if is_empty text
    then err (codes "a broadcast needs some text")
    else if ltb max_text_characters (length text)
    then err (codes "the text is longer than the published limit")
    else if any is_control text
    then err (codes "the text contains control characters")
    else ok text

unfoldable pub validate_text : Text → Result Text Text
unfolding validate_trimmed trim
validate_text text = validate_trimmed (trim text)

abbrev pub expected_command : Text
expected_command =
    codes
      "expected a JSON object such as {\"type\":\"broadcast\",\"text\":\"hello\"}, with at most 280 characters of text"

abbrev pub over_quota : Text
over_quota = codes "at most 5 messages every 5 seconds per connection"

abbrev pub notify : Text → Text → Option Outcome
notify code detail = some (notice_outcome (notice code detail))

-- What follows the decision of the quota.
unfoldable pub publish :
    Participant → Text → RealtimeHub → Bool × SendQuota → Option Outcome × (RealtimeHub × SendQuota)
unfolding next_sequence
publish who text hub (false, q) = (notify (codes "rate_limited") over_quota, (hub, q))
publish who text hub (true, q) =
    (some (broadcast_outcome (message (next_sequence hub).0 who text)), ((next_sequence hub).1, q))

-- The command's effect is on the hub, which numbers what is published, and on the quota.
module _ (parse : Text → Option ClientCommand) where
  unfoldable pub handle_command :
      ℕ → RealtimeHub → Participant → Text → SendQuota → Option Outcome × (RealtimeHub × SendQuota)
  unfolding validate_text allow publish
  handle_command now hub who raw q = elim (parse raw) [
    | none ↦ (notify (codes "invalid_command") expected_command, (hub, q))
    | some (broadcast t) ↦ elim (validate_text t) [
      | err detail ↦ (notify (codes "invalid_message") detail, (hub, q))
      | ok text ↦ publish who text hub (allow now q)
    ]
  ]
