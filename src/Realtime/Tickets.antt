-- ===== src/Realtime/Tickets.antt =====
-- src/realtime.rs: issuing and redeeming connection tickets. SHA-256 and the JSON coding of a
-- participant are libraries' and come as parameters, as does the random ticket that is drawn.
use luxor.Base.{
  ℕ, ◌||◌, Option, none, some, List, Text, codes, ◌++◌, len, is_empty, ltb, Result, ok, err, ok_or,
  if◌then◌else◌,
}
use luxor.Base.Map.{Map}
use luxor.Base.Hex.{to_hex}
use luxor.Error.{AppError, unauthorized, serialization}
use luxor.Cache.{put_json, take_json}
use luxor.Realtime.Commands.{Participant}

-- `Result::map_err`, and the last step of `put_typed` and of `issue_ticket`.
abbrev reply_ticket :
    {V : Type 0}
    → Text
    → Result AppError (Option V) × Map (V × ℕ)
    → Result AppError Text × Map (V × ℕ)
reply_ticket ticket (ok v, m) = (ok ticket, m)
reply_ticket ticket (err e, m) = (err e, m)

unfoldable pub ticket_key : (Text → List ℕ) → Text → Text
unfolding to_hex
ticket_key sha256 ticket = codes "realtime:ticket" ++ codes ":" ++ to_hex (sha256 ticket)

module _ {V : Type 0} (sha256 : Text → List ℕ) where
  module _ (encode : Participant → Result Text V) where
    -- `issue_ticket`, with the ticket that is drawn; it ends as `cache::put_typed` does.
    unfoldable pub issue_ticket :
        Text → Participant → ℕ → ℕ → Map (V × ℕ) → Result AppError Text × Map (V × ℕ)
    unfolding ticket_key put_json
    issue_ticket ticket who ttl now m = elim (encode who) [
      | err e ↦ (err (serialization e), m)
      | ok v ↦ reply_ticket ticket (put_json (ticket_key sha256 ticket) v ttl now m)
    ]

  module _ (decode : V → Option Participant) where
    -- What `consume_ticket` makes of what was taken.
    abbrev pub stored_participant :
        Result AppError (Option V) × Map (V × ℕ) → Result AppError Participant × Map (V × ℕ)
    stored_participant (err e, m) = (err e, m)
    stored_participant (ok none, m) = (err unauthorized, m)
    stored_participant (ok (some v), m) = (ok_or (decode v) unauthorized, m)

    unfoldable pub consume_ticket :
        Text → ℕ → Map (V × ℕ) → Result AppError Participant × Map (V × ℕ)
    unfolding ticket_key take_json len
    consume_ticket ticket now m =
        if is_empty ticket || ltb 128 (len ticket)
        then (err unauthorized, m)
        else stored_participant (take_json (ticket_key sha256 ticket) now m)
