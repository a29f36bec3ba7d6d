-- ===== src/Realtime/Accepted.antt =====
-- src/realtime.rs: what a client's commands can make the server publish.
use luxor.Base.{
  ℕ, ◌+◌, ◌≤◌, ◌≡◌, refl, sym, ◌⊎◌, inl, inr, Bool, true, false, Option, some, Text, trim, is_empty,
  length, any, is_control, ok, Option-cases, Result-cases, arith,
}
use luxor.Realtime.{RealtimeHub, SendQuota, allow, next_sequence, max_text_characters}
use luxor.Realtime.Commands.{
  Participant, message, ClientCommand, broadcast, Outcome, broadcast_outcome, validate_trimmed,
  validate_text, publish, handle_command, notify,
}

-- A text that may be published.
abbrev pub IsPublishable : Text → Type 0
IsPublishable t =
    (is_empty t ≡ false) × ((length t ≤ max_text_characters) × (any is_control t ≡ false))

-- What the check accepts is the trimmed text, and is publishable.
pub validate_text_ok : (raw t : Text) → validate_text raw ≡ ok t → (t ≡ trim raw) × IsPublishable t
unfolding validate_text validate_trimmed
validate_text_ok raw t h = ground arith

abbrev Reply : Type 0
Reply = Option Outcome × (RealtimeHub × SendQuota)

module _ (parse : Text → Option ClientCommand) (now : ℕ) (hub : RealtimeHub) (who : Participant)
    (raw : Text) (q : SendQuota) where
  -- The command asks for a text whose trimmed form may be published, within the quota, and is
  -- published so under the next number.
  pub IsPublished : Reply → Text → Type 0
  IsPublished r text =
      (parse raw ≡ some (broadcast text))
      × IsPublishable (trim text)
      × ((allow now q).0 ≡ true)
      × (r ≡ (
        some (broadcast_outcome (message (hub.sequence + 1) who (trim text))),
        (record hub { sequence = hub.sequence + 1 }, (allow now q).1),
      ))

  -- The command is Answered by a notice.
  pub IsNoted : Reply → Type 0
  IsNoted r = (code : Text) × (detail : Text) × (r.0 ≡ notify code detail) × (r.1.0 ≡ hub)

  noted : (code detail : Text) (q' : SendQuota) → IsNoted (notify code detail, (hub, q'))
  unfolding IsNoted
  noted code detail q' = (code, detail, refl, refl)

  publish_lem :
      (t text : Text) (a : Bool)
      → parse raw ≡ some (broadcast t)
      → validate_text t ≡ ok text
      → (allow now q).0 ≡ a
      → ((t : Text) × IsPublished (publish who text hub (a, (allow now q).1)) t)
        ⊎ IsNoted (publish who text hub (a, (allow now q).1))
  unfolding publish next_sequence IsPublished
  publish_lem t text false e v d = inr (noted _ _ _)
  publish_lem t text true e v d =
      let (same, sound) = validate_text_ok t text v in
      rw same (inl (t, (e, rw (sym same) sound, d, refl)))

  -- Every command, whatever its text, is either published with the hub's next number as the trimmed
  -- text, which is not empty, within the limit and free of control characters, and only within the
  -- quota; or it is answered by a notice and the hub is left as it was.
  pub handle_command-IsPublished :
      ((text : Text) × IsPublished (handle_command parse now hub who raw q) text)
      ⊎ IsNoted (handle_command parse now hub who raw q)
  unfolding handle_command
  handle_command-IsPublished = elim (Option-cases (parse raw)) [
    | inl e ↦ rw (e, handle_command) (inr (noted _ _ _))
    | inr (broadcast t, e) ↦ elim (Result-cases (validate_text t)) [
      | inr (detail, d) ↦ rw (e, handle_command, d) (inr (noted _ _ _))
      | inl (text, v) ↦ rw (e, handle_command, v) (publish_lem t text (allow now q).0 e v refl)
    ]
  ]
