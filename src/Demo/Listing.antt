-- ===== src/Demo/Listing.antt =====
-- src/demo/handlers/events.rs: a note that is published, and the tail of the stream.
use luxor.Base.{
  ℕ, suc, ◌+◌, ◌≤◌, ◌≡◌, refl, ap, Bool, true, false, ◌||◌, ◌&&◌, le→leb, ◌↔◌, Option, some, List,
  [], ◌∷◌, length, take, any, is_control, if◌then◌else◌, or_false, ◌==◌, zero, ◌<◌, length-take,
  is_empty, trim, Text, leb, ltb, ok, err, arith,
}
use luxor.Events.{
  EventLog, recent, reverse, record_event, record_within, pop_front, event_log_capacity,
}
use luxor.Config.Kafka.{KafkaSettings}
use luxor.Events.Recent.{reverse-append}
use luxor.Events.Envelope.{ConsumedEvent}
use luxor.Events.Domain.{DomainEvent}
use luxor.Demo.Notes.{
  note_max_characters, note_length, note_control, max_event_limit, invalid_limit, validate_note,
  StreamResponse, page, stream,
}

-- What a note may be.
abbrev pub IsNote : Text → Type 0
IsNote text =
    (1 ≤ length text) × (length text ≤ note_max_characters) × (any is_control text ≡ false)

is_empty-length : (text : Text) → is_empty text ≡ false → 1 ≤ length text
is_empty-length [] h = cc
is_empty-length (c ∷ text) h = omega arith

length-is_empty : (text : Text) → 1 ≤ length text → is_empty text ≡ false
length-is_empty [] h = absurd (omega (arith, h))
length-is_empty (c ∷ text) h = refl

-- What passes two tests is the value itself.
passed :
    (a b : Bool) (text clean : Text)
    → (if a then err note_length else if b then err note_control else ok text) ≡ ok clean
    → (a ≡ false) × (b ≡ false) × (clean ≡ text)
passed true b text clean h = cc
passed false true text clean h = cc
passed false false text clean h = (refl, refl, cc)

short : (n : ℕ) → ltb note_max_characters n ≡ false → n ≤ note_max_characters
short n h = ground arith

long : (n : ℕ) → n ≤ note_max_characters → ltb note_max_characters n ≡ false
long n h = ground arith

-- A text is taken as a note exactly when, without the white space round it, it has 1 to 280
-- characters and no control character; the note is then what is left of it.
pub validate_note_iff :
    (text clean : Text)
    → (validate_note text ≡ ok clean) ↔ ((clean ≡ trim text) × IsNote (trim text))
unfolding validate_note
validate_note_iff text clean = (
  λ h.
      let (sized, plain, same) =
        passed (is_empty (trim text) || ltb note_max_characters (length (trim text)))
          (any is_control (trim text)) (trim text) clean h in
      let (some_text, fits) =
        or_false (is_empty (trim text)) (ltb note_max_characters (length (trim text))) sized in
      (same, (is_empty-length (trim text) some_text, short (length (trim text)) fits, plain)),
  λ (same, (some_text, fits, plain)).
      rw (length-is_empty (trim text) some_text, long (length (trim text)) fits, plain, same) refl,
)

recent-record_event :
    {E : Type 0} (limit : ℕ) (e : E) (log : EventLog E)
    → (rest : List E) × (recent (suc limit) (record_event e log) ≡ e ∷ rest) × (length rest ≤ limit)
unfolding recent record_event record_within
recent-record_event limit e log =
    let kept =
      if length log.events == event_log_capacity then pop_front log.events else log.events in
    (
      take limit (reverse kept),
      ap (take (suc limit)) (reverse-append kept e),
      omega (arith, length-take limit (reverse kept)),
    )

beyond : (n : ℕ) → max_event_limit < n → (leb 1 n && leb n max_event_limit) ≡ false
beyond n h = ground arith

-- The endpoint that lists the stream answers a limit of 1 to 100 with no more events than that, the
-- event that was consumed last at their head, and with the count of all; any other limit is refused.
pub stream-record_event :
    (backend : Text) (kafka : Option KafkaSettings) (e : ConsumedEvent DomainEvent)
    (log : EventLog (ConsumedEvent DomainEvent)) (limit : ℕ)
    → let answer = stream backend kafka (record_event e log) (some limit) in
      (1 ≤ limit
        → limit ≤ max_event_limit
        → (response : StreamResponse) × (rest : List (ConsumedEvent DomainEvent)) × (answer
            ≡ ok response)
          × (response.events ≡ e ∷ rest)
          × (length response.events ≤ limit)
          × (response.consumed ≡ log.consumed + 1))
      × (max_event_limit < limit → answer ≡ err invalid_limit)
unfolding stream page record_event record_within
stream-record_event backend kafka e log zero =
    (λ h k. absurd (omega (arith, h)), λ h. absurd (omega (arith, h)))
stream-record_event backend kafka e log (suc n) =
    let (rest, shown, few) = recent-record_event n e log in
    (
      λ h k. (
        page backend kafka (record_event e log) (suc n),
        rest,
        rw (le→leb 1 (suc n) h, le→leb (suc n) max_event_limit k) refl,
        shown,
        omega (arith, ap length shown, few),
        refl,
      ),
      λ h. rw (beyond (suc n) h) refl,
    )
