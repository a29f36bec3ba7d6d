-- ===== src/Realtime/Redeeming.antt =====
-- src/realtime.rs: the life of a ticket in the cache, from its issue to the handshake.
use luxor.Base.{
  ℕ, ◌+◌, ◌/◌, ◌≤◌, ◌<◌, ◌≡◌, refl, true, false, ◌||◌, Option, none, some, List, [], ◌∷◌, Text, len,
  is_empty, ltb, ◌==◌, Result, Bool-cases, inl, inr, ok, err, ◌>>◌, if◌then◌else◌, length, all, All,
  is_ascii_alphanumeric, arith,
}
use luxor.Base.Map.{Map, lookup, insert, lookup-insert_self, lookup-remove_self, keep}
use luxor.Base.Hex.{to_hex, IsHexDigit, to_hex-IsHexDigit, length-to_hex, len_of_ascii}
use luxor.Error.{unauthorized}
use luxor.Cache.{
  put_json, take_json, validate_key, validate_ttl, is_fresh, value_of, nanos_per_milli,
}
use luxor.Realtime.Commands.{Participant}
use luxor.Realtime.Tickets.{ticket_key, issue_ticket, consume_ticket, stored_participant}

all_hex :
    (s : Text)
    → All IsHexDigit s
    → all (λ c. is_ascii_alphanumeric c || c == b':' || c == b'-' || c == b'_') s ≡ true
all_hex [] h = refl
all_hex (c ∷ s) ((alnum, small), hs) = rw (alnum, all_hex s hs) refl

ascii_of_hex : (s : Text) → All IsHexDigit s → All (λ c. c < 128) s
ascii_of_hex [] h = tt
ascii_of_hex (c ∷ s) ((alnum, small), hs) = (small, ascii_of_hex s hs)

len_of_hex :
    (bytes : List ℕ) → All (λ b. b < 256) bytes → length bytes ≡ 32 → len (to_hex bytes) ≡ 64
len_of_hex bytes h n = omega (
  arith,
  n,
  len_of_ascii (to_hex bytes) (ascii_of_hex (to_hex bytes) (to_hex-IsHexDigit bytes h)),
  length-to_hex bytes,
)

taken_map :
    {V : Type 0} (sha256 : Text → List ℕ) (decode : V → Option Participant) (o : Option V)
    (m : Map (V × ℕ))
    → (stored_participant sha256 decode (ok o, m)).1 ≡ m
taken_map sha256 decode none m = refl
taken_map sha256 decode (some v) m = refl

long_enough : (ttl : ℕ) → nanos_per_milli ≤ ttl → ttl / nanos_per_milli == 0 ≡ false
long_enough ttl h = ground arith

-- What SHA-256 returns: 32 bytes.
module _ (sha256 : Text → List ℕ) (bytes : (t : Text) → All (λ b. b < 256) (sha256 t))
    (size : (t : Text) → length (sha256 t) ≡ 32) where
  ticket_key-valid : (ticket : Text) → validate_key (ticket_key sha256 ticket) ≡ ok tt
  unfolding validate_key ticket_key is_ascii_alphanumeric len
  ticket_key-valid ticket =
      rw
        (
          all_hex (to_hex (sha256 ticket)) (to_hex-IsHexDigit (sha256 ticket) (bytes ticket)),
          len_of_hex (sha256 ticket) (bytes ticket) (size ticket),
        )
        refl

  module _ {V : Type 0} (encode : Participant → Result Text V) (decode : V → Option Participant)
      (who : Participant) (v : V) (written : encode who ≡ ok v) (read : decode v ≡ some who)
      (ticket : Text) (shape : is_empty ticket || ltb 128 (len ticket) ≡ false) (ttl : ℕ)
      (lasts : nanos_per_milli ≤ ttl) where
    issued :
        (now : ℕ) (m : Map (V × ℕ))
        → issue_ticket sha256 encode ticket who ttl now m
          ≡ (ok ticket, insert (ticket_key sha256 ticket) (v, now + ttl) m)
    unfolding issue_ticket put_json validate_ttl ◌>>◌
    issued now m =
        rw (written, issue_ticket, put_json, ticket_key-valid ticket, long_enough ttl lasts) refl

    consumed_none :
        (now : ℕ) (m : Map (V × ℕ))
        → lookup (ticket_key sha256 ticket) m ≡ none
        → (consume_ticket sha256 decode ticket now m).0 ≡ err unauthorized
    unfolding consume_ticket take_json
    consumed_none now m gone =
        rw (shape, consume_ticket, take_json, ticket_key-valid ticket, gone) refl

    consumed_some :
        (now expires : ℕ) (m : Map (V × ℕ))
        → lookup (ticket_key sha256 ticket) m ≡ some (v, expires)
        → (consume_ticket sha256 decode ticket now m).0
          ≡ (if ltb now expires then ok who else err unauthorized)
    unfolding consume_ticket take_json
    consumed_some now expires m there = elim (Bool-cases (ltb now expires)) [
      | inl fresh ↦
          rw (shape, consume_ticket, take_json, ticket_key-valid ticket, there, fresh, read) refl
      | inr stale ↦
          rw (shape, consume_ticket, take_json, ticket_key-valid ticket, there, stale) refl
    ]

    consumed_after :
        (now : ℕ) (m : Map (V × ℕ))
        → lookup (ticket_key sha256 ticket) (consume_ticket sha256 decode ticket now m).1 ≡ none
    unfolding consume_ticket
    consumed_after now m =
        rw
          (
            shape,
            consume_ticket,
            take_json,
            ticket_key-valid ticket,
            taken_map sha256 decode
                (value_of (keep (is_fresh now) (lookup (ticket_key sha256 ticket) m))) _,
            lookup-remove_self,
          )
          refl

    -- Where SHA-256 has 32 bytes, a participant's JSON reads back, the ticket is not empty and has
    -- at most 128 bytes, and a ticket lasts at least a millisecond, the ticket is issued, redeems
    -- to its participant before it expires and not from then on, and not a second time at all.
    pub issue_ticket_once :
        (now later again : ℕ) (m : Map (V × ℕ))
        → ((issue_ticket sha256 encode ticket who ttl now m).0 ≡ ok ticket)
          × ((consume_ticket sha256 decode ticket later
                (issue_ticket sha256 encode ticket who ttl now m).1).0
              ≡ (if ltb later (now + ttl) then ok who else err unauthorized))
          × ((consume_ticket sha256 decode ticket again
                (consume_ticket sha256 decode ticket later
                  (issue_ticket sha256 encode ticket who ttl now m).1).1).0
              ≡ err unauthorized)
    issue_ticket_once now later again m = (
      rw (issued now m) refl,
      rw (issued now m) (consumed_some later (now + ttl) _ (lookup-insert_self _ _ m)),
      consumed_none again _ (consumed_after later _),
    )
