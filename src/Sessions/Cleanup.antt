-- ===== src/Sessions/Cleanup.antt =====
-- src/db.rs: deleting the families that have expired, next to the refreshes.
use luxor.Base.{
  ℕ, ◌≤◌, ◌≡◌, refl, ◌∙◌, sym, ap, inl, inr, Bool, false, not, ◌||◌, Option, none, some, [], ◌∷◌,
  ◌++◌, Text, text_eq, text_eq_iff, leb, ◌==◌, any, if◌then◌else◌, Bool-cases, Result, ok, err,
  arith,
}
use luxor.Error.{AppError, unauthorized}
use luxor.Sessions.{
  SessionRecord, Table, is_none, session_by_hash, insert_session, delete_expired_session_families,
}
use luxor.Sessions.Rotation.{
  RefreshPolicy, RefreshGrant, Database, begins, selects, revokes, inserts, updates, commits,
  rolls_back, Draw, rotated_row, rotated_grant, rotate_session, rotate_refresh_token,
}
use luxor.Sessions.Replay.{IsUp}

-- The unique index on the hash.
abbrev pub HasUniqueHashes : Table → Type 0
HasUniqueHashes [] = Unit
HasUniqueHashes (r ∷ t) = (session_by_hash r.token_hash t ≡ none) × HasUniqueHashes t

abbrev outlives : ℕ → SessionRecord → Bool
outlives now r = not (leb r.family_expires_at now)

abbrev kept : ℕ → Option SessionRecord → Option SessionRecord
kept now none = none
kept now (some r) = if outlives now r then some r else none

none-filter :
    (hash : Text) (now : ℕ) (t : Table)
    → session_by_hash hash t ≡ none
    → session_by_hash hash (delete_expired_session_families now t) ≡ none
unfolding session_by_hash delete_expired_session_families
none-filter hash now [] h = refl
none-filter hash now (r ∷ t) h = ground (arith, none-filter hash now t)

by_hash-delete :
    (hash : Text) (now : ℕ) (t : Table)
    → HasUniqueHashes t
    → session_by_hash hash (delete_expired_session_families now t)
      ≡ kept now (session_by_hash hash t)
unfolding session_by_hash delete_expired_session_families
by_hash-delete hash now [] d = refl
by_hash-delete hash now (r ∷ t) (one, d) = ground (
  arith,
  by_hash-delete hash now t d,
  none-filter hash now t,
  none-filter r.token_hash now t one,
  text_eq_iff r.token_hash hash,
)

-- No session has the identifier or the hash that a call draws.
abbrev pub IsFresh : (Text → Text) → Draw → Table → Type 0
IsFresh hash draw [] = Unit
IsFresh hash draw (r ∷ t) =
    ((r.id == draw.session_id) ≡ false)
    × (text_eq r.token_hash (hash draw.token) ≡ false)
    × IsFresh hash draw t

module _ (hash : Text → Text) (policy : RefreshPolicy) (db : Database) (draw : Draw) where
  fresh-insert :
      (s : SessionRecord) (t : Table)
      → IsFresh hash draw t
      → insert_session (rotated_row hash policy db draw s) t
        ≡ ok (t ++ rotated_row hash policy db draw s ∷ [])
  unfolding insert_session
  fresh-insert s t f = rw (go t f)
    where
      go :
          (u : Table)
          → IsFresh hash draw u
          → any (λ r. (r.id == draw.session_id) || text_eq r.token_hash (hash draw.token)) u ≡ false
      go [] g = refl
      go (r ∷ u) (a, b, g) = rw (a, b) (go u g)

  IsFresh-delete :
      (now : ℕ) (t : Table)
      → IsFresh hash draw t
      → IsFresh hash draw (delete_expired_session_families now t)
  unfolding delete_expired_session_families
  IsFresh-delete now [] f = tt
  IsFresh-delete now (r ∷ t) (a, b, f) = elim (Bool-cases (outlives now r)) [
    | inl stays ↦ rw stays (a, b, IsFresh-delete now t f)
    | inr goes ↦ rw goes (IsFresh-delete now t f)
  ]

  -- The reply depends on the session alone.
  reply : Option SessionRecord → Result AppError RefreshGrant
  reply none = err unauthorized
  reply (some s) =
      if not (is_none s.revoked_at) || leb s.expires_at draw.now || leb s.family_expires_at draw.now
      then err unauthorized
      else ok (rotated_grant hash policy db draw s)

  rotate-reply :
      (presented : Text) (t : Table)
      → IsUp db
      → IsFresh hash draw t
      → (rotate_refresh_token hash policy db draw presented t).0
        ≡ reply (session_by_hash (hash presented) t)
  unfolding rotate_refresh_token rotate_session reply
  rotate-reply presented t up f =
      rw (up begins, up selects) (go (session_by_hash (hash presented) t))
    where
      go : (o : Option SessionRecord) → (rotate_session hash policy db draw o t).0 ≡ reply o
      go none = refl
      go (some s) =
          ground (
            arith,
            fresh-insert s t f,
            up revokes,
            up commits,
            up inserts,
            up updates,
            up rolls_back,
          )

  -- With a database that is up, unique token hashes and fresh draws, deleting the families expired
  -- at a time no later than a rotation does not change that rotation's reply.
  pub cleanup_transparent :
      (presented : Text) (t : Table) (now : ℕ)
      → IsUp db
      → HasUniqueHashes t
      → IsFresh hash draw t
      → now ≤ draw.now
      → (rotate_refresh_token hash policy db draw presented
          (delete_expired_session_families now t)).0
        ≡ (rotate_refresh_token hash policy db draw presented t).0
  unfolding reply
  cleanup_transparent presented t now up d f h =
      rotate-reply presented _ up (IsFresh-delete now t f)
      ∙ ap reply (by_hash-delete (hash presented) now t d)
      ∙ go (session_by_hash (hash presented) t)
      ∙ sym (rotate-reply presented t up f)
    where
      go : (o : Option SessionRecord) → reply (kept now o) ≡ reply o
      go none = refl
      go (some s) = ground arith
