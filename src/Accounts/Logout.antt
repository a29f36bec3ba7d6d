-- ===== src/Accounts/Logout.antt =====
-- src/handlers/auth.rs: a refresh after a logout.
use luxor.Base.{
  ℕ, ◌≡◌, refl, sym, ap, false, Option, none, some, [], ◌∷◌, Text, text_eq, Result, ok, err,
  Bool-cases, Option-cases, inl, inr,
}
use luxor.Base.Map.{Map, lookup}
use luxor.Error.{AppError, unauthorized, database}
use luxor.Auth.{Claims}
use luxor.Sessions.{SessionRecord, Table, is_none, coalesce, session_by_hash, revoke_session}
use luxor.Sessions.Rotation.{
  Statement, begins, selects, revokes, commits, commit, RefreshPolicy, RefreshGrant, Database, Draw,
  rotate_session, rotate_refresh_token,
}
use luxor.Accounts.{Users}
use luxor.Accounts.Credentials.{World, Tables}
use luxor.Accounts.Handlers.{
  Site, Clock, Cookie, refreshed, presented, logged_out, handle_refresh, handle_logout,
}

-- Nothing is found, or only what is revoked.
IsSpent : Option SessionRecord → Type 0
IsSpent none = Unit
IsSpent (some s) = is_none s.revoked_at ≡ false

coalesce_some : (at : Option ℕ) (now : ℕ) → is_none (coalesce at now) ≡ false
coalesce_some none now = refl
coalesce_some (some at) now = refl

session_by_hash-revoke_session :
    (hash : Text) (now : ℕ) (t : Table) → IsSpent (session_by_hash hash (revoke_session hash now t))
unfolding session_by_hash revoke_session IsSpent
session_by_hash-revoke_session hash now [] = tt
session_by_hash-revoke_session hash now (r ∷ t) = elim (Bool-cases (text_eq r.token_hash hash)) [
  | inl same ↦ rw (same, same) (coalesce_some r.revoked_at now)
  | inr other ↦ rw (other, other) (session_by_hash-revoke_session hash now t)
]

-- With no statement that fails, what is spent is refused.
module _ (hash : Text → Text) (policy : RefreshPolicy) (db : Database) (draw : Draw)
    (up : (s : Statement) → db.fault s ≡ none) where
  rotate_session-IsSpent :
      (o : Option SessionRecord) (t : Table)
      → IsSpent o
      → (rotate_session hash policy db draw o t).0 ≡ err unauthorized
  unfolding IsSpent rotate_session
  rotate_session-IsSpent none t spent = refl
  rotate_session-IsSpent (some s) t spent = rw (spent, up revokes, commit, up commits) refl

  rotate_revoked :
      (token : Text) (now : ℕ) (t : Table)
      → (rotate_refresh_token hash policy db draw token (revoke_session (hash token) now t)).0
        ≡ err unauthorized
  unfolding rotate_refresh_token
  rotate_revoked token now t =
      rw (up begins, up selects)
        (rotate_session-IsSpent (session_by_hash (hash token) (revoke_session (hash token) now t)) _
          (session_by_hash-revoke_session (hash token) now t))

-- What a logout that is answered has done.
abbrev Revoked : World → Option Text → Tables → Tables → Type 0
Revoked world none tables after = after ≡ tables
Revoked world (some token) tables after =
    after.sessions ≡ revoke_session (world.token_hash token) world.draw.database_now tables.sessions

err_ne_ok :
    (e : AppError) (cookie : Cookie) → ◌≡◌ {A = Result AppError Cookie} (err e) (ok cookie) → ⊥
err_ne_ok e cookie h = cc

failed_logout :
    {P : Type 0} (e : AppError) (cookie : Cookie) (t u : Tables)
    → ◌≡◌ {A = Result AppError Cookie × Tables} (err e, t) (ok cookie, u)
    → P
failed_logout e cookie t u h = absurd (err_ne_ok e cookie (ap (λ p. p.0) h))

logged_out-Revoked :
    (site : Site) (world : World) (tables after : Tables) (token : Option Text) (cookie : Cookie)
    → logged_out site world tables token ≡ (ok cookie, after)
    → Revoked world token tables after
logged_out-Revoked site world tables after none cookie e = sym (ap (λ p. p.1) e)
logged_out-Revoked site world tables after (some token) cookie e =
    elim (Option-cases (world.sessions_database.fault revokes)) [
      | inl up ↦ let k = rw up at e in sym (ap (λ p. p.1.sessions) k)
      | inr (failure, down) ↦
          let k = rw down at e in failed_logout (database failure) cookie tables after k
    ]

same_error : (e f : AppError) → ◌≡◌ {A = Result AppError RefreshGrant} (err e) (err f) → e ≡ f
same_error e f h = cc

no_grant :
    (grant : RefreshGrant) (f : AppError)
    → ◌≡◌ {A = Result AppError RefreshGrant} (ok grant) (err f)
    → ⊥
no_grant grant f h = cc

module _ (encode : Text → Claims → Option Text) (site : Site) (clock : Clock)
    (world later : World) where
  refreshed-refused :
      (users : Users) (g : Result AppError RefreshGrant × Table)
      → g.0 ≡ err unauthorized
      → (refreshed encode site clock later users g).0 ≡ err unauthorized
  refreshed-refused users (err e, sessions) h = rw (same_error e unauthorized h) refl
  refreshed-refused users (ok grant, sessions) h = absurd (no_grant grant unauthorized h)

  presented-refused :
      (tables after : Tables) (token : Option Text)
      → ((s : Statement) → later.sessions_database.fault s ≡ none)
      → later.token_hash ≡ world.token_hash
      → Revoked world token tables after
      → (presented encode site clock later after token).0 ≡ err unauthorized
  presented-refused tables after none up same e = refl
  presented-refused tables after (some token) up same e = refreshed-refused after.users _ (
      rw (e, ← same)
        (rotate_revoked later.token_hash site.policy later.sessions_database later.draw up token
          world.draw.database_now tables.sessions))

  -- After a logout that is answered with the cookie's removal, a refresh by the same cookies, where
  -- tokens are hashed alike and no statement fails, is refused as unauthorized.
  pub handle_refresh-handle_logout :
      (jar : Map Text) (tables after : Tables) (cookie : Cookie)
      → ((s : Statement) → later.sessions_database.fault s ≡ none)
      → later.token_hash ≡ world.token_hash
      → handle_logout site world jar tables ≡ (ok cookie, after)
      → (handle_refresh encode site clock later jar after).0 ≡ err unauthorized
  unfolding handle_refresh handle_logout
  handle_refresh-handle_logout jar tables after cookie up same e =
      presented-refused tables after (lookup site.refresh_cookie_name jar) up same
        (logged_out-Revoked site world tables after (lookup site.refresh_cookie_name jar) cookie e)
