-- ===== src/Accounts/Outcome.antt =====
-- src/services/auth.rs: what a login shows of the accounts, and what it takes to get one.
use luxor.Base.{
  ℕ, ◌≤◌, ◌≡◌, ◌⊎◌, refl, true, false, Option, none, some, [], ◌∷◌, map, Text, len, ltb, Result, ok,
  err, Bool-cases, Result-cases, Option-cases, Ensures-elim, inl, inr, arith, ◌==◌,
}
use luxor.Error.{AppError, unauthorized}
use luxor.Sessions.Rotation.{RefreshPolicy, RefreshGrant, issue_refresh_token}
use luxor.Accounts.{
  Users, UserRow, UserRecord, user_by_email, update_password_hash, updates, rehashed,
}
use luxor.Accounts.Passwords.{PasswordHash, verify_password, equalize_login_timing}
use luxor.Accounts.Passwords.{verify_password-matched}
use luxor.Accounts.Strength.{password_max_length}
use luxor.Accounts.Credentials.{
  World, Tables, Answer, normalize_email, signed_in, upgraded, authenticated, login,
}

-- What of an account a login leaves: all but the hash and the time of its update.
abbrev pub identity : UserRow → ℕ × Text × Text × ℕ
identity row = (row.id, row.email, row.role, row.created_at)

-- What holds of an answer's account, grant and tables, if it has them.
unfoldable pub Yields : (UserRecord → RefreshGrant → Tables → Type 0) → Answer → Type 0
Yields P (ok (user, grant), tables) = P user grant tables
Yields P (err e, tables) = Unit

pub Yields-elim :
    (P : UserRecord → RefreshGrant → Tables → Type 0) {answer : Answer} {user : UserRecord}
    {grant : RefreshGrant} {after : Tables}
    → Yields P answer
    → answer ≡ (ok (user, grant), after)
    → P user grant after
unfolding Yields
Yields-elim P {answer} {user} {grant} {after} h e = rw e at h

pub Pair-cases :
    {A T : Type 0} (r : Result AppError A × T)
    → ((a : A) × (t : T) × (r ≡ (ok a, t))) ⊎ ((e : AppError) × (t : T) × (r ≡ (err e, t)))
Pair-cases (ok a, t) = inl (a, t, refl)
Pair-cases (err e, t) = inr (e, t, refl)

identity_kept :
    (f : UserRow → UserRow) (same : (row : UserRow) → identity (f row) ≡ identity row)
    (users : Users)
    → map identity (map f users) ≡ map identity users
identity_kept f same [] = refl
identity_kept f same (row ∷ users) = rw (same row, identity_kept f same users) refl

module _ (world : World) where
  identity_rehashed :
      (id : ℕ) (password_hash : Text) (row : UserRow)
      → identity (rehashed world.users_database id password_hash row) ≡ identity row
  identity_rehashed id password_hash row = elim (Bool-cases (row.id == id)) [
    | inl same ↦ rw same refl
    | inr other ↦ rw other refl
  ]

  rehash_identity :
      (id : ℕ) (password_hash : Text) (users : Users)
      → map identity (update_password_hash world.users_database id password_hash users).1
        ≡ map identity users
  unfolding update_password_hash
  rehash_identity id password_hash users =
      elim (Option-cases (world.users_database.fault updates)) [
        | inl up ↦
            rw (up, map)
              (identity_kept (rehashed world.users_database id password_hash)
                (identity_rehashed id password_hash) users)
        | inr (failure, down) ↦ rw (down, map) refl
      ]

  upgraded_identity :
      (user : UserRecord) (new_hash : Option Text) (users : Users)
      → map identity (upgraded world user new_hash users) ≡ map identity users
  unfolding upgraded
  upgraded_identity user none users = refl
  upgraded_identity user (some password_hash) users = rehash_identity user.id password_hash users

module _ (world : World) (policy : RefreshPolicy) where
  -- What a login that succeeds has checked, and what it leaves.
  abbrev pub IsLogin : Text → Text → Tables → UserRecord → RefreshGrant → Tables → Type 0
  IsLogin address password tables user grant after =
      (len password ≤ password_max_length)
      × (user_by_email world.users_database (normalize_email address) tables.users ≡ ok (some user))
      × (world.argon2.verifies password user.password_hash ≡ true)
      × (issue_refresh_token world.token_hash policy world.sessions_database world.draw user.id
            tables.sessions
          ≡ (ok grant, after.sessions))
      × (map identity after.users ≡ map identity tables.users)

  module _ (address password : Text) (tables : Tables) where
    abbrev LoginYields : Answer → Type 0
    LoginYields = Yields (IsLogin address password tables)

    signed_in-Yields :
        (user : UserRecord) (users : Users)
        → len password ≤ password_max_length
        → user_by_email world.users_database (normalize_email address) tables.users ≡ ok (some user)
        → world.argon2.verifies password user.password_hash ≡ true
        → map identity users ≡ map identity tables.users
        → LoginYields (signed_in world policy user (record tables { users = users }))
    unfolding signed_in Yields
    signed_in-Yields user users short found matched kept =
        elim (Pair-cases (
          issue_refresh_token world.token_hash policy world.sessions_database world.draw user.id
            tables.sessions)) [
              | inl (grant, sessions, e) ↦ rw e (short, found, matched, e, kept)
              | inr (failure, sessions, e) ↦ rw e tt
            ]

    verified-Yields :
        (user : UserRecord)
        → len password ≤ password_max_length
        → user_by_email world.users_database (normalize_email address) tables.users ≡ ok (some user)
        → LoginYields (authenticated world policy password tables (ok (some user)))
    unfolding authenticated Yields
    verified-Yields user short found =
        elim (Result-cases
          (verify_password world.argon2 world.joins world.salt password user.password_hash)) [
            | inr (e, failed) ↦ rw failed tt
            | inl (v, checked) ↦ elim (Bool-cases v.matched) [
              | inr wrong ↦ rw (checked, wrong) tt
              | inl right ↦
                  rw (checked, right)
                    (signed_in-Yields user (upgraded world user v.upgraded_hash tables.users) short
                      found
                      (Ensures-elim _
                        (verify_password-matched world.argon2 world.joins world.salt password
                          user.password_hash)
                        checked right)
                      (upgraded_identity world user v.upgraded_hash tables.users))
            ]
          ]

    authenticated-Yields :
        (found : Result AppError (Option UserRecord))
        → len password ≤ password_max_length
        → user_by_email world.users_database (normalize_email address) tables.users ≡ found
        → LoginYields (authenticated world policy password tables found)
    unfolding authenticated Yields
    authenticated-Yields (err e) short same = tt
    authenticated-Yields (ok none) short same =
        elim (Result-cases (equalize_login_timing world.argon2 world.joins world.salt password)) [
          | inl (_, done) ↦ rw done tt
          | inr (e, failed) ↦ rw failed tt
        ]
    authenticated-Yields (ok (some user)) short same = verified-Yields user short same

    login-Yields : LoginYields (login world policy address password tables)
    unfolding login Yields
    login-Yields = elim (Bool-cases (ltb password_max_length (len password))) [
      | inl long ↦ rw long tt
      | inr short ↦ rw short (authenticated-Yields _ (ground arith) refl)
    ]

  -- If a login succeeds, the password has at most 1024 bytes, the user is the one that the
  -- normalised address reads as, the stored hash accepts the password, the session is issued for
  -- that user, and no account but for its hash and time of update has changed.
  pub login_ok :
      (address password : Text) (tables : Tables) (user : UserRecord) (grant : RefreshGrant)
      (after : Tables)
      → login world policy address password tables ≡ (ok (user, grant), after)
      → IsLogin address password tables user grant after
  login_ok address password tables user grant after e =
      Yields-elim _ (login-Yields address password tables) e

  -- Nobody has the address, or the account's hash does not accept the password.
  abbrev pub IsRefusal : Text → Text → Tables → Type 0
  IsRefusal address password tables =
      let found = user_by_email world.users_database (normalize_email address) tables.users in
      (found ≡ ok none)
      ⊎ ((user : UserRecord) × (hash : PasswordHash) × (found ≡ ok (some user))
          × (world.argon2.parse user.password_hash ≡ some hash)
          × (world.argon2.verifies password user.password_hash ≡ false))

  unmatched :
      (password : Text) (tables : Tables) (found : Result AppError (Option UserRecord))
      → world.joins ≡ true
      → (found ≡ ok none)
        ⊎ ((user : UserRecord) × (hash : PasswordHash) × (found ≡ ok (some user))
            × (world.argon2.parse user.password_hash ≡ some hash)
            × (world.argon2.verifies password user.password_hash ≡ false))
      → authenticated world policy password tables found ≡ (err unauthorized, tables)
  unfolding authenticated verify_password equalize_login_timing
  unmatched password tables found joined (inl missing) = rw (missing, joined) refl
  unmatched password tables found joined (inr (user, hash, known, parsed, wrong)) =
      rw (known, joined, parsed, wrong) refl

  -- Where blocking tasks are joined, an address that nobody has and a password that the stored
  -- hash, which parses, does not accept get the same answer, unauthorized, and leave both tables as
  -- they were.
  pub login_refused :
      (address password : Text) (tables : Tables)
      → world.joins ≡ true
      → IsRefusal address password tables
      → login world policy address password tables ≡ (err unauthorized, tables)
  unfolding login
  login_refused address password tables joined refusal =
      elim (Bool-cases (ltb password_max_length (len password))) [
        | inl long ↦ rw long refl
        | inr short ↦ rw short (unmatched password tables _ joined refusal)
      ]
