-- ===== src/Accounts/Registered.antt =====
-- src/services/auth.rs: a login after a registration.
use luxor.Base.{
  ◌≤◌, ◌≡◌, refl, true, false, not, ◌||◌, none, some, [], ◌∷◌, ◌++◌, Text, len, find, any, leb,
  text_eq, text_eq_refl, Result, ok, err, Ensures, Ensures-seq, Ensures-elim, Bool-cases,
  Result-cases, Option-cases, inl, inr, arith, ◌==◌, or_false, length, Ensures-map, le→ltb,
}
use luxor.Access.{Role, admin, user, role_name, from_name}
use luxor.Error.{AppError}
use luxor.Validation.{email}
use luxor.Sessions.{Table}
use luxor.Sessions.Rotation.{RefreshPolicy, RefreshGrant, issue_refresh_token}
use luxor.Accounts.{
  Users, UserRow, UserRecord, UserDatabase, selects, inserts, try_from, taken, insert_user, new_row,
  create_user, user_by_email,
}
use luxor.Accounts.Passwords.{
  Argon2, PasswordHash, hash_password, hash_with_pinned_parameters, verify_password,
}
use luxor.Accounts.Strength.{
  password_max_length, validate_password_length, validate_password_strength,
}
use luxor.Accounts.Credentials.{
  World, Tables, normalize_email, screened, signed_in, register, authenticated, login,
}
use luxor.Accounts.Outcome.{Yields, Yields-elim, Pair-cases}

-- The record that a new row reads back as.
abbrev new_record : UserDatabase → Text → Text → Role → UserRecord
new_record db address password_hash role = record {
  id = db.next_id;
  email = address;
  password_hash = password_hash;
  role = role;
  created_at = db.now;
  updated_at = db.now;
}

try_from-new_row :
    (db later : UserDatabase) (address password_hash : Text) (role : Role)
    → try_from later (new_row db address password_hash role)
      ≡ ok (new_record db address password_hash role)
unfolding try_from from_name role_name find text_eq
try_from-new_row db later address password_hash admin = refl
try_from-new_row db later address password_hash user = refl

find_last :
    (row : UserRow) (users : Users)
    → any (taken row) users ≡ false
    → find (λ r. text_eq r.email row.email) (users ++ row ∷ []) ≡ some row
unfolding find
find_last row [] h = rw (text_eq_refl row.email) refl
find_last row (r ∷ users) h =
    let (fresh, rest) = or_false (taken row r) (any (taken row) users) h in
    let (id, address) = or_false (r.id == row.id) (text_eq r.email row.email) fresh in
    rw address (find_last row users rest)

abbrev Finds : UserRow → Users → Type 0
Finds row after = find (λ r. text_eq r.email row.email) after ≡ some row

-- A row that is inserted is found by its address.
insert_user-find :
    (db : UserDatabase) (row : UserRow) (users : Users)
    → Ensures (Finds row) (insert_user db row users)
unfolding insert_user Ensures
insert_user-find db row users =
    elim (Bool-cases (not (text_eq row.email (db.lower row.email)) || leb (length row.email) 3)) [
      | inl refused ↦ rw refused tt
      | inr accepted ↦ elim (Bool-cases (any (taken row) users)) [
        | inl clash ↦ rw (accepted, clash) tt
        | inr fresh ↦ rw (accepted, fresh) (find_last row users fresh)
      ]
    ]

-- What holds of the account and the table of an insertion, if it succeeds.
Inserted : (UserRecord → Users → Type 0) → Result AppError UserRecord × Users → Type 0
Inserted P (ok account, users) = P account users
Inserted P (err e, users) = Unit

create_user-Inserted :
    (db : UserDatabase) (address password_hash : Text) (role : Role) (users : Users)
    → Inserted
        (λ account after.
          (account ≡ new_record db address password_hash role)
          × Finds (new_row db address password_hash role) after)
        (create_user db address password_hash role users)
unfolding Inserted create_user
create_user-Inserted db address password_hash role users =
    let row = new_row db address password_hash role in
    elim (Option-cases (db.fault inserts)) [
      | inr (failure, down) ↦ rw (down, create_user) tt
      | inl up ↦ elim (Result-cases (insert_user db row users)) [
        | inr (e, refused) ↦ rw (up, refused, create_user) tt
        | inl (after, stored) ↦
            rw (up, stored, create_user, try_from-new_row db db address password_hash role)
              (refl, Ensures-elim _ (insert_user-find db row users) stored)
      ]
    ]

-- A later read finds the account.
pub Readable : Text → UserRecord → Users → Type 0
Readable address account after =
    (later : UserDatabase)
    → later.fault selects ≡ none
    → user_by_email later address after ≡ ok (some account)

user_by_email-new :
    (db : UserDatabase) (address password_hash : Text) (role : Role) (after : Users)
    → Finds (new_row db address password_hash role) after
    → Readable address (new_record db address password_hash role) after
unfolding user_by_email Readable
user_by_email-new db address password_hash role after found later up =
    rw (up, found, try_from-new_row db later address password_hash role) refl

module _ (world : World) where
  abbrev pub IsScreened : Text → Text → Type 0
  IsScreened password password_hash =
      (len password ≤ password_max_length)
      × (world.argon2.hash password world.salt ≡ some password_hash)

  hash_password-screened :
      (password : Text)
      → Ensures
          (λ password_hash. world.argon2.hash password world.salt ≡ some password_hash)
          (hash_password world.argon2 world.joins world.salt password)
  unfolding hash_password hash_with_pinned_parameters Ensures
  hash_password-screened password = elim (Bool-cases world.joins) [
    | inr lost ↦ rw lost tt
    | inl done ↦ elim (Option-cases (world.argon2.hash password world.salt)) [
      | inl failed ↦ rw (done, failed) tt
      | inr (password_hash, made) ↦ rw (done, made) refl
    ]
  ]

  length_bound :
      (password : Text)
      → validate_password_length password ≡ ok tt
      → len password ≤ password_max_length
  unfolding validate_password_length
  length_bound password h = ground (arith)

  screened-IsScreened :
      (address password : Text) → Ensures (IsScreened password) (screened world address password)
  unfolding screened
  screened-IsScreened address password = Ensures-seq _ (email address) _ λ shaped.
      Ensures-seq _ (validate_password_length password) _ λ sized.
        Ensures-seq _ (validate_password_strength world.zxcvbn world.joins address password) _
          λ strong.
            Ensures-map _ _ _ (hash_password-screened password)
              λ password_hash made. (length_bound password sized, made)

module _ (world : World) (policy : RefreshPolicy) where
  -- What a registration that succeeds leaves.
  abbrev pub IsRegistered : Text → Text → UserRecord → RefreshGrant → Tables → Type 0
  IsRegistered address password account grant after =
      IsScreened world password account.password_hash
      × Readable (normalize_email address) account after.users

  register-Yields :
      (address password : Text) (role : Role) (tables : Tables)
      → Yields (IsRegistered address password) (register world policy address password role tables)
  unfolding register signed_in Yields Inserted
  register-Yields address password role tables =
      elim (Result-cases (screened world (normalize_email address) password)) [
        | inr (e, refused) ↦ rw refused tt
        | inl (password_hash, passed) ↦
            let account_made =
              create_user-Inserted world.users_database (normalize_email address) password_hash role
                tables.users in
            elim (Pair-cases (
              create_user world.users_database (normalize_email address) password_hash role
                tables.users)) [
                  | inr (e, users, failed) ↦ rw (passed, failed) tt
                  | inl (account, users, made) ↦
                      elim (Pair-cases (
                        issue_refresh_token world.token_hash policy world.sessions_database
                          world.draw account.id tables.sessions)) [
                            | inr (e, sessions, unsigned) ↦ rw (passed, made, unsigned) tt
                            | inl (grant, sessions, issued) ↦
                                let (same, finds) = rw made at account_made in
                                rw (passed, made, issued, same)
                                  (
                                    Ensures-elim _
                                        (screened-IsScreened world (normalize_email address)
                                          password)
                                        passed,
                                    user_by_email-new world.users_database (normalize_email address)
                                        password_hash role users finds,
                                  )
                          ]
                ]
      ]

-- What is documented of the library: it accepts the password that a hash was made of, and parses
-- the hashes that it makes.
abbrev pub IsSound : Argon2 → Type 0
IsSound argon2 =
    (password salt password_hash : Text)
    → argon2.hash password salt ≡ some password_hash
    → (argon2.verifies password password_hash ≡ true)
      × (parsed : PasswordHash) × (argon2.parse password_hash ≡ some parsed)

module _ (world later : World) (policy : RefreshPolicy) where
  login_accepts :
      (address password : Text) (tables : Tables) (account : UserRecord) (grant : RefreshGrant)
      (sessions : Table) (parsed : PasswordHash)
      → len password ≤ password_max_length
      → later.joins ≡ true
      → user_by_email later.users_database (normalize_email address) tables.users
        ≡ ok (some account)
      → later.argon2.parse account.password_hash ≡ some parsed
      → later.argon2.verifies password account.password_hash ≡ true
      → issue_refresh_token later.token_hash policy later.sessions_database later.draw account.id
          tables.sessions
        ≡ (ok grant, sessions)
      → (login later policy address password tables).0 ≡ ok (account, grant)
  unfolding login authenticated verify_password signed_in
  login_accepts address password tables account grant sessions parsed short joined found parses
        matches issued =
      rw (le→ltb password_max_length (len password) short, found, joined, parses, matches, issued)
        refl

  -- Where the library accepts and parses the hashes that it makes, after a registration that
  -- succeeds, a login with its password and an address that normalises alike, against a database
  -- that reads and issues the session, succeeds with the registered user and that session.
  pub login-register :
      (address again password : Text) (role : Role) (tables after : Tables) (account : UserRecord)
      (grant next : RefreshGrant) (sessions : Table)
      → IsSound later.argon2
      → later.argon2 ≡ world.argon2
      → normalize_email again ≡ normalize_email address
      → register world policy address password role tables ≡ (ok (account, grant), after)
      → later.joins ≡ true
      → later.users_database.fault selects ≡ none
      → issue_refresh_token later.token_hash policy later.sessions_database later.draw account.id
          after.sessions
        ≡ (ok next, sessions)
      → (login later policy again password after).0 ≡ ok (account, next)
  unfolding Readable
  login-register address again password role tables after account grant next sessions sound library
        same_address done joined up issued =
      let ((short, made), readable) =
        Yields-elim _ (register-Yields world policy address password role tables) done in
      let (matches, parsed, parses) =
        sound password world.salt account.password_hash (rw library made) in
      login_accepts again password after account next sessions parsed short joined
        (rw same_address (readable later.users_database up)) parses matches issued
