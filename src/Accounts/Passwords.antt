-- ===== src/Accounts/Passwords.antt =====
-- src/auth/password.rs. Hashing, verifying and parsing a stored hash are the argon2 library's; a
-- blocking task's join fails when the runtime lost it.
use luxor.Base.{
  ℕ, Bool, true, false, not, ◌||◌, Option, none, some, Text, ltb, leb, if◌then◌else◌, Result, ok,
  err, Ensures, Bool-cases, Option-cases, inl, inr, ◌≡◌, refl,
}
use luxor.Error.{AppError, authentication}

pub data Algorithm : Type 0 where
  argon2d argon2i argon2id : Algorithm

abbrev memory_kib : ℕ
memory_kib = 19456

abbrev iterations : ℕ
iterations = 2

abbrev parallelism : ℕ
parallelism = 1

-- `Version::V0x13`.
abbrev pinned_version : ℕ
pinned_version = 0x13

pub record Params : Type 0 where
  pub m_cost : ℕ
  pub t_cost : ℕ
  pub p_cost : ℕ

-- A parsed hash: the algorithm and the parameters where the library knows them.
pub record PasswordHash : Type 0 where
  pub algorithm : Option Algorithm
  pub version : Option ℕ
  pub params : Option Params

-- The library: what parses, which password a hash accepts, the hash of a password under a salt.
pub record Argon2 : Type 0 where
  pub parse : Text → Option PasswordHash
  pub verifies : Text → Text → Bool
  pub hash : Text → Text → Option Text

pub record Verification : Type 0 where
  pub matched : Bool
  pub upgraded_hash : Option Text

abbrev is_argon2id : Option Algorithm → Bool
is_argon2id (some argon2id) = true
is_argon2id _ = false

abbrev is_current : Option ℕ → Bool
is_current none = false
is_current (some version) = leb pinned_version version

abbrev is_cheap : Option Params → Bool
is_cheap none = true
is_cheap (some params) =
    ltb params.m_cost memory_kib || ltb params.t_cost iterations || ltb params.p_cost parallelism

unfoldable pub is_below_pinned_cost : PasswordHash → Bool
is_below_pinned_cost hash =
    if not (is_argon2id hash.algorithm)
    then true
    else if not (is_current hash.version)
    then true
    else is_cheap hash.params

module _ (argon2 : Argon2) (joins : Bool) (salt : Text) where
  abbrev joined : {A : Type 0} → Result AppError A → Result AppError A
  joined result = if joins then result else err authentication

  abbrev or_failed : Option Text → Result AppError Text
  or_failed none = err authentication
  or_failed (some hash) = ok hash

  unfoldable pub hash_with_pinned_parameters : Text → Result AppError Text
  hash_with_pinned_parameters password = or_failed (argon2.hash password salt)

  unfoldable pub hash_password : Text → Result AppError Text
  unfolding hash_with_pinned_parameters
  hash_password password = joined (hash_with_pinned_parameters password)

  abbrev result_option : Result AppError Text → Option Text
  result_option (ok hash) = some hash
  result_option (err e) = none

  abbrev upgrade : Text → PasswordHash → Option Text
  unfolding hash_with_pinned_parameters is_below_pinned_cost
  upgrade password hash =
      if is_below_pinned_cost hash
      then result_option (hash_with_pinned_parameters password)
      else none

  abbrev verification : Text → Text → Option PasswordHash → Result AppError Verification
  verification password encoded none = err authentication
  verification password encoded (some hash) = ok (
      if not (argon2.verifies password encoded)
      then record { matched = false; upgraded_hash = none }
      else record { matched = true; upgraded_hash = upgrade password hash })

  unfoldable pub verify_password : Text → Text → Result AppError Verification
  unfolding hash_with_pinned_parameters is_below_pinned_cost
  verify_password password encoded = joined (verification password encoded (argon2.parse encoded))

  -- The verification's outcome is discarded.
  unfoldable pub equalize_login_timing : Text → Result AppError (Unit {0})
  equalize_login_timing password = joined (ok tt)

  -- Only a password that the stored hash accepts is a match.
  pub verify_password-matched :
      (password encoded : Text)
      → Ensures
          (λ v. v.matched ≡ true → argon2.verifies password encoded ≡ true)
          (verify_password password encoded)
  unfolding Ensures verify_password
  verify_password-matched password encoded = elim (Bool-cases joins) [
    | inr lost ↦ rw lost tt
    | inl done ↦ elim (Option-cases (argon2.parse encoded)) [
      | inl garbled ↦ rw (done, garbled) tt
      | inr (hash, parsed) ↦ elim (Bool-cases (argon2.verifies password encoded)) [
        | inl right ↦ rw (done, parsed, right) (λ h. refl)
        | inr wrong ↦ rw (done, parsed, wrong) (λ h. h)
      ]
    ]
  ]
