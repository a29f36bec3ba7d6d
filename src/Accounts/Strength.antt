-- ===== src/Accounts/Strength.antt =====
-- src/services/auth.rs: the length and the strength that a new password must have. The estimate is
-- the zxcvbn library's.
use luxor.Base.{
  ℕ, zero, suc, ◌-◌, Bool, true, false, ◌&&◌, Option, none, some, List, [], ◌∷◌, ◌++◌, Text, codes,
  len, len_utf8, min, filter, split, split_once, ltb, leb, if◌then◌else◌, Result, ok, err, ensure,
}
use luxor.Error.{AppError, bad_request, authentication}

abbrev password_min_length : ℕ
password_min_length = 12

abbrev pub password_max_length : ℕ
password_max_length = 1024

abbrev password_min_score : ℕ
password_min_score = 3

abbrev pub strength_sample_bytes : ℕ
strength_sample_bytes = 128

unfoldable pub validate_password_length : Text → Result AppError (Unit {0})
unfolding len
validate_password_length password =
    ensure (leb password_min_length (len password) && leb (len password) password_max_length)
      (bad_request (codes "password must contain between 12 and 1024 characters"))

-- `str::is_char_boundary`.
unfoldable pub is_char_boundary : ℕ → Text → Bool
is_char_boundary zero s = true
is_char_boundary (suc index) [] = false
is_char_boundary (suc index) (c ∷ s) =
    leb (len_utf8 c) (suc index) && is_char_boundary (suc index - len_utf8 c) s

-- `(0..=end).rev().find(…)`.
unfoldable pub last_boundary : ℕ → Text → Option ℕ
unfolding is_char_boundary
last_boundary zero s = if is_char_boundary 0 s then some 0 else none
last_boundary (suc end) s =
    if is_char_boundary (suc end) s then some (suc end) else last_boundary end s

-- `&s[..end]` at a boundary.
unfoldable pub slice_to : ℕ → Text → Text
slice_to zero s = []
slice_to (suc end) [] = []
slice_to (suc end) (c ∷ s) = c ∷ slice_to (suc end - len_utf8 c) s

abbrev pub unwrap_index : Option ℕ → ℕ
unwrap_index none = 0
unwrap_index (some index) = index

unfoldable pub strength_sample : Text → Text
unfolding last_boundary slice_to len
strength_sample password =
    slice_to (unwrap_index (last_boundary (min strength_sample_bytes (len password)) password))
      password

abbrev pieces : Option (Text × Text) → List Text
unfolding split filter len
pieces none = []
pieces (some (local, domain)) = local ∷ filter (λ label. ltb 2 (len label)) (split b'.' domain)

unfoldable pub strength_user_inputs : Text → List Text
unfolding split split_once filter len
strength_user_inputs email = email ∷ pieces (split_once (codes "@") email)

-- What the library makes of a password: a score from 0 to 4, and a warning.
pub record Estimate : Type 0 where
  pub score : ℕ
  pub warning : Option Text

abbrev reason : Option Text → Text
reason none = []
reason (some warning) = codes ": " ++ warning

abbrev judged : Estimate → Result AppError (Unit {0})
judged estimate =
    if leb password_min_score estimate.score
    then ok tt
    else err (bad_request (codes "password is too easily guessed" ++ reason estimate.warning))

unfoldable pub validate_password_strength :
    (Text → List Text → Estimate) → Bool → Text → Text → Result AppError (Unit {0})
unfolding strength_sample strength_user_inputs
validate_password_strength zxcvbn joins email password =
    if joins
    then judged (zxcvbn (strength_sample password) (strength_user_inputs email))
    else err authentication
