-- ===== src/Validation.antt =====
-- src/validation.rs: the shape of an email address.
use luxor.Base.{
  ℕ, ◌≡◌, refl, ◌≤◌, Bool, true, false, not, ◌&&◌, ◌||◌, none, some, ◌++◌, Text, codes, len,
  is_empty, any, is_control, is_whitespace, contains_char, starts_with_char, ends_with_char,
  split_once, leb, Result, ok, err, ensure, Ensures, Ensures-elim, Ensures-ensure, Ensures-err,
  Option-cases, inl, inr, arith,
}
use luxor.Base.Cutting.{split_once-some}
use luxor.Error.{AppError, bad_request}

abbrev pub email_max_length : ℕ
email_max_length = 320

abbrev pub invalid_email : AppError
invalid_email = bad_request (codes "a valid email is required")

-- The test on the address and its two parts.
unfoldable pub well_formed : Text → Text → Text → Bool
unfolding len is_control is_whitespace ends_with_char
well_formed address local domain =
    leb (len address) email_max_length
    && not (any (λ c. is_control c || is_whitespace c) address)
    && not (is_empty local)
    && not (contains_char b'@' domain)
    && contains_char b'.' domain
    && not (starts_with_char b'.' domain)
    && not (ends_with_char b'.' domain)

unfoldable pub email : Text → Result AppError (Unit {0})
unfolding split_once well_formed
email address = elim (split_once (codes "@") address) [
  | none ↦ err invalid_email
  | some (local, domain) ↦ ensure (well_formed address local domain) invalid_email
]

-- A local part and a domain round the one `@`, nothing that a header or a log line gives meaning.
pub IsInert : Text → Type 0
IsInert address =
    (local : Text) × (domain : Text) × (address ≡ local ++ codes "@" ++ domain)
    × (is_empty local ≡ false)
    × (contains_char b'@' domain ≡ false)
    × (contains_char b'.' domain ≡ true)
    × (any (λ c. is_control c || is_whitespace c) address ≡ false)
    × (len address ≤ email_max_length)

shape_lem :
    (a b c d e f g : Bool)
    → a && not b && not c && not d && e && not f && not g ≡ true
    → (a ≡ true) × (b ≡ false) × (c ≡ false) × (d ≡ false) × (e ≡ true)
shape_lem a b c d e f g h = (ground arith, ground arith, ground arith, ground arith, ground arith)

within : (n : ℕ) → leb n email_max_length ≡ true → n ≤ email_max_length
within n h = ground arith

email_lem : (address : Text) → Ensures (λ _. IsInert address) (email address)
unfolding email well_formed IsInert
email_lem address = elim (Option-cases (split_once (codes "@") address)) [
  | inl absent ↦ rw (email, absent) (Ensures-err _ _ invalid_email refl)
  | inr ((local, domain), cut) ↦
      rw (email, cut)
        (Ensures-ensure _ _ _ λ h.
          let (short, inert, named, single, dotted) = shape_lem _ _ _ _ _ _ _ h in
          (
            local,
            domain,
            split_once-some (codes "@") address local domain cut,
            named,
            single,
            dotted,
            inert,
            within (len address) short,
          ))
]

-- An address that is accepted is a local part that is not empty, one @ and a domain with a dot, in
-- at most 320 bytes, without a control character or white space anywhere.
pub email-IsInert : (address : Text) → email address ≡ ok tt → IsInert address
email-IsInert address = Ensures-elim _ (email_lem address)
