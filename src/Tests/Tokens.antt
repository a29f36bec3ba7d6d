-- ===== src/Tests/Tokens.antt =====
-- Inputs for the tokens: an encoding that reads back.
use luxor.Base.{
  ℕ, zero, suc, ◌<◌, ◌≡◌, refl, sym, subst, ap, ◌∙◌, false, Option, none, some, [], ◌∷◌, Text,
  codes, trim, trim_start, trim_end, is_whitespace, is_empty, ok, arith,
}
use luxor.Access.{Role, admin, user}
use luxor.Auth.{Claims, JwtService, issue, from_request_parts}
use luxor.Auth.Bearer.{
  IsAuthenticated, from_request_parts-IsAuthenticated, bearer_headers, from_request_parts-issue,
}

abbrev role_number : Role → ℕ
role_number admin = 0
role_number user = 1

abbrev role_from : ℕ → Role
role_from zero = admin
role_from (suc n) = user

abbrev write_claims : Text → Claims → Option Text
write_claims secret c = some (b'a' ∷ c.sub ∷ role_number c.role ∷ c.iat ∷ c.exp ∷ b'a' ∷ [])

abbrev read_claims : Text → Text → ℕ → Text → Option Claims
read_claims secret issuer now (_ ∷ s ∷ r ∷ i ∷ e ∷ rest) =
    some (record { sub = s; role = role_from r; iat = i; exp = e; iss = issuer })
read_claims secret issuer now _ = none

role_back : (r : Role) → role_from (role_number r) ≡ r
role_back admin = refl
role_back user = refl

abbrev then_read : Text → Text → ℕ → Option Text → Option Claims
then_read secret issuer now none = none
then_read secret issuer now (some token) = read_claims secret issuer now token

claims_back :
    (secret token : Text) (claims : Claims) (now : ℕ)
    → write_claims secret claims ≡ some token
    → now < claims.exp
    → read_claims secret claims.iss now token ≡ some claims
claims_back secret token claims now e lives =
    ap (then_read secret claims.iss now) (sym e)
    ∙ ap (λ r. some (record claims { role = r })) (role_back claims.role)

abbrev IsPlain : Text → Type 0
IsPlain t = (trim t ≡ t) × (is_empty t ≡ false)

written : (t token : Text) → some t ≡ some token → t ≡ token
written t token e = cc

unspaced :
    (secret token : Text) (claims : Claims)
    → write_claims secret claims ≡ some token
    → (trim token ≡ token) × (is_empty token ≡ false)
unfolding trim trim_start trim_end is_whitespace
unspaced secret token claims e = subst IsPlain (written _ token e) (refl, refl)

abbrev service : JwtService
service = record { secret = codes "s"; lifetime_seconds = 900; issuer = codes "luxor" }

abbrev token : Text
token = b'a' ∷ 7 ∷ 1 ∷ 100 ∷ 1000 ∷ b'a' ∷ []

from_request_parts-issue_example :
    from_request_parts read_claims service 500 (bearer_headers token)
    ≡ ok (record { id = 7; role = user })
unfolding issue
from_request_parts-issue_example =
    from_request_parts-issue write_claims read_claims claims_back unspaced service 7 user 100 500
      token refl (omega arith)

from_request_parts-IsAuthenticated_example :
    IsAuthenticated read_claims service 500 (bearer_headers token) (record { id = 7; role = user })
from_request_parts-IsAuthenticated_example =
    from_request_parts-IsAuthenticated read_claims service 500 (bearer_headers token)
      (record { id = 7; role = user }) from_request_parts-issue_example
