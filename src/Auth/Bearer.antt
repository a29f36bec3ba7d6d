-- ===== src/Auth/Bearer.antt =====
-- src/auth/jwt.rs: the extractor, next to the tokens that the service issues.
use luxor.Base.{
  ℕ, ◌∷◌, [], strip_prefix, to_ascii_lowercase, text_eq, ◌+◌, ◌<◌, ◌≡◌, refl, true, false, Option,
  none, some, ◌++◌, Text, codes, trim, is_empty, split_once, eq_ignore_ascii_case, ok, ok_or, ◌>>=◌,
  Ensures, Ensures-bind, Ensures-ok, Ensures-elim, arith,
}
use luxor.Base.Cutting.{split_once-some}
use luxor.Http.{HeaderMap, get, readable, visible}
use luxor.Access.{Role}
use luxor.Auth.{
  Claims, JwtService, AuthUser, bearer_of, bearer_token, claims_of, issue, verify,
  from_request_parts,
}

ok_or-some : {E A : Type 0} (o : Option A) (e : E) (a : A) → ok_or o e ≡ ok a → o ≡ some a
ok_or-some none e a h = cc
ok_or-some (some b) e a h = cc

-- The value is the bearer scheme, in any case, a space, and the token with white space round it.
pub IsBearer : Text → Text → Type 0
IsBearer value token =
    (scheme : Text) × (rest : Text) × (value ≡ scheme ++ codes " " ++ rest)
    × (eq_ignore_ascii_case scheme (codes "bearer") ≡ true)
    × (token ≡ trim rest)
    × (is_empty token ≡ false)

bearer_of-IsBearer :
    (value token : Text) (o : Option (Text × Text))
    → split_once (codes " ") value ≡ o
    → bearer_of o ≡ some token
    → IsBearer value token
unfolding IsBearer
bearer_of-IsBearer value token none e h = cc
bearer_of-IsBearer value token (some (scheme, rest)) e h = (
  scheme,
  rest,
  split_once-some (codes " ") value scheme rest e,
  ground arith,
  ground arith,
  ground arith,
)

module _ (decode : Text → Text → ℕ → Text → Option Claims) (service : JwtService) (now : ℕ)
    (headers : HeaderMap) where
  -- The request carries a bearer token that decodes to the user's claims under the service's secret
  -- and issuer at that time.
  pub IsAuthenticated : AuthUser → Type 0
  IsAuthenticated user =
      (value : Text) × (token : Text) × (claims : Claims) × (readable
          (get (codes "authorization") headers)
        ≡ some value)
      × IsBearer value token
      × (decode service.secret service.issuer now token ≡ some claims)
      × (user.id ≡ claims.sub)
      × (user.role ≡ claims.role)

  from_request_parts_lem : Ensures IsAuthenticated (from_request_parts decode service now headers)
  unfolding from_request_parts bearer_token verify IsAuthenticated
  from_request_parts_lem = Ensures-bind _ _ _ λ value v. Ensures-bind _ _ _ λ token t.
      Ensures-bind _ _ _ λ claims c. Ensures-ok _ _ _ refl (
        value,
        token,
        claims,
        ok_or-some _ _ value v,
        bearer_of-IsBearer value token _ refl (ok_or-some _ _ token t),
        ok_or-some _ _ claims c,
        refl,
        refl,
      )

  -- A request that is let in carries, in its first Authorization header, the bearer scheme in any
  -- case and a token that is not empty and decodes under the service's secret and issuer; its user
  -- and role are the claims'.
  pub from_request_parts-IsAuthenticated :
      (user : AuthUser)
      → from_request_parts decode service now headers ≡ ok user
      → IsAuthenticated user
  from_request_parts-IsAuthenticated user = Ensures-elim IsAuthenticated from_request_parts_lem

-- The header that a client sends a token in.
abbrev pub bearer_headers : Text → HeaderMap
bearer_headers token = (codes "authorization", visible (codes "Bearer " ++ token)) ∷ []

bearer_token-bearer :
    (token : Text)
    → trim token ≡ token
    → is_empty token ≡ false
    → bearer_token (codes "Bearer " ++ token) ≡ some token
unfolding bearer_token split_once strip_prefix eq_ignore_ascii_case to_ascii_lowercase text_eq
bearer_token-bearer token trimmed full = rw (trimmed, full) refl

module _ (encode : Text → Claims → Option Text) (decode : Text → Text → ℕ → Text → Option Claims)
    (reads_back : (secret token : Text) (claims : Claims) (now : ℕ)
      → encode secret claims ≡ some token
      → now < claims.exp
      → decode secret claims.iss now token ≡ some claims)
    (no_space : (secret token : Text) (claims : Claims)
      → encode secret claims ≡ some token
      → (trim token ≡ token) × (is_empty token ≡ false)) where
  -- Where an encoded token is a text without white space that reads back before it expires, a
  -- request that carries an issued token within its lifetime is its user's, in the role it was
  -- issued for.
  pub from_request_parts-issue :
      (service : JwtService) (user : ℕ) (role : Role) (now later : ℕ) (token : Text)
      → issue encode service user role now ≡ ok token
      → later < now + service.lifetime_seconds
      → from_request_parts decode service later (bearer_headers token)
        ≡ ok (record { id = user; role = role })
  unfolding issue from_request_parts get text_eq ◌>>=◌ verify
  from_request_parts-issue service user role now later token issued lives =
      let encoded = ok_or-some _ _ token issued in
      let (trimmed, full) = no_space _ token _ encoded in
      rw
        (
          bearer_token-bearer token trimmed full,
          reads_back service.secret token (claims_of service user role now) later encoded lives,
        )
        refl
