-- ===== src/Tests/Serving.antt =====
-- Inputs for the HTTP layers, the permission check and the address check.
use luxor.Base.{
  ◌≡◌, refl, false, Option, none, some, [], ◌∷◌, Text, codes, is_ok, strip_prefix, split_once, len,
  is_control, is_whitespace, ends_with_char,
}
use luxor.Http.{HeaderValue, visible, Request, Response, content}
use luxor.Server.{SecurityHeaders}
use luxor.Validation.{email, well_formed}

abbrev settings : SecurityHeaders
settings = record { content_security_policy = visible (codes "default-src 'self'"); hsts = none }

abbrev login : Request
login = record {
  method = codes "GET";
  path = codes "/api/health";
  path_and_query = some (codes "/api/health");
  headers =
      (codes "x-forwarded-proto", visible (codes "http, https"))
      ∷ (codes "host", visible (codes "example.com"))
      ∷ [];
}

abbrev answer : Request → Response
answer r = record {
  status = 200;
  headers = (codes "x-frame-options", visible (codes "ALLOW")) ∷ [];
  body = content (codes "{}");
}

abbrev name : Text
name = codes "x-frame-options"

abbrev as_visible : Text → Option HeaderValue
as_visible t = some (visible t)

addresses : Unit {0}
unfolding email well_formed split_once strip_prefix len is_control is_whitespace ends_with_char
addresses = tt

email_tests :
    (is_ok (email (codes "person@localhost")) ≡ false)
    × (is_ok (email (codes "person@evil.test@example.com")) ≡ false)
    × (is_ok (email (codes "person\r\nBcc: attacker@example.com")) ≡ false)
unfolding addresses
email_tests = (refl, refl, refl)
