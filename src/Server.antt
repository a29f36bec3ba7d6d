-- ===== src/Server.antt =====
-- src/server/mod.rs: the HTTPS check, the security headers and the request deadline, and the stack
-- of them. Tracing, CORS, request IDs and the body limit are a library's layers: whatever they and
-- the routes answer is the parameter `next`.
pub mod Headers
pub mod Plaintext
use luxor.Base.{
  ℕ, Bool, true, false, not, ◌&&◌, ◌||◌, Option, none, some, List, [], ◌∷◌, ◌++◌, Text, codes,
  text_eq, is_empty, all, contains_char, split_first, trim, eq_ignore_ascii_case, strip_prefix, ltb,
  ◌==◌, if◌then◌else◌,
}
use luxor.Http.{HeaderValue, visible, HeaderMap, get, insert, readable, Request, Response, empty}
use luxor.Error.{
  AppError, https_required, request_timeout, not_found, method_not_allowed, into_response,
}

pub data HttpsEnforcement : Type 0 where
  off proxy_header : HttpsEnforcement

pub record SecurityHeaders : Type 0 where
  pub content_security_policy : HeaderValue
  pub hsts : Option HeaderValue

abbrev is_prefix : Option Text → Bool
is_prefix none = false
is_prefix (some rest) = true

-- `starts_with("/api/")`.
unfoldable pub is_api : Text → Bool
unfolding strip_prefix
is_api path = is_prefix (strip_prefix (codes "/api/") path)

unfoldable pub insert_header : Text → Text → HeaderMap → HeaderMap
unfolding insert
insert_header name value headers = insert name (visible value) headers

abbrev insert_some : Text → Option HeaderValue → HeaderMap → HeaderMap
insert_some name none headers = headers
insert_some name (some value) headers = insert name value headers

abbrev pub api_headers : Bool → HeaderMap → HeaderMap
api_headers false headers = headers
api_headers true headers =
    insert_header (codes "pragma") (codes "no-cache")
      (insert_header (codes "cache-control") (codes "no-store, max-age=0") headers)

-- The insertions of `apply_security_headers`, in their order.
unfoldable pub secured : SecurityHeaders → Bool → HeaderMap → HeaderMap
unfolding insert_header
secured settings api headers = insert_some (codes "strict-transport-security") settings.hsts (
    api_headers api (
      insert_header (codes "permissions-policy") (codes "camera=(), geolocation=(), microphone=()")
        (insert_header (codes "referrer-policy") (codes "strict-origin-when-cross-origin") (
          insert_header (codes "x-frame-options") (codes "DENY") (
            insert_header (codes "x-content-type-options") (codes "nosniff") (
              insert (codes "content-security-policy") settings.content_security_policy
                headers))))))

unfoldable pub apply_security_headers : SecurityHeaders → (Request → Response) → Request → Response
unfolding secured is_api
apply_security_headers settings next request =
    let response = next request in
    record response { headers = secured settings (is_api request.path) response.headers }

-- `tokio::time::timeout`: the handler's answer, if it comes in time.
unfoldable pub enforce_request_timeout : (Request → Option Response) → Request → Response
unfolding into_response
enforce_request_timeout next request = elim (next request) [
  | some response ↦ response
  | none ↦ into_response request_timeout
]

-- A host that cannot be put in a location.
unfoldable pub is_unsafe_host : Text → Bool
is_unsafe_host host =
    is_empty host
    || not (all (λ c. ltb c 128) host)
    || contains_char b'/' host
    || contains_char b'\\' host
    || contains_char b'@' host
    || contains_char b'?' host
    || contains_char b'#' host

abbrev pub target_of : Option Text → Text
target_of none = codes "/"
target_of (some target) = target

abbrev pub redirect_to : Option HeaderValue → Option Response
redirect_to none = none
redirect_to (some location) =
    some (record { status = 308; headers = (codes "location", location) ∷ []; body = empty })

-- `HeaderValue::try_from` is the HTTP library's.
module _ (header_value : Text → Option HeaderValue) where
  unfoldable pub https_redirect : Request → Option Response
  unfolding is_unsafe_host get
  https_redirect request = elim (readable (get (codes "host") request.headers)) [
    | none ↦ none
    | some host ↦
        if is_unsafe_host host
        then none
        else redirect_to
            (header_value (codes "https://" ++ host ++ target_of request.path_and_query))
  ]

  abbrev redirect_or_refuse : Option Response → Response
  redirect_or_refuse none = into_response https_required
  redirect_or_refuse (some redirect) = redirect

  unfoldable pub plaintext_response : Request → Response
  unfolding https_redirect into_response text_eq
  plaintext_response request =
      if text_eq request.method (codes "GET") || text_eq request.method (codes "HEAD")
      then redirect_or_refuse (https_redirect request)
      else into_response https_required

  -- The scheme of the first entry of the proxy's chain.
  abbrev pub first_scheme : Option Text → Option Text
  first_scheme none = none
  first_scheme (some value) = some (trim (split_first (λ c. c == b',') value))

  unfoldable pub forwarded_proto : Request → Option Text
  unfolding get trim split_first
  forwarded_proto request =
      first_scheme (readable (get (codes "x-forwarded-proto") request.headers))

  unfoldable pub enforce_https : HttpsEnforcement → (Request → Response) → Request → Response
  enforce_https off next request = next request
  enforce_https proxy_header next request = elim (forwarded_proto request) [
    | none ↦ next request
    | some proto ↦
        if eq_ignore_ascii_case proto (codes "https")
        then next request
        else plaintext_response request
  ]

  -- `middleware`: the layers of this module, outermost first.
  unfoldable pub stack :
      HttpsEnforcement → SecurityHeaders → (Request → Option Response) → Request → Response
  unfolding enforce_https apply_security_headers enforce_request_timeout
  stack enforcement settings next =
      enforce_https enforcement (apply_security_headers settings (enforce_request_timeout next))

-- The fallbacks of the routes under `/api`.
abbrev pub api_not_found : AppError
api_not_found = not_found (codes "route")

abbrev pub api_method_not_allowed : AppError
api_method_not_allowed = method_not_allowed
