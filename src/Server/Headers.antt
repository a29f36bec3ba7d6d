-- ===== src/Server/Headers.antt =====
-- src/server/mod.rs: the headers of a response that leaves the security layer.
use luxor.Base.{◌≡◌, refl, Bool, true, false, Option, none, some, [], ◌∷◌, Text, codes, arith}
use luxor.Http.{HeaderValue, visible, HeaderMap, get, insert, get-insert, Request, Response}
use luxor.Server.{SecurityHeaders, is_api, secured, insert_header, apply_security_headers}

-- The policy as a list of headers: what is sent with everything, and what only under `/api`.
abbrev common_policy : HeaderValue → HeaderMap
common_policy content_security_policy =
    (codes "permissions-policy", visible (codes "camera=(), geolocation=(), microphone=()"))
    ∷ (codes "referrer-policy", visible (codes "strict-origin-when-cross-origin"))
    ∷ (codes "x-frame-options", visible (codes "DENY"))
    ∷ (codes "x-content-type-options", visible (codes "nosniff"))
    ∷ (codes "content-security-policy", content_security_policy)
    ∷ []

abbrev api_policy : Bool → HeaderMap → HeaderMap
api_policy false rest = rest
api_policy true rest =
    (codes "pragma", visible (codes "no-cache"))
    ∷ (codes "cache-control", visible (codes "no-store, max-age=0"))
    ∷ rest

abbrev hsts_policy : Option HeaderValue → HeaderMap → HeaderMap
hsts_policy none rest = rest
hsts_policy (some value) rest = (codes "strict-transport-security", value) ∷ rest

pub policy : SecurityHeaders → Bool → HeaderMap
policy settings api =
    hsts_policy settings.hsts (api_policy api (common_policy settings.content_security_policy))

-- The first of two that there is.
abbrev pub or_else : Option HeaderValue → Option HeaderValue → Option HeaderValue
or_else none later = later
or_else (some value) later = some value

abbrev insert_all : HeaderMap → HeaderMap → HeaderMap
insert_all [] headers = headers
insert_all ((name, value) ∷ rest) headers = insert name value (insert_all rest headers)

get-insert_all :
    (name : Text) (entries headers : HeaderMap)
    → get name (insert_all entries headers) ≡ or_else (get name entries) (get name headers)
unfolding get
get-insert_all name [] headers = refl
get-insert_all name ((k, v) ∷ rest) headers =
    ground (arith, get-insert name k v (insert_all rest headers), get-insert_all name rest headers)

secured_all :
    (csp : HeaderValue) (hsts : Option HeaderValue) (api : Bool) (headers : HeaderMap)
    → secured (record { content_security_policy = csp; hsts = hsts }) api headers
      ≡ insert_all (policy (record { content_security_policy = csp; hsts = hsts }) api) headers
unfolding secured insert_header policy
secured_all csp none false headers = refl
secured_all csp none true headers = refl
secured_all csp (some value) false headers = refl
secured_all csp (some value) true headers = refl

-- Whatever the routes answer, the layer keeps the status and the body, shows the policy's value of
-- every header that the policy names, and the routes' value of every other.
pub get-apply_security_headers :
    (settings : SecurityHeaders) (next : Request → Response) (request : Request) (name : Text)
    → (get name (apply_security_headers settings next request).headers
        ≡ or_else
            (get name (policy settings (is_api request.path)))
            (get name (next request).headers))
      × ((apply_security_headers settings next request).status ≡ (next request).status)
      × ((apply_security_headers settings next request).body ≡ (next request).body)
unfolding apply_security_headers
get-apply_security_headers settings next request name = (
  rw
      (secured_all settings.content_security_policy settings.hsts (is_api request.path)
        (next request).headers)
      (get-insert_all name (policy settings (is_api request.path)) (next request).headers),
  refl,
  refl,
)
