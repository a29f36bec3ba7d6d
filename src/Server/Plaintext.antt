-- ===== src/Server/Plaintext.antt =====
-- src/server/mod.rs: `enforce_https` on a request that the proxy marks as plaintext.
use luxor.Base.{
  ℕ, ◌≡◌, ◌⊎◌, Bool, true, false, not, ◌||◌, ◌&&◌, ◌==◌, ltb, all, is_empty, contains_char, Option,
  none, some, [], ◌∷◌, ◌++◌, Text, codes, text_eq, trim, eq_ignore_ascii_case,
}
use luxor.Http.{HeaderValue, get, readable, Request, Response, empty}
use luxor.Error.{https_required, into_response}
use luxor.Server.{target_of}

-- The entry that stands first in a chain of entries with commas between them.
abbrev pub IsFirst : Text → Text → Type 0
IsFirst entry chain =
    (all (λ c. not (c == b',')) entry ≡ true)
    × ((chain ≡ entry) ⊎ ((rest : Text) × (chain ≡ entry ++ b',' ∷ rest)))

-- A character that cannot end the host in a URL, nor begin another part of it.
abbrev pub is_host_char : ℕ → Bool
is_host_char c = ltb c 128 && not (c == b'/' || c == b'\\' || c == b'@' || c == b'?' || c == b'#')

abbrev pub is_host : Text → Bool
is_host host = not (is_empty host) && all is_host_char host

unsafe_text : Text → Bool
unsafe_text host =
    not (all (λ c. ltb c 128) host)
    || contains_char b'/' host
    || contains_char b'\\' host
    || contains_char b'@' host
    || contains_char b'?' host
    || contains_char b'#' host

-- Whether the proxy's first entry, which is what the client used, is https.
unfoldable pub Says : Bool → Request → Type 0
Says secure request =
    (chain : Text) × (entry : Text) × (readable (get (codes "x-forwarded-proto") request.headers)
      ≡ some chain)
    × IsFirst entry chain
    × (eq_ignore_ascii_case (trim entry) (codes "https") ≡ secure)

abbrev pub is_safe_method : Request → Bool
is_safe_method request =
    text_eq request.method (codes "GET") || text_eq request.method (codes "HEAD")

module _ (header_value : Text → Option HeaderValue) where
  abbrev location_of : Request → Text → Option HeaderValue
  location_of request host =
      header_value (codes "https://" ++ host ++ target_of request.path_and_query)

  abbrev host_of : Request → Option Text
  host_of request = readable (get (codes "host") request.headers)

  -- A permanent redirect of a safe request to the same host and target over https.
  unfoldable pub IsRedirected : Request → Response → Type 0
  IsRedirected request r =
      (host : Text) × (location : HeaderValue) × (is_safe_method request ≡ true)
      × (host_of request ≡ some host)
      × (is_host host ≡ true)
      × (location_of request host ≡ some location)
      × (r.status ≡ 308)
      × (r.headers ≡ (codes "location", location) ∷ [])
      × (r.body ≡ empty)

  -- What keeps a request from being redirected.
  unfoldable pub HasNoLocation : Request → Type 0
  HasNoLocation request =
      (host_of request ≡ none)
      ⊎ ((host : Text) × (host_of request ≡ some host) × (is_host host ≡ false))
      ⊎ ((host : Text) × (host_of request ≡ some host) × (location_of request host ≡ none))

  unfoldable pub IsForbidden : Request → Response → Type 0
  IsForbidden request r =
      ((is_safe_method request ≡ false) ⊎ HasNoLocation request)
      × (r ≡ into_response https_required)
      × (r.status ≡ 403)
