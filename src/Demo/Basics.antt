-- ===== src/Demo/Basics.antt =====
-- src/demo/handlers/basic.rs and src/handlers/health.rs: small public endpoints.
use luxor.Base.{
  ℕ, Bool, ◌&&◌, ◌||◌, Option, none, some, List, [], ◌∷◌, ◌++◌, all, is_empty, len, trim, leb, ◌==◌,
  to_ascii_lowercase, Text, codes, if◌then◌else◌, Result, ok, err,
}
use luxor.Error.{AppError, bad_request, not_found}
use luxor.Config.Loaded.{Config}
use luxor.Traces.{StoredSpan, TraceStore, trace}

pub record HealthResponse : Type 0 where
  pub status : Text
  pub service : Text

pub record RuntimeResponse : Type 0 where
  pub database : Text
  pub cache : Text
  pub queue : Text
  pub events : Text

abbrev backend_of : Option Text → Text → Text → Text
backend_of (some url) given absent = given
backend_of none given absent = absent

module _ {Ip : Type 0} where
  unfoldable pub health : Config Ip → HealthResponse
  health config = record { status = codes "ok"; service = config.app_name }

  -- The publisher names its own backend.
  unfoldable pub runtime : Text → Config Ip → RuntimeResponse
  runtime backend config = record {
    database = backend_of config.database.url (codes "postgresql") (codes "embedded-postgresql");
    cache = backend_of config.redis_url (codes "redis") (codes "memory");
    queue = backend_of config.redis_url (codes "redis") (codes "memory");
    events = backend;
  }

abbrev greeted : Option Text → Text
greeted none = codes "world"
greeted (some name) = if is_empty (trim name) then codes "world" else trim name

unfoldable pub hello : Option Text → Text
unfolding trim
hello name = codes "Hello, " ++ (greeted name ++ codes "!")

pub record TraceResponse (F : Type 0) : Type 0 where
  pub trace_id : Text
  pub spans : List (StoredSpan F)

abbrev pub is_ascii_hexdigit : ℕ → Bool
is_ascii_hexdigit c =
    (leb b'0' c && leb c b'9') || (leb b'a' c && leb c b'f') || (leb b'A' c && leb c b'F')

abbrev pub invalid_trace_id : AppError
invalid_trace_id = bad_request (codes "trace id must be 32 hexadecimal characters")

abbrev pub found : {F : Type 0} → Text → List (StoredSpan F) → Result AppError (TraceResponse F)
found trace_id [] = err (not_found (codes "trace"))
found trace_id (span ∷ spans) = ok record { trace_id = trace_id; spans = span ∷ spans }

abbrev pub is_trace_id : Text → Bool
is_trace_id trace_id = len trace_id == 32 && all is_ascii_hexdigit trace_id

unfoldable pub trace_response :
    {F : Type 0} → (F → F → Bool) → TraceStore F → Text → Result AppError (TraceResponse F)
unfolding trace to_ascii_lowercase len
trace_response total_le store named =
    let trace_id = to_ascii_lowercase named in
    if is_trace_id trace_id
    then found trace_id (trace total_le trace_id store)
    else err invalid_trace_id
