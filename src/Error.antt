-- ===== src/Error.antt =====
-- src/error.rs: the application's errors, and the response that each becomes. What a library's
-- error carries is its debug text.
pub mod Disclosure
use luxor.Base.{
  ℕ, ◌≤◌, ◌<◌, ◌≡◌, refl, Bool, true, false, Option, none, some, List, [], ◌∷◌, ◌++◌, Text, codes,
  to_decimal, leb, ltb, if◌then◌else◌, ◌⊎◌, inl, inr, arith, ◌&&◌, ◌==◌,
}
use luxor.Http.{HeaderValue, visible, HeaderMap, Body, api_error, Response, insert, get, get-insert}

pub data AppError : Type 0 where
  unauthorized forbidden : AppError
  missing_permission bad_request : Text → AppError
  payload_too_large unsupported_media_type https_required : AppError
  rate_limited : ℕ → AppError
  request_timeout : AppError
  at_capacity : Text → AppError
  method_not_allowed : AppError
  not_found conflict : Text → AppError
  domain : ℕ → Text → Text → AppError
  database cache event_stream serialization : Text → AppError
  authentication internal : AppError

unfoldable pub status_code : AppError → ℕ
status_code unauthorized = 401
status_code forbidden = 403
status_code (missing_permission p) = 403
status_code (bad_request m) = 400
status_code payload_too_large = 413
status_code unsupported_media_type = 415
status_code https_required = 403
status_code (rate_limited s) = 429
status_code request_timeout = 408
status_code (at_capacity w) = 503
status_code method_not_allowed = 405
status_code (not_found w) = 404
status_code (conflict w) = 409
status_code (domain status c m) = status
status_code (database d) = 500
status_code (cache d) = 500
status_code (event_stream d) = 500
status_code (serialization d) = 500
status_code authentication = 500
status_code internal = 500

unfoldable pub error_code : AppError → Text
error_code unauthorized = codes "unauthorized"
error_code forbidden = codes "forbidden"
error_code (missing_permission p) = codes "forbidden"
error_code (bad_request m) = codes "bad_request"
error_code payload_too_large = codes "payload_too_large"
error_code unsupported_media_type = codes "unsupported_media_type"
error_code https_required = codes "https_required"
error_code (rate_limited s) = codes "rate_limited"
error_code request_timeout = codes "request_timeout"
error_code (at_capacity w) = codes "at_capacity"
error_code method_not_allowed = codes "method_not_allowed"
error_code (not_found w) = codes "not_found"
error_code (conflict w) = codes "conflict"
error_code (domain s c m) = c
error_code (database d) = codes "internal_error"
error_code (cache d) = codes "internal_error"
error_code (event_stream d) = codes "internal_error"
error_code (serialization d) = codes "internal_error"
error_code authentication = codes "internal_error"
error_code internal = codes "internal_error"

-- The `#[error(…)]` texts.
unfoldable pub display : AppError → Text
unfolding to_decimal
display unauthorized = codes "authentication is required"
display forbidden = codes "access is forbidden"
display (missing_permission p) = codes "the " ++ p ++ codes " permission is required"
display (bad_request m) = m
display payload_too_large = codes "request body is too large"
display unsupported_media_type = codes "request body must be encoded as application/json"
display https_required = codes "this endpoint is only available over https"
display (rate_limited s) =
    codes "too many requests; retry after " ++ to_decimal s ++ codes " seconds"
display request_timeout = codes "the request took too long to process"
display (at_capacity w) = w ++ codes " is at capacity; try again shortly"
display method_not_allowed = codes "method not allowed for this route"
display (not_found w) = w ++ codes " was not found"
display (conflict w) = w ++ codes " already exists"
display (domain s c m) = m
display (database d) = codes "database operation failed"
display (cache d) = codes "cache operation failed"
display (event_stream d) = codes "event stream operation failed"
display (serialization d) = codes "serialization failed"
display authentication = codes "authentication operation failed"
display internal = codes "internal server error"

abbrev internal_message : Text
internal_message = codes "an internal error occurred"

unfoldable pub public_message : AppError → Text
unfolding display
public_message (database d) = internal_message
public_message (serialization d) = internal_message
public_message authentication = internal_message
public_message internal = internal_message
public_message (cache d) = internal_message
public_message (event_stream d) = internal_message
public_message e = display e

-- The header that the HTTP library sets for a JSON body.
abbrev json_headers : HeaderMap
json_headers = (codes "content-type", visible (codes "application/json")) ∷ []

abbrev retry_headers : AppError → HeaderMap
retry_headers (rate_limited seconds) =
    insert (codes "retry-after") (visible (to_decimal seconds)) json_headers
retry_headers _ = json_headers

-- `IntoResponse`.
unfoldable pub into_response : AppError → Response
unfolding status_code error_code public_message
into_response e = record {
  status = status_code e;
  headers = retry_headers e;
  body = api_error (error_code e) (public_message e);
}

-- `StatusCode::is_server_error`: what is logged and reported.
abbrev pub is_server_error : ℕ → Bool
is_server_error status = leb 500 status && ltb status 600

-- How reading a JSON body fails; `other` carries the rejection's status.
pub data JsonRejection : Type 0 where
  json_syntax_error json_data_error missing_json_content_type : JsonRejection
  other : ℕ → JsonRejection

unfoldable pub map_json_rejection : JsonRejection → AppError
map_json_rejection json_syntax_error = bad_request (codes "request body is not valid JSON")
map_json_rejection json_data_error =
    bad_request (codes "request body does not match the schema this endpoint accepts")
map_json_rejection missing_json_content_type = unsupported_media_type
map_json_rejection (other status) =
    if status == 413
    then payload_too_large
    else bad_request (codes "request body could not be read")
