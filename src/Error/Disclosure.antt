-- ===== src/Error/Disclosure.antt =====
-- src/error.rs: what an error response tells the client.
use luxor.Base.{◌≡◌, refl, sym, ◌∙◌, codes, ◌==◌, Bool-cases, ◌⊎◌, inl, inr, arith}
use luxor.Http.{Response}
use luxor.Error.{
  AppError, unauthorized, forbidden, missing_permission, bad_request, payload_too_large,
  unsupported_media_type, https_required, rate_limited, request_timeout, at_capacity,
  method_not_allowed, not_found, conflict, domain, database, cache, event_stream, serialization,
  authentication, internal, status_code, into_response, JsonRejection, json_syntax_error,
  json_data_error, missing_json_content_type, other, map_json_rejection,
}

-- The application's own errors choose their status.
abbrev pub IsDomain : AppError → Type 0
IsDomain (domain s c m) = Unit
IsDomain _ = ⊥

abbrev opaque_response : Response
opaque_response = into_response internal

internal_response :
    (e : AppError) → ¬ IsDomain e → status_code e ≡ 500 → into_response e ≡ into_response internal
unfolding into_response status_code
internal_response (domain s c m) nd h = absurd (nd tt)
internal_response (database d) nd h = refl
internal_response (cache d) nd h = refl
internal_response (event_stream d) nd h = refl
internal_response (serialization d) nd h = refl
internal_response authentication nd h = refl
internal_response internal nd h = refl
internal_response unauthorized nd h = absurd (omega arith)
internal_response forbidden nd h = absurd (omega arith)
internal_response (missing_permission p) nd h = absurd (omega arith)
internal_response (bad_request m) nd h = absurd (omega arith)
internal_response payload_too_large nd h = absurd (omega arith)
internal_response unsupported_media_type nd h = absurd (omega arith)
internal_response https_required nd h = absurd (omega arith)
internal_response (rate_limited s) nd h = absurd (omega arith)
internal_response request_timeout nd h = absurd (omega arith)
internal_response (at_capacity w) nd h = absurd (omega arith)
internal_response method_not_allowed nd h = absurd (omega arith)
internal_response (not_found w) nd h = absurd (omega arith)
internal_response (conflict w) nd h = absurd (omega arith)

-- Any two errors that are not the application's own and have status 500 are answered by the same
-- response.
pub into_response_indistinct :
    (e f : AppError)
    → ¬ IsDomain e
    → ¬ IsDomain f
    → status_code e ≡ 500
    → status_code f ≡ 500
    → into_response e ≡ into_response f
into_response_indistinct e f ne nf he hf =
    internal_response e ne he ∙ sym (internal_response f nf hf)

-- A body that cannot be read is a client error, and the response says one of five fixed things,
-- whatever the rejection carries.
pub map_json_rejection_client :
    (r : JsonRejection)
    → (map_json_rejection r ≡ bad_request (codes "request body is not valid JSON"))
      ⊎ (map_json_rejection r
          ≡ bad_request (codes "request body does not match the schema this endpoint accepts"))
      ⊎ (map_json_rejection r ≡ bad_request (codes "request body could not be read"))
      ⊎ (map_json_rejection r ≡ unsupported_media_type)
      ⊎ (map_json_rejection r ≡ payload_too_large)
unfolding map_json_rejection
map_json_rejection_client json_syntax_error = inl refl
map_json_rejection_client json_data_error = inr (inl refl)
map_json_rejection_client missing_json_content_type = inr (inr (inr (inl refl)))
map_json_rejection_client (other status) = elim (Bool-cases (status == 413)) [
  | inl large ↦ rw large (inr (inr (inr (inr refl))))
  | inr small ↦ rw small (inr (inr (inl refl)))
]
