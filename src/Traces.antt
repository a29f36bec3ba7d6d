-- ===== src/Traces.antt =====
-- src/observability.rs: the store of finished spans. A floating-point number of milliseconds is a
-- parameter with its conversion and its total order; a time is a number of nanoseconds since the
-- epoch, and an earlier one is the epoch.
pub mod Timeline
use luxor.Base.{
  ℕ, ◌-◌, Bool, true, false, Option, none, some, List, [], ◌∷◌, ◌++◌, length, filter, ◌==◌,
  if◌then◌else◌, Text, codes, text_eq, is_empty,
}
use luxor.Events.{pop_front}

pub data SpanKind : Type 0 where
  client server producer consumer internal : SpanKind

pub data Status : Type 0 where
  unset succeeded : Status
  failed : Text → Status

-- What the tracer gives of a finished span. The parent's identifier is empty where it is invalid.
pub record SpanData : Type 0 where
  pub trace_id : Text
  pub span_id : Text
  pub parent_span_id : Text
  pub name : Text
  pub span_kind : SpanKind
  pub status : Status
  pub start_time : ℕ
  pub end_time : ℕ

pub record StoredSpan (F : Type 0) : Type 0 where
  pub trace_id : Text
  pub span_id : Text
  pub parent_span_id : Option Text
  pub name : Text
  pub kind : Text
  pub status : Text
  pub start_unix_ms : F
  pub duration_ms : F

abbrev pub trace_store_capacity : ℕ
trace_store_capacity = 512

abbrev kind_name : SpanKind → Text
kind_name client = codes "client"
kind_name server = codes "server"
kind_name producer = codes "producer"
kind_name consumer = codes "consumer"
kind_name internal = codes "internal"

abbrev status_name : Status → Text
status_name unset = codes "unset"
status_name succeeded = codes "ok"
status_name (failed description) = codes "error"

-- The spans, the oldest first.
abbrev pub TraceStore : Type 0 → Type 0
TraceStore F = List (StoredSpan F)

module _ {F : Type 0} (millis : ℕ → F) where
  unfoldable pub stored_span : SpanData → StoredSpan F
  stored_span span = record {
    trace_id = span.trace_id;
    span_id = span.span_id;
    parent_span_id = if is_empty span.parent_span_id then none else some span.parent_span_id;
    name = span.name;
    kind = kind_name span.span_kind;
    status = status_name span.status;
    start_unix_ms = millis span.start_time;
    duration_ms = millis (span.end_time - span.start_time);
  }

module _ {F : Type 0} where
  -- `TraceStore::record`, whose name is a keyword here.
  unfoldable pub record_span : StoredSpan F → TraceStore F → TraceStore F
  record_span span spans =
      (if length spans == trace_store_capacity then pop_front spans else spans) ++ span ∷ []

module _ {F : Type 0} (millis : ℕ → F) where
  -- `TraceStoreExporter::export`.
  unfoldable pub export : List SpanData → TraceStore F → TraceStore F
  unfolding record_span stored_span
  export [] store = store
  export (span ∷ batch) store = export batch (record_span (stored_span millis span) store)

module _ {F : Type 0} (total_le : F → F → Bool) where
  -- `sort_by`, which leaves spans that start together in the order in which they are.
  unfoldable pub insert_span : StoredSpan F → List (StoredSpan F) → List (StoredSpan F)
  insert_span span [] = span ∷ []
  insert_span span (other ∷ spans) =
      if total_le span.start_unix_ms other.start_unix_ms
      then span ∷ other ∷ spans
      else other ∷ insert_span span spans

  unfoldable pub sort_spans : List (StoredSpan F) → List (StoredSpan F)
  unfolding insert_span
  sort_spans [] = []
  sort_spans (span ∷ spans) = insert_span span (sort_spans spans)

  unfoldable pub trace : Text → TraceStore F → List (StoredSpan F)
  unfolding text_eq filter sort_spans
  trace trace_id store = sort_spans (filter (λ span. text_eq span.trace_id trace_id) store)
