-- ===== src/Tests/Tracing.antt =====
-- Inputs for the traces: milliseconds that are whole numbers, and spans that finish out of order.
use mathlib.Core.List.{Perm}
use luxor.Base.{
  ℕ, ◌≡◌, refl, true, false, List, [], ◌∷◌, leb, take, map, filter, Text, codes, text_eq, arith,
}
use luxor.Events.{reverse}
use luxor.Traces.{
  SpanData, server, unset, trace_store_capacity, stored_span, export, trace, record_span,
  insert_span,
}
use luxor.Traces.Timeline.{IsTotalOrder, InOrder, trace-IsSorted}

abbrev whole : ℕ → ℕ
whole nanos = nanos

leb_total : (a b : ℕ) → leb a b ≡ false → leb b a ≡ true
leb_total a b h = ground arith

leb_transitive : (a b c : ℕ) → leb a b ≡ true → leb b c ≡ true → leb a c ≡ true
leb_transitive a b c h k = ground arith

abbrev earlier : IsTotalOrder leb
earlier = record { total = leb_total; transitive = leb_transitive }

abbrev span : Text → Text → ℕ → ℕ → SpanData
span trace_id span_id start_time end_time = record {
  trace_id = trace_id;
  span_id = span_id;
  parent_span_id = [];
  name = codes "http_request";
  span_kind = server;
  status = unset;
  start_time = start_time;
  end_time = end_time;
}

abbrev finished : List SpanData
finished =
    span (codes "t1") (codes "inner") 20 30
    ∷ span (codes "t2") (codes "other") 5 40
    ∷ span (codes "t1") (codes "outer") 10 50
    ∷ []

trace_run :
    map (λ s. s.span_id) (trace leb (codes "t1") (export whole finished []))
    ≡ codes "outer" ∷ codes "inner" ∷ []
unfolding trace export record_span insert_span
trace_run = refl

trace-IsSorted_example :
    (kept : List SpanData) × (found : List SpanData) × (reverse kept
      ≡ take trace_store_capacity (reverse finished))
    × (export whole finished [] ≡ map (stored_span whole) kept)
    × (trace leb (codes "t1") (export whole finished []) ≡ map (stored_span whole) found)
    × Perm found (filter (λ s. text_eq s.trace_id (codes "t1")) kept)
    × InOrder whole leb found
trace-IsSorted_example = trace-IsSorted whole leb earlier finished (codes "t1")
