-- ===== src/Demo/Spans.antt =====
-- src/demo/handlers/basic.rs: the endpoint that shows a trace, next to the store of spans.
use mathlib.Core.List.{Perm}
use luxor.Base.{
  ◌≡◌, ◌≢◌, refl, Bool, List, [], ◌∷◌, filter, to_ascii_lowercase, Text, text_eq, Bool-cases, inl,
  inr, Ensures,
}
use luxor.Traces.{StoredSpan, TraceStore, trace}
use luxor.Traces.Timeline.{IsTotalOrder, IsSorted, sort_spans-IsSorted, sort_spans-Perm}
use luxor.Demo.Basics.{TraceResponse, found, is_trace_id, trace_response}

module _ {F : Type 0} (le : F → F → Bool) (order : IsTotalOrder le) (store : TraceStore F) where
  abbrev spans_of : Text → List (StoredSpan F)
  spans_of trace_id = filter (λ span. text_eq span.trace_id trace_id) store

  unfoldable pub IsShown : Text → TraceResponse F → Type 0
  IsShown trace_id response =
      (response.trace_id ≡ trace_id)
      × (response.spans ≢ [])
      × IsSorted le response.spans
      × Perm response.spans (spans_of trace_id)

  found-IsShown :
      (trace_id : Text) (spans : List (StoredSpan F))
      → IsSorted le spans
      → Perm spans (spans_of trace_id)
      → Ensures (IsShown trace_id) (found trace_id spans)
  unfolding Ensures IsShown
  found-IsShown trace_id [] sorted same = tt
  found-IsShown trace_id (span ∷ spans) sorted same = (refl, λ e. cc, sorted, same)

  -- Whatever is asked for, an answer names the identifier in lower case, and holds at least one span:
  -- all that the store has of that identifier, in the order in which they started.
  pub trace_response-IsShown :
      (named : Text) → Ensures (IsShown (to_ascii_lowercase named)) (trace_response le store named)
  unfolding trace_response trace Ensures
  trace_response-IsShown named =
      let trace_id = to_ascii_lowercase named in
      elim (Bool-cases (is_trace_id trace_id)) [
        | inl valid ↦ rw valid (
            found-IsShown trace_id (trace le trace_id store)
              (sort_spans-IsSorted le order (spans_of trace_id))
              (sort_spans-Perm le (spans_of trace_id)))
        | inr invalid ↦ rw invalid tt
      ]
