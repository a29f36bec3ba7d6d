-- ===== src/Traces/Timeline.antt =====
-- src/observability.rs: the spans of a trace, and the order they are shown in.
use mathlib.Core.List.{Perm}
use mathlib.Core.List.Perm
use luxor.Base.{
  ℕ, suc, ◌==◌, if◌then◌else◌, ◌≡◌, refl, ap, ◌∙◌, inl, inr, Bool, true, false, List, [], ◌∷◌, ◌++◌,
  length, take, map, filter, All, All-map, append_assoc, append-nil, Bool-cases, Text, text_eq,
}
use luxor.Events.{pop_front, reverse, record_within}
use luxor.Events.Recent.{IsWindow, record_within-IsWindow}
use luxor.Traces.{
  SpanData, StoredSpan, trace_store_capacity, stored_span, record_span, export, insert_span,
  sort_spans, trace,
}

-- What the total order of the times documents.
pub record IsTotalOrder {F : Type 0} (le : F → F → Bool) : Type 0 where
  pub total : (a b : F) → le a b ≡ false → le b a ≡ true
  pub transitive : (a b c : F) → le a b ≡ true → le b c ≡ true → le a c ≡ true

module _ {F : Type 0} (le : F → F → Bool) where
  abbrev Starts : StoredSpan F → StoredSpan F → Type 0
  Starts a b = le a.start_unix_ms b.start_unix_ms ≡ true

  -- No span stands behind one that started later.
  unfoldable pub IsSorted : List (StoredSpan F) → Type 0
  IsSorted [] = Unit
  IsSorted (a ∷ spans) = All (Starts a) spans × IsSorted spans

  insert_span-Perm :
      (a : StoredSpan F) (spans : List (StoredSpan F)) → Perm (insert_span le a spans) (a ∷ spans)
  unfolding insert_span
  insert_span-Perm a [] = Perm.rfl
  insert_span-Perm a (b ∷ spans) = elim (Bool-cases (le a.start_unix_ms b.start_unix_ms)) [
    | inl before ↦ rw before Perm.rfl
    | inr after ↦
        rw after (Perm.trans (Perm.cons b (insert_span-Perm a spans)) (Perm.swap a b spans))
  ]

  pub sort_spans-Perm : (spans : List (StoredSpan F)) → Perm (sort_spans le spans) spans
  unfolding sort_spans
  sort_spans-Perm [] = Perm.rfl
  sort_spans-Perm (a ∷ spans) =
      Perm.trans (insert_span-Perm a (sort_spans le spans)) (Perm.cons a (sort_spans-Perm spans))

  insert_span-All :
      (b a : StoredSpan F) (spans : List (StoredSpan F))
      → Starts b a
      → All (Starts b) spans
      → All (Starts b) (insert_span le a spans)
  unfolding insert_span
  insert_span-All b a [] h all = (h, tt)
  insert_span-All b a (c ∷ spans) h (first, all) =
      elim (Bool-cases (le a.start_unix_ms c.start_unix_ms)) [
        | inl before ↦ rw before (h, (first, all))
        | inr after ↦ rw after (first, insert_span-All b a spans h all)
      ]

  module _ (order : IsTotalOrder le) where
    insert_span-IsSorted :
        (a : StoredSpan F) (spans : List (StoredSpan F))
        → IsSorted spans
        → IsSorted (insert_span le a spans)
    unfolding insert_span IsSorted
    insert_span-IsSorted a [] s = (tt, tt)
    insert_span-IsSorted a (b ∷ spans) (first, s) =
        elim (Bool-cases (le a.start_unix_ms b.start_unix_ms)) [
          | inl before ↦ rw before (
            (
              before,
              All-map (Starts b) (Starts a) (λ c. order.transitive _ _ _ before) spans first,
            ),
            (first, s),
          )
          | inr after ↦ rw after (
            insert_span-All b a spans (order.total _ _ after) first,
            insert_span-IsSorted a spans s,
          )
        ]

    pub sort_spans-IsSorted : (spans : List (StoredSpan F)) → IsSorted (sort_spans le spans)
    unfolding sort_spans IsSorted
    sort_spans-IsSorted [] = tt
    sort_spans-IsSorted (a ∷ spans) =
        insert_span-IsSorted a (sort_spans le spans) (sort_spans-IsSorted spans)

-- What recording one more keeps.
abbrev recorded : {E : Type 0} → E → List E → List E
recorded x xs = (if length xs == trace_store_capacity then pop_front xs else xs) ++ x ∷ []

recorded-window :
    {E : Type 0} (x : E) (xs history : List E)
    → reverse xs ≡ take trace_store_capacity history
    → reverse (recorded x xs) ≡ take trace_store_capacity (x ∷ history)
unfolding record_within IsWindow
recorded-window x xs history h =
    (record_within-IsWindow 511 x record { events = xs; consumed = length history } history
      (h, refl)).0

module _ {E F : Type 0} (f : E → F) where
  length-map : (xs : List E) → length (map f xs) ≡ length xs
  length-map [] = refl
  length-map (x ∷ xs) = ap suc (length-map xs)

  pop_front-map : (xs : List E) → pop_front (map f xs) ≡ map f (pop_front xs)
  pop_front-map [] = refl
  pop_front-map (x ∷ xs) = refl

  append-map : (xs : List E) (x : E) → map f xs ++ f x ∷ [] ≡ map f (xs ++ x ∷ [])
  append-map [] x = refl
  append-map (y ∷ xs) x = ap (f y ∷◌) (append-map xs x)

  recorded-map : (x : E) (xs : List E) → recorded (f x) (map f xs) ≡ map f (recorded x xs)
  recorded-map x xs = elim (Bool-cases (length xs == trace_store_capacity)) [
    | inl full ↦ rw (length-map xs, full, pop_front-map xs) (append-map (pop_front xs) x)
    | inr room ↦ rw (length-map xs, room) (append-map xs x)
  ]

  All-map_of : (P : F → Type 0) (xs : List E) → All P (map f xs) → All (λ x. P (f x)) xs
  All-map_of P [] h = tt
  All-map_of P (x ∷ xs) (first, h) = (first, All-map_of P xs h)

module _ {F : Type 0} (millis : ℕ → F) where
  -- The store after a batch, as the spans that it shows.
  export-kept :
      (batch ss history : List SpanData)
      → reverse ss ≡ take trace_store_capacity history
      → (kept : List SpanData) × (export millis batch (map (stored_span millis) ss)
          ≡ map (stored_span millis) kept)
        × (reverse kept ≡ take trace_store_capacity (reverse batch ++ history))
  unfolding export reverse
  export-kept [] ss history h = (ss, refl, h)
  export-kept (span ∷ batch) ss history h =
      let (kept, same, newest) =
        export-kept batch (recorded span ss) (span ∷ history) (recorded-window span ss history h) in
      let step : record_span (stored_span millis span) (map (stored_span millis) ss)
          ≡ map (stored_span millis) (recorded span ss) =
        recorded-map (stored_span millis) span ss in
      (
        kept,
        ap (export millis batch) step ∙ same,
        rw (append_assoc (reverse batch) (span ∷ []) history) newest,
      )

  filter-stored :
      (trace_id : Text) (ss : List SpanData)
      → filter (λ span. text_eq span.trace_id trace_id) (map (stored_span millis) ss)
        ≡ map (stored_span millis) (filter (λ span. text_eq span.trace_id trace_id) ss)
  unfolding filter stored_span
  filter-stored trace_id [] = refl
  filter-stored trace_id (span ∷ ss) = elim (Bool-cases (text_eq span.trace_id trace_id)) [
    | inl of_it ↦ rw of_it (ap (stored_span millis span ∷◌) (filter-stored trace_id ss))
    | inr other ↦ rw other (filter-stored trace_id ss)
  ]

  module _ (le : F → F → Bool) where
    insert_span-stored :
        (span : SpanData) (ss : List SpanData)
        → (ts : List SpanData) × (insert_span le
              (stored_span millis span)
              (map (stored_span millis) ss)
            ≡ map (stored_span millis) ts)
          × Perm ts (span ∷ ss)
    unfolding insert_span
    insert_span-stored span [] = (span ∷ [], refl, Perm.rfl)
    insert_span-stored span (other ∷ ss) =
        elim (Bool-cases
          (le (stored_span millis span).start_unix_ms (stored_span millis other).start_unix_ms)) [
            | inl before ↦ (span ∷ other ∷ ss, rw before refl, Perm.rfl)
            | inr after ↦
                let (ts, same, perm) = insert_span-stored span ss in
                (
                  other ∷ ts,
                  rw after (ap (stored_span millis other ∷◌) same),
                  Perm.trans (Perm.cons other perm) (Perm.swap span other ss),
                )
          ]

    sort_spans-stored :
        (ss : List SpanData)
        → (ts : List SpanData) × (sort_spans le (map (stored_span millis) ss)
            ≡ map (stored_span millis) ts)
          × Perm ts ss
    unfolding sort_spans
    sort_spans-stored [] = ([], refl, Perm.rfl)
    sort_spans-stored (span ∷ ss) =
        let (rest, same, perm) = sort_spans-stored ss in
        let (ts, inserted, all) = insert_span-stored span rest in
        (
          ts,
          ap (insert_span le (stored_span millis span)) same ∙ inserted,
          Perm.trans all (Perm.cons span perm),
        )

    -- No span stands behind one that started later, as the spans themselves say.
    unfoldable pub InOrder : List SpanData → Type 0
    InOrder [] = Unit
    InOrder (a ∷ ss) =
        All (λ b. le (millis a.start_time) (millis b.start_time) ≡ true) ss × InOrder ss

    IsSorted-InOrder : (ss : List SpanData) → IsSorted le (map (stored_span millis) ss) → InOrder ss
    unfolding IsSorted InOrder stored_span
    IsSorted-InOrder [] s = tt
    IsSorted-InOrder (a ∷ ss) (first, s) =
        (All-map_of (stored_span millis) _ ss first, IsSorted-InOrder ss s)

    -- Of the spans that have finished, the store keeps the newest that it has room for; and a trace
    -- shows those of them that have its identifier, none twice and none left out, in the order of
    -- the milliseconds in which they started.
    pub trace-IsSorted :
        (order : IsTotalOrder le) (batch : List SpanData) (trace_id : Text)
        → (kept : List SpanData) × (found : List SpanData) × (reverse kept
            ≡ take trace_store_capacity (reverse batch))
          × (export millis batch [] ≡ map (stored_span millis) kept)
          × (trace le trace_id (export millis batch []) ≡ map (stored_span millis) found)
          × Perm found (filter (λ span. text_eq span.trace_id trace_id) kept)
          × InOrder found
    unfolding trace reverse
    trace-IsSorted order batch trace_id =
        let (kept, stored, newest) = export-kept batch [] [] refl in
        let of_it = filter (λ span. text_eq span.trace_id trace_id) kept in
        let (found, sorted, perm) = sort_spans-stored of_it in
        let shown : trace le trace_id (export millis batch []) ≡ map (stored_span millis) found =
          ap (trace le trace_id) stored
          ∙ ap (sort_spans le) (filter-stored trace_id kept)
          ∙ sorted in
        (
          kept,
          found,
          newest ∙ ap (take trace_store_capacity) (append-nil _),
          stored,
          shown,
          perm,
          IsSorted-InOrder found
              (rw sorted at (sort_spans-IsSorted le order (map (stored_span millis) of_it))),
        )
