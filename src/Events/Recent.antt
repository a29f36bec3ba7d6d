-- ===== src/Events/Recent.antt =====
-- src/events/mod.rs: the log of recent events, and what it shows.
use luxor.Base.{
  ℕ, zero, suc, ◌≤◌, ◌≡◌, refl, sym, ap, ◌∙◌, false, List, [], ◌∷◌, ◌++◌, length, length-append,
  length-take, take, ◌==◌, Bool-cases, inl, inr, arith,
}
use luxor.Events.{
  EventLog, pop_front, reverse, new_log, record_within, record_event, recent, record_all,
  event_log_capacity,
}

module _ {E : Type 0} where
  pub reverse-append : (es : List E) (e : E) → reverse (es ++ e ∷ []) ≡ e ∷ reverse es
  unfolding reverse
  reverse-append [] e = refl
  reverse-append (x ∷ es) e = ap (λ r. r ++ x ∷ []) (reverse-append es e)

  length-reverse : (es : List E) → length (reverse es) ≡ length es
  unfolding reverse
  length-reverse [] = refl
  length-reverse (e ∷ es) = omega (arith, length-append (reverse es) (e ∷ []), length-reverse es)

  take-append : (es fs : List E) → take (length es) (es ++ fs) ≡ es
  take-append [] fs = refl
  take-append (e ∷ es) fs = ap (e ∷◌) (take-append es fs)

  take-take : (n : ℕ) (es : List E) → take n (take (suc n) es) ≡ take n es
  take-take zero es = refl
  take-take (suc n) [] = refl
  take-take (suc n) (e ∷ es) = ap (e ∷◌) (take-take n es)

  -- A list shorter than what is taken is taken whole.
  take_short : (n : ℕ) (es : List E) → length (take (suc n) es) ≤ n → take (suc n) es ≡ take n es
  take_short zero [] h = refl
  take_short zero (e ∷ es) h = absurd (omega arith)
  take_short (suc n) [] h = refl
  take_short (suc n) (e ∷ es) h = ap (e ∷◌) (take_short n es (omega (arith, h)))

  append_assoc : (es fs gs : List E) → (es ++ fs) ++ gs ≡ es ++ (fs ++ gs)
  append_assoc [] fs gs = refl
  append_assoc (e ∷ es) fs gs = ap (e ∷◌) (append_assoc es fs gs)

  append-nil : (es : List E) → es ++ [] ≡ es
  append-nil [] = refl
  append-nil (e ∷ es) = ap (e ∷◌) (append-nil es)

  -- What the log holds of a history, newest first.
  unfoldable pub IsWindow : ℕ → EventLog E → List E → Type 0
  IsWindow capacity log history =
      (reverse log.events ≡ take capacity history) × (log.consumed ≡ length history)

  pop_front_lem :
      (capacity : ℕ) (es history : List E)
      → reverse es ≡ take (suc capacity) history
      → length es ≡ suc capacity
      → reverse (pop_front es) ≡ take capacity history
  unfolding reverse
  pop_front_lem capacity [] history h n = absurd (omega (arith, n))
  pop_front_lem capacity (e ∷ es) history h n =
      sym (take-append (reverse es) (e ∷ []))
      ∙ ap (λ k. take k (reverse es ++ e ∷ [])) (omega (arith, length-reverse es, n))
      ∙ ap (take capacity) h
      ∙ take-take capacity history

  shorter :
      (capacity : ℕ) (es history : List E)
      → reverse es ≡ take (suc capacity) history
      → length es == suc capacity ≡ false
      → reverse es ≡ take capacity history
  shorter capacity es history h room =
      h
      ∙ take_short capacity history
          (ground (arith, length-take (suc capacity) history, length-reverse es, ap length h))

  pub record_within-IsWindow :
      (capacity : ℕ) (e : E) (log : EventLog E) (history : List E)
      → IsWindow (suc capacity) log history
      → IsWindow (suc capacity) (record_within (suc capacity) e log) (e ∷ history)
  unfolding record_within IsWindow
  record_within-IsWindow capacity e log history (shown, counted) =
      elim (Bool-cases (length log.events == suc capacity)) [
        | inl full ↦ rw full (
          reverse-append (pop_front log.events) e
              ∙ ap (e ∷◌) (pop_front_lem capacity log.events history shown (ground arith)),
          omega (arith, counted),
        )
        | inr room ↦ rw room (
          reverse-append log.events e ∙ ap (e ∷◌) (shorter capacity log.events history shown room),
          omega (arith, counted),
        )
      ]

  record_all-IsWindow :
      (es history : List E) (log : EventLog E)
      → IsWindow event_log_capacity log history
      → IsWindow event_log_capacity (record_all es log) (reverse es ++ history)
  unfolding record_all record_event reverse
  record_all-IsWindow [] history log w = w
  record_all-IsWindow (e ∷ es) history log w = rw (append_assoc (reverse es) (e ∷ []) history) (
      record_all-IsWindow es (e ∷ history) (record_event e log)
        (record_within-IsWindow 99 e log history w))

  -- After any events, the log shows the newest of them, newest first, up to the limit asked for and
  -- to the hundred that it holds, and its count is the number of all of them.
  pub recent-record_all :
      (limit : ℕ) (es : List E)
      → (recent limit (record_all es new_log) ≡ take limit (take event_log_capacity (reverse es)))
        × ((record_all es new_log).consumed ≡ length es)
  unfolding recent new_log IsWindow reverse
  recent-record_all limit es =
      let (shown, counted) = record_all-IsWindow es [] new_log (refl, refl) in
      (
        ap (take limit) (shown ∙ ap (take event_log_capacity) (append-nil (reverse es))),
        counted ∙ ap length (append-nil (reverse es)) ∙ length-reverse es,
      )
