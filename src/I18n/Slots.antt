-- ===== src/I18n/Slots.antt =====
-- src/i18n.rs: what `format_message` makes of a message that is texts and slots.
use luxor.Base.{
  ℕ, zero, suc, ◌<◌, ◌≡◌, refl, ap, ◌∙◌, Option, none, some, List, [], ◌∷◌, ◌++◌, Text, codes,
  Result, ok, length, length-append, All, All-append, append_assoc, Option-cases, inl, inr, arith,
}
use luxor.Base.Map.{Map, lookup}
use luxor.Base.Cutting.{Lacks, split_once-append, split_once-Lacks}
use luxor.I18n.Rounds.{Panic, render_loop}
use luxor.I18n.Message.{substituted, with_value, format_round, format_message}

-- Text and the name of the slot behind it.
abbrev pub Segments : Type 0
Segments = List (Text × Text)

-- A message of segments and what follows the last.
abbrev pub written : Segments → Text → Text
written [] tail = tail
written ((text, name) ∷ rest) tail =
    text ++ (codes "{" ++ (name ++ (codes "}" ++ written rest tail)))

abbrev pub or_slot : Text → Option Text → Text
or_slot name none = codes "{" ++ (name ++ codes "}")
or_slot name (some value) = value

-- Every slot with a value stands for it, and every other for itself.
abbrev pub filled : Map Text → Segments → Text → Text
filled values [] tail = tail
filled values ((text, name) ∷ rest) tail =
    text ++ (or_slot name (lookup name values) ++ filled values rest tail)

-- No braces but those of the slots.
abbrev pub IsSegment : Text × Text → Type 0
IsSegment (text, name) = Lacks b'{' text × Lacks b'{' name × Lacks b'}' name

-- A round over text without an opening brace, then a slot.
round_slot :
    (values : Map Text) (before name rest : Text)
    → Lacks b'{' before
    → Lacks b'}' name
    → format_round values (before ++ (codes "{" ++ (name ++ (codes "}" ++ rest))))
      ≡ ok (
          some (
            substituted before
              (name ++ (codes "}" ++ rest))
              (with_value (lookup name values) rest)))
unfolding format_round
round_slot values before name rest h k =
    rw
      (
        split_once-append b'{' [] before (name ++ (codes "}" ++ rest)) h,
        split_once-append b'}' [] name rest k,
      )
      refl

round_tail :
    (values : Map Text) (tail : Text) → Lacks b'{' tail → format_round values tail ≡ ok none
unfolding format_round
round_tail values tail h = rw (split_once-Lacks b'{' [] tail h) refl

abbrev loop : Map Text → ℕ → Text → Option (Result Panic Text)
loop values = render_loop (format_round values)

round_done :
    (values : Map Text) (fuel : ℕ) (rest : Text)
    → format_round values rest ≡ ok none
    → loop values (suc fuel) rest ≡ some (ok rest)
unfolding render_loop
round_done values fuel rest e = rw (render_loop, e)

round_more :
    (values : Map Text) (fuel : ℕ) (rest out later end : Text)
    → format_round values rest ≡ ok (some (out, later))
    → loop values fuel later ≡ some (ok end)
    → loop values (suc fuel) rest ≡ some (ok (out ++ end))
unfolding render_loop
round_more values fuel rest out later end e h = rw (render_loop, e, h)

module _ (values : Map Text) (fuel : ℕ) (before name rest end : Text) (unopened : Lacks b'{' before)
    (unclosed : Lacks b'}' name) where
  abbrev slot : Text
  slot = before ++ (codes "{" ++ (name ++ (codes "}" ++ rest)))

  present_step :
      (value : Text)
      → lookup name values ≡ some value
      → loop values fuel rest ≡ some (ok end)
      → loop values (suc fuel) slot ≡ some (ok (before ++ (value ++ end)))
  present_step value found h = rw (← append_assoc before value end) (
      round_more values fuel slot (before ++ value) rest end
        (round_slot values before name rest unopened unclosed
          ∙ ap
              (λ o.
                ok (some (substituted before (name ++ (codes "}" ++ rest)) (with_value o rest))))
              found)
        h)

  absent_step :
      lookup name values ≡ none
      → loop values fuel ((name ++ codes "}") ++ rest) ≡ some (ok ((name ++ codes "}") ++ end))
      → loop values (suc fuel) slot
        ≡ some (ok (before ++ ((codes "{" ++ (name ++ codes "}")) ++ end)))
  absent_step missing h = rw (← append_assoc before (codes "{") ((name ++ codes "}") ++ end)) (
      round_more values fuel slot (before ++ codes "{") (name ++ (codes "}" ++ rest))
        ((name ++ codes "}") ++ end)
        (round_slot values before name rest unopened unclosed
          ∙ ap
              (λ o.
                ok (some (substituted before (name ++ (codes "}" ++ rest)) (with_value o rest))))
              missing)
        (rw (← append_assoc name (codes "}") rest) h))

-- The loop behind text that is already known to hold no brace.
loop-filled :
    (values : Map Text) (segments : Segments) (fuel : ℕ) (before tail : Text)
    → length segments < fuel
    → Lacks b'{' before
    → All IsSegment segments
    → Lacks b'{' tail
    → loop values fuel (before ++ written segments tail)
      ≡ some (ok (before ++ filled values segments tail))
loop-filled values segments zero before tail f b s t = elim f [ ]
loop-filled values [] (suc fuel) before tail f b s t =
    round_done values fuel (before ++ tail)
      (round_tail values (before ++ tail) (All-append _ before tail b t))
loop-filled values ((text, name) ∷ rest) (suc fuel) before tail f b ((plain, unopened, unclosed), s)
      t =
    elim (Option-cases (lookup name values)) [
      | inl missing ↦
          rw
            (
              missing,
              ← append_assoc before text (codes "{" ++ (name ++ (codes "}" ++ written rest tail))),
              ← append_assoc before text
                  (codes "{" ++ (name ++ codes "}") ++ filled values rest tail),
            )
            (absent_step values fuel (before ++ text) name (written rest tail)
              (filled values rest tail) (All-append _ before text b plain) unclosed missing
              (loop-filled values rest fuel (name ++ codes "}") tail (omega (arith, f))
                (All-append _ name (codes "}") unopened (refl, tt)) s t))
      | inr (value, found) ↦
          rw
            (
              found,
              ← append_assoc before text (codes "{" ++ (name ++ (codes "}" ++ written rest tail))),
              ← append_assoc before text (value ++ filled values rest tail),
            )
            (present_step values fuel (before ++ text) name (written rest tail)
              (filled values rest tail) (All-append _ before text b plain) unclosed value found
              (loop-filled values rest fuel [] tail (omega (arith, f)) tt s t))
    ]

length-written :
    (segments : Segments) (tail : Text) → length segments < suc (length (written segments tail))
length-written [] tail = omega arith
length-written ((text, name) ∷ rest) tail = omega (
  arith,
  length-written rest tail,
  length-append text (codes "{" ++ (name ++ (codes "}" ++ written rest tail))),
  length-append name (codes "}" ++ written rest tail),
)

-- A message of texts and named slots, with no other brace but closing ones in the texts, is
-- formatted with every slot that has a value replaced by it, whatever the value holds, and every
-- other slot as it stands.
pub format_message-written :
    (values : Map Text) (segments : Segments) (tail : Text)
    → All IsSegment segments
    → Lacks b'{' tail
    → format_message (written segments tail) values ≡ some (ok (filled values segments tail))
unfolding format_message
format_message-written values segments tail s t =
    loop-filled values segments (suc (length (written segments tail))) [] tail
      (length-written segments tail) tt s t
