-- ===== src/I18n/Rounds.antt =====
-- src/i18n.rs: the loop that the message formatter and the page renderer share: look for the next
-- slot, write what stands for it, and go on behind it.
use luxor.Base.{
  ℕ, zero, suc, ◌<◌, ◌≡◌, refl, Option, none, some, ◌++◌, Text, Result, ok, err, length,
  Result-cases, inl, inr, arith,
}

-- Where the program panics.
pub data Panic : Type 0 where
  unclosed_placeholder : Panic
  undefined_message : Text → Panic

abbrev pub then_text : Text → Result Panic Text → Result Panic Text
then_text out (err e) = err e
then_text out (ok rest) = ok (out ++ rest)

abbrev pub prefixed : Text → Option (Result Panic Text) → Option (Result Panic Text)
prefixed out none = none
prefixed out (some r) = some (then_text out r)

-- A `while let` loop whose body finds the next slot in the rest, if there is one, and gives what is
-- written for the text up to its end and what is left. `none` means that the fuel ran out.
unfoldable pub render_loop :
    (Text → Result Panic (Option (Text × Text))) → ℕ → Text → Option (Result Panic Text)
render_loop body zero rest = none
render_loop body (suc fuel) rest = elim (body rest) [
  | err e ↦ some (err e)
  | ok none ↦ some (ok rest)
  | ok (some (out, later)) ↦ prefixed out (render_loop body fuel later)
]

-- Every round leaves less than it found.
unfoldable pub HasProgress : (Text → Result Panic (Option (Text × Text))) → Type 0
HasProgress body =
    (rest out later : Text) → body rest ≡ ok (some (out, later)) → length later < length rest

prefixed-some :
    (out : Text) (o : Option (Result Panic Text))
    → (r : Result Panic Text) × (o ≡ some r)
    → (r : Result Panic Text) × (prefixed out o ≡ some r)
prefixed-some out none (r, e) = cc
prefixed-some out (some r) h = (then_text out r, refl)

-- With fuel above the length of the text the loop ends.
pub render_loop_total :
    (body : Text → Result Panic (Option (Text × Text)))
    → HasProgress body
    → (fuel : ℕ) (rest : Text) → length rest < fuel
    → (r : Result Panic Text) × (render_loop body fuel rest ≡ some r)
unfolding render_loop HasProgress
render_loop_total body progress zero rest h = elim h [ ]
render_loop_total body progress (suc fuel) rest h = elim (Result-cases (body rest)) [
  | inr (e, stop) ↦ (err e, rw (render_loop, stop))
  | inl (none, done) ↦ (ok rest, rw (render_loop, done))
  | inl (some (out, later), more) ↦
      rw (render_loop, more)
        (prefixed-some out _ (
          render_loop_total body progress fuel later (omega (arith, progress rest out later more))))
]
