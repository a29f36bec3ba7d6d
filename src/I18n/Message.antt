-- ===== src/I18n/Message.antt =====
-- src/i18n.rs: `format_message`.
use luxor.Base.{
  suc, ◌<◌, ◌≡◌, refl, ap, Option, none, some, [], ◌++◌, Text, codes, split_once, Result, ok,
  length, arith,
}
use luxor.Base.Map.{Map, lookup}
use luxor.Base.Cutting.{split_once-shorter}
use luxor.I18n.Rounds.{Panic, render_loop, HasProgress, render_loop_total}

-- The `match substitution`, on what was written before the brace.
abbrev pub substituted : Text → Text → Option (Text × Text) → Text × Text
substituted before after none = (before ++ codes "{", after)
substituted before after (some (value, later)) = (before ++ value, later)

abbrev pub with_value : Option Text → Text → Option (Text × Text)
with_value none later = none
with_value (some value) later = some (value, later)

abbrev pub closed_slot : Map Text → Option (Text × Text) → Option (Text × Text)
closed_slot values none = none
closed_slot values (some (name, later)) = with_value (lookup name values) later

abbrev opened_slot : Map Text → Option (Text × Text) → Option (Text × Text)
opened_slot values none = none
opened_slot values (some (before, after)) =
    some (substituted before after (closed_slot values (split_once (codes "}") after)))

-- A round of the loop.
unfoldable pub format_round : Map Text → Text → Result Panic (Option (Text × Text))
format_round values rest = ok (opened_slot values (split_once (codes "{") rest))

unfoldable pub format_message : Text → Map Text → Option (Result Panic Text)
unfolding render_loop format_round split_once lookup
format_message message values = render_loop (format_round values) (suc (length message)) message

with_value-later :
    (o : Option Text) (rest value later : Text)
    → with_value o rest ≡ some (value, later)
    → later ≡ rest
with_value-later none rest value later h = cc
with_value-later (some v) rest value later h = cc

closed_slot-shorter :
    (values : Map Text) (after value later : Text) (c : Option (Text × Text))
    → split_once (codes "}") after ≡ c
    → closed_slot values c ≡ some (value, later)
    → length later < length after
closed_slot-shorter values after value later none e h = cc
closed_slot-shorter values after value later (some (name, rest)) e h =
    rw (with_value-later (lookup name values) rest value later h)
      (split_once-shorter b'}' [] after name rest e)

substituted-shorter :
    (before after out later : Text) (c : Option (Text × Text))
    → ((value rest : Text) → c ≡ some (value, rest) → length rest < length after)
    → some (substituted before after c) ≡ some (out, later)
    → length later < suc (length after)
substituted-shorter before after out later none k h =
    let e : later ≡ after = cc in omega (arith, ap length e)
substituted-shorter before after out later (some (value, rest)) k h =
    let e : later ≡ rest = cc in omega (arith, ap length e, k value rest refl)

opened_slot-shorter :
    (values : Map Text) (rest out later : Text) (o : Option (Text × Text))
    → split_once (codes "{") rest ≡ o
    → opened_slot values o ≡ some (out, later)
    → length later < length rest
opened_slot-shorter values rest out later none e h = cc
opened_slot-shorter values rest out later (some (before, after)) e h = omega (
  arith,
  split_once-shorter b'{' [] rest before after e,
  substituted-shorter before after out later _
      (λ value l c. closed_slot-shorter values after value l _ refl c) h,
)

-- Any message at all is formatted: the loop ends, and never panics.
pub format_message_total :
    (values : Map Text) (message : Text)
    → (r : Result Panic Text) × (format_message message values ≡ some r)
unfolding format_message format_round HasProgress
format_message_total values message =
    render_loop_total (format_round values)
      (λ rest out later e. opened_slot-shorter values rest out later _ refl (cc))
      (suc (length message)) message (omega arith)
