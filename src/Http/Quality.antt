-- ===== src/Http/Quality.antt =====
-- The parameters of a header's entry, as src/i18n.rs and src/assets.rs both read them.
use luxor.Base.{
  Bool, Option, none, some, List, [], ◌∷◌, Text, codes, trim, split_once, eq_ignore_ascii_case,
  if◌then◌else◌,
}

-- `Iterator::find_map`.
unfoldable pub find_map : {A B : Type 0} → (A → Option B) → List A → Option B
find_map f [] = none
find_map f (a ∷ rest) = elim (f a) [ some b ↦ some b | none ↦ find_map f rest ]

abbrev pub named : (Text → Bool) → Option (Text × Text) → Option Text
named is_name none = none
named is_name (some (name, value)) = if is_name (trim name) then some (trim value) else none

abbrev pub first_part : List Text → Text
first_part [] = []
first_part (part ∷ parts) = part

abbrev pub other_parts : List Text → List Text
other_parts [] = []
other_parts (part ∷ parts) = parts

-- The value of the first parameter named `q`.
unfoldable pub weight_of : List Text → Option Text
unfolding find_map split_once trim eq_ignore_ascii_case
weight_of parameters =
    find_map
      (λ parameter.
        named (λ name. eq_ignore_ascii_case name (codes "q")) (split_once (codes "=") parameter))
      parameters
