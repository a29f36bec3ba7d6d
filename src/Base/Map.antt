-- ===== src/Base/Map.antt =====
-- `HashMap<String, V>` as an association list: one entry to a key, in no order that matters.
use Prim.Native.Nat.{suc, ◌≤◌}
use mathlib.Core.Path.{◌≡◌, refl, ◌∙◌}
use mathlib.Core.Bool.{Bool, true, false}
use mathlib.Core.Option.{Option, none, some}
use mathlib.Core.List.{List, [], ◌∷◌}
use native.Mathlib.Omega.{arith}
use mathlib.Core.Logic.{inl, inr}
use luxor.Base.Tests.{if◌then◌else◌, Bool-cases}
use luxor.Base.Lists.{length, filter, length-filter-le}
use luxor.Base.Texts.{Text, text_eq, text_eq_iff, text_eq_refl, text_eq_ne_sym}

abbrev pub Map : Type 0 → Type 0
Map V = List (Text × V)

module _ {V : Type 0} where
  -- `get`.
  unfoldable pub lookup : Text → Map V → Option V
  unfolding text_eq
  lookup k [] = none
  lookup k ((j, v) ∷ m) = if text_eq j k then some v else lookup k m

  unfoldable pub insert : Text → V → Map V → Map V
  unfolding text_eq
  insert k v [] = (k, v) ∷ []
  insert k v ((j, w) ∷ m) = if text_eq j k then (j, v) ∷ m else (j, w) ∷ insert k v m

  unfoldable pub remove : Text → Map V → Map V
  unfolding text_eq
  remove k [] = []
  remove k ((j, w) ∷ m) = if text_eq j k then remove k m else (j, w) ∷ remove k m

  -- `retain`, whose test reads the value alone.
  unfoldable pub retain : (V → Bool) → Map V → Map V
  unfolding filter
  retain p m = filter (λ e. p e.1) m

  abbrev is_some : Option V → Bool
  is_some none = false
  is_some (some v) = true

  unfoldable pub contains_key : Text → Map V → Bool
  unfolding lookup
  contains_key k m = is_some (lookup k m)

  pub lookup-insert :
      (k j : Text) (v : V) (m : Map V)
      → lookup j (insert k v m) ≡ (if text_eq k j then some v else lookup j m)
  unfolding lookup insert
  lookup-insert k j v [] = refl
  lookup-insert k j v ((i, w) ∷ m) =
      ground (arith, text_eq_iff k j, text_eq_iff i k, text_eq_iff i j, lookup-insert k j v m)

  pub lookup-insert_self : (k : Text) (v : V) (m : Map V) → lookup k (insert k v m) ≡ some v
  lookup-insert_self k v m = rw (lookup-insert, text_eq_refl k)

  pub lookup-insert_ne :
      (k j : Text) (v : V) (m : Map V) → text_eq k j ≡ false → lookup j (insert k v m) ≡ lookup j m
  lookup-insert_ne k j v m h = rw (lookup-insert, h)

  pub lookup-remove :
      (k j : Text) (m : Map V) → lookup j (remove k m) ≡ (if text_eq k j then none else lookup j m)
  unfolding lookup remove
  lookup-remove k j [] = ground arith
  lookup-remove k j ((i, w) ∷ m) =
      ground (arith, text_eq_iff k j, text_eq_iff i k, text_eq_iff i j, lookup-remove k j m)

  pub lookup-remove_self : (k : Text) (m : Map V) → lookup k (remove k m) ≡ none
  lookup-remove_self k m = rw (lookup-remove, text_eq_refl k)

  pub length-insert_le : (k : Text) (v : V) (m : Map V) → length (insert k v m) ≤ suc (length m)
  unfolding insert
  length-insert_le k v [] = omega arith
  length-insert_le k v ((i, w) ∷ m) = ground (arith, length-insert_le k v m)

  pub length-insert_of_contains :
      (k : Text) (v : V) (m : Map V) → contains_key k m ≡ true → length (insert k v m) ≡ length m
  unfolding insert contains_key
  length-insert_of_contains k v [] h = cc
  length-insert_of_contains k v ((i, w) ∷ m) h = ground (arith, length-insert_of_contains k v m)

  pub length-retain-le : (p : V → Bool) (m : Map V) → length (retain p m) ≤ length m
  unfolding retain
  length-retain-le p m = length-filter-le (λ e. p e.1) m

  pub length-remove-le : (k : Text) (m : Map V) → length (remove k m) ≤ length m
  unfolding remove
  length-remove-le k [] = omega arith
  length-remove-le k ((i, w) ∷ m) = ground (arith, length-remove-le k m)

  -- `Option::filter`.
  abbrev pub keep : (V → Bool) → Option V → Option V
  keep p none = none
  keep p (some v) = if p v then some v else none

  -- No key has two entries.
  abbrev pub IsDistinct : Map V → Type 0
  IsDistinct [] = Unit
  IsDistinct ((k, v) ∷ m) = (lookup k m ≡ none) × IsDistinct m

  lookup-nil : (k : Text) → lookup k [] ≡ none
  unfolding lookup
  lookup-nil k = refl

  pub insert-IsDistinct : (k : Text) (v : V) (m : Map V) → IsDistinct m → IsDistinct (insert k v m)
  unfolding insert
  insert-IsDistinct k v [] d = (lookup-nil k, tt)
  insert-IsDistinct k v ((i, w) ∷ m) (fresh, d) = elim (Bool-cases (text_eq i k)) [
    | inl same ↦ rw same (fresh, d)
    | inr other ↦
        rw other
          (lookup-insert_ne k i v m (text_eq_ne_sym i k other) ∙ fresh, insert-IsDistinct k v m d)
  ]

  lookup-filter-none :
      (p : V → Bool) (k : Text) (m : Map V) → lookup k m ≡ none → lookup k (retain p m) ≡ none
  unfolding lookup retain filter
  lookup-filter-none p k [] h = refl
  lookup-filter-none p k ((i, w) ∷ m) h = ground (arith, lookup-filter-none p k m)

  pub lookup-retain :
      (p : V → Bool) (k : Text) (m : Map V)
      → IsDistinct m
      → lookup k (retain p m) ≡ keep p (lookup k m)
  unfolding lookup retain filter
  lookup-retain p k [] d = refl
  lookup-retain p k ((i, w) ∷ m) (fresh, d) = ground (
    arith,
    lookup-retain p k m d,
    text_eq_iff i k,
    lookup-filter-none p k m,
    lookup-filter-none p i m,
  )

  pub retain-IsDistinct : (p : V → Bool) (m : Map V) → IsDistinct m → IsDistinct (retain p m)
  unfolding retain filter
  retain-IsDistinct p [] d = tt
  retain-IsDistinct p ((i, w) ∷ m) (fresh, d) = elim (Bool-cases (p w)) [
    | inl kept ↦ rw kept (lookup-filter-none p i m fresh, retain-IsDistinct p m d)
    | inr gone ↦ rw gone (retain-IsDistinct p m d)
  ]
