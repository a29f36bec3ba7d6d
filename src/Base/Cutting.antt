-- ===== src/Base/Cutting.antt =====
-- What the searches in a text return is the text cut in pieces.
use Prim.Native.Nat.{ℕ, ◌<◌}
use mathlib.Core.Path.{◌≡◌, refl, ap}
use mathlib.Core.Bool.{false}
use mathlib.Core.Option.{Option, none, some}
use mathlib.Core.List.{[], ◌∷◌, ◌++◌}
use native.Mathlib.Omega.{arith}
use luxor.Base.Lists.{length, All, length-append}
use luxor.Base.Tests.{==_refl, ◌==◌}
use luxor.Base.Texts.{Text, strip_prefix, split, split_once, prepend, cut_at}

pub strip_prefix-some : (p s after : Text) → strip_prefix p s ≡ some after → s ≡ p ++ after
unfolding strip_prefix
strip_prefix-some [] s after h = cc
strip_prefix-some (c ∷ p) [] after h = cc
strip_prefix-some (c ∷ p) (d ∷ s) after h = ground (arith, strip_prefix-some p s after)

prepend-some :
    (c : ℕ) (o : Option (Text × Text)) (before after : Text)
    → prepend c o ≡ some (before, after)
    → (b : Text) × (before ≡ c ∷ b) × (o ≡ some (b, after))
prepend-some c none before after h = cc
prepend-some c (some (b, a)) before after h = (b, (cc), (cc))

some_fst :
    (rest before after : Text)
    → ◌≡◌ {A = Option (Text × Text)} (some ([], rest)) (some (before, after))
    → before ≡ []
some_fst rest before after h = cc

some_snd :
    (rest before after : Text)
    → ◌≡◌ {A = Option (Text × Text)} (some ([], rest)) (some (before, after))
    → after ≡ rest
some_snd rest before after h = cc

cut_at-some :
    (p s : Text) (o : Option Text) (later : Option (Text × Text)) (before after : Text)
    → strip_prefix p s ≡ o
    → (later ≡ some (before, after) → s ≡ before ++ p ++ after)
    → cut_at o later ≡ some (before, after)
    → s ≡ before ++ p ++ after
cut_at-some p s none later before after e k h = k h
cut_at-some p s (some rest) later before after e k h =
    rw (some_fst rest before after h, some_snd rest before after h) (strip_prefix-some p s rest e)

pub split_once-some :
    (p s before after : Text) → split_once p s ≡ some (before, after) → s ≡ before ++ p ++ after
unfolding split_once
split_once-some p [] before after h =
    cut_at-some p [] (strip_prefix p []) none before after refl (λ e. cc) h
split_once-some p (c ∷ s) before after h =
    cut_at-some p (c ∷ s) (strip_prefix p (c ∷ s)) (prepend c (split_once p s)) before after refl
      (λ e.
        let (b, cut, found) = prepend-some c (split_once p s) before after e in
        rw cut (ap (c ∷◌) (split_once-some p s b after found)))
      h

-- No character of the text is the one given.
abbrev pub Lacks : ℕ → Text → Type 0
Lacks c s = All (λ d. (d == c) ≡ false) s

pub strip_prefix-append : (p s : Text) → strip_prefix p (p ++ s) ≡ some s
unfolding strip_prefix
strip_prefix-append [] s = refl
strip_prefix-append (c ∷ p) s = rw (==_refl c) (strip_prefix-append p s)

pub split_once-append :
    (c : ℕ) (p before after : Text)
    → Lacks c before
    → split_once (c ∷ p) (before ++ (c ∷ p ++ after)) ≡ some (before, after)
unfolding split_once strip_prefix
split_once-append c p [] after h = rw (==_refl c, strip_prefix-append p after) refl
split_once-append c p (d ∷ before) after (ne, h) =
    rw (ne, split_once-append c p before after h) refl

pub split_once-Lacks : (c : ℕ) (p s : Text) → Lacks c s → split_once (c ∷ p) s ≡ none
unfolding split_once strip_prefix
split_once-Lacks c p [] h = refl
split_once-Lacks c p (d ∷ s) (ne, h) = rw (ne, split_once-Lacks c p s h) refl

-- What follows the pattern is shorter than the text.
pub split_once-shorter :
    (c : ℕ) (p s before after : Text)
    → split_once (c ∷ p) s ≡ some (before, after)
    → length after < length s
split_once-shorter c p s before after h =
    let cut = ap length (split_once-some (c ∷ p) s before after h) in
    omega (arith, cut, length-append before (c ∷ p), length-append (before ++ c ∷ p) after)

-- A text without the separator is one part.
pub split-Lacks : (c : ℕ) (s : Text) → Lacks c s → split c s ≡ s ∷ []
unfolding split
split-Lacks c [] h = refl
split-Lacks c (d ∷ s) (ne, h) = rw (ne, split-Lacks c s h) refl
