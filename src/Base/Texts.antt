-- ===== src/Base/Texts.antt =====
-- Rust's `str` as the list of its characters' code points, with what the program uses of it.
use Prim.Native.Nat.{ℕ, zero, suc, ◌+◌, ◌/◌, ◌%◌}
use Prim.Native.Char.{code}
use Prim.Native.String.{String}
use mathlib.Core.Path.{◌≡◌, refl}
use mathlib.Core.Logic.{◌↔◌}
use mathlib.Core.Bool.{Bool, true, false, ◌&&◌, ◌||◌}
use mathlib.Core.Option.{Option, none, some}
use mathlib.Core.List.{List, [], ◌∷◌}
use native.Mathlib.Omega.{arith}
use luxor.Base.Tests.{ltb, leb, ◌==◌, if◌then◌else◌, ==_refl}
use luxor.Base.Lists.{is_empty, any}

abbrev pub Text : Type 0
Text = List ℕ

-- The code points of a literal.
abbrev pub codes : String → Text
codes String.[] = []
codes (String.◌∷◌ c s) = code c ∷ codes s

-- `==` on texts.
unfoldable pub text_eq : Text → Text → Bool
text_eq [] [] = true
text_eq [] (y ∷ ys) = false
text_eq (x ∷ xs) [] = false
text_eq (x ∷ xs) (y ∷ ys) = x == y && text_eq xs ys

pub text_eq_refl : (s : Text) → text_eq s s ≡ true
unfolding text_eq
text_eq_refl [] = refl
text_eq_refl (x ∷ xs) = rw (==_refl x) (text_eq_refl xs)

pub text_eq→eq : (s t : Text) → text_eq s t ≡ true → s ≡ t
unfolding text_eq
text_eq→eq [] [] h = refl
text_eq→eq [] (y ∷ ys) h = cc
text_eq→eq (x ∷ xs) [] h = cc
text_eq→eq (x ∷ xs) (y ∷ ys) h = ground (arith, text_eq→eq xs ys)

pub eq→text_eq : (s t : Text) → s ≡ t → text_eq s t ≡ true
eq→text_eq s t e = rw e (text_eq_refl t)

pub text_eq_iff : (s t : Text) → (text_eq s t ≡ true) ↔ (s ≡ t)
text_eq_iff s t = (text_eq→eq s t, eq→text_eq s t)

pub text_eq_ne_sym : (s t : Text) → text_eq s t ≡ false → text_eq t s ≡ false
text_eq_ne_sym s t h = ground (arith, text_eq_iff s t, text_eq_iff t s)

-- Bytes of a character in UTF-8.
abbrev pub len_utf8 : ℕ → ℕ
len_utf8 c = if ltb c 128 then 1 else if ltb c 2048 then 2 else if ltb c 65536 then 3 else 4

-- `str::len`, in bytes.
unfoldable pub len : Text → ℕ
len [] = 0
len (c ∷ s) = len_utf8 c + len s

-- `char::is_control`: general category Cc.
unfoldable pub is_control : ℕ → Bool
is_control c = ltb c 32 || (leb 127 c && leb c 159)

-- `char::is_whitespace`: the property White_Space.
unfoldable pub is_whitespace : ℕ → Bool
is_whitespace c =
    (leb 9 c && leb c 13)
    || c == 32
    || c == 0x85
    || c == 0xA0
    || c == 0x1680
    || (leb 0x2000 c && leb c 0x200A)
    || c == 0x2028
    || c == 0x2029
    || c == 0x202F
    || c == 0x205F
    || c == 0x3000

-- `is_ascii_alphanumeric`, the same on bytes and characters.
unfoldable pub is_ascii_alphanumeric : ℕ → Bool
is_ascii_alphanumeric c =
    (leb b'0' c && leb c b'9') || (leb b'A' c && leb c b'Z') || (leb b'a' c && leb c b'z')

unfoldable pub to_ascii_lowercase_char : ℕ → ℕ
to_ascii_lowercase_char c = if leb b'A' c && leb c b'Z' then c + 32 else c

unfoldable pub to_ascii_lowercase : Text → Text
unfolding to_ascii_lowercase_char
to_ascii_lowercase [] = []
to_ascii_lowercase (c ∷ s) = to_ascii_lowercase_char c ∷ to_ascii_lowercase s

unfoldable pub eq_ignore_ascii_case : Text → Text → Bool
unfolding text_eq to_ascii_lowercase
eq_ignore_ascii_case s t = text_eq (to_ascii_lowercase s) (to_ascii_lowercase t)

-- `str::trim`.
unfoldable pub trim_start : Text → Text
unfolding is_whitespace
trim_start [] = []
trim_start (c ∷ s) = if is_whitespace c then trim_start s else c ∷ s

unfoldable pub trim_end : Text → Text
unfolding is_whitespace
trim_end [] = []
trim_end (c ∷ s) =
    let rest = trim_end s in if is_empty rest && is_whitespace c then [] else c ∷ rest

unfoldable pub trim : Text → Text
unfolding trim_start trim_end
trim s = trim_end (trim_start s)

-- `contains(c)`, `starts_with(c)`, `ends_with(c)` for a character.
abbrev pub contains_char : ℕ → Text → Bool
contains_char c = any λ d. d == c

abbrev pub starts_with_char : ℕ → Text → Bool
starts_with_char c [] = false
starts_with_char c (d ∷ s) = d == c

unfoldable pub ends_with_char : ℕ → Text → Bool
ends_with_char c [] = false
ends_with_char c (d ∷ s) = if is_empty s then d == c else ends_with_char c s

-- `str::strip_prefix`: what follows the prefix.
unfoldable pub strip_prefix : Text → Text → Option Text
strip_prefix [] s = some s
strip_prefix (p ∷ ps) [] = none
strip_prefix (p ∷ ps) (c ∷ s) = if c == p then strip_prefix ps s else none

abbrev pub prepend : ℕ → Option (Text × Text) → Option (Text × Text)
prepend c none = none
prepend c (some (before, after)) = some (c ∷ before, after)

abbrev pub cut_at : Option Text → Option (Text × Text) → Option (Text × Text)
cut_at (some after) later = some ([], after)
cut_at none later = later

-- `str::split_once` at a text: the parts round its first occurrence.
unfoldable pub split_once : Text → Text → Option (Text × Text)
unfolding strip_prefix
split_once pattern [] = cut_at (strip_prefix pattern []) none
split_once pattern (c ∷ s) =
    cut_at (strip_prefix pattern (c ∷ s)) (prepend c (split_once pattern s))

abbrev cons_head : ℕ → List Text → List Text
cons_head c [] = (c ∷ []) ∷ []
cons_head c (part ∷ parts) = (c ∷ part) ∷ parts

-- `str::split` at a character; never empty.
unfoldable pub split : ℕ → Text → List Text
split d [] = [] ∷ []
split d (c ∷ s) = if c == d then [] ∷ split d s else cons_head c (split d s)

-- The first part of `split`.
unfoldable pub split_first : (ℕ → Bool) → Text → Text
split_first p [] = []
split_first p (c ∷ s) = if p c then [] else c ∷ split_first p s

-- `rsplit(d).next()`: the last part of `split`.
unfoldable pub split_last : ℕ → Text → Text
split_last d [] = []
split_last d (c ∷ s) =
    let rest = split_last d s in if contains_char d s then rest else if c == d then s else c ∷ s

decimal_from : ℕ → ℕ → Text → Text
decimal_from zero n acc = acc
decimal_from (suc fuel) n acc =
    let more = decimal_from fuel (n / 10) ((b'0' + n % 10) ∷ acc) in
    if ltb n 10 then (b'0' + n) ∷ acc else more

-- `Display` of an unsigned number. A number has fewer than `suc n` digits, which is the fuel.
unfoldable pub to_decimal : ℕ → Text
unfolding decimal_from
to_decimal n = decimal_from (suc n) n []
