-- ===== src/Base/Numbers.antt =====
-- `FromStr` of Rust's integers and of `bool`, with the errors' texts.
use Prim.Native.Nat.{ℕ, zero, suc, ◌+◌, ◌-◌, ◌*◌, ◌^◌, ◌<◌}
use mathlib.Core.Path.{◌≡◌}
use mathlib.Core.Bool.{Bool, true, false, ◌&&◌}
use mathlib.Core.List.{[], ◌∷◌}
use native.Mathlib.Omega.{arith}
use luxor.Base.Tests.{ltb, leb, ◌==◌, if◌then◌else◌}
use luxor.Base.Lists.{is_empty}
use luxor.Base.Results.{Result, ok, err}
use luxor.Base.Texts.{Text, codes, text_eq}

abbrev pub invalid_digit : Text
invalid_digit = codes "invalid digit found in string"

abbrev pub is_digit : ℕ → Bool
is_digit c = leb b'0' c && leb c b'9'

-- The digits of a number below the bound, read from the left.
unfoldable pub parse_digits : ℕ → Text → ℕ → Text → Result Text ℕ
parse_digits bound overflow acc [] = ok acc
parse_digits bound overflow acc (c ∷ s) =
    let n = 10 * acc + (c - b'0') in
    let rest = parse_digits bound overflow n s in
    if is_digit c then if ltb n bound then rest else err overflow else err invalid_digit

abbrev pub too_large : Text
too_large = codes "number too large to fit in target type"

abbrev pub too_small : Text
too_small = codes "number too small to fit in target type"

abbrev from_digits : ℕ → Text → Text → Result Text ℕ
from_digits bound overflow s =
    if is_empty s then err invalid_digit else parse_digits bound overflow 0 s

-- `u16`, `u32`, `u64` and a 64-bit `usize` by their width; a sign that stands alone is an invalid
-- digit.
unfoldable pub parse_unsigned : ℕ → Text → Result Text ℕ
unfolding parse_digits
parse_unsigned width [] = err (codes "cannot parse integer from empty string")
parse_unsigned width (c ∷ s) =
    if c == b'+'
    then from_digits (2 ^ width) too_large s
    else parse_digits (2 ^ width) too_large 0 (c ∷ s)

pub data ℤ : Type 0 where
  pos negsuc : ℕ → ℤ

abbrev pub negate : ℕ → ℤ
negate zero = pos 0
negate (suc n) = negsuc n

abbrev negated : Result Text ℕ → Result Text ℤ
negated (ok n) = ok (negate n)
negated (err e) = err e

abbrev positive : Result Text ℕ → Result Text ℤ
positive (ok n) = ok (pos n)
positive (err e) = err e

-- `i64`.
unfoldable pub parse_i64 : Text → Result Text ℤ
unfolding parse_digits
parse_i64 [] = err (codes "cannot parse integer from empty string")
parse_i64 (c ∷ s) =
    if c == b'-'
    then negated (from_digits (2 ^ 63 + 1) too_small s)
    else if c == b'+'
    then positive (from_digits (2 ^ 63) too_large s)
    else positive (parse_digits (2 ^ 63) too_large 0 (c ∷ s))

abbrev pub leb_int : ℤ → ℤ → Bool
leb_int (pos m) (pos n) = leb m n
leb_int (pos m) (negsuc n) = false
leb_int (negsuc m) (pos n) = true
leb_int (negsuc m) (negsuc n) = leb n m

unfoldable pub parse_bool : Text → Result Text Bool
unfolding text_eq
parse_bool s =
    if text_eq s (codes "true")
    then ok true
    else if text_eq s (codes "false")
    then ok false
    else err (codes "provided string was not `true` or `false`")

-- A number that is read is within its width.
parse_digits-lt :
    (bound : ℕ) (overflow : Text) (acc : ℕ) (s : Text) (n : ℕ)
    → acc < bound
    → parse_digits bound overflow acc s ≡ ok n
    → n < bound
unfolding parse_digits
parse_digits-lt bound overflow acc [] n h e = ground arith
parse_digits-lt bound overflow acc (c ∷ s) n h e =
    ground (arith, parse_digits-lt bound overflow (10 * acc + (c - b'0')) s n)

pub parse_unsigned-lt :
    (width : ℕ) (s : Text) (n : ℕ) → 0 < 2 ^ width → parse_unsigned width s ≡ ok n → n < 2 ^ width
unfolding parse_unsigned
parse_unsigned-lt width [] n room e = cc
parse_unsigned-lt width (c ∷ s) n room e = ground (
  arith,
  parse_digits-lt (2 ^ width) too_large 0 s n room,
  parse_digits-lt (2 ^ width) too_large 0 (c ∷ s) n room,
)
