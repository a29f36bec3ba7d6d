-- ===== src/Base/Hex.antt =====
-- `{byte:02x}` over a digest: what both token hashes are written in.
use Prim.Native.Nat.{ℕ, ◌+◌, ◌-◌, ◌*◌, ◌/◌, ◌%◌, ◌<◌}
use mathlib.Core.Path.{◌≡◌, refl}
use mathlib.Core.Bool.{true}
use mathlib.Core.List.{List, [], ◌∷◌}
use native.Mathlib.Omega.{arith}
use luxor.Base.Tests.{ltb, if◌then◌else◌}
use luxor.Base.Lists.{length, All}
use luxor.Base.Texts.{Text, len, is_ascii_alphanumeric}

abbrev pub hex_digit : ℕ → ℕ
hex_digit n = if ltb n 10 then b'0' + n else b'a' + (n - 10)

unfoldable pub to_hex : List ℕ → Text
to_hex [] = []
to_hex (b ∷ bs) = hex_digit (b / 16) ∷ hex_digit (b % 16) ∷ to_hex bs

abbrev pub IsHexDigit : ℕ → Type 0
IsHexDigit c = (is_ascii_alphanumeric c ≡ true) × (c < 128)

hex_digit-IsHexDigit : (n : ℕ) → n < 16 → IsHexDigit (hex_digit n)
unfolding is_ascii_alphanumeric
hex_digit-IsHexDigit n h = ground arith

pub to_hex-IsHexDigit : (bs : List ℕ) → All (λ b. b < 256) bs → All IsHexDigit (to_hex bs)
unfolding to_hex
to_hex-IsHexDigit [] h = tt
to_hex-IsHexDigit (b ∷ bs) (h, hs) = (
  hex_digit-IsHexDigit (b / 16) (omega arith),
  (hex_digit-IsHexDigit (b % 16) (omega arith), to_hex-IsHexDigit bs hs),
)

pub length-to_hex : (bs : List ℕ) → length (to_hex bs) ≡ 2 * length bs
unfolding to_hex
length-to_hex [] = omega arith
length-to_hex (b ∷ bs) = omega (arith, length-to_hex bs)

pub len_of_ascii : (s : Text) → All (λ c. c < 128) s → len s ≡ length s
unfolding len
len_of_ascii [] h = refl
len_of_ascii (c ∷ s) (h, hs) = ground (arith, len_of_ascii s hs)
