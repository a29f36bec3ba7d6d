-- ===== src/I18n/Escaping.antt =====
-- src/i18n.rs: `escape_html` next to the markup and to reading it back.
use luxor.Base.{
  ℕ, zero, suc, ◌≡◌, refl, ap, ◌∙◌, Bool, true, false, ◌||◌, not, Option, none, some, [], ◌∷◌, ◌++◌,
  Text, codes, strip_prefix, All, All-append, length, ◌==◌, ==→eq, if◌then◌else◌, Bool-cases, inl,
  inr, arith,
}
use luxor.I18n.{escape_html, escape_char}

-- A character that neither opens nor closes a tag or a quoted attribute.
abbrev pub is_inert : ℕ → Bool
is_inert c = not (c == b'<' || c == b'>' || c == b'"' || c == 39)

abbrev pub IsInert : Text → Type 0
IsInert s = All (λ c. is_inert c ≡ true) s

escape_char-IsInert : (c : ℕ) → IsInert (escape_char c)
escape_char-IsInert c = ground arith

escape_html-IsInert : (s : Text) → IsInert (escape_html s)
unfolding escape_html
escape_html-IsInert [] = tt
escape_html-IsInert (c ∷ s) =
    All-append _ (escape_char c) (escape_html s) (escape_char-IsInert c) (escape_html-IsInert s)

-- What a reader makes of a character: of the five references that are written, the character that
-- each stands for, and of any other as it is.
abbrev reference : Option Text → ℕ → ℕ × Text → ℕ × Text
reference none c later = later
reference (some rest) c later = (c, rest)

abbrev read_char : ℕ → Text → ℕ × Text
read_char c s =
    if c == b'&'
    then reference (strip_prefix (codes "amp;") s) b'&' (
        reference (strip_prefix (codes "lt;") s) b'<' (
          reference (strip_prefix (codes "gt;") s) b'>' (
            reference (strip_prefix (codes "quot;") s) b'"'
              (reference (strip_prefix (codes "#39;") s) 39 (c, s)))))
    else (c, s)

-- The first characters that are read, as many as the number says.
pub unescape : ℕ → Text → Text
unescape zero s = []
unescape (suc n) [] = []
unescape (suc n) (c ∷ s) = (read_char c s).0 ∷ unescape n (read_char c s).1

unescape_plain :
    (n c : ℕ) (s : Text) → (c == b'&') ≡ false → unescape (suc n) (c ∷ s) ≡ c ∷ unescape n s
unfolding unescape
unescape_plain n c s h = ground arith

unescape-escape_char :
    (n c : ℕ) (s : Text) → unescape (suc n) (escape_char c ++ s) ≡ c ∷ unescape n s
unfolding unescape strip_prefix
unescape-escape_char n c s = elim (Bool-cases (c == b'&')) [
  | inl e ↦ rw (==→eq c b'&' e) refl
  | inr not_amp ↦ elim (Bool-cases (c == b'<')) [
    | inl e ↦ rw (==→eq c b'<' e) refl
    | inr not_lt ↦ elim (Bool-cases (c == b'>')) [
      | inl e ↦ rw (==→eq c b'>' e) refl
      | inr not_gt ↦ elim (Bool-cases (c == b'"')) [
        | inl e ↦ rw (==→eq c b'"' e) refl
        | inr not_quot ↦ elim (Bool-cases (c == 39)) [
          | inl e ↦ rw (==→eq c 39 e) refl
          | inr not_apostrophe ↦
              rw (not_amp, not_lt, not_gt, not_quot, not_apostrophe) (unescape_plain n c s not_amp)
        ]
      ]
    ]
  ]
]

unescape-escape_html : (s : Text) → unescape (length s) (escape_html s) ≡ s
unfolding escape_html unescape
unescape-escape_html [] = refl
unescape-escape_html (c ∷ s) =
    unescape-escape_char (length s) c (escape_html s) ∙ ap (c ∷◌) (unescape-escape_html s)

-- Escaped text has no angle bracket and no quote, and reading its character references gives the
-- text.
pub escape_html_lem :
    (s : Text) → IsInert (escape_html s) × (unescape (length s) (escape_html s) ≡ s)
escape_html_lem s = (escape_html-IsInert s, unescape-escape_html s)
