-- ===== src/Accounts/Sample.antt =====
-- src/services/auth.rs: what `strength_sample` cuts off a password.
use luxor.Base.{
  ℕ, zero, suc, ◌+◌, ◌-◌, ◌≤◌, ◌<◌, ◌≡◌, refl, ap, sym, ◌∙◌, Bool, true, false, ◌&&◌, [], ◌∷◌, ◌++◌,
  Text, len, len_utf8, min, ltb, leb, and_true, leb→le, le→leb, ltb→lt, arith, Bool-cases, inl, inr,
}
use luxor.Accounts.Strength.{
  strength_sample_bytes, is_char_boundary, last_boundary, slice_to, unwrap_index, strength_sample,
}

len_utf8_pos : (c : ℕ) → 0 < len_utf8 c
len_utf8_pos c = ground arith

boundary_step :
    (n c : ℕ) (s : Text)
    → 0 < n
    → is_char_boundary n (c ∷ s) ≡ (leb (len_utf8 c) n && is_char_boundary (n - len_utf8 c) s)
unfolding is_char_boundary
boundary_step zero c s h = absurd (omega arith)
boundary_step (suc n) c s h = refl

boundary_zero : (s : Text) → is_char_boundary 0 s ≡ true
unfolding is_char_boundary
boundary_zero s = refl

at_rest : (n m w : ℕ) → n ≡ w + m → n - w ≡ m
at_rest n m w e = omega arith

step_at :
    (n m c : ℕ) (s : Text) → n ≡ len_utf8 c + m → is_char_boundary n (c ∷ s) ≡ is_char_boundary m s
step_at n m c s e =
    rw
      (
        boundary_step n c s (omega (arith, e, len_utf8_pos c)),
        le→leb (len_utf8 c) n (omega (arith, e)),
        at_rest n m (len_utf8 c) e,
      )
      refl

top_index : (j end : ℕ) → j ≤ suc end → leb j end ≡ false → j ≡ suc end
top_index j end h k = ground arith

-- The greatest boundary that is not past the end.
abbrev IsLast : ℕ → Text → ℕ → Type 0
IsLast end s index =
    (index ≤ end)
    × (is_char_boundary index s ≡ true)
    × ((j : ℕ) → index < j → j ≤ end → is_char_boundary j s ≡ false)

last_boundary-IsLast : (end : ℕ) (s : Text) → IsLast end s (unwrap_index (last_boundary end s))
unfolding last_boundary
last_boundary-IsLast zero s =
    rw (boundary_zero s) (omega arith, boundary_zero s, λ j h k. absurd (omega arith))
last_boundary-IsLast (suc end) s = elim (Bool-cases (is_char_boundary (suc end) s)) [
  | inl here ↦ rw here (omega arith, here, λ j h k. absurd (omega arith))
  | inr not_here ↦
      let (below, found, later) = last_boundary-IsLast end s in
      rw not_here (
        omega (arith, below),
        found,
        λ j h k. elim (Bool-cases (leb j end)) [
          | inl within ↦ later j h (leb→le j end within)
          | inr beyond ↦ rw (top_index j end k beyond) not_here
        ],
      )
]

no_boundary : (index : ℕ) → is_char_boundary (suc index) [] ≡ true → ⊥
unfolding is_char_boundary
no_boundary index h = cc

-- A slice that ends at a boundary, and the text after it.
abbrev Cuts : ℕ → Text → Type 0
Cuts index s =
    (rest : Text) × (s ≡ slice_to index s ++ rest)
    × (len (slice_to index s) ≡ index)
    × ((c : ℕ) (t : Text) → rest ≡ c ∷ t → is_char_boundary (index + len_utf8 c) s ≡ true)

first_char : (c d : ℕ) (s t : Text) → ◌≡◌ {A = Text} (c ∷ s) (d ∷ t) → c ≡ d
first_char c d s t e = cc

no_char : (c : ℕ) (t : Text) → ◌≡◌ {A = Text} [] (c ∷ t) → ⊥
no_char c t e = cc

slice_to-Cuts : (s : Text) (index : ℕ) → is_char_boundary index s ≡ true → Cuts index s
unfolding slice_to len
slice_to-Cuts [] zero h = ([], refl, refl, λ c t e. absurd (no_char c t e))
slice_to-Cuts [] (suc index) h = absurd (no_boundary index h)
slice_to-Cuts (c ∷ s) zero h = (
  c ∷ s,
  refl,
  refl,
  λ d t e.
      step_at (0 + len_utf8 d) 0 c s (omega (arith, ap len_utf8 (first_char c d s t e)))
      ∙ boundary_zero s,
)
slice_to-Cuts (c ∷ s) (suc index) h =
    let (within, later) =
      and_true (leb (len_utf8 c) (suc index)) (is_char_boundary (suc index - len_utf8 c) s)
        (sym (boundary_step (suc index) c s (omega arith)) ∙ h) in
    let (rest, cut, width, next) = slice_to-Cuts s (suc index - len_utf8 c) later in
    let fits = leb→le (len_utf8 c) (suc index) within in
    (
      rest,
      ap (c ∷◌) cut,
      omega (arith, width, fits),
      λ d t e.
          step_at (suc index + len_utf8 d) (suc index - len_utf8 c + len_utf8 d) c s
            (omega (arith, fits))
          ∙ next d t e,
    )

len-append : (s t : Text) → len (s ++ t) ≡ len s + len t
unfolding len
len-append [] t = omega arith
len-append (c ∷ s) t = omega (arith, len-append s t)

len_cons : (c : ℕ) (s : Text) → len (c ∷ s) ≡ len_utf8 c + len s
unfolding len
len_cons c s = refl

both : (b : Bool) → b ≡ true → b ≡ false → ⊥
both b h k = cc

-- What the next character would reach, at a boundary, is past the end.
overflows :
    (limit index width total : ℕ) (is_boundary : ℕ → Bool)
    → 0 < width
    → index + width ≤ total
    → is_boundary (index + width) ≡ true
    → ((j : ℕ) → index < j → j ≤ min limit total → is_boundary j ≡ false)
    → limit < index + width
overflows limit index width total is_boundary pos fits here none_later =
    elim (Bool-cases (ltb limit (index + width))) [
      | inl over ↦ ltb→lt limit (index + width) over
      | inr under ↦ absurd (
          both (is_boundary (index + width)) here
            (none_later (index + width) (omega (arith, pos)) (ground (arith, fits))))
    ]

-- The part of a password whose strength is estimated is its beginning, of at most 128 bytes, and
-- the next character, if there is one, would pass the 128.
pub strength_sample_lem :
    (password : Text)
    → (rest : Text) × (password ≡ strength_sample password ++ rest)
      × (len (strength_sample password) ≤ strength_sample_bytes)
      × ((c : ℕ) (t : Text)
          → rest ≡ c ∷ t
          → strength_sample_bytes < len (strength_sample password) + len_utf8 c)
unfolding strength_sample
strength_sample_lem password =
    let (below, found, later) =
      last_boundary-IsLast (min strength_sample_bytes (len password)) password in
    let (rest, cut, width, next) = slice_to-Cuts password _ found in
    (
      rest,
      cut,
      omega (arith, below, width),
      λ c t e. rw width (
          let total = ap len cut ∙ len-append (strength_sample password) rest in
          let more = ap len e ∙ len_cons c t in
          overflows strength_sample_bytes _ (len_utf8 c) (len password)
            (λ j. is_char_boundary j password) (len_utf8_pos c) (omega (arith, total, more, width))
            (next c t e) later),
    )
