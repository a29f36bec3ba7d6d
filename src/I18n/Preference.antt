-- ===== src/I18n/Preference.antt =====
-- src/i18n.rs: the language that `Accept-Language` prefers.
use luxor.Base.{
  ◌≡◌, refl, ap, ◌∙◌, subst, Bool, true, false, Option, none, some, List, [], ◌∷◌, ◌++◌, Text,
  split, All, All-append, All-map, append_assoc, append-nil, Option-cases, Bool-cases, inl, inr,
}
use luxor.I18n.{Locale}
use luxor.I18n.Negotiation.{
  Held, entry_of, beats, weigh, weigh_all, accept_language_locale, held_locale,
}

-- What the comparison of floating-point numbers gives: it is transitive, never both ways, and of
-- numbers one of which is above 0, what is not above a smaller is below a greater.
pub record IsComparison {F : Type 0} (gt : F → F → Bool) (zero_f32 : F) : Type 0 where
  pub transitive : (a b c : F) → gt a b ≡ true → gt b c ≡ true → gt a c ≡ true
  pub asymmetric : (a b : F) → gt a b ≡ true → gt b a ≡ false
  pub between : (a b c : F) → gt a b ≡ true → gt c zero_f32 ≡ true → gt c b ≡ false → gt a c ≡ true

module _ {F : Type 0} (parse_f32 : Text → Option F) (gt : F → F → Bool) (zero_f32 one_f32 : F) where
  -- The entry counts and its weight has the property.
  abbrev pub Weighs : (F → Type 0) → Text → Type 0
  Weighs P entry =
      (locale : Locale)
      → (quality : F) → entry_of parse_f32 gt zero_f32 one_f32 entry ≡ some (locale, quality)
      → gt quality zero_f32 ≡ true
      → P quality

  -- The language is that of an entry with a weight above 0, which is above every such weight before
  -- it and not below any behind it.
  pub IsPreferred : List Text → Locale × F → Type 0
  IsPreferred entries (locale, quality) =
      (before : List Text) × (entry : Text) × (after : List Text) × (entries
        ≡ before ++ entry ∷ after)
      × (entry_of parse_f32 gt zero_f32 one_f32 entry ≡ some (locale, quality))
      × (gt quality zero_f32 ≡ true)
      × All (Weighs (λ q. gt quality q ≡ true)) before
      × All (Weighs (λ q. gt q quality ≡ false)) after

  -- No entry has a weight above 0.
  abbrev pub IsUnweighted : List Text → Type 0
  IsUnweighted entries = All (Weighs (λ q. ⊥)) entries

  -- What the header's loop ends with, as a language.
  abbrev pub IsChoice : List Text → Option Locale → Type 0
  IsChoice entries none = IsUnweighted entries
  IsChoice entries (some locale) = (quality : F) × IsPreferred entries (locale, quality)

  abbrev IsBest : List Text → Held F → Type 0
  IsBest entries none = IsUnweighted entries
  IsBest entries (some best) = IsPreferred entries best

  abbrev read : Text → Held F
  read = entry_of parse_f32 gt zero_f32 one_f32

  Weighs-absent : (P : F → Type 0) (entry : Text) → read entry ≡ none → Weighs P entry
  Weighs-absent P entry e l q f pos = cc

  weight_eq :
      (entry : Text) (l m : Locale) (q r : F)
      → read entry ≡ some (l, q)
      → read entry ≡ some (m, r)
      → q ≡ r
  weight_eq entry l m q r e f = cc

  Weighs-at :
      (P : F → Type 0) (entry : Text) (l : Locale) (q : F)
      → read entry ≡ some (l, q)
      → (gt q zero_f32 ≡ true → P q)
      → Weighs P entry
  Weighs-at P entry l q e p m r f =
      subst (λ x. gt x zero_f32 ≡ true → P x) (weight_eq entry l m q r e f) p

  extend-IsUnweighted :
      (seen : List Text) (entry : Text)
      → IsUnweighted seen
      → Weighs (λ q. ⊥) entry
      → IsUnweighted (seen ++ entry ∷ [])
  extend-IsUnweighted seen entry u w = All-append _ seen (entry ∷ []) u (w, tt)

  extend-IsPreferred :
      (seen : List Text) (entry : Text) (l : Locale) (q : F)
      → IsPreferred seen (l, q)
      → Weighs (λ r. gt r q ≡ false) entry
      → IsPreferred (seen ++ entry ∷ []) (l, q)
  unfolding IsPreferred
  extend-IsPreferred seen entry l q (before, held, after, cut, e, pos, above, below) w = (
    before,
    held,
    after ++ entry ∷ [],
    ap (λ s. s ++ entry ∷ []) cut ∙ append_assoc before (held ∷ after) (entry ∷ []),
    e,
    pos,
    above,
    All-append _ after (entry ∷ []) below (w, tt),
  )

  module _ (c : IsComparison gt zero_f32) where
    above_seen :
        (seen : List Text) (l : Locale) (q r : F)
        → IsPreferred seen (l, q)
        → gt r q ≡ true
        → All (Weighs (λ x. gt r x ≡ true)) seen
    unfolding IsPreferred
    above_seen seen l q r (before, held, after, cut, e, pos, above, below) more = rw cut (
        All-append _ before (held ∷ after)
          (All-map _ _ (λ s w m x f p. c.transitive r q x more (w m x f p)) before above)
          (
            Weighs-at (λ x. gt r x ≡ true) held l q e (λ p. more),
            All-map _ _ (λ s w m x f p. c.between r q x more p (w m x f p)) after below,
          ))

    prefer :
        (seen : List Text) (entry : Text) (l : Locale) (q : F) (best : Held F)
        → IsBest seen best
        → read entry ≡ some (l, q)
        → gt q zero_f32 ≡ true
        → beats parse_f32 gt zero_f32 one_f32 q best ≡ true
        → IsPreferred (seen ++ entry ∷ []) (l, q)
    unfolding IsPreferred
    prefer seen entry l q none b e pos more =
        (seen, entry, [], refl, e, pos, All-map _ _ (λ s w m x f p. absurd (w m x f p)) seen b, tt)
    prefer seen entry l q (some (m, r)) b e pos more =
        (seen, entry, [], refl, e, pos, above_seen seen m r q b more, tt)

    skip :
        (seen : List Text) (entry : Text) (best : Held F)
        → IsBest seen best
        → ((P : F → Type 0) → Weighs P entry)
        → IsBest (seen ++ entry ∷ []) best
    skip seen entry none b w = extend-IsUnweighted seen entry b (w _)
    skip seen entry (some (m, r)) b w = extend-IsPreferred seen entry m r b (w _)

    keep-IsBest :
        (seen : List Text) (entry : Text) (l : Locale) (q : F) (best : Held F)
        → IsBest seen best
        → read entry ≡ some (l, q)
        → beats parse_f32 gt zero_f32 one_f32 q best ≡ false
        → IsBest (seen ++ entry ∷ []) best
    keep-IsBest seen entry l q none b e less = cc
    keep-IsBest seen entry l q (some (m, r)) b e less =
        extend-IsPreferred seen entry m r b
          (Weighs-at (λ x. gt x r ≡ false) entry l q e (λ p. less))

    weigh-IsBest :
        (seen : List Text) (entry : Text) (best : Held F)
        → IsBest seen best
        → IsBest (seen ++ entry ∷ []) (weigh parse_f32 gt zero_f32 one_f32 (read entry) best)
    weigh-IsBest seen entry best b = elim (Option-cases (read entry)) [
      | inl absent ↦ rw absent (skip seen entry best b (λ P. Weighs-absent P entry absent))
      | inr ((l, q), e) ↦ elim (Bool-cases (gt q zero_f32)) [
        | inr zero ↦ rw (e, zero) (skip seen entry best b (λ P. Weighs-at P entry l q e (λ p. cc)))
        | inl pos ↦ elim (Bool-cases (beats parse_f32 gt zero_f32 one_f32 q best)) [
          | inl more ↦ rw (e, pos, more) (prefer seen entry l q best b e pos more)
          | inr less ↦ rw (e, pos, less) (keep-IsBest seen entry l q best b e less)
        ]
      ]
    ]

    weigh_all-IsBest :
        (entries seen : List Text) (best : Held F)
        → IsBest seen best
        → IsBest (seen ++ entries) (weigh_all parse_f32 gt zero_f32 one_f32 entries best)
    unfolding weigh_all
    weigh_all-IsBest [] seen best b = rw (append-nil seen) b
    weigh_all-IsBest (entry ∷ rest) seen best b =
        rw (← append_assoc seen (entry ∷ []) rest)
          (weigh_all-IsBest rest (seen ++ entry ∷ []) _ (weigh-IsBest seen entry best b))

    IsChoice-of :
        (entries : List Text) (best : Held F)
        → IsBest entries best
        → IsChoice entries (held_locale best)
    IsChoice-of entries none b = b
    IsChoice-of entries (some (locale, quality)) b = (quality, b)

    -- For a comparison of weights that is a strict order above 0, the language of Accept-Language
    -- is that of an entry whose weight is above 0, above every such weight before it and not below
    -- any behind it; where there is none, no entry of a supported language has a weight above 0.
    pub accept_language_locale-IsChoice :
        (header : Text)
        → IsChoice (split b',' header) (accept_language_locale parse_f32 gt zero_f32 one_f32 header)
    unfolding accept_language_locale
    accept_language_locale-IsChoice header =
        IsChoice-of (split b',' header) _ (weigh_all-IsBest (split b',' header) [] none tt)
