-- ===== src/I18n/Rendering.antt =====
-- src/i18n.rs: what `render_page` makes of any template, and of one of texts and placeholders.
use luxor.Base.{
  ℕ, zero, suc, ◌<◌, ◌≡◌, refl, Option, none, some, List, [], ◌∷◌, ◌++◌, Text, codes, split_once,
  Result, ok, err, length, length-append, All, Result-cases, inl, inr, arith,
}
use luxor.Base.Map.{Map}
use luxor.Base.Cutting.{Lacks, split_once-append, split_once-Lacks, split_once-shorter}
use luxor.I18n.{Locale}
use luxor.I18n.Rounds.{Panic, render_loop, HasProgress, render_loop_total, then_text}
use luxor.I18n.Pages.{placeholder, replaced, closed, opened, page_round, render_page}

module _ (dictionary : Locale → Map Text) (to_json : Map Text → Text) (locale : Locale)
    (base_url : Text) (variables : Text → Option Text) where
  abbrev value_of : Text → Result Panic Text
  value_of = placeholder dictionary to_json locale base_url variables

  abbrev round : Text → Result Panic (Option (Text × Text))
  round = page_round dictionary to_json locale base_url variables

  abbrev render : Text → Option (Result Panic Text)
  render = render_page dictionary to_json locale base_url variables

  replaced-later :
      (before later : Text) (r : Result Panic Text) (out rest : Text)
      → replaced dictionary to_json locale base_url variables before later r ≡ ok (some (out, rest))
      → rest ≡ later
  replaced-later before later (ok value) out rest h = cc
  replaced-later before later (err e) out rest h = cc

  closed-shorter :
      (before after : Text) (o : Option (Text × Text)) (out rest : Text)
      → split_once (codes "}}") after ≡ o
      → closed dictionary to_json locale base_url variables before o ≡ ok (some (out, rest))
      → length rest < length after
  closed-shorter before after none out rest e h = cc
  closed-shorter before after (some (key, later)) out rest e h =
      rw (replaced-later before later (value_of key) out rest h)
        (split_once-shorter b'}' (codes "}") after key later e)

  opened-shorter :
      (text : Text) (o : Option (Text × Text)) (out rest : Text)
      → split_once (codes "{{") text ≡ o
      → opened dictionary to_json locale base_url variables o ≡ ok (some (out, rest))
      → length rest < length text
  opened-shorter text none out rest e h = cc
  opened-shorter text (some (before, after)) out rest e h = omega (
    arith,
    split_once-shorter b'{' (codes "{") text before after e,
    closed-shorter before after _ out rest refl h,
  )

  page_round-HasProgress : HasProgress round
  unfolding page_round HasProgress
  page_round-HasProgress rest out later h = opened-shorter rest _ out later refl h

  -- Any template at all is rendered or panics: the loop ends.
  pub render_page_total : (template : Text) → (r : Result Panic Text) × (render template ≡ some r)
  unfolding render_page
  render_page_total template =
      render_loop_total round page_round-HasProgress (suc (length template)) template (omega arith)

  -- A template of texts, each with the placeholder behind it, and what follows the last.
  abbrev pub template_of : List (Text × Text) → Text → Text
  template_of [] tail = tail
  template_of ((text, key) ∷ rest) tail =
      text ++ (codes "{{" ++ (key ++ (codes "}}" ++ template_of rest tail)))

  abbrev pub after_value : Text → Result Panic Text → Result Panic Text → Result Panic Text
  after_value text (err e) rest = err e
  after_value text (ok value) rest = then_text (text ++ value) rest

  -- The texts as they are, with the value of each placeholder between; the first that has none is
  -- the panic.
  abbrev pub page_of : List (Text × Text) → Text → Result Panic Text
  page_of [] tail = ok tail
  page_of ((text, key) ∷ rest) tail = after_value text (value_of key) (page_of rest tail)

  abbrev pub IsPiece : Text × Text → Type 0
  IsPiece (text, key) = Lacks b'{' text × Lacks b'}' key

  round_piece :
      (text key rest : Text)
      → Lacks b'{' text
      → Lacks b'}' key
      → round (text ++ (codes "{{" ++ (key ++ (codes "}}" ++ rest))))
        ≡ replaced dictionary to_json locale base_url variables text rest (value_of key)
  unfolding page_round
  round_piece text key rest h k =
      rw
        (
          split_once-append b'{' (codes "{") text (key ++ (codes "}}" ++ rest)) h,
          split_once-append b'}' (codes "}") key rest k,
        )
        refl

  round_tail : (tail : Text) → Lacks b'{' tail → round tail ≡ ok none
  unfolding page_round
  round_tail tail t = rw (split_once-Lacks b'{' (codes "{") tail t) refl

  render_loop-template_of :
      (pieces : List (Text × Text)) (fuel : ℕ) (tail : Text)
      → length pieces < fuel
      → All IsPiece pieces
      → Lacks b'{' tail
      → render_loop round fuel (template_of pieces tail) ≡ some (page_of pieces tail)
  unfolding render_loop
  render_loop-template_of pieces zero tail f p t = elim f [ ]
  render_loop-template_of [] (suc fuel) tail f p t = rw (round_tail tail t, render_loop)
  render_loop-template_of ((text, key) ∷ rest) (suc fuel) tail f ((plain, unclosed), p) t =
      elim (Result-cases (value_of key)) [
        | inr (e, undefined) ↦
            rw (round_piece text key (template_of rest tail) plain unclosed, render_loop, undefined)
        | inl (value, defined) ↦ rw (
          round_piece text key (template_of rest tail) plain unclosed,
          render_loop,
          defined,
          render_loop-template_of rest fuel tail (omega (arith, f)) p t,
        )
      ]

  length-template_of :
      (pieces : List (Text × Text)) (tail : Text)
      → length pieces < suc (length (template_of pieces tail))
  length-template_of [] tail = omega arith
  length-template_of ((text, key) ∷ rest) tail = omega (
    arith,
    length-template_of rest tail,
    length-append text (codes "{{" ++ (key ++ (codes "}}" ++ template_of rest tail))),
    length-append key (codes "}}" ++ template_of rest tail),
  )

  -- A template of texts without an opening brace, each with a placeholder whose name has no closing
  -- brace, and such a text at the end, is rendered as the texts with the value of each placeholder
  -- between, or panics at the first placeholder that has none.
  pub render_page-template_of :
      (pieces : List (Text × Text)) (tail : Text)
      → All IsPiece pieces
      → Lacks b'{' tail
      → render (template_of pieces tail) ≡ some (page_of pieces tail)
  unfolding render_page
  render_page-template_of pieces tail p t =
      render_loop-template_of pieces (suc (length (template_of pieces tail))) tail
        (length-template_of pieces tail) p t
