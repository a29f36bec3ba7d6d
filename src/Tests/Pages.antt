-- ===== src/Tests/Pages.antt =====
-- Inputs for the texts of the pages and the choice of a language.
use luxor.Base.{
  ℕ, ◌≡◌, refl, Bool, Option, none, some, List, [], ◌∷◌, Text, codes, ltb, split, Result, ok, ◌-◌,
  arith,
}
use luxor.Base.Map.{Map}
use luxor.I18n.{Locale, en}
use luxor.I18n.Rounds.{Panic}
use luxor.I18n.Message.{format_message}
use luxor.I18n.Slots.{written, filled, format_message-written}
use luxor.I18n.Message.{format_message_total}
use luxor.I18n.Pages.{render_page}
use luxor.I18n.Rendering.{template_of, page_of, render_page-template_of, render_page_total}
use luxor.I18n.Negotiation.{accept_language_locale}
use luxor.I18n.Preference.{IsComparison, IsChoice, accept_language_locale-IsChoice}

abbrev values : Map Text
values = (codes "name", codes "{Ada}") ∷ []

abbrev segments : List (Text × Text)
segments = (codes "Hello ", codes "name") ∷ (codes ", ", codes "other") ∷ []

format_message-written_example :
    format_message (written segments (codes "!")) values
    ≡ some (ok (filled values segments (codes "!")))
format_message-written_example =
    format_message-written values segments (codes "!")
      (
        (
          (refl, (refl, (refl, (refl, (refl, (refl, tt)))))),
          (refl, (refl, (refl, (refl, tt)))),
          (refl, (refl, (refl, (refl, tt)))),
        ),
        (
          (
            (refl, (refl, tt)),
            (refl, (refl, (refl, (refl, (refl, tt))))),
            (refl, (refl, (refl, (refl, (refl, tt))))),
          ),
          tt,
        ),
      )
      (refl, tt)

format_message_total_example :
    (r : Result Panic Text) × (format_message (codes "a{b") values ≡ some r)
format_message_total_example = format_message_total values (codes "a{b")

abbrev dictionary : Locale → Map Text
dictionary locale = (codes "title", codes "A & B") ∷ []

abbrev no_json : Map Text → Text
no_json m = []

abbrev no_variables : Text → Option Text
no_variables key = none

abbrev pieces : List (Text × Text)
pieces = (codes "<i>", codes "title") ∷ (codes " ", codes "lang") ∷ []

render_page-template_of_example :
    render_page dictionary no_json en
      (codes "https://a.b")
      no_variables
      (template_of dictionary no_json en (codes "https://a.b") no_variables pieces (codes "!"))
    ≡ some (page_of dictionary no_json en (codes "https://a.b") no_variables pieces (codes "!"))
render_page-template_of_example =
    render_page-template_of dictionary no_json en (codes "https://a.b") no_variables pieces
      (codes "!")
      (
        ((refl, (refl, (refl, tt))), (refl, (refl, (refl, (refl, (refl, tt)))))),
        (((refl, tt), (refl, (refl, (refl, (refl, tt))))), tt),
      )
      (refl, tt)

render_page_total_example :
    (r : Result Panic Text) × (render_page dictionary no_json en
        (codes "https://a.b")
        no_variables
        (codes "a {{ b")
      ≡ some r)
render_page_total_example =
    render_page_total dictionary no_json en (codes "https://a.b") no_variables (codes "a {{ b")

-- Weights as tenths: `0.5` is 5.
abbrev parse_tenths : Text → Option ℕ
parse_tenths (a ∷ b ∷ c ∷ []) = some (c - b'0')
parse_tenths _ = none

abbrev above : ℕ → ℕ → Bool
above a b = ltb b a

tenths-IsComparison : IsComparison above 0
tenths-IsComparison = record {
  transitive = λ a b c h k. ground arith;
  asymmetric = λ a b h. ground arith;
  between = λ a b c h k l. ground arith;
}

accept_language_locale-IsChoice_example :
    IsChoice parse_tenths above 0 10
      (split b',' (codes "it;q=0.5, de, en-GB;q=0.8"))
      (accept_language_locale parse_tenths above 0 10 (codes "it;q=0.5, de, en-GB;q=0.8"))
accept_language_locale-IsChoice_example =
    accept_language_locale-IsChoice parse_tenths above 0 10 tenths-IsComparison
      (codes "it;q=0.5, de, en-GB;q=0.8")
