-- ===== src/I18n/Pages.antt =====
-- src/i18n.rs: `render_page`. A locale's dictionary is a data file and its serialisation a library's;
-- both come as parameters.
use luxor.Base.{
  suc, ◌&&◌, Option, none, some, [], ◌∷◌, ◌++◌, Text, codes, text_eq, split_once, Result, ok, err,
  length, ◌==◌, if◌then◌else◌,
}
use luxor.Base.Map.{Map, lookup}
use luxor.I18n.{
  Locale, as_str, locale_path, text_direction, escape_html, alternate_links, language_links,
}
use luxor.I18n.Rounds.{Panic, unclosed_placeholder, undefined_message, render_loop}

-- `replace("</", "<\\/")`.
unfoldable pub escape_close : Text → Text
escape_close [] = []
escape_close (c ∷ []) = c ∷ []
escape_close (c ∷ d ∷ s) =
    let behind = escape_close s in
    let next = escape_close (d ∷ s) in
    if c == b'<' && d == b'/' then codes "<\\/" ++ behind else c ∷ next

abbrev or_else : Option Text → Result Panic Text → Result Panic Text
or_else (some value) later = ok value
or_else none later = later

module _ (dictionary : Locale → Map Text) (to_json : Map Text → Text) where
  abbrev message_or_panic : Text → Option Text → Result Panic Text
  message_or_panic key (some text) = ok text
  message_or_panic key none = err (undefined_message key)

  unfoldable pub message : Locale → Text → Result Panic Text
  unfolding lookup
  message locale key = message_or_panic key (lookup key (dictionary locale))

  unfoldable pub inline_dictionary : Locale → Text
  unfolding escape_close
  inline_dictionary locale = escape_close (to_json (dictionary locale))

  unfoldable pub builtin_variable : Text → Locale → Text → Option Text
  unfolding text_eq escape_html alternate_links language_links inline_dictionary
  builtin_variable key locale base_url =
      if text_eq key (codes "lang")
      then some (as_str locale)
      else if text_eq key (codes "dir")
      then some (text_direction locale)
      else if text_eq key (codes "canonical")
      then some (escape_html (base_url ++ locale_path locale))
      else if text_eq key (codes "alternate_links")
      then some (alternate_links base_url)
      else if text_eq key (codes "language_links")
      then some (language_links locale)
      else if text_eq key (codes "i18n_json")
      then some (inline_dictionary locale)
      else none

  abbrev escaped : Result Panic Text → Result Panic Text
  escaped (ok text) = ok (escape_html text)
  escaped (err e) = err e

  module _ (locale : Locale) (base_url : Text) (variables : Text → Option Text) where
    -- The value of a placeholder.
    unfoldable pub placeholder : Text → Result Panic Text
    unfolding builtin_variable message
    placeholder key =
        or_else (builtin_variable key locale base_url)
          (or_else (variables key) (escaped (message locale key)))

    abbrev pub replaced : Text → Text → Result Panic Text → Result Panic (Option (Text × Text))
    replaced before later (err e) = err e
    replaced before later (ok value) = ok (some (before ++ value, later))

    abbrev pub closed : Text → Option (Text × Text) → Result Panic (Option (Text × Text))
    closed before none = err unclosed_placeholder
    closed before (some (key, later)) = replaced before later (placeholder key)

    abbrev pub opened : Option (Text × Text) → Result Panic (Option (Text × Text))
    opened none = ok none
    opened (some (before, after)) = closed before (split_once (codes "}}") after)

    -- A round of the loop.
    unfoldable pub page_round : Text → Result Panic (Option (Text × Text))
    unfolding split_once placeholder
    page_round rest = opened (split_once (codes "{{") rest)

    unfoldable pub render_page : Text → Option (Result Panic Text)
    unfolding render_loop page_round
    render_page template = render_loop page_round (suc (length template)) template
