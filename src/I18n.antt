-- ===== src/I18n.antt =====
-- src/i18n.rs: the languages of the site, and the markup that follows from their list.
pub mod Escaping
pub mod Rounds
pub mod Message
pub mod Slots
pub mod Pages
pub mod Rendering
pub mod Negotiation
pub mod Preference
use luxor.Base.{
  ℕ, Bool, true, false, Option, none, some, List, [], ◌∷◌, ◌++◌, map, Text, codes, text_eq, find,
  split_first, eq_ignore_ascii_case, ◌==◌, ◌||◌, if◌then◌else◌,
}

pub data Locale : Type 0 where
  en it : Locale

abbrev pub default_locale : Locale
default_locale = en

abbrev pub supported_locales : List Locale
supported_locales = en ∷ it ∷ []

abbrev pub locale_eq : Locale → Locale → Bool
locale_eq en en = true
locale_eq it it = true
locale_eq _ _ = false

-- `Locale::as_str`, which `Display` writes.
abbrev pub as_str : Locale → Text
as_str en = codes "en"
as_str it = codes "it"

abbrev pub locale_path : Locale → Text
locale_path en = codes "/en"
locale_path it = codes "/it"

abbrev pub text_direction : Locale → Text
text_direction _ = codes "ltr"

abbrev pub endonym : Locale → Text
endonym en = codes "English"
endonym it = codes "Italiano"

unfoldable pub from_tag : Text → Option Locale
unfolding find split_first eq_ignore_ascii_case
from_tag tag =
    find
      (λ locale.
        eq_ignore_ascii_case (as_str locale) (split_first (λ c. c == b'-' || c == b'_') tag))
      supported_locales

-- A character as `escape_html` writes it.
abbrev pub escape_char : ℕ → Text
escape_char c =
    if c == b'&'
    then codes "&amp;"
    else if c == b'<'
    then codes "&lt;"
    else if c == b'>'
    then codes "&gt;"
    else if c == b'"'
    then codes "&quot;"
    else if c == 39
    then codes "&#39;"
    else c ∷ []

unfoldable pub escape_html : Text → Text
escape_html [] = []
escape_html (c ∷ s) = escape_char c ++ escape_html s

-- `join` on texts.
unfoldable pub join_with : Text → List Text → Text
join_with separator [] = []
join_with separator (s ∷ []) = s
join_with separator (s ∷ t ∷ rest) = s ++ separator ++ join_with separator (t ∷ rest)

abbrev alternate_link : Text → Text → Text → Text
alternate_link base_url hreflang path =
    codes "<link rel=\"alternate\" hreflang=\""
    ++ hreflang
    ++ codes "\" href=\""
    ++ base_url
    ++ path
    ++ codes "\">"

unfoldable pub alternate_links : Text → Text
unfolding escape_html join_with
alternate_links base_url =
    let base = escape_html base_url in
    join_with (codes "\n    ") (
      map (λ locale. alternate_link base (as_str locale) (locale_path locale)) supported_locales
      ++ alternate_link base (codes "x-default") (locale_path default_locale) ∷ [])

abbrev language_link : Locale → Locale → Text
language_link page locale =
    codes "<a href=\""
    ++ locale_path locale
    ++ codes "\" hreflang=\""
    ++ as_str locale
    ++ codes "\" lang=\""
    ++ as_str locale
    ++ codes "\""
    ++ (if locale_eq locale page then codes " aria-current=\"page\"" else [])
    ++ codes " data-lang-choice=\""
    ++ as_str locale
    ++ codes "\">"
    ++ endonym locale
    ++ codes "</a>"

unfoldable pub language_links : Locale → Text
unfolding join_with
language_links page =
    join_with (codes "\n            <span aria-hidden=\"true\">·</span>\n            ")
      (map (language_link page) supported_locales)

abbrev sitemap_link : Text → Text → Text → Text
sitemap_link base_url hreflang path =
    codes "    <xhtml:link rel=\"alternate\" hreflang=\""
    ++ hreflang
    ++ codes "\" href=\""
    ++ escape_html base_url
    ++ path
    ++ codes "\"/>\n"

abbrev sitemap_alternates : Text → Text
sitemap_alternates base_url =
    sitemap_link base_url (as_str en) (locale_path en)
    ++ sitemap_link base_url (as_str it) (locale_path it)
    ++ sitemap_link base_url (codes "x-default") (locale_path default_locale)

unfoldable pub sitemap_urls : Text → List Locale → Text
unfolding escape_html
sitemap_urls base_url [] = []
sitemap_urls base_url (locale ∷ rest) =
    codes "  <url>\n"
    ++ codes "    <loc>"
    ++ escape_html base_url
    ++ locale_path locale
    ++ codes "</loc>\n"
    ++ sitemap_alternates base_url
    ++ codes "  </url>\n"
    ++ sitemap_urls base_url rest

unfoldable pub render_sitemap : Text → Text
unfolding sitemap_urls
render_sitemap base_url =
    codes
      "<?xml version=\"1.0\" encoding=\"UTF-8\"?>\n<urlset xmlns=\"http://www.sitemaps.org/schemas/sitemap/0.9\" xmlns:xhtml=\"http://www.w3.org/1999/xhtml\">\n"
    ++ sitemap_urls base_url supported_locales
    ++ codes "</urlset>\n"
