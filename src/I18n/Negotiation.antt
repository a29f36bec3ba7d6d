-- ===== src/I18n/Negotiation.antt =====
-- src/i18n.rs: the language of a request that names none. Reading a weight as a floating-point
-- number and comparing two is the standard library's and comes as parameters.
use luxor.Base.{
  Bool, true, Option, none, some, List, [], ◌∷◌, Text, codes, text_eq, trim, split, split_once,
  if◌then◌else◌,
}
use luxor.Http.{HeaderMap, visible, get, readable, Response, empty}
use luxor.Http.Quality.{find_map, named, first_part, other_parts, weight_of}
use luxor.I18n.{Locale, default_locale, from_tag, locale_path}

abbrev tag_locale : Option Text → Option Locale
tag_locale none = none
tag_locale (some tag) = from_tag tag

-- One `name=value` pair of the cookie header.
unfoldable pub cookie_pair : Text → Option Locale
unfolding split_once trim text_eq from_tag
cookie_pair pair =
    tag_locale (named (λ name. text_eq name (codes "lang")) (split_once (codes "=") pair))

unfoldable pub cookie_locale : Text → Option Locale
unfolding find_map cookie_pair split
cookie_locale cookie_header = find_map cookie_pair (split b';' cookie_header)

-- What the header's loop carries: the language that is held, and its weight.
abbrev pub Held : Type 0 → Type 0
Held F = Option (Locale × F)

abbrev pub held_locale : {F : Type 0} → Held F → Option Locale
held_locale none = none
held_locale (some (locale, quality)) = some locale

module _ {F : Type 0} (parse_f32 : Text → Option F) (gt : F → F → Bool) (zero_f32 one_f32 : F) where
  abbrev quality_of : Option Text → Option F
  quality_of none = some one_f32
  quality_of (some weight) = parse_f32 weight

  abbrev weighted : Option Locale → Option F → Held F
  weighted (some locale) (some quality) = some (locale, quality)
  weighted (some locale) none = none
  weighted none quality = none

  -- The language and the weight of an entry; `none` where the loop goes on to the next.
  unfoldable pub entry_of : Text → Held F
  unfolding split trim from_tag weight_of
  entry_of entry =
      weighted (from_tag (trim (first_part (split b';' entry))))
        (quality_of (weight_of (other_parts (split b';' entry))))

  abbrev pub beats : F → Held F → Bool
  beats quality none = true
  beats quality (some (locale, held)) = gt quality held

  abbrev pub weigh : Held F → Held F → Held F
  weigh none best = best
  weigh (some (locale, quality)) best =
      if gt quality zero_f32
      then if beats quality best then some (locale, quality) else best
      else best

  unfoldable pub weigh_all : List Text → Held F → Held F
  unfolding entry_of
  weigh_all [] best = best
  weigh_all (entry ∷ rest) best = weigh_all rest (weigh (entry_of entry) best)

  unfoldable pub accept_language_locale : Text → Option Locale
  unfolding weigh_all split
  accept_language_locale header = held_locale (weigh_all (split b',' header) none)

  abbrev or_locale : Option Locale → Option Locale → Option Locale
  or_locale (some locale) later = some locale
  or_locale none later = later

  abbrev pub unwrap_locale : Option Locale → Locale
  unwrap_locale (some locale) = locale
  unwrap_locale none = default_locale

  abbrev and_then : Option Text → (Text → Option Locale) → Option Locale
  and_then none f = none
  and_then (some s) f = f s

  unfoldable pub negotiate : Option Text → Option Text → Locale
  unfolding cookie_locale accept_language_locale
  negotiate cookie_header accept_language = unwrap_locale (
      or_locale (and_then cookie_header cookie_locale)
        (and_then accept_language accept_language_locale))

  unfoldable pub localized_root : HeaderMap → Response
  unfolding negotiate get
  localized_root headers = record {
    status = 302;
    headers =
        (
          codes "location",
          visible (
              locale_path (
                negotiate (readable (get (codes "cookie") headers))
                  (readable (get (codes "accept-language") headers)))),
        )
        ∷ (codes "vary", visible (codes "Cookie, Accept-Language"))
        ∷ (codes "cache-control", visible (codes "no-store"))
        ∷ [];
    body = empty;
  }
