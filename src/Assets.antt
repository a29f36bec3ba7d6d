-- ===== src/Assets.antt =====
-- src/assets.rs: bodies that are fixed for the life of the process. A body is the list of its bytes.
-- Compression and SHA-256 are libraries', reading a weight and comparing it is the standard
-- library's; they come as parameters.
pub mod Served
pub mod Revalidation
use luxor.Base.{
  ℕ, Bool, true, false, not, ◌&&◌, ◌||◌, Option, none, some, List, [], ◌∷◌, ◌++◌, map, Text, codes,
  text_eq, trim, split, strip_prefix, starts_with_char, eq_ignore_ascii_case, is_empty, any, find,
  take, length, ltb, ◌==◌, if◌then◌else◌,
}
use luxor.Base.Hex.{to_hex}
use luxor.Http.{
  HeaderValue, visible, as_bytes, to_str, HeaderMap, get_all, insert, Response, empty, content,
}
use luxor.Http.Quality.{first_part, other_parts, weight_of}

pub data CachePolicy : Type 0 where
  revalidate immutable : CachePolicy

abbrev pub policy_value : CachePolicy → HeaderValue
policy_value revalidate = visible (codes "no-cache")
policy_value immutable = visible (codes "public, max-age=31536000, immutable")

pub record Representation : Type 0 where
  pub body : List ℕ
  pub digest : Text
  pub etag : Text

pub record Asset : Type 0 where
  pub content_type : Text
  pub content_language : Option Text
  pub identity : Representation
  pub gzip : Option Representation

module _ (sha256 : List ℕ → List ℕ) where
  abbrev pub digest_of : List ℕ → Text
  digest_of body = to_hex (take 16 (sha256 body))

  abbrev pub representation : List ℕ → Representation
  representation body = record {
    body = body;
    digest = digest_of body;
    etag = b'"' ∷ (digest_of body ++ b'"' ∷ []);
  }

  -- `Asset::new`.
  unfoldable pub new_asset : (List ℕ → List ℕ) → Text → List ℕ → Asset
  unfolding to_hex
  new_asset compress content_type body = record {
    content_type = content_type;
    content_language = none;
    identity = representation body;
    gzip =
        if ltb (length (compress body)) (length body)
        then some (representation (compress body))
        else none;
  }

unfoldable pub with_content_language : Text → Asset → Asset
with_content_language language asset = record asset { content_language = some language }

unfoldable pub fingerprint : Asset → Text
fingerprint asset = take 16 asset.identity.digest

abbrev pub is_ascii_whitespace : ℕ → Bool
is_ascii_whitespace c = c == 9 || c == 10 || c == 12 || c == 13 || c == 32

unfoldable pub trim_ascii_start : Text → Text
trim_ascii_start [] = []
trim_ascii_start (c ∷ s) = if is_ascii_whitespace c then trim_ascii_start s else c ∷ s

unfoldable pub trim_ascii_end : Text → Text
trim_ascii_end [] = []
trim_ascii_end (c ∷ s) =
    let rest = trim_ascii_end s in if is_empty rest && is_ascii_whitespace c then [] else c ∷ rest

unfoldable pub trim_ascii : Text → Text
unfolding trim_ascii_start trim_ascii_end
trim_ascii s = trim_ascii_end (trim_ascii_start s)

abbrev pub or_text : Option Text → Text → Text
or_text (some s) default = s
or_text none default = default

-- A tag of `If-None-Match` under weak comparison.
unfoldable pub matches_tag : Text → Text → Bool
unfolding strip_prefix text_eq
matches_tag etag tag =
    text_eq tag (codes "*") || text_eq (or_text (strip_prefix (codes "W/") tag) tag) etag

unfoldable pub not_modified : HeaderMap → Text → Bool
unfolding get_all split trim_ascii matches_tag
not_modified request etag =
    any (λ value. any (λ tag. matches_tag etag (trim_ascii tag)) (split b',' (as_bytes value)))
      (get_all (codes "if-none-match") request)

-- The representation that is chosen, and its coding.
abbrev pub chosen : Bool → Asset → Representation × Option Text
chosen accepts asset = elim asset.gzip [
  | some gzip ↦ if accepts then (gzip, some (codes "gzip")) else (asset.identity, none)
  | none ↦ (asset.identity, none)
]

abbrev vary : Option Representation → HeaderMap → HeaderMap
vary none headers = headers
vary (some gzip) headers = insert (codes "vary") (visible (codes "accept-encoding")) headers

abbrev with_value : Text → Option Text → HeaderMap → HeaderMap
with_value name none headers = headers
with_value name (some value) headers = insert name (visible value) headers

-- The headers of every answer.
abbrev pub cache_headers : Asset → CachePolicy → Representation → HeaderMap
cache_headers asset policy representation = vary asset.gzip (
    insert (codes "etag") (visible representation.etag)
      (insert (codes "cache-control") (policy_value policy) []))

abbrev pub answer : Bool → Asset → CachePolicy → Representation × Option Text → Response
answer unchanged asset policy (representation, coding) =
    if unchanged
    then record { status = 304; headers = cache_headers asset policy representation; body = empty }
    else record {
      status = 200;
      headers = with_value (codes "content-encoding") coding (
          with_value (codes "content-language") asset.content_language (
            insert (codes "content-type") (visible asset.content_type)
              (cache_headers asset policy representation)));
      body = content representation.body;
    }

module _ {F : Type 0} (parse_f32 : Text → Option F) (gt : F → F → Bool) (zero_f32 : F) where
  abbrev positive : Option F → Bool
  positive none = false
  positive (some quality) = gt quality zero_f32

  abbrev acceptable : Option Text → Bool
  acceptable none = true
  acceptable (some weight) = positive (parse_f32 weight)

  -- What the explicit entry and the wildcard say so far.
  abbrev Verdict : Type 0
  Verdict = Option Bool × Option Bool

  abbrev record_entry : Text → Bool → Verdict → Verdict
  record_entry coding ok (explicit, wildcard) =
      if eq_ignore_ascii_case coding (codes "gzip") || eq_ignore_ascii_case coding (codes "x-gzip")
      then (some ok, wildcard)
      else if text_eq coding (codes "*")
      then (explicit, some ok)
      else (explicit, wildcard)

  unfoldable pub read_entry : Text → Verdict → Verdict
  unfolding split trim weight_of eq_ignore_ascii_case text_eq
  read_entry entry verdict =
      record_entry (trim (first_part (split b';' entry)))
        (acceptable (weight_of (other_parts (split b';' entry)))) verdict

  unfoldable pub read_entries : List Text → Verdict → Verdict
  unfolding read_entry
  read_entries [] verdict = verdict
  read_entries (entry ∷ rest) verdict = read_entries rest (read_entry entry verdict)

  abbrev read_value : Option Text → Verdict → Verdict
  read_value none verdict = verdict
  read_value (some value) verdict = read_entries (split b',' value) verdict

  unfoldable pub read_values : List HeaderValue → Verdict → Verdict
  unfolding read_entries split
  read_values [] verdict = verdict
  read_values (value ∷ rest) verdict = read_values rest (read_value (to_str value) verdict)

  abbrev decided : Verdict → Bool
  decided (some explicit, wildcard) = explicit
  decided (none, some wildcard) = wildcard
  decided (none, none) = false

  unfoldable pub accepts_gzip : HeaderMap → Bool
  unfolding read_values get_all
  accepts_gzip request =
      decided (read_values (get_all (codes "accept-encoding") request) (none, none))

  unfoldable pub respond : Asset → HeaderMap → CachePolicy → Response
  unfolding accepts_gzip not_modified insert
  respond asset request policy =
      let pick = chosen (accepts_gzip request) asset in
      answer (not_modified request pick.0.etag) asset policy pick

-- `trim_start_matches('/')`.
unfoldable pub trim_leading_slashes : Text → Text
trim_leading_slashes [] = []
trim_leading_slashes (c ∷ s) = if c == b'/' then trim_leading_slashes s else c ∷ s

abbrev prepend_stem : ℕ → Option (Text × Text) → Option (Text × Text)
prepend_stem c none = none
prepend_stem c (some (stem, extension)) = some (c ∷ stem, extension)

abbrev or_here : Bool → Text → Option (Text × Text) → Option (Text × Text)
or_here here s (some cut) = some cut
or_here true s none = some ([], s)
or_here false s none = none

-- `rsplit_once('.')`.
unfoldable pub rsplit_dot : Text → Option (Text × Text)
rsplit_dot [] = none
rsplit_dot (c ∷ s) = or_here (c == b'.') s (prepend_stem c (rsplit_dot s))

pub record StaticFile : Type 0 where
  pub path : Text
  pub fingerprinted_path : Text
  pub asset : Asset

abbrev named_file : Text → Asset → Option (Text × Text) → Option StaticFile
named_file path asset none = none
named_file path asset (some (stem, extension)) = some (record {
  path = path;
  fingerprinted_path =
      codes "/assets/" ++ (stem ++ (codes "." ++ (fingerprint asset ++ (codes "." ++ extension))));
  asset = asset;
})

-- `StaticFile::new`, which panics at a name with no extension.
unfoldable pub new_static_file :
    (List ℕ → List ℕ) → (List ℕ → List ℕ) → Text → Text → List ℕ → Option StaticFile
unfolding new_asset fingerprint rsplit_dot trim_leading_slashes
new_static_file sha256 compress path content_type body =
    named_file path (new_asset sha256 compress content_type body)
      (rsplit_dot (trim_leading_slashes path))

-- `StaticFiles::get` and `url`, which panics at a name that is not in the set.
unfoldable pub get_file : Text → List StaticFile → Option StaticFile
unfolding find text_eq
get_file path files = find (λ file. text_eq file.path path) files

abbrev url_of : Option StaticFile → Option Text
url_of none = none
url_of (some file) = some file.fingerprinted_path

unfoldable pub file_url : Text → List StaticFile → Option Text
unfolding get_file
file_url path files = url_of (get_file path files)

-- The routes: a path, and the asset and policy it is Answered with.
unfoldable pub file_routes : List StaticFile → List (Text × Asset × CachePolicy)
file_routes [] = []
file_routes (file ∷ rest) =
    (file.fingerprinted_path, file.asset, immutable)
    ∷ (file.path, file.asset, revalidate)
    ∷ file_routes rest
