-- ===== src/Http.antt =====
-- Requests and responses as src/server/mod.rs, src/error.rs and src/assets.rs read and build them.
-- Header names are in lower case, as the HTTP library stores them.
pub mod Quality
use luxor.Base.{
  ℕ, ◌≡◌, Option, none, some, List, [], ◌∷◌, Text, text_eq, text_eq_iff, if◌then◌else◌, arith,
}

-- A header's value, tagged by whether `to_str` reads it: it fails on what is not visible ASCII.
pub data HeaderValue : Type 0 where
  visible opaque : Text → HeaderValue

abbrev pub to_str : HeaderValue → Option Text
to_str (visible s) = some s
to_str (opaque b) = none

abbrev pub as_bytes : HeaderValue → Text
as_bytes (visible s) = s
as_bytes (opaque b) = b

abbrev pub HeaderMap : Type 0
HeaderMap = List (Text × HeaderValue)

-- `HeaderMap::get`: the first value.
unfoldable pub get : Text → HeaderMap → Option HeaderValue
unfolding text_eq
get name [] = none
get name ((k, v) ∷ hs) = if text_eq k name then some v else get name hs

-- `HeaderMap::get_all`.
unfoldable pub get_all : Text → HeaderMap → List HeaderValue
unfolding text_eq
get_all name [] = []
get_all name ((k, v) ∷ hs) = if text_eq k name then v ∷ get_all name hs else get_all name hs

unfoldable pub delete : Text → HeaderMap → HeaderMap
unfolding text_eq
delete name [] = []
delete name ((k, v) ∷ hs) = if text_eq k name then delete name hs else (k, v) ∷ delete name hs

-- `HeaderMap::insert`: one value in place of any there were.
unfoldable pub insert : Text → HeaderValue → HeaderMap → HeaderMap
unfolding delete
insert name v hs = (name, v) ∷ delete name hs

-- `.and_then(|value| value.to_str().ok())`.
abbrev pub readable : Option HeaderValue → Option Text
readable none = none
readable (some v) = to_str v

pub record Request : Type 0 where
  pub method : Text
  pub path : Text
  pub path_and_query : Option Text
  pub headers : HeaderMap

pub data Body : Type 0 where
  empty : Body
  content : Text → Body
  -- `{"error":{"code":…,"message":…}}`
  api_error : Text → Text → Body

pub record Response : Type 0 where
  pub status : ℕ
  pub headers : HeaderMap
  pub body : Body

get-delete :
    (name other : Text) (hs : HeaderMap)
    → get name (delete other hs) ≡ (if text_eq other name then none else get name hs)
unfolding get delete
get-delete name other [] = ground arith
get-delete name other ((k, v) ∷ hs) = ground (
  arith,
  text_eq_iff k name,
  text_eq_iff k other,
  text_eq_iff other name,
  get-delete name other hs,
)

-- What an insertion shows under each name.
pub get-insert :
    (name other : Text) (v : HeaderValue) (hs : HeaderMap)
    → get name (insert other v hs) ≡ (if text_eq other name then some v else get name hs)
unfolding get insert
get-insert name other v hs = ground (arith, get-delete name other hs)

get_all-delete :
    (name other : Text) (hs : HeaderMap)
    → get_all name (delete other hs) ≡ (if text_eq other name then [] else get_all name hs)
unfolding get_all delete
get_all-delete name other [] = ground arith
get_all-delete name other ((k, v) ∷ hs) = ground (
  arith,
  text_eq_iff k name,
  text_eq_iff k other,
  text_eq_iff other name,
  get_all-delete name other hs,
)

pub get_all-insert :
    (name other : Text) (v : HeaderValue) (hs : HeaderMap)
    → get_all name (insert other v hs) ≡ (if text_eq other name then v ∷ [] else get_all name hs)
unfolding get_all insert
get_all-insert name other v hs = ground (arith, get_all-delete name other hs)
