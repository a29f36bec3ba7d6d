-- ===== src/Tests/Files.antt =====
-- Inputs for the prebuilt responses.
use luxor.Base.{
  ℕ, ◌<◌, ◌≡◌, refl, Bool, true, Option, none, some, List, [], ◌∷◌, Text, codes, ltb, length,
  All-replicate, replicate, arith, text_eq,
}
use luxor.Base.Hex.{to_hex}
use luxor.Http.{HeaderMap, visible, get, get_all, insert}
use luxor.Assets.{Asset, revalidate, immutable, new_asset, accepts_gzip, not_modified, respond}
use luxor.Assets.Served.{in_language, IsAnswer, respond-IsAnswer}
use luxor.Assets.Revalidation.{revalidating, respond-revalidating}

abbrev digest : List ℕ → List ℕ
digest bytes = replicate 32 171

abbrev text : List ℕ
text = 1 ∷ 1 ∷ 1 ∷ []

-- A coding of texts that repeat one byte.
abbrev pack : List ℕ → List ℕ
pack bytes = length bytes ∷ []

abbrev unpack : List ℕ → List ℕ
unpack [] = []
unpack (n ∷ bytes) = replicate n 1

abbrev no_weight : Text → Option ℕ
no_weight s = none

abbrev above : ℕ → ℕ → Bool
above a b = ltb b a

abbrev request : HeaderMap
request = (codes "accept-encoding", visible (codes "gzip, br")) ∷ []

abbrev file : Asset
file = in_language (some (codes "en")) (new_asset digest pack (codes "text/css") text)

respond-IsAnswer_example :
    IsAnswer digest unpack
      (accepts_gzip no_weight above 0 request)
      immutable
      text
      (respond no_weight above 0 file request immutable)
respond-IsAnswer_example =
    respond-IsAnswer no_weight above 0 digest pack unpack (codes "text/css") (some (codes "en"))
      text request immutable refl

abbrev tag : Text
tag = codes "\"abababababababababababababababab\""

first_tag :
    get (codes "etag") (respond no_weight above 0 file request revalidate).headers
    ≡ some (visible tag)
unfolding respond get new_asset in_language to_hex accepts_gzip not_modified insert get_all text_eq
first_tag = refl

respond-revalidating_example :
    (respond no_weight above 0 file (revalidating true tag request) revalidate).status ≡ 304
respond-revalidating_example =
    respond-revalidating no_weight above 0 digest pack (codes "text/css") (some (codes "en")) text
      request revalidate revalidate true tag
      (λ bytes. All-replicate (λ b. b < 256) 32 171 (omega arith)) first_tag
