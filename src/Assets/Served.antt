-- ===== src/Assets/Served.antt =====
-- What a client makes of an answer of `respond` in src/assets.rs.
use luxor.Base.{
  ℕ, ◌≡◌, refl, ◌⊎◌, inl, inr, Bool, true, false, Option, none, some, List, [], ◌∷◌, ◌++◌, Text,
  codes, text_eq, length, if◌then◌else◌, Bool-cases, ltb, arith,
}
use luxor.Http.{
  HeaderValue, visible, opaque, HeaderMap, get, insert, delete, Response, empty, content,
}
use luxor.Assets.{
  CachePolicy, policy_value, Representation, Asset, digest_of, representation, new_asset,
  with_content_language, accepts_gzip, chosen, answer, respond,
}

-- What a client reads from a body: `Content-Encoding` says how.
unfoldable pub decode : (List ℕ → List ℕ) → Option HeaderValue → List ℕ → List ℕ
unfolding text_eq
decode gunzip none body = body
decode gunzip (some (visible coding)) body =
    if text_eq coding (codes "gzip") then gunzip body else body
decode gunzip (some (opaque coding)) body = body

-- The answer has no body and no coding: the client's copy is current.
abbrev pub IsUnchanged : Response → Type 0
IsUnchanged response =
    (response.status ≡ 304)
    × (response.body ≡ empty)
    × (get (codes "content-encoding") response.headers ≡ none)

module _ (sha256 gunzip : List ℕ → List ℕ) where
  -- The answer's bytes decode to the text, their tag is the digest of just these bytes, and they
  -- are coded only for a client that accepts it.
  abbrev IsDelivered : Bool → List ℕ → Response → Type 0
  IsDelivered accepts text response =
      (sent : List ℕ) × (response.status ≡ 200)
      × (response.body ≡ content sent)
      × (decode gunzip (get (codes "content-encoding") response.headers) sent ≡ text)
      × (get (codes "etag") response.headers
          ≡ some (visible (b'"' ∷ (digest_of sha256 sent ++ b'"' ∷ []))))
      × (accepts ≡ false → get (codes "content-encoding") response.headers ≡ none)

  abbrev pub IsAnswer : Bool → CachePolicy → List ℕ → Response → Type 0
  IsAnswer accepts policy text response =
      (get (codes "cache-control") response.headers ≡ some (policy_value policy))
      × (IsUnchanged response ⊎ IsDelivered accepts text response)

abbrev packing : (List ℕ → List ℕ) → Option (List ℕ) → Option Representation
packing sha256 none = none
packing sha256 (some bytes) = some (representation sha256 bytes)

abbrev pub made : (List ℕ → List ℕ) → Text → Option Text → List ℕ → Option (List ℕ) → Asset
made sha256 content_type language text packed = record {
  content_type = content_type;
  content_language = language;
  identity = representation sha256 text;
  gzip = packing sha256 packed;
}

unfoldable pub in_language : Option Text → Asset → Asset
unfolding with_content_language
in_language none asset = asset
in_language (some language) asset = with_content_language language asset

module _ (sha256 gunzip : List ℕ → List ℕ) (content_type : Text) (policy : CachePolicy)
    (text : List ℕ) where
  abbrev Answered : Bool → Bool → Option Text → Option (List ℕ) → Type 0
  Answered unchanged accepts language packed = IsAnswer sha256 gunzip accepts policy text (
      answer unchanged (made sha256 content_type language text packed) policy
        (chosen accepts (made sha256 content_type language text packed)))

  answer_identity :
      (unchanged accepts : Bool) (language : Option Text) → Answered unchanged accepts language none
  unfolding get insert delete text_eq decode
  answer_identity true accepts language = (refl, inl (refl, refl, refl))
  answer_identity false accepts none = (refl, inr (text, refl, refl, refl, refl, λ refused. refl))
  answer_identity false accepts (some language) =
      (refl, inr (text, refl, refl, refl, refl, λ refused. refl))

  answer_packed :
      (bytes : List ℕ) (unchanged accepts : Bool) (language : Option Text)
      → gunzip bytes ≡ text
      → Answered unchanged accepts language (some bytes)
  unfolding get insert delete text_eq decode
  answer_packed bytes true true language e = (refl, inl (refl, refl, refl))
  answer_packed bytes true false language e = (refl, inl (refl, refl, refl))
  answer_packed bytes false true none e = (refl, inr (bytes, refl, refl, e, refl, λ refused. cc))
  answer_packed bytes false true (some language) e =
      (refl, inr (bytes, refl, refl, e, refl, λ refused. cc))
  answer_packed bytes false false none e =
      (refl, inr (text, refl, refl, refl, refl, λ refused. refl))
  answer_packed bytes false false (some language) e =
      (refl, inr (text, refl, refl, refl, refl, λ refused. refl))

  answer_packing :
      (unchanged accepts : Bool) (language : Option Text) (packed : Option (List ℕ))
      → ((bytes : List ℕ) → packed ≡ some bytes → gunzip bytes ≡ text)
      → Answered unchanged accepts language packed
  answer_packing unchanged accepts language none h = answer_identity unchanged accepts language
  answer_packing unchanged accepts language (some bytes) h =
      answer_packed bytes unchanged accepts language (h bytes refl)

abbrev pub packed : (List ℕ → List ℕ) → List ℕ → Option (List ℕ)
packed compress text =
    if ltb (length (compress text)) (length text) then some (compress text) else none

pub new_asset-made :
    (sha256 compress : List ℕ → List ℕ) (content_type : Text) (language : Option Text)
    (text : List ℕ)
    → in_language language (new_asset sha256 compress content_type text)
      ≡ made sha256 content_type language text (packed compress text)
unfolding new_asset in_language
new_asset-made sha256 compress content_type none text =
    elim (Bool-cases (ltb (length (compress text)) (length text))) [
      | inl smaller ↦ rw smaller refl
      | inr larger ↦ rw larger refl
    ]
new_asset-made sha256 compress content_type (some language) text =
    elim (Bool-cases (ltb (length (compress text)) (length text))) [
      | inl smaller ↦ rw smaller refl
      | inr larger ↦ rw larger refl
    ]

gunzip_packed :
    (compress gunzip : List ℕ → List ℕ) (text bytes : List ℕ)
    → gunzip (compress text) ≡ text
    → packed compress text ≡ some bytes
    → gunzip bytes ≡ text
gunzip_packed compress gunzip text bytes inverse e = ground (arith)

module _ {F : Type 0} (parse_f32 : Text → Option F) (gt : F → F → Bool) (zero_f32 : F) where
  -- Where decompression undoes the compression of a text, whatever the request, the answer has the
  -- policy in Cache-Control, and either is a 304 without a body and a coding, or a 200 whose bytes
  -- decode by its Content-Encoding to the text, have their own digest as ETag, and are coded only
  -- for a request that accepts it.
  pub respond-IsAnswer :
      (sha256 compress gunzip : List ℕ → List ℕ) (content_type : Text) (language : Option Text)
      (text : List ℕ) (request : HeaderMap) (policy : CachePolicy)
      → gunzip (compress text) ≡ text
      → IsAnswer sha256 gunzip (accepts_gzip parse_f32 gt zero_f32 request) policy text (
          respond parse_f32 gt zero_f32
            (in_language language (new_asset sha256 compress content_type text))
            request
            policy)
  unfolding respond
  respond-IsAnswer sha256 compress gunzip content_type language text request policy inverse =
      rw (new_asset-made sha256 compress content_type language text) (
        answer_packing sha256 gunzip content_type policy text _ _ language (packed compress text)
          (λ bytes. gunzip_packed compress gunzip text bytes inverse))
