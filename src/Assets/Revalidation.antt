-- ===== src/Assets/Revalidation.antt =====
-- src/assets.rs: a client that sends back the tag it was given.
use luxor.Base.{
  ℕ, zero, suc, ◌<◌, ◌≡◌, refl, sym, ◌∙◌, Bool, true, false, Option, none, some, List, [], ◌∷◌,
  ◌++◌, Text, codes, text_eq, text_eq_refl, strip_prefix, is_ascii_alphanumeric, take, ◌==◌, All,
  All-append, All-map, arith,
}
use luxor.Base.Hex.{IsHexDigit, to_hex-IsHexDigit}
use luxor.Base.Cutting.{split-Lacks}
use luxor.Http.{HeaderValue, visible, HeaderMap, get, insert, delete, get_all-insert}
use luxor.Assets.{
  CachePolicy, Asset, digest_of, representation, new_asset, is_ascii_whitespace, trim_ascii_start,
  trim_ascii_end, trim_ascii, matches_tag, not_modified, accepts_gzip, chosen, answer, respond,
}
use luxor.Assets.Served.{in_language, made, packed, new_asset-made}

-- Neither blank nor a comma.
abbrev IsTagChar : ℕ → Type 0
IsTagChar c = (is_ascii_whitespace c ≡ false) × ((c == b',') ≡ false)

abbrev IsTag : Text → Type 0
IsTag tag = (rest : Text) × (tag ≡ b'"' ∷ rest) × All IsTagChar tag

trim_ascii_end-All : (s : Text) → All IsTagChar s → trim_ascii_end s ≡ s
unfolding trim_ascii_end
trim_ascii_end-All [] h = refl
trim_ascii_end-All (c ∷ s) (h, hs) = ground (arith, trim_ascii_end-All s hs)

trim_ascii-All : (s : Text) → All IsTagChar s → trim_ascii s ≡ s
unfolding trim_ascii trim_ascii_start trim_ascii_end
trim_ascii-All [] h = refl
trim_ascii-All (c ∷ s) (h, hs) = rw (h.0) (trim_ascii_end-All (c ∷ s) (h, hs))

hex-IsTagChar : (c : ℕ) → IsHexDigit c → IsTagChar c
unfolding is_ascii_alphanumeric
hex-IsTagChar c h = ground arith

All-take : (P : ℕ → Type 0) (n : ℕ) (xs : List ℕ) → All P xs → All P (take n xs)
All-take P zero xs h = tt
All-take P (suc n) [] h = tt
All-take P (suc n) (x ∷ xs) (h, hs) = (h, All-take P n xs hs)

representation-IsTag :
    (sha256 : List ℕ → List ℕ) (bytes : List ℕ)
    → All (λ b. b < 256) (sha256 bytes)
    → IsTag (representation sha256 bytes).etag
representation-IsTag sha256 bytes h = (
  digest_of sha256 bytes ++ b'"' ∷ [],
  refl,
  (
    (refl, refl),
    All-append _ (digest_of sha256 bytes) (b'"' ∷ [])
        (All-map _ _ hex-IsTagChar _ (to_hex-IsHexDigit _ (All-take _ 16 _ h))) ((refl, refl), tt),
  ),
)

-- What an intermediary may have made of a tag.
abbrev pub weakened : Bool → Text → Text
weakened false tag = tag
weakened true tag = codes "W/" ++ tag

matches-weakened :
    (weak : Bool) (tag : Text) → IsTag tag → matches_tag tag (weakened weak tag) ≡ true
unfolding matches_tag strip_prefix text_eq
matches-weakened true tag (rest, e, h) = text_eq_refl tag
matches-weakened false tag (rest, e, h) = rw e (text_eq_refl (b'"' ∷ rest))

weakened-IsTagChar :
    (weak : Bool) (tag : Text) → All IsTagChar tag → All IsTagChar (weakened weak tag)
weakened-IsTagChar false tag h = h
weakened-IsTagChar true tag h = ((refl, refl), ((refl, refl), h))

-- The request that is sent once a tag is known.
abbrev pub revalidating : Bool → Text → HeaderMap → HeaderMap
revalidating weak tag request = insert (codes "if-none-match") (visible (weakened weak tag)) request

not_modified-revalidating :
    (weak : Bool) (tag : Text) (request : HeaderMap)
    → IsTag tag
    → not_modified (revalidating weak tag request) tag ≡ true
unfolding not_modified text_eq
not_modified-revalidating weak tag request (rest, e, h) =
    rw
      (
        get_all-insert (codes "if-none-match") (codes "if-none-match"),
        split-Lacks b',' (weakened weak tag)
            (All-map _ _ (λ c known. known.1) (weakened weak tag) (weakened-IsTagChar weak tag h)),
        trim_ascii-All (weakened weak tag) (weakened-IsTagChar weak tag h),
        matches-weakened weak tag (rest, e, h),
      )
      refl

chosen-IsTag :
    (sha256 : List ℕ → List ℕ) (accepts : Bool) (content_type : Text) (language : Option Text)
    (text : List ℕ) (packing : Option (List ℕ))
    → ((bytes : List ℕ) → All (λ b. b < 256) (sha256 bytes))
    → IsTag (chosen accepts (made sha256 content_type language text packing)).0.etag
chosen-IsTag sha256 accepts content_type language text none h =
    representation-IsTag sha256 text (h text)
chosen-IsTag sha256 true content_type language text (some bytes) h =
    representation-IsTag sha256 bytes (h bytes)
chosen-IsTag sha256 false content_type language text (some bytes) h =
    representation-IsTag sha256 text (h text)

module _ (sha256 : List ℕ → List ℕ) (content_type : Text) (text : List ℕ)
    (policy : CachePolicy) where
  abbrev Tagged : Bool → Bool → Option Text → Option (List ℕ) → Type 0
  Tagged unchanged accepts language packing =
      let asset = made sha256 content_type language text packing in
      let pick = chosen accepts asset in
      get (codes "etag") (answer unchanged asset policy pick).headers ≡ some (visible pick.0.etag)

  answer-Tagged :
      (unchanged accepts : Bool) (language : Option Text) (packing : Option (List ℕ))
      → Tagged unchanged accepts language packing
  unfolding get insert delete text_eq
  answer-Tagged true accepts language none = refl
  answer-Tagged true true language (some bytes) = refl
  answer-Tagged true false language (some bytes) = refl
  answer-Tagged false accepts none none = refl
  answer-Tagged false accepts (some language) none = refl
  answer-Tagged false true none (some bytes) = refl
  answer-Tagged false true (some language) (some bytes) = refl
  answer-Tagged false false none (some bytes) = refl
  answer-Tagged false false (some language) (some bytes) = refl

visible_tag :
    (s t : Text) → ◌≡◌ {A = Option HeaderValue} (some (visible s)) (some (visible t)) → s ≡ t
visible_tag s t e = cc

module _ {F : Type 0} (parse_f32 : Text → Option F) (gt : F → F → Bool) (zero_f32 : F) where
  accepts_gzip-revalidating :
      (weak : Bool) (tag : Text) (request : HeaderMap)
      → accepts_gzip parse_f32 gt zero_f32 (revalidating weak tag request)
        ≡ accepts_gzip parse_f32 gt zero_f32 request
  unfolding accepts_gzip text_eq
  accepts_gzip-revalidating weak tag request =
      rw (get_all-insert (codes "accept-encoding") (codes "if-none-match")) refl

  respond-answer :
      (asset : Asset) (request : HeaderMap) (policy : CachePolicy)
      → let pick = chosen (accepts_gzip parse_f32 gt zero_f32 request) asset in
        respond parse_f32 gt zero_f32 asset request policy
        ≡ answer (not_modified request pick.0.etag) asset policy pick
  unfolding respond
  respond-answer asset request policy = refl

  -- The tag that was sent is the one that the asset's chosen representation has.
  sent_tag :
      (sha256 compress : List ℕ → List ℕ) (content_type : Text) (language : Option Text)
      (text : List ℕ) (request : HeaderMap) (policy : CachePolicy) (tag : Text)
      → let asset = in_language language (new_asset sha256 compress content_type text) in
        get (codes "etag") (respond parse_f32 gt zero_f32 asset request policy).headers
          ≡ some (visible tag)
        → (chosen
            (accepts_gzip parse_f32 gt zero_f32 request)
            (made sha256 content_type language text (packed compress text))).0.etag
          ≡ tag
  sent_tag sha256 compress content_type language text request policy tag e =
      let same = new_asset-made sha256 compress content_type language text in
      let known = rw (same, respond-answer) at e in
      visible_tag _ tag (
        sym (answer-Tagged sha256 content_type text policy _ _ language (packed compress text))
        ∙ known)

  -- Where SHA-256 gives bytes, a request repeated with the ETag that it was answered with, as it
  -- was or made weak on the way, is answered by 304.
  pub respond-revalidating :
      (sha256 compress : List ℕ → List ℕ) (content_type : Text) (language : Option Text)
      (text : List ℕ) (request : HeaderMap) (policy later : CachePolicy) (weak : Bool) (tag : Text)
      → ((bytes : List ℕ) → All (λ b. b < 256) (sha256 bytes))
      → let asset = in_language language (new_asset sha256 compress content_type text) in
        let response = respond parse_f32 gt zero_f32 asset request policy in
        get (codes "etag") response.headers ≡ some (visible tag)
        → (respond parse_f32 gt zero_f32 asset (revalidating weak tag request) later).status ≡ 304
  respond-revalidating sha256 compress content_type language text request policy later weak tag h
        e =
      let same = new_asset-made sha256 compress content_type language text in
      let sent = sent_tag sha256 compress content_type language text request policy tag e in
      let known =
        chosen-IsTag sha256 (accepts_gzip parse_f32 gt zero_f32 request) content_type language text
          (packed compress text) h in
      rw
        (
          same,
          respond-answer,
          accepts_gzip-revalidating weak tag request,
          sent,
          not_modified-revalidating weak tag request (rw sent at known),
        )
        refl
