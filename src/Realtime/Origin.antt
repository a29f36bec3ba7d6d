-- ===== src/Realtime/Origin.antt =====
-- src/realtime.rs: `origin_allowed` and `origin_authority`, which stand in for the same-origin rule
-- in a handshake.
use luxor.Base.{
  ◌≡◌, refl, ◌⊎◌, inl, inr, Bool, true, false, not, ◌||◌, ◌&&◌, Option, none, some, List, Text,
  codes, ◌++◌, any, is_empty, contains_char, split_once, eq_ignore_ascii_case, if◌then◌else◌,
  Bool-cases, arith,
}
use luxor.Base.Cutting.{split_once-some}

-- The part of `origin_authority` after the split.
abbrev pub authority_of : Option (Text × Text) → Option Text
authority_of none = none
authority_of (some (scheme, authority)) =
    if not (eq_ignore_ascii_case scheme (codes "http"))
      && not (eq_ignore_ascii_case scheme (codes "https"))
    then none
    else if not (is_empty authority) && not (contains_char b'/' authority)
    then some authority
    else none

unfoldable pub origin_authority : Text → Option Text
unfolding split_once eq_ignore_ascii_case
origin_authority origin = authority_of (split_once (codes "://") origin)

abbrev same_host : Option Text → Option Text → Bool
same_host (some authority) (some host) = eq_ignore_ascii_case authority host
same_host _ _ = false

unfoldable pub origin_allowed : Option Text → Option Text → List Text → Bool
unfolding origin_authority eq_ignore_ascii_case
origin_allowed none host allowed = true
origin_allowed (some origin) host allowed =
    if any (λ candidate. eq_ignore_ascii_case candidate origin) allowed
    then true
    else same_host (origin_authority origin) host

-- The origin is an HTTP origin whose authority, up to the case of its letters, is the host.
pub IsSameOrigin : Text → Option Text → Type 0
IsSameOrigin origin host =
    (scheme : Text) × (authority : Text) × (h : Text) × (origin
      ≡ scheme ++ codes "://" ++ authority)
    × (host ≡ some h)
    × (eq_ignore_ascii_case authority h ≡ true)
    × (eq_ignore_ascii_case scheme (codes "http") || eq_ignore_ascii_case scheme (codes "https")
        ≡ true)
    × (contains_char b'/' authority ≡ false)

not_slashed :
    (a b c : Bool) (authority host : Text)
    → same_host
        (if not a && not b
          then none
          else if not c && not (contains_char b'/' authority)
          then some authority
          else none)
        (some host)
      ≡ true
    → (eq_ignore_ascii_case authority host ≡ true)
      × (a || b ≡ true)
      × (contains_char b'/' authority ≡ false)
not_slashed a b c authority host h = ground arith

absurd_host : {A : Type 0} (o : Option Text) → same_host o none ≡ true → A
absurd_host none h = cc
absurd_host (some authority) h = cc

same_host-IsSameOrigin :
    (origin : Text) (o : Option (Text × Text)) (host : Option Text)
    → split_once (codes "://") origin ≡ o
    → same_host (authority_of o) host ≡ true
    → IsSameOrigin origin host
unfolding IsSameOrigin
same_host-IsSameOrigin origin none host e h = cc
same_host-IsSameOrigin origin (some (scheme, authority)) none e h =
    absurd_host (authority_of (some (scheme, authority))) h
same_host-IsSameOrigin origin (some (scheme, authority)) (some host) e h =
    let (same, http, unslashed) = not_slashed _ _ _ authority host h in
    (
      scheme,
      authority,
      host,
      split_once-some (codes "://") origin scheme authority e,
      refl,
      same,
      http,
      unslashed,
    )

-- What a handshake may come from: a client that names no origin, which is no page; an origin that is
-- configured; or an HTTP origin of the very host that it talks to.
abbrev pub IsWelcome : Option Text → Option Text → List Text → Type 0
IsWelcome none host allowed = Unit
IsWelcome (some origin) host allowed =
    (any (λ candidate. eq_ignore_ascii_case candidate origin) allowed ≡ true)
    ⊎ IsSameOrigin origin host

pub origin_allowed-IsWelcome :
    (origin host : Option Text) (allowed : List Text)
    → origin_allowed origin host allowed ≡ true
    → IsWelcome origin host allowed
unfolding origin_allowed origin_authority
origin_allowed-IsWelcome none host allowed h = tt
origin_allowed-IsWelcome (some origin) host allowed h =
    elim (Bool-cases (any (λ candidate. eq_ignore_ascii_case candidate origin) allowed)) [
      | inl listed ↦ inl listed
      | inr foreign ↦ inr (same_host-IsSameOrigin origin _ host refl (rw foreign at h))
    ]
