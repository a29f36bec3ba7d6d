-- ===== src/Realtime/Connect.antt =====
-- src/handlers/realtime.rs: `connect`. The upgrade's own checks are the HTTP library's and come as
-- their result; the socket's later life is src/realtime.rs's.
use luxor.Base.{
  ℕ, ◌+◌, ◌≡◌, refl, ◌⊎◌, inl, inr, Bool, true, false, Option, none, some, List, [], Text, codes,
  ltb, if◌then◌else◌, Result, ok, err, is_ok, Bool-cases, Option-cases, Result-cases, arith,
}
use luxor.Base.Map.{Map}
use luxor.Http.{HeaderMap, get, readable}
use luxor.Error.{AppError, forbidden, bad_request, at_capacity}
use luxor.Realtime.{RealtimeHub, try_admit, release}
use luxor.Realtime.Commands.{Participant}
use luxor.Realtime.Tickets.{consume_ticket}
use luxor.Realtime.Origin.{IsWelcome, origin_allowed, origin_allowed-IsWelcome}

unfoldable pub header_str : Text → HeaderMap → Option Text
unfolding get
header_str name headers = readable (get name headers)

try_admit-some :
    (hub : RealtimeHub) (slot : Bool) (admitted : RealtimeHub)
    → try_admit hub ≡ some (slot, admitted)
    → (slot ≡ false)
      × (ltb hub.connections hub.max_connections ≡ true)
      × (admitted.connections ≡ hub.connections + 1)
unfolding try_admit
try_admit-some hub slot admitted h = ground arith

-- `unwrap_or_default` on the query's ticket.
abbrev pub ticket_or_empty : Option Text → Text
ticket_or_empty none = []
ticket_or_empty (some t) = t

abbrev Connected : Type 0 → Type 0
Connected V = Result AppError Participant × (RealtimeHub × Map (V × ℕ))

module _ {V : Type 0} (sha256 : Text → List ℕ) (decode : V → Option Participant) where
  -- The slot lives on in the socket's task, or is dropped on the error path.
  unfoldable pub redeem :
      Bool → RealtimeHub → Result AppError Participant × Map (V × ℕ) → Connected V
  unfolding release
  redeem slot hub (ok who, m) = (ok who, (hub, m))
  redeem slot hub (err e, m) = (err e, ((release slot hub).1, m))

  unfoldable pub connect :
      List Text
      → HeaderMap
      → Option Text
      → Result Text (Unit {0})
      → ℕ
      → RealtimeHub
      → Map (V × ℕ)
      → Connected V
  unfolding header_str origin_allowed try_admit consume_ticket redeem
  connect cors_origins headers ticket upgrade now hub m =
      if origin_allowed (header_str (codes "origin") headers) (header_str (codes "host") headers)
        cors_origins
      then elim upgrade [
        | err rejection ↦ (err (bad_request rejection), (hub, m))
        | ok _ ↦ elim (try_admit hub) [
          | none ↦ (err (at_capacity (codes "the realtime demo")), (hub, m))
          | some (slot, admitted) ↦
              redeem slot admitted (consume_ticket sha256 decode (ticket_or_empty ticket) now m)
        ]
      ]
      else (err forbidden, (hub, m))

  module _ (cors_origins : List Text) (headers : HeaderMap) (ticket : Option Text) (now : ℕ)
      (hub : RealtimeHub) (m : Map (V × ℕ)) where
    -- Turned away before the ticket is looked at: nothing changes.
    pub IsTurnedAway : Connected V → Type 0
    IsTurnedAway r = (is_ok r.0 ≡ false) × (r.1 ≡ (hub, m))

    -- From an allowed origin, with a free slot, the ticket is spent; the connection counts exactly if
    -- the ticket was good.
    pub IsRedeemed : Connected V → Type 0
    IsRedeemed r =
        IsWelcome (header_str (codes "origin") headers) (header_str (codes "host") headers)
          cors_origins
        × (ltb hub.connections hub.max_connections ≡ true)
        × (r.0 ≡ (consume_ticket sha256 decode (ticket_or_empty ticket) now m).0)
        × (r.1.1 ≡ (consume_ticket sha256 decode (ticket_or_empty ticket) now m).1)
        × (r.1.0.connections ≡ (if is_ok r.0 then hub.connections + 1 else hub.connections))

    redeem_lem :
        (slot : Bool) (admitted : RealtimeHub) (c : Result AppError Participant × Map (V × ℕ))
        → slot ≡ false
        → ltb hub.connections hub.max_connections ≡ true
        → admitted.connections ≡ hub.connections + 1
        → consume_ticket sha256 decode (ticket_or_empty ticket) now m ≡ c
        → IsWelcome
            (header_str (codes "origin") headers)
            (header_str (codes "host") headers)
            cors_origins
        → IsRedeemed (redeem slot admitted c)
    unfolding release redeem IsRedeemed
    redeem_lem true admitted c f room counted e o = cc
    redeem_lem false admitted (ok who, n) f room counted c o = rw c (o, room, refl, refl, counted)
    redeem_lem false admitted (err e, n) f room counted c o =
        rw c (o, room, refl, refl, omega (arith, counted))

    turned : (e : AppError) → IsTurnedAway (err e, (hub, m))
    unfolding IsTurnedAway
    turned e = (refl, refl)

    -- A handshake, whatever comes with it, is turned away with an error and changes neither the hub
    -- nor the cache, the ticket with it; or it names no origin, an origin that is configured, or an
    -- HTTP origin of the very host that it talks to, a slot is free, and its ticket is redeemed, with
    -- the reply of that, and the connection is counted exactly if the ticket was good.
    pub connect_outcome :
        (upgrade : Result Text (Unit {0}))
        → IsTurnedAway (connect cors_origins headers ticket upgrade now hub m)
          ⊎ IsRedeemed (connect cors_origins headers ticket upgrade now hub m)
    unfolding connect
    connect_outcome upgrade =
        elim (Bool-cases (
          origin_allowed (header_str (codes "origin") headers) (header_str (codes "host") headers)
            cors_origins)) [
              | inr foreign ↦ rw (connect, foreign) (inl (turned forbidden))
              | inl o ↦ elim (Result-cases upgrade) [
                | inr (rejection, u) ↦ rw (connect, o, u) (inl (turned (bad_request rejection)))
                | inl (x, u) ↦ elim (Option-cases (try_admit hub)) [
                  | inl full ↦ rw (connect, o, u, full) (inl (turned (at_capacity _)))
                  | inr ((slot, admitted), a) ↦
                      let (unreleased, room, counted) = try_admit-some hub slot admitted a in
                      rw (connect, o, u, a)
                        (inr (
                          redeem_lem slot admitted _ unreleased room counted refl
                            (origin_allowed-IsWelcome _ _ cors_origins o)))
                ]
              ]
            ]
