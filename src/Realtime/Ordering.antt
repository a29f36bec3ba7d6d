-- ===== src/Realtime/Ordering.antt =====
-- src/realtime.rs: what `send_directly` writes, and in which order.
use luxor.Base.{
  ℕ, zero, suc, ◌+◌, ◌≡◌, refl, true, List, [], ◌∷◌, ◌++◌, codes, length, All, append_assoc,
  append-nil, arith,
}
use luxor.Realtime.Commands.{EventPayload, notice}
use luxor.Realtime.Connection.{
  Received, received, lagged, closed, Frame, event_frame, Connection, envelope, lagged_detail, send,
  forward_event, and_then, drain, send_directly,
}

-- The channel has not been closed.
abbrev pub IsOpen : Received → Type 0
IsOpen (received event) = Unit
IsOpen (lagged missed) = Unit
IsOpen closed = ⊥

-- The frames that what is read from the subscription becomes.
abbrev pub frames_of : ℕ → Connection → Received → List Frame
frames_of now c (received event) = event_frame event ∷ []
frames_of now c (lagged missed) =
    event_frame (envelope now (notice (codes "lagged") (lagged_detail missed)) c) ∷ []
frames_of now c closed = []

abbrev pub all_frames : ℕ → Connection → List Received → List Frame
all_frames now c [] = []
all_frames now c (r ∷ rs) = frames_of now c r ++ all_frames now c rs

-- The connection with another socket and another subscription.
abbrev pub with_socket : Connection → ℕ → List Frame → List Received → Connection
with_socket c room written pending = record c { room = room; written = written; pending = pending }

module _ (now : ℕ) (c : Connection) where
  forward_open :
      (r : Received) (room : ℕ) (w : List Frame) (rest : List Received)
      → IsOpen r
      → forward_event now r (with_socket c (suc room) w rest)
        ≡ (true, with_socket c room (w ++ frames_of now c r) rest)
  unfolding forward_event send envelope
  forward_open (received event) room w rest h = refl
  forward_open (lagged missed) room w rest h = refl
  forward_open closed room w rest h = elim h [ ]

  drain_open :
      (rs : List Received) (room k : ℕ) (w : List Frame) (p : List Received)
      → All IsOpen rs
      → room ≡ length rs + k
      → drain now rs (with_socket c room w p)
        ≡ (true, with_socket c k (w ++ all_frames now c rs) [])
  unfolding drain and_then
  drain_open [] room k w p h e =
      let same : room ≡ k = omega (arith, e) in rw (same, append-nil w) refl
  drain_open (r ∷ rs) zero k w p h e = absurd (omega (arith, e))
  drain_open (r ∷ rs) (suc room) k w p (ready, h) e =
      rw
        (
          forward_open r room w rs ready,
          drain_open rs room k (w ++ frames_of now c r) rs h (omega (arith, e)),
          append_assoc w (frames_of now c r) (all_frames now c rs),
        )
        refl

-- Where the socket has room and the channel is open, an event for one connection is written behind
-- everything that is pending for it, in its order, a gap as a notice of how much was missed, and
-- leaves nothing pending.
pub send_directly-written :
    (now : ℕ) (payload : EventPayload) (c : Connection) (k : ℕ)
    → All IsOpen c.pending
    → c.room ≡ length c.pending + suc k
    → send_directly now payload c ≡ (
      true,
      with_socket c k
          (c.written ++ (all_frames now c c.pending ++ event_frame (envelope now payload c) ∷ []))
          [],
    )
unfolding send_directly and_then send envelope
send_directly-written now payload c k ready e =
    rw
      (
        drain_open now c c.pending c.room (suc k) c.written c.pending ready e,
        append_assoc c.written (all_frames now c c.pending)
            (event_frame (envelope now payload c) ∷ []),
      )
      refl
