-- ===== src/Jobs/Waiting.antt =====
-- src/queue.rs: the jobs that wait in either queue, next to what a worker reads.
use luxor.Base.{ℕ, ◌≡◌, refl, List, [], ◌∷◌, ◌++◌, Text, Result, ok, Result-cases, inl, inr}
use luxor.Events.{reverse}
use luxor.Jobs.{
  JobPayload, JobEnvelope, Request, MemoryQueue, RedisQueue, Lpush, new_job, enqueue_memory,
  enqueue_redis, pushed,
}

-- The lists that a server keeps, and what it documents of LPUSH: the value is the new first element
-- of the list it is pushed to.
pub record IsServer {R : Type 0} (list : Text → R → List Text) (lpush : Lpush R) : Type 0 where
  pub first :
      (key value : Text) (r : R) (n : ℕ)
      → (lpush key value r).0 ≡ ok n
      → list key (lpush key value r).1 ≡ value ∷ list key r

module _ {J : Type 0} (payload : JobPayload J) where
  -- The jobs enqueued in memory one after the other.
  unfoldable pub enqueue_all_memory : List (Request J) → MemoryQueue J → MemoryQueue J
  unfolding enqueue_memory
  enqueue_all_memory [] queue = queue
  enqueue_all_memory (call ∷ calls) queue =
      enqueue_all_memory calls (enqueue_memory payload call queue).1

module _ {J : Type 0} (to_string : JobEnvelope J → Result Text Text) where
  -- The texts are the envelopes written, one by one.
  unfoldable pub IsWritten : List (JobEnvelope J) → List Text → Type 0
  IsWritten [] [] = Unit
  IsWritten (e ∷ es) (t ∷ ts) = (to_string e ≡ ok t) × IsWritten es ts
  IsWritten _ _ = ⊥

  append-IsWritten :
      (es : List (JobEnvelope J)) (ts : List Text) (e : JobEnvelope J) (t : Text)
      → IsWritten es ts
      → to_string e ≡ ok t
      → IsWritten (es ++ e ∷ []) (ts ++ t ∷ [])
  unfolding IsWritten
  append-IsWritten [] [] e t w h = (h, tt)
  append-IsWritten [] (u ∷ ts) e t w h = elim w [ ]
  append-IsWritten (d ∷ es) [] e t w h = elim w [ ]
  append-IsWritten (d ∷ es) (u ∷ ts) e t (first, w) h = (first, append-IsWritten es ts e t w h)

module _ {J R : Type 0} (payload : JobPayload J) (to_string : JobEnvelope J → Result Text Text)
    (list : Text → R → List Text) (lpush : Lpush R) (queue : RedisQueue) where
  -- The jobs enqueued in Redis one after the other; each call is answered with its envelope.
  unfoldable pub IsEnqueued : List (Request J) → R → R → Type 0
  IsEnqueued [] r last = r ≡ last
  IsEnqueued (call ∷ calls) r last =
      let (answer, next) = enqueue_redis payload to_string lpush queue call r in
      (answer ≡ ok (new_job payload call)) × IsEnqueued calls next last

  -- What a worker takes with BRPOP, the next one first.
  abbrev pub waiting : R → List Text
  waiting r = reverse (list queue.key r)

  pushed-ok :
      (server : IsServer list lpush) (e : JobEnvelope J) (bytes : Text) (r : R)
      → let (answer, next) = pushed payload to_string lpush e (lpush queue.key bytes r) in
        answer ≡ ok e → waiting next ≡ waiting r ++ bytes ∷ []
  unfolding reverse
  pushed-ok server e bytes r h = elim (Result-cases (lpush queue.key bytes r).0) [
    | inl (n, given) ↦ rw given (rw (server.first queue.key bytes r n given) refl)
    | inr (error, refused) ↦ let bad = rw refused at h in cc
  ]

  step :
      (server : IsServer list lpush) (call : Request J) (r : R)
      → let (answer, next) = enqueue_redis payload to_string lpush queue call r in
        answer ≡ ok (new_job payload call)
        → (bytes : Text) × (to_string (new_job payload call) ≡ ok bytes)
          × (waiting next ≡ waiting r ++ bytes ∷ [])
  unfolding enqueue_redis
  step server call r h = elim (Result-cases (to_string (new_job payload call))) [
    | inl (bytes, written) ↦
        let sent = rw written at h in
        (bytes, written, rw written (pushed-ok server (new_job payload call) bytes r sent))
    | inr (error, refused) ↦ let bad = rw refused at h in cc
  ]

  -- Jobs that are all accepted wait in Redis as they would in memory: a worker of a server that keeps
  -- to its documentation takes, first in first out, the texts of the envelopes that the memory queue
  -- lists after the same calls.
  pub IsEnqueued-IsWritten :
      (server : IsServer list lpush) (calls : List (Request J)) (r last : R)
      (memory : MemoryQueue J)
      → IsWritten to_string memory.jobs (waiting r)
      → IsEnqueued calls r last
      → IsWritten to_string (enqueue_all_memory payload calls memory).jobs (waiting last)
  unfolding IsEnqueued enqueue_all_memory enqueue_memory
  IsEnqueued-IsWritten server [] r last memory w h = rw h at w
  IsEnqueued-IsWritten server (call ∷ calls) r last memory w (accepted, h) =
      let (bytes, written, kept) = step server call r accepted in
      IsEnqueued-IsWritten server calls _ last (enqueue_memory payload call memory).1
        (rw kept (
          append-IsWritten to_string memory.jobs (waiting r) (new_job payload call) bytes w
            written))
        h
