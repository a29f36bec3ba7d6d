-- ===== src/Jobs.antt =====
-- src/queue.rs and src/app/jobs.rs: the jobs, and the two queues they wait in. The codec and the
-- Redis server are a library's and parameters; an identifier and a time are arguments.
pub mod Waiting
use luxor.Base.{ℕ, List, [], ◌∷◌, ◌++◌, Text, codes, Result, ok, err, map_err}
use luxor.Error.{AppError, cache, serialization}
use luxor.Config.Sections.{QueueSettings}

pub data Job : Type 0 where
  send_email : (to template : Text) → Job
  audit_event : (actor_id action : Text) → Job

unfoldable pub job_kind : Job → Text
job_kind (send_email to template) = codes "send_email"
job_kind (audit_event actor_id action) = codes "audit_event"

-- The trait `JobPayload`.
pub record JobPayload (J : Type 0) : Type 0 where
  pub kind : J → Text

abbrev pub job_payload : JobPayload Job
job_payload = record { kind = job_kind }

pub record JobEnvelope (J : Type 0) : Type 0 where
  pub id : Text
  pub kind : Text
  pub payload : J
  pub attempt : ℕ
  pub max_attempts : ℕ
  pub enqueued_at : ℕ

-- A call of `enqueue`: the job, and the identifier and the time it is given.
pub record Request (J : Type 0) : Type 0 where
  pub job : J
  pub id : Text
  pub now : ℕ

-- `MemoryQueue`, the job that was enqueued first at its head.
pub record MemoryQueue (J : Type 0) : Type 0 where
  pub jobs : List (JobEnvelope J)

pub record RedisQueue : Type 0 where
  pub key : Text

-- What the queue asks of the server: the length of the list pushed to, or an error; and the server
-- after it.
abbrev pub Lpush : Type 0 → Type 0
Lpush R = Text → Text → R → Result Text ℕ × R

unfoldable pub redis_queue : QueueSettings → RedisQueue
redis_queue settings = record { key = settings.key }

unfoldable pub new_queue : {J : Type 0} → MemoryQueue J
new_queue = record { jobs = [] }

module _ {J : Type 0} (payload : JobPayload J) where
  unfoldable pub new_job : Request J → JobEnvelope J
  new_job call = record {
    id = call.id;
    kind = payload.kind call.job;
    payload = call.job;
    attempt = 0;
    max_attempts = 3;
    enqueued_at = call.now;
  }

  unfoldable pub enqueue_memory :
      Request J → MemoryQueue J → Result AppError (JobEnvelope J) × MemoryQueue J
  unfolding new_job
  enqueue_memory call queue =
      let envelope = new_job call in (ok envelope, record { jobs = queue.jobs ++ envelope ∷ [] })

  module _ {R : Type 0} (to_string : JobEnvelope J → Result Text Text) (lpush : Lpush R) where
    abbrev pushed : JobEnvelope J → Result Text ℕ × R → Result AppError (JobEnvelope J) × R
    pushed envelope (ok n, r) = (ok envelope, r)
    pushed envelope (err e, r) = (err (cache e), r)

    abbrev push :
        RedisQueue → JobEnvelope J → Result Text Text → R → Result AppError (JobEnvelope J) × R
    push queue envelope (err e) r = (err (serialization e), r)
    push queue envelope (ok bytes) r = pushed envelope (lpush queue.key bytes r)

    unfoldable pub enqueue_redis : RedisQueue → Request J → R → Result AppError (JobEnvelope J) × R
    unfolding new_job
    enqueue_redis queue call r = push queue (new_job call) (to_string (new_job call)) r
