-- ===== src/Tests/Work.antt =====
-- Inputs for the tasks, the queues and the endpoint that queues a job.
use luxor.Base.{
  ℕ, suc, ◌+◌, ◌≤◌, ◌≡◌, refl, true, List, [], ◌∷◌, map, Text, codes, Result, ok, err, arith,
}
use luxor.Events.{reverse}
use luxor.Error.{AppError, event_stream}
use luxor.Tasks.{
  Ending, returns, panics, runs_on, stopped, failed, abandoned, BackgroundTasks, Timer, channel,
  requested, shutdown,
}
use luxor.Tasks.Grace.{IsTimer, result_by, outcome, shutdown-outcome}
use luxor.Jobs.{
  Job, send_email, audit_event, job_payload, JobEnvelope, Request, RedisQueue, Lpush, new_job,
  new_queue, enqueue_redis,
}
use luxor.Jobs.Waiting.{
  IsServer, IsWritten, IsEnqueued, enqueue_all_memory, IsEnqueued-IsWritten, waiting,
}
use luxor.Events.Envelope.{PublishReceipt}
use luxor.Events.Domain.{DomainEvent}
use luxor.Demo.Work.{EnqueueRequest, email_request}
use luxor.Demo.Trusted.{AreTrusted, enqueue_here, enqueue_here-AreTrusted}

-- A handle that says how its task ends, and a timer that gives what is ready by the deadline.
abbrev ends : Ending → Ending
ends e = e

abbrev timeout : Timer Ending
timeout now deadline e = (result_by deadline e, deadline)

timeout-IsTimer : IsTimer ends timeout
timeout-IsTimer = record {
  result = λ now deadline h le. refl;
  no_later = λ now deadline h le. omega arith;
}

abbrev tasks : BackgroundTasks Ending
tasks = record {
  signal = channel;
  running =
      (codes "pruner", returns 102)
      ∷ (codes "stubborn", runs_on)
      ∷ (codes "broken", panics 103)
      ∷ (codes "late", returns 200)
      ∷ [];
}

shutdown-outcome_example :
    let (signal, reports, last) = shutdown timeout 100 5 tasks in
    (requested signal ≡ true)
    × (reports ≡ map (outcome ends (100 + 5)) tasks.running)
    × (last ≤ 100 + 5)
shutdown-outcome_example = shutdown-outcome ends timeout timeout-IsTimer 100 5 tasks

shutdown_run :
    (shutdown timeout 100 5 tasks).1
    ≡ stopped (codes "pruner")
      ∷ abandoned (codes "stubborn")
      ∷ failed (codes "broken")
      ∷ abandoned (codes "late")
      ∷ []
unfolding shutdown
shutdown_run = refl

-- A server that keeps one list, whatever the key, and a codec that writes the job's identifier.
abbrev list : Text → List Text → List Text
list key r = r

abbrev lpush : Lpush (List Text)
lpush key value r = (ok 1, value ∷ r)

lpush-IsServer : IsServer list lpush
lpush-IsServer = record { first = λ key value r n h. refl }

abbrev to_string : JobEnvelope Job → Result Text Text
to_string e = ok e.id

abbrev request : Text → Request Job
request id = record { job = audit_event (codes "a") (codes "signed_in"); id = id; now = 3 }

abbrev requests : List (Request Job)
requests = request (codes "1") ∷ request (codes "2") ∷ []

abbrev queue : RedisQueue
queue = record { key = codes "jobs" }

start : IsWritten to_string new_queue.jobs (waiting job_payload to_string list lpush queue [])
unfolding new_queue IsWritten reverse
start = tt

enqueued :
    IsEnqueued job_payload to_string list lpush queue requests [] (codes "2" ∷ codes "1" ∷ [])
unfolding IsEnqueued enqueue_redis new_job
enqueued = (refl, (refl, refl))

IsEnqueued-IsWritten_example :
    IsWritten to_string
      (enqueue_all_memory job_payload requests new_queue).jobs
      (waiting job_payload to_string list lpush queue (codes "2" ∷ codes "1" ∷ []))
IsEnqueued-IsWritten_example =
    IsEnqueued-IsWritten job_payload to_string list lpush queue lpush-IsServer requests []
      (codes "2" ∷ codes "1" ∷ []) new_queue start enqueued

-- A stream that refuses everything.
abbrev refuse : DomainEvent → ℕ → Result AppError (PublishReceipt DomainEvent) × ℕ
refuse event attempts = (err (event_stream (codes "down")), suc attempts)

abbrev welcome : EnqueueRequest
welcome = email_request (codes " a@b.example ") (codes "welcome")

nobody : AreTrusted (codes "1") 3 refuse new_queue
unfolding new_queue
nobody = tt

enqueue_here-AreTrusted_example :
    AreTrusted
      (codes "1")
      3
      refuse
      (enqueue_here (codes "1") 3 refuse (codes "u") welcome new_queue 0).queue
enqueue_here-AreTrusted_example =
    enqueue_here-AreTrusted (codes "1") 3 refuse (codes "u") welcome new_queue 0 nobody

abbrev welcoming : Job
welcoming = send_email (codes "a@b.example") (codes "welcome")
