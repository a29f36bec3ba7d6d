-- ===== src/Demo/Work.antt =====
-- src/demo/handlers/jobs.rs: the endpoint that queues a job and announces it. The queue and the
-- publisher of the server are parameters, as the traits `Queue` and `EventPublisher` make them.
use luxor.Base.{
  ℕ, Bool, ◌&&◌, ◌||◌, List, [], all, Text, codes, len, trim, is_empty, is_ascii_alphanumeric, leb,
  ltb, ◌==◌, if◌then◌else◌, Result, ok, err, ◌>>◌, ensure,
}
use luxor.Error.{AppError, bad_request}
use luxor.Validation.{email}
use luxor.Jobs.{Job, send_email, audit_event, JobEnvelope}
use luxor.Events.Envelope.{PublishReceipt, publish_or_log}
use luxor.Events.Domain.{DomainEvent, job_enqueued, domain_event}

abbrev pub template_max_length : ℕ
template_max_length = 64

pub data EnqueueRequest : Type 0 where
  email_request : (to template : Text) → EnqueueRequest
  audit_request : (action : Text) → EnqueueRequest

pub record EnqueueResponse : Type 0 where
  pub id : Text
  pub kind : Text
  pub status : Text

abbrev pub is_template_char : ℕ → Bool
is_template_char c = is_ascii_alphanumeric c || (c == b'_' || c == b'-')

abbrev pub invalid_template : AppError
invalid_template =
    bad_request
      (codes "template must be 1-64 characters of letters, digits, underscores, or hyphens")

unfoldable pub validate_template : Text → Result AppError (Unit {0})
unfolding len
validate_template template =
    ensure
      (leb 1 (len template)
        && leb (len template) template_max_length
        && all is_template_char template)
      invalid_template

abbrev pub invalid_action : AppError
invalid_action = bad_request (codes "action must contain 1-200 characters")

-- The job that a request of this account asks for.
unfoldable pub job_of : Text → EnqueueRequest → Result AppError Job
unfolding trim email validate_template len ◌>>◌
job_of account (email_request to template) =
    email (trim to) >> (validate_template template >> ok (send_email (trim to) template))
job_of account (audit_request action) =
    if is_empty (trim action) || ltb 200 (len action)
    then err invalid_action
    else ok (audit_event account action)

-- What the endpoint leaves: its answer, the queue and the stream, and what it logs of the stream.
pub record Enqueued (Q B : Type 0) : Type 0 where
  pub answer : Result AppError (ℕ × EnqueueResponse)
  pub queue : Q
  pub stream : B
  pub warnings : List (Text × AppError)

module _ {Q B : Type 0} (enqueue : Job → Q → Result AppError (JobEnvelope Job) × Q)
    (publish : DomainEvent → B → Result AppError (PublishReceipt DomainEvent) × B) where
  unfoldable pub announce : Result AppError (JobEnvelope Job) → Q → B → Enqueued Q B
  unfolding publish_or_log
  announce (err e) queue stream = record {
    answer = err e;
    queue = queue;
    stream = stream;
    warnings = [];
  }
  announce (ok envelope) queue stream =
      let event = job_enqueued envelope.id envelope.kind in
      let (published, next) = publish event stream in
      record {
        answer =
            ok (202, record { id = envelope.id; kind = envelope.kind; status = codes "queued" });
        queue = queue;
        stream = next;
        warnings = publish_or_log domain_event event published;
      }

  unfoldable pub enqueue_if : Result AppError Job → Q → B → Enqueued Q B
  unfolding announce
  enqueue_if (err e) queue stream = record {
    answer = err e;
    queue = queue;
    stream = stream;
    warnings = [];
  }
  enqueue_if (ok job) queue stream =
      let (answer, next) = enqueue job queue in announce answer next stream

  unfoldable pub enqueue_job : Text → EnqueueRequest → Q → B → Enqueued Q B
  unfolding job_of enqueue_if
  enqueue_job account request queue stream = enqueue_if (job_of account request) queue stream
