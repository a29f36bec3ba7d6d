-- ===== src/Demo/Trusted.antt =====
-- src/demo/handlers/jobs.rs: what the endpoint puts into the queue.
use luxor.Base.{
  map, codes, ℕ, ◌≤◌, ◌≡◌, refl, ap, Bool, true, false, ◌||◌, ◌&&◌, List, [], ◌∷◌, ◌++◌, all, All,
  All-append, Text, len, trim, is_empty, leb, ltb, Result, ok, err, Result-cases, Bool-cases, inl,
  inr, arith, Ensures, Ensures-elim, Ensures-seq, or_false, ensure-eq-ok,
}
use luxor.Error.{AppError}
use luxor.Validation.{email, IsInert, email-IsInert}
use luxor.Jobs.{job_kind, Job, send_email, audit_event, job_payload, MemoryQueue, enqueue_memory}
use luxor.Events.Envelope.{PublishReceipt, publish_or_log}
use luxor.Events.Domain.{DomainEvent, job_enqueued}
use luxor.Demo.Work.{
  EnqueueRequest, email_request, audit_request, Enqueued, is_template_char, validate_template,
  template_max_length, invalid_template, job_of, enqueue_if, announce, enqueue_job,
}

-- A job that a worker can act on as it is: an address for a mail, and the name of a template that
-- says nothing of a path.
unfoldable pub IsTrusted : Job → Type 0
IsTrusted (send_email to template) =
    IsInert to
    × (1 ≤ len template)
    × (len template ≤ template_max_length)
    × (all is_template_char template ≡ true)
IsTrusted (audit_event account action) = (is_empty (trim action) ≡ false) × (len action ≤ 200)

measured :
    (n : ℕ) (named : Bool)
    → (leb 1 n && leb n template_max_length && named) ≡ true
    → (1 ≤ n) × (n ≤ template_max_length) × (named ≡ true)
measured n named h = (ground arith, ground arith, ground arith)

validate_template-eq_ok :
    (template : Text)
    → validate_template template ≡ ok tt
    → (1 ≤ len template)
      × (len template ≤ template_max_length)
      × (all is_template_char template ≡ true)
unfolding validate_template
validate_template-eq_ok template h =
    measured (len template) (all is_template_char template) (ensure-eq-ok _ invalid_template h)

audited : (n : ℕ) → ltb 200 n ≡ false → n ≤ 200
audited n h = ground arith

job_of-IsTrusted :
    (account : Text) (request : EnqueueRequest) → Ensures IsTrusted (job_of account request)
unfolding job_of IsTrusted Ensures
job_of-IsTrusted account (email_request to template) =
    Ensures-seq IsTrusted (email (trim to)) _ λ accepted.
      Ensures-seq IsTrusted (validate_template template) _ λ named.
        let (some_text, short, plain) = validate_template-eq_ok template named in
        (email-IsInert (trim to) accepted, some_text, short, plain)
job_of-IsTrusted account (audit_request action) =
    elim (Bool-cases (is_empty (trim action) || ltb 200 (len action))) [
      | inl refused ↦ rw refused tt
      | inr accepted ↦ rw accepted (
          let (named, short) = or_false (is_empty (trim action)) (ltb 200 (len action)) accepted in
          (named, audited (len action) short))
    ]

map-append : {A C : Type 0} (f : A → C) (xs ys : List A) → map f (xs ++ ys) ≡ map f xs ++ map f ys
map-append f [] ys = refl
map-append f (x ∷ xs) ys = ap (f x ∷◌) (map-append f xs ys)

module _ {B : Type 0} (id : Text) (now : ℕ)
    (publish : DomainEvent → B → Result AppError (PublishReceipt DomainEvent) × B) where
  -- The endpoint on the queue in memory, with the identifier and the time that it is given.
  abbrev pub enqueue_here :
      Text → EnqueueRequest → MemoryQueue Job → B → Enqueued (MemoryQueue Job) B
  enqueue_here account request queue stream =
      enqueue_job (λ job q. enqueue_memory job_payload record { job = job; id = id; now = now } q)
        publish account request queue stream

  abbrev pub AreTrusted : MemoryQueue Job → Type 0
  AreTrusted queue = All (λ envelope. IsTrusted envelope.payload) queue.jobs

  -- Where every job that waits is one that a worker can act on as it is, the same holds after a
  -- request of anyone for anything: a mail goes to an address with two parts and no white space or
  -- control character, by a template named with 1 to 64 letters, digits, underscores and hyphens, and
  -- an entry of the audit is neither blank nor longer than 200 characters.
  pub enqueue_here-AreTrusted :
      (account : Text) (request : EnqueueRequest) (queue : MemoryQueue Job) (stream : B)
      → AreTrusted queue
      → AreTrusted (enqueue_here account request queue stream).queue
  unfolding enqueue_job enqueue_if announce enqueue_memory
  enqueue_here-AreTrusted account request queue stream trusted =
      elim (Result-cases (job_of account request)) [
        | inl (job, asked) ↦ rw asked (
            All-append (λ envelope. IsTrusted envelope.payload) queue.jobs _ trusted
              (Ensures-elim IsTrusted (job_of-IsTrusted account request) asked, tt))
        | inr (e, refused) ↦ rw refused trusted
      ]

  -- A job that is queued is answered for, and its announcement published, whatever comes of that:
  -- when the stream refuses it, the endpoint only logs the error, and the job stays queued.
  pub enqueue_here-Queued :
      (account : Text) (request : EnqueueRequest) (job : Job) (queue : MemoryQueue Job) (stream : B)
      → job_of account request ≡ ok job
      → let event = job_enqueued id (job_kind job) in
        let outcome = enqueue_here account request queue stream in
        (outcome.answer
          ≡ ok (202, record { id = id; kind = job_kind job; status = codes "queued" }))
        × (map (λ envelope. envelope.payload) outcome.queue.jobs
            ≡ map (λ envelope. envelope.payload) queue.jobs ++ job ∷ [])
        × (outcome.stream ≡ (publish event stream).1)
        × ((e : AppError)
            → (publish event stream).0 ≡ err e
            → outcome.warnings ≡ (codes "job.enqueued", e) ∷ [])
  unfolding enqueue_job enqueue_if announce enqueue_memory publish_or_log
  enqueue_here-Queued account request job queue stream asked =
      rw asked
        (refl, map-append (λ envelope. envelope.payload) queue.jobs _, refl, λ e lost. rw lost refl)
