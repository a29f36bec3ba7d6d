-- ===== src/Events/Domain.antt =====
-- src/app/events.rs: the application's events, in a build with the demo feature.
use luxor.Base.{Text, codes}
use luxor.Access.{Role}
use luxor.Events.Envelope.{Event}

-- Of src/events/mod.rs: what the foundation announces.
pub record UserRegistered : Type 0 where
  pub user_id : Text
  pub role : Role

pub data DomainEvent : Type 0 where
  user_registered : (user_id : Text) (role : Role) → DomainEvent
  job_enqueued : (job_id job_kind : Text) → DomainEvent
  note : (author_id text : Text) → DomainEvent

abbrev pub kind : DomainEvent → Text
kind (user_registered user_id role) = codes "user.registered"
kind (job_enqueued job_id job_kind) = codes "job.enqueued"
kind (note author_id text) = codes "note.published"

abbrev pub key : DomainEvent → Text
key (user_registered user_id role) = user_id
key (job_enqueued job_id job_kind) = job_id
key (note author_id text) = author_id

abbrev pub domain_event : Event DomainEvent
domain_event = record { kind = kind; key = key }

-- `From<UserRegistered>`.
unfoldable pub from_registered : UserRegistered → DomainEvent
from_registered event = user_registered event.user_id event.role
