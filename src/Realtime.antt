-- ===== src/Realtime.antt =====
-- src/realtime.rs: the hub's counters, the slots, and the publish budget of a connection. Times are
-- nanoseconds. The counters are atomic, so each operation is one step; the broadcast channel is a
-- library's and is not part of this state.
pub mod Admission
pub mod Budget
pub mod Commands
pub mod Accepted
pub mod Tickets
pub mod Redeeming
pub mod Origin
pub mod Connect
pub mod Connection
pub mod Departure
pub mod Ordering
use luxor.Base.{
  ℕ, suc, ◌+◌, ◌-◌, ◌*◌, Bool, true, false, Option, none, some, List, [], ◌∷◌, ltb, leb,
  if◌then◌else◌,
}
use luxor.RateLimit.{nanos_per_second}

abbrev pub message_quota : ℕ
message_quota = 5

abbrev pub message_window : ℕ
message_window = 5 * nanos_per_second

abbrev pub max_text_characters : ℕ
max_text_characters = 280

pub record RealtimeHub : Type 0 where
  pub connections : ℕ
  pub max_connections : ℕ
  pub sequence : ℕ

-- `RealtimeHub::new`.
unfoldable pub new_hub : ℕ → RealtimeHub
new_hub max = record { connections = 0; max_connections = max; sequence = 0 }

-- `try_admit`, whose slot begins unreleased.
unfoldable pub try_admit : RealtimeHub → Option (Bool × RealtimeHub)
try_admit hub =
    if ltb hub.connections hub.max_connections
    then some (false, record hub { connections = hub.connections + 1 })
    else none

-- `ConnectionSlot::release`, on the slot's flag and the hub; dropping a slot calls it too.
unfoldable pub release : Bool → RealtimeHub → Bool × RealtimeHub
release true hub = (true, hub)
release false hub = (true, record hub { connections = hub.connections - 1 })

unfoldable pub next_sequence : RealtimeHub → ℕ × RealtimeHub
next_sequence hub = (hub.sequence + 1, record hub { sequence = hub.sequence + 1 })

pub record SendQuota : Type 0 where
  pub window_started : ℕ
  pub used : ℕ

unfoldable pub new_quota : ℕ → SendQuota
new_quota now = record { window_started = now; used = 0 }

-- The reset at the head of `allow`.
abbrev pub refreshed : ℕ → SendQuota → SendQuota
refreshed now q =
    if leb message_window (now - q.window_started)
    then record { window_started = now; used = 0 }
    else q

unfoldable pub allow : ℕ → SendQuota → Bool × SendQuota
allow now q =
    let r = refreshed now q in
    if leb message_quota r.used then (false, r) else (true, record r { used = r.used + 1 })
