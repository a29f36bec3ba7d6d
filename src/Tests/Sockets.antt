-- ===== src/Tests/Sockets.antt =====
-- Inputs for the sockets: admission, commands, tickets and the handshake.
use luxor.Base.{
  ℕ, ◌<◌, len, is_empty, ◌||◌, ◌≡◌, refl, ◌⊎◌, true, false, Option, some, List, [], ◌∷◌, ◌++◌, Text,
  codes, ok, err, Result, replicate, length-replicate, All-replicate, eq_ignore_ascii_case, ltb,
  if◌then◌else◌, arith, text_eq, split_once, strip_prefix, to_ascii_lowercase,
}
use luxor.Base.Map.{Map}
use luxor.Http.{HeaderMap, visible, get}
use luxor.Error.{unauthorized}
use luxor.Access.{user}
use luxor.Realtime.{RealtimeHub, new_hub, try_admit, release, SendQuota}
use luxor.Realtime.Admission.{
  Instance, admit, free, refuse, Reach, start, next, IsBalanced, Reach-IsBalanced,
}
use luxor.Realtime.Commands.{
  Participant, Limits, joined, presence, tick, ClientCommand, broadcast, handle_command,
}
use luxor.Realtime.Connection.{
  Received, received, lagged, ServerEvent, event_frame, envelope, send_directly, text_message,
  binary_message, close_message, Wake, on_tick, on_socket, Connection, run_connection,
}
use luxor.Realtime.Ordering.{with_socket, all_frames, send_directly-written}
use luxor.Realtime.Departure.{LeavesSlot, run_connection-LeavesSlot}
use luxor.Realtime.Accepted.{IsPublished, IsNoted, handle_command-IsPublished}
use luxor.Realtime.Tickets.{issue_ticket, consume_ticket}
use luxor.Realtime.Redeeming.{issue_ticket_once}
use luxor.Realtime.Origin.{origin_allowed, origin_authority}
use luxor.Realtime.Connect.{connect, IsTurnedAway, IsRedeemed, connect_outcome}

-- One slot, taken, a second handshake refused, and the slot dropped twice.
abbrev one_taken : Instance
one_taken = record {
  hub = record { connections = 1; max_connections = 1; sequence = 0 };
  slots = false ∷ [];
}

abbrev one_dropped : Instance
one_dropped = record {
  hub = record { connections = 0; max_connections = 1; sequence = 0 };
  slots = true ∷ [];
}

dropped_twice : Reach 1 one_dropped
unfolding new_hub try_admit release
dropped_twice =
    next
      (next (next (next start (admit _ false one_taken.hub refl)) (refuse one_taken refl))
        (free one_taken.hub [] false []))
      (free one_dropped.hub [] true [])

Reach-IsBalanced_example : IsBalanced 1 one_dropped
Reach-IsBalanced_example = Reach-IsBalanced 1 dropped_twice

abbrev attempts : List ℕ
attempts = 0 ∷ 1 ∷ 2 ∷ 3 ∷ 4 ∷ 5 ∷ 6 ∷ []

abbrev somebody : Participant
somebody = record { user_id = 7; role = user }

abbrev a_hub : RealtimeHub
a_hub = record { connections = 1; max_connections = 2; sequence = 41 }

-- Every text is a broadcast of itself.
abbrev read_text : Text → Option ClientCommand
read_text t = some (broadcast t)

abbrev a_quota : SendQuota
a_quota = record { window_started = 0; used = 0 }

handle_command-IsPublished_example :
    ((text : Text) × IsPublished read_text 3 a_hub somebody
        (codes " hello ")
        a_quota
        (handle_command read_text 3 a_hub somebody (codes " hello ") a_quota)
        text)
    ⊎ IsNoted read_text 3 a_hub somebody
        (codes " hello ")
        a_quota
        (handle_command read_text 3 a_hub somebody (codes " hello ") a_quota)
handle_command-IsPublished_example =
    handle_command-IsPublished read_text 3 a_hub somebody (codes " hello ") a_quota

-- A digest of 32 bytes, the same for every text.
abbrev zeros : Text → List ℕ
zeros t = replicate 32 0

abbrev write_participant : Participant → Result Text Participant
write_participant p = ok p

abbrev no_values : Map (Participant × ℕ)
no_values = []

short_ticket : is_empty (codes "t") || ltb 128 (len (codes "t")) ≡ false
unfolding len
short_ticket = refl

issue_ticket_once_example :
    ((issue_ticket zeros write_participant (codes "t") somebody 30000000000 5 no_values).0
      ≡ ok (codes "t"))
    × ((consume_ticket zeros some
          (codes "t")
          9
          (issue_ticket zeros write_participant (codes "t") somebody 30000000000 5 no_values).1).0
        ≡ (if ltb 9 30000000005 then ok somebody else err unauthorized))
    × ((consume_ticket zeros some
          (codes "t")
          10
          (consume_ticket zeros some
            (codes "t")
            9
            (issue_ticket zeros write_participant
              (codes "t")
              somebody
              30000000000
              5
              no_values).1).1).0
        ≡ err unauthorized)
issue_ticket_once_example =
    issue_ticket_once zeros (λ t. All-replicate {A = ℕ} (λ b. b < 256) 32 0 (omega arith))
      (λ t. length-replicate {A = ℕ} 32 0) write_participant some somebody somebody refl refl
      (codes "t") short_ticket 30000000000 (omega arith) 5 9 10 no_values

abbrev console : Text
console = codes "https://app.example.com"

abbrev host : Text
host = codes "App.example.com"

origins : Unit {0}
unfolding origin_allowed origin_authority eq_ignore_ascii_case to_ascii_lowercase text_eq split_once
    strip_prefix get
origins = tt

abbrev handshake : HeaderMap
handshake = (codes "origin", visible console) ∷ (codes "host", visible host) ∷ []

connect_outcome_example :
    IsTurnedAway zeros some [] handshake
      (some (codes "t"))
      9
      a_hub
      no_values
      (connect zeros some [] handshake (some (codes "t")) (ok tt) 9 a_hub no_values)
    ⊎ IsRedeemed zeros some [] handshake
        (some (codes "t"))
        9
        a_hub
        no_values
        (connect zeros some [] handshake (some (codes "t")) (ok tt) 9 a_hub no_values)
connect_outcome_example =
    connect_outcome zeros some [] handshake (some (codes "t")) 9 a_hub no_values (ok tt)

abbrev plain_text : Text → Option ClientCommand
plain_text s = some (broadcast s)

abbrev connected : Connection
connected = record {
  hub = record { connections = 2; max_connections = 5; sequence = 0 };
  released = false;
  quota = record { window_started = 0; used = 0 };
  last_seen = 0;
  tick_sequence = 0;
  pending = [];
  room = 100;
  written = [];
}

-- A broadcast, a frame that is not text, a tick, and the peer's farewell.
abbrev turns : List (ℕ × List Received × Wake)
turns =
    (1, [], on_socket (some (text_message (codes "hello"))))
    ∷ (2, lagged 3 ∷ [], on_socket (some binary_message))
    ∷ (3, [], on_tick)
    ∷ (4, [], on_socket (some close_message))
    ∷ []

abbrev no_limits : Limits
no_limits = record {
  max_connections = 5;
  max_text_characters = 280;
  messages_per_window = 5;
  message_window_seconds = 5;
  tick_interval_seconds = 5;
  idle_timeout_seconds = 60;
}

run_connection-LeavesSlot_example :
    LeavesSlot plain_text somebody connected
      (run_connection plain_text somebody no_limits 9 0 5 turns connected)
run_connection-LeavesSlot_example =
    run_connection-LeavesSlot plain_text somebody no_limits 9 0 5 turns connected refl

abbrev greeting : ServerEvent
greeting = record { at = 0; connections = 2; payload = presence joined 9 somebody }

abbrev behind : Connection
behind = record connected { pending = received greeting ∷ lagged 4 ∷ [] }

send_directly-written_example : send_directly 7 (tick 1) behind ≡ (
  true,
  with_socket behind 97
      (all_frames 7 behind behind.pending ++ event_frame (envelope 7 (tick 1) behind) ∷ [])
      [],
)
send_directly-written_example = send_directly-written 7 (tick 1) behind 97 (tt, (tt, tt)) refl
