-- ===== src/Tasks.antt =====
-- src/tasks.rs: the tasks that run beside the server, and their shutdown. The runtime's channel and
-- timer are a library's: the channel is the value it holds, the timer a parameter. Time is in
-- milliseconds.
pub mod Grace
use luxor.Base.{
  ℕ, ◌+◌, ◌≤◌, ◌<◌, ◌≡◌, max, Bool, true, false, ◌||◌, Option, none, some, List, [], ◌∷◌, ◌++◌,
  length, is_empty, Text,
}

-- The value that the channel holds, and whether the sender has been dropped.
pub record Shutdown : Type 0 where
  pub value : Bool
  pub dropped : Bool

abbrev pub channel : Shutdown
channel = record { value = false; dropped = false }

-- `ShutdownTrigger::fire`.
abbrev pub fire : Shutdown → Shutdown
fire signal = record signal { value = true }

-- Whether `requested` returns at once.
abbrev pub requested : Shutdown → Bool
requested signal = signal.value || signal.dropped

abbrev pub is_requested : Shutdown → Bool
is_requested signal = signal.value

-- When a task that sees the signal comes to its end, if it does: well, or in a panic.
pub data Ending : Type 0 where
  returns panics : ℕ → Ending
  runs_on : Ending

pub data Report : Type 0 where
  stopped failed abandoned : Text → Report

pub record BackgroundTasks (H : Type 0) : Type 0 where
  pub signal : Shutdown
  pub running : List (Text × H)

-- What a timer gives: the handle's result, `true` for a return, or nothing when the time is over; and
-- the time at which it does.
abbrev pub Timer : Type 0 → Type 0
Timer H = ℕ → ℕ → H → Option Bool × ℕ

module _ {H : Type 0} where
  unfoldable pub new_tasks : BackgroundTasks H
  new_tasks = record { signal = channel; running = [] }

  -- The task is started with the signal and gives its handle.
  unfoldable pub spawn : Text → (Shutdown → H) → BackgroundTasks H → BackgroundTasks H
  spawn name task tasks = record tasks { running = tasks.running ++ (name, task tasks.signal) ∷ [] }

  unfoldable pub len : BackgroundTasks H → ℕ
  len tasks = length tasks.running

  unfoldable pub has_none : BackgroundTasks H → Bool
  has_none tasks = is_empty tasks.running

abbrev pub report_on : Text → Option Bool → Report
report_on name (some true) = stopped name
report_on name (some false) = failed name
report_on name none = abandoned name

module _ {H : Type 0} (timeout_at : Timer H) where
  -- The loop of `shutdown`: what is logged, and the time at the end.
  unfoldable pub await_all : ℕ → ℕ → List (Text × H) → List Report × ℕ
  await_all deadline now [] = ([], now)
  await_all deadline now ((name, handle) ∷ running) =
      let (result, later) = timeout_at now deadline handle in
      let (reports, last) = await_all deadline later running in
      (report_on name result ∷ reports, last)

  unfoldable pub shutdown : ℕ → ℕ → BackgroundTasks H → Shutdown × List Report × ℕ
  unfolding await_all
  shutdown now grace tasks =
      let (reports, last) = await_all (now + grace) now tasks.running in
      (fire tasks.signal, reports, last)
