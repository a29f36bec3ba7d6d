-- ===== src/Tasks/Grace.antt =====
-- src/tasks.rs: the shutdown within its grace period, and the reports on the tasks.
use luxor.Base.{
  ℕ, ◌+◌, ◌≤◌, ◌≡◌, refl, Bool, true, false, Option, none, some, List, [], ◌∷◌, map, leb,
  if◌then◌else◌, Text, arith,
}
use luxor.Tasks.{
  requested, Ending, returns, panics, runs_on, Report, BackgroundTasks, Timer, report_on, await_all,
  shutdown,
}

-- What the runtime documents of its timer: a handle that is ready by the deadline gives its result as
-- soon as it is ready, and any other gives nothing at the deadline.
abbrev by_deadline : ℕ → ℕ → Bool → Option Bool
by_deadline deadline end result = if leb end deadline then some result else none

abbrev pub result_by : ℕ → Ending → Option Bool
result_by deadline (returns end) = by_deadline deadline end true
result_by deadline (panics end) = by_deadline deadline end false
result_by deadline runs_on = none

pub record IsTimer {H : Type 0} (ending : H → Ending) (timeout_at : Timer H) : Type 0 where
  pub result :
      (now deadline : ℕ) (h : H)
      → now ≤ deadline
      → (timeout_at now deadline h).0 ≡ result_by deadline (ending h)
  pub no_later :
      (now deadline : ℕ) (h : H) → now ≤ deadline → (timeout_at now deadline h).1 ≤ deadline

module _ {H : Type 0} (ending : H → Ending) where
  abbrev pub outcome : ℕ → Text × H → Report
  outcome deadline (name, h) = report_on name (result_by deadline (ending h))

  module _ (timeout_at : Timer H) (timer : IsTimer ending timeout_at) where
    await_all-map :
        (deadline now : ℕ) (running : List (Text × H))
        → now ≤ deadline
        → let (reports, last) = await_all timeout_at deadline now running in
          (reports ≡ map (outcome deadline) running) × (last ≤ deadline)
    unfolding await_all
    await_all-map deadline now [] h = (refl, h)
    await_all-map deadline now ((name, handle) ∷ running) h =
        let (reports, last) =
          await_all-map deadline (timeout_at now deadline handle).1 running
            (timer.no_later now deadline handle h) in
        (rw (timer.result now deadline handle h, reports) refl, last)

    -- With a timer that works as documented, the shutdown fires the signal, is over once the grace
    -- period is, however many tasks there are and whatever they do, and reports each task, in the order
    -- in which they were started, by whether it had ended by the deadline; a task that is waited for
    -- behind others loses nothing.
    pub shutdown-outcome :
        (now grace : ℕ) (tasks : BackgroundTasks H)
        → let (signal, reports, last) = shutdown timeout_at now grace tasks in
          (requested signal ≡ true)
          × (reports ≡ map (outcome (now + grace)) tasks.running)
          × (last ≤ now + grace)
    unfolding shutdown
    shutdown-outcome now grace tasks =
        let (reports, last) = await_all-map (now + grace) now tasks.running (omega arith) in
        (refl, reports, last)
