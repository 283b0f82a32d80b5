-- ===== src/Workers/Inactive.antt =====
-- When a worker counts as inactive.
use pioneer_square.Shared.{
  ℕ, ◌+◌, String, ◌≡◌, refl, Bool, not, ◌&&◌, List, [], ◌∷◌, ltb, any, arith,
}
use pioneer_square.Workers.{
  Tables, TaskLog, newest, is_old, holds_alive, keeps_busy, is_task_log_of, worker_is_inactive,
}

-- A line of a task's log that the worker wrote at the cutoff or after it.
abbrev pub is_recent_log : ℕ → ℕ → String → TaskLog → Bool
is_recent_log timeout now worker_id log =
    is_task_log_of worker_id log && not (ltb (log.timestamp + timeout) now)

is_old-newest :
    (timeout now : ℕ) (test : TaskLog → Bool) (logs : List TaskLog)
    → is_old timeout now (newest test logs)
      ≡ not (any (λ l. test l && not (ltb (l.timestamp + timeout) now)) logs)
unfolding newest any
is_old-newest timeout now test [] = refl
is_old-newest timeout now test (log ∷ logs) = ground (arith, is_old-newest timeout now test logs)

-- A worker is inactive exactly when it has no live pending or working task, no busy agent, and no
-- line of a task's log from the cutoff on.
pub worker_is_inactive_lem :
    (clock timeout now : ℕ) (tables : Tables) (worker_id : String)
    → worker_is_inactive clock timeout now tables worker_id ≡ (
        not (any (holds_alive clock worker_id) tables.tasks)
        && not (any (keeps_busy worker_id) tables.agents)
        && not (any (is_recent_log timeout now worker_id) tables.task_logs))
unfolding worker_is_inactive
worker_is_inactive_lem clock timeout now tables worker_id =
    ground (arith, is_old-newest timeout now (is_task_log_of worker_id) tables.task_logs)
