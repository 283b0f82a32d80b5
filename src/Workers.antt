-- ===== src/Workers.antt =====
-- backend/worker_lifecycle.py: the worker rows, and what keeps a spawned worker alive.
-- An instant is compared with `now - duration` by moving the duration to the other side.
pub mod Inactive
pub mod Reaper
pub mod ForceKill
pub mod Spawning
mod Examples
use pioneer_square.Shared.{
  ℕ, ◌+◌, String, Bool, true, false, not, ◌&&◌, ◌||◌, Option, none, some, List, [], ◌∷◌, ltb, ◌==◌,
  ◌!=◌, string_eq, nat_eq, sql_eq, if◌then◌else◌, member, any, filter,
}
use pioneer_square.Tasks.{Task, is_live}

-- The columns of `Worker` that the lifecycle reads or writes.
pub record Worker : Type 0 where
  pub id : String
  pub guild_id : ℕ
  pub state : String
  pub last_seen : Option ℕ
  pub container_id : Option String
  pub spawned_version : Option String
  pub started_at : Option ℕ
  pub drain_requested_at : Option ℕ
  pub disabled : Bool

pub record Agent : Type 0 where
  pub id : String
  pub guild_id : ℕ
  pub worker_id : Option String
  pub state : String
  pub activity : Option String
  pub current_task_id : Option String

pub record TaskLog : Type 0 where
  pub task_id : Option String
  pub worker_id : Option String
  pub timestamp : ℕ

pub record Guild : Type 0 where
  pub id : ℕ
  pub slug : String

-- The tables that the lifecycle only reads.
pub record Tables : Type 0 where
  pub guilds : List Guild
  pub tasks : List Task
  pub agents : List Agent
  pub task_logs : List TaskLog

-- What is sent out: over the guild's sockets, to the container runtime, and as a background task.
pub data Effect : Type 0 where
  outdated : String → String → Effect
  shutdown : String → String → Effect
  terminal_line : String → String → Effect
  stop_container : String → String → Effect
  escalate : String → Effect

abbrev pub is_active : String → Bool
is_active state = member state ("pending" ∷ "working" ∷ [])

abbrev pub is_busy : String → Bool
is_busy state = member state ("working" ∷ "thinking" ∷ "busy" ∷ [])

abbrev pub is_set {ℓ} : {A : Type ℓ} → Option A → Bool
is_set none = false
is_set (some a) = true

abbrev later : ℕ → Option ℕ → Option ℕ
later t none = some t
later t (some u) = if ltb u t then some t else some u

-- SELECT max(timestamp) WHERE test
unfoldable pub newest : (TaskLog → Bool) → List TaskLog → Option ℕ
newest test [] = none
newest test (log ∷ logs) =
    let rest = newest test logs in if test log then later log.timestamp rest else rest

abbrev pub holds_alive : ℕ → String → Task → Bool
holds_alive clock worker_id task =
    sql_eq task.worker_id worker_id && is_active task.state && is_live clock task

abbrev pub keeps_busy : String → Agent → Bool
keeps_busy worker_id agent = sql_eq agent.worker_id worker_id && is_busy agent.state

abbrev pub is_task_log_of : String → TaskLog → Bool
is_task_log_of worker_id log = sql_eq log.worker_id worker_id && is_set log.task_id

abbrev pub is_old : ℕ → ℕ → Option ℕ → Bool
is_old timeout now none = true
is_old timeout now (some at) = ltb (at + timeout) now

-- `clock` is the instant that `live_tasks_filter` reads, `now` the one the cutoff is taken from.
unfoldable pub worker_is_inactive : ℕ → ℕ → ℕ → Tables → String → Bool
worker_is_inactive clock timeout now tables worker_id =
    if any (holds_alive clock worker_id) tables.tasks
    then false
    else if any (keeps_busy worker_id) tables.agents
    then false
    else is_old timeout now (newest (is_task_log_of worker_id) tables.task_logs)
