-- ===== src/Tasks/Finalize.antt =====
-- `finalize_task` of backend/task_lifecycle.py, over the three tables that it touches and the
-- messages that it broadcasts. The source's SELECT and its guarded UPDATE are separate functions,
-- so that a concurrent call can come between them.
pub mod Branches
pub mod Once
pub mod Rows
use Prim.Native.String.{◌++◌ as str_append}
use pioneer_square.Shared.{
  ℕ, String, Bool, true, false, not, ◌&&◌, Option, none, some, List, [], ◌∷◌, ◌++◌, ◌==◌, string_eq,
  nat_eq, option_eq, sql_eq, filter, count, find?, update, if◌then◌else◌,
}
use pioneer_square.Locks
use pioneer_square.Locks.{Lock}
use pioneer_square.Tasks.{Task, is_terminal, finalize_soft_delete_at}
use pioneer_square.Tasks.Descendants.{
  find_descendant_tasks, cascade_soft_delete_terminal_descendants,
}

pub record TaskEvent : Type 0 where
  pub task_id : String
  pub event_type : String
  pub payload_json : String
  pub created_at : ℕ

-- What `broadcast_msg` sends to a guild.
pub data Broadcast : Type 0 where
  task_finalize : String → Option String → String → Broadcast
  task_update : String → String → String → Option ℕ → Broadcast

pub record Db : Type 0 where
  pub tasks : List Task
  pub locks : List Lock
  pub task_events : List TaskEvent
  pub sent : List Broadcast

pub data Status : Type 0 where
  finalized already_terminal not_found : Status

pub record FinalizeResult : Type 0 where
  pub status : Status
  pub task : Option Task
  pub deleted_at : Option ℕ
  pub descendants : List Task

abbrev pub task_key : String → String
task_key task_id = str_append "task:" task_id

-- The arguments of a call, with the instant of its first `datetime.now(UTC)`, and of the one in
-- `deleted_at or datetime.now(UTC)`.
pub record Call : Type 0 where
  pub guild_pk : ℕ
  pub guild_id : String
  pub task_id : String
  pub outcome : String
  pub now : ℕ
  pub later : ℕ

-- SELECT ... FOR UPDATE
unfoldable pub select_task : Call → List Task → Option Task
select_task c tasks = find? (λ t. t.id == c.task_id && t.guild_id == c.guild_pk) tasks

-- The WHERE clause of the UPDATE.
unfoldable pub open_row : Call → Task → Bool
open_row c t = (t.id == c.task_id && t.guild_id == c.guild_pk) && not (is_terminal t.state)

abbrev pub or_now : Option ℕ → ℕ → ℕ
or_now none later = later
or_now (some at) later = at

-- `if phase == "issue"`: the descendants, and the tables after the cascade.
unfoldable pub cascade : Call → Task → Option ℕ → List Task → List Task × List Task
cascade c task deleted_at tasks =
    if sql_eq task.phase "issue"
    then (let descendants = find_descendant_tasks tasks c.task_id in
        (
          descendants,
          (cascade_soft_delete_terminal_descendants descendants (or_now deleted_at c.later)
              tasks).1,
        ))
    else ([], tasks)

-- The `deleted_at` of a call that found `task`.
abbrev pub stamp : Call → Task → Option ℕ
stamp c task = finalize_soft_delete_at c.outcome task.issue_number task.issue_state task.phase c.now

-- After the SELECT found `task`: the UPDATE, and what follows it.
unfoldable pub finalize_found : Call → Task → Db → FinalizeResult × Db
unfolding cascade
finalize_found c task db =
    let deleted_at = stamp c task in
    let updated =
      update (open_row c) (λ t. record t { state = c.outcome; deleted_at = deleted_at }) db.tasks in
    if count (open_row c) db.tasks == 0
    then (
      record {
        status = already_terminal;
        task = some task;
        deleted_at = task.deleted_at;
        descendants = [];
      },
      db,
    )
    else (let (descendants, tasks) = cascade c task deleted_at updated in
        (
          record {
            status = finalized;
            task = some task;
            deleted_at = deleted_at;
            descendants = descendants;
          },
          record {
            tasks = tasks;
            locks = Locks.release (task_key c.task_id) none db.locks;
            task_events = filter (λ e. not (e.task_id == c.task_id)) db.task_events;
            sent =
                db.sent
                ++ task_finalize c.guild_id task.worker_id c.task_id
                  ∷ task_update c.guild_id c.task_id c.outcome deleted_at
                  ∷ [];
          },
        ))

-- The rest of the call from what the SELECT returned.
unfoldable pub finalize_selected : Call → Option Task → Db → FinalizeResult × Db
finalize_selected c none db =
    (record { status = not_found; task = none; deleted_at = none; descendants = [] }, db)
finalize_selected c (some task) db = finalize_found c task db

unfoldable pub finalize_task : Call → Db → FinalizeResult × Db
finalize_task c db = finalize_selected c (select_task c db.tasks) db
