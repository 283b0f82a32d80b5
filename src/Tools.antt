-- ===== src/Tools.antt =====
-- backend/foreman/tools.py: what the tools of the foreman do to tasks, workers and locks. The texts
-- for the model are the constructors of `Reply`; the calls of Discord and GitHub, and the link of a
-- task to GitHub deliveries, are left out.
pub mod Capacity
pub mod Choice
pub mod Assign
pub mod Followup
pub mod Orders
mod Examples
use pioneer_square.Shared.{
  ℕ, String, Bool, true, false, not, ◌&&◌, Option, none, some, List, [], ◌∷◌, ◌++◌, ◌==◌, ◌!=◌,
  string_eq, if◌then◌else◌,
}
use pioneer_square.Locks.{Lock}
use pioneer_square.Tasks.{Task}
use pioneer_square.Tasks.Finalize.{TaskEvent}
use pioneer_square.Workers.{Worker, Agent}
use pioneer_square.SpawnConfig.Stored.{SpawnSettings}

-- A row of `Task`, with the columns that only the tools read or write.
pub record TaskRow : Type 0 where
  pub task : Task
  pub name : Option String
  pub description : String
  pub tool : String
  pub model : Option String
  pub model_tier : Option String
  pub provider : Option String
  pub user_id : Option String
  pub conversation_id : Option ℕ
  pub created_at : ℕ

-- A row of `Worker`; `repos` and `tools` are the lists that its JSON columns hold.
pub record WorkerRow : Type 0 where
  pub worker : Worker
  pub repos : List String
  pub tools : List String
  pub org : Option String
  pub provider : Option String
  pub user_id : Option String

-- The columns of `ModelCatalog` that the tools read.
pub record ModelCatalog : Type 0 where
  pub provider : String
  pub model_id : String
  pub bedrock_model_id : Option String

-- A task as the worker gets it.
pub record TaskAssigned : Type 0 where
  pub worker_id : String
  pub task_id : String
  pub name : String
  pub description : String
  pub tool : String
  pub model : Option String
  pub model_tier : String
  pub provider : Option String
  pub phase : String
  pub conversation_id : Option ℕ
  pub parent_task_id : Option String
  pub issue_number : Option ℕ
  pub issue_repo : Option String
  pub pr_number : Option ℕ
  pub pr_repo : Option String
  pub branch : Option String
  pub pr_url : Option String
  pub head_sha : Option String
  pub repos : List String

pub record TaskFollowup : Type 0 where
  pub worker_id : String
  pub task_id : String
  pub name : String
  pub description : String
  pub tool : String
  pub model : Option String
  pub model_tier : String
  pub provider : Option String
  pub branch : String
  pub instructions : String
  pub issue_number : Option ℕ
  pub issue_repo : Option String
  pub session_id : Option String

-- What is broadcast to a guild.
pub data ToolMessage : Type 0 where
  task_assigned : TaskAssigned → ToolMessage
  task_created : String → String → String → String → ToolMessage
  task_followup : TaskFollowup → ToolMessage
  task_redirect : Option String → String → String → ToolMessage
  task_cancel : Option String → String → ToolMessage
  task_update : String → String → Option String → Option ℕ → ToolMessage
  worker_shutdown : String → Option String → ToolMessage

pub record Store : Type 0 where
  pub tasks : List TaskRow
  pub workers : List WorkerRow
  pub agents : List Agent
  pub locks : List Lock
  pub task_events : List TaskEvent
  pub spawn_settings : List SpawnSettings
  pub catalog : List ModelCatalog
  pub sent : List ToolMessage

-- The row of `Guild`, and what the run knows; `conversation` is what the user's active conversation
-- is, or becomes, when the run has none.
pub record ToolContext : Type 0 where
  pub guild_pk : ℕ
  pub primary_repo : Option String
  pub user_id : Option String
  pub conversation_id : Option ℕ
  pub conversation : Option ℕ

pub data Reply : Type 0 where
  task_not_found : Reply
  task_terminal : String → Reply
  worker_not_found : Reply
  tool_not_supported : String → List String → Reply
  model_not_available : String → String → Reply
  repos_unreachable : List String → Reply
  already_assigning : Reply
  went_offline : Reply
  no_capacity : String → Reply
  no_idle_worker : Reply
  no_branch : Reply
  task_given : String → Reply
  created : String → Reply
  followup_queued : Reply
  followup_sent : String → Reply
  followup_reassigned : String → String → Reply
  redirected : Reply
  cancelled : Reply
  shutting_down : Reply

-- Python's truth of an optional text, and `a or b` on two of them.
abbrev pub is_given : Option String → Bool
is_given none = false
is_given (some s) = s != ""

abbrev pub or_text : Option String → Option String → Option String
or_text a b = if is_given a then a else b

abbrev pub non_blank : Option String → Option String
non_blank a = or_text a none

abbrev pub or_value {ℓ} : {A : Type ℓ} → Option A → Option A → Option A
or_value none b = b
or_value (some a) b = some a

abbrev pub with_task : (Task → Task) → TaskRow → TaskRow
with_task f row = record row { task = f row.task }
