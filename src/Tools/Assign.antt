-- ===== src/Tools/Assign.antt =====
-- `_handle_assign_task` of backend/foreman/tools.py: the checks, then the part under the lock
-- `assign_task:<worker>`, in the three transactions in which the source commits.
pub mod Writes
pub mod Slots
pub mod Kept
pub mod Outcome
pub mod Ended
pub mod Settled
use Prim.Native.String.{◌++◌ as str_append}
use pioneer_square.Shared.{
  ℕ, String, Bool, true, false, not, ◌&&◌, ◌||◌, Option, none, some, List, [], ◌∷◌, ◌++◌, ◌==◌,
  ◌!=◌, string_eq, nat_eq, option_eq, any, filter, find?, update, if◌then◌else◌, or_default,
}
use pioneer_square.Locks
use pioneer_square.Tasks.{Task}
use pioneer_square.Workers.{Worker, is_set}
use pioneer_square.ModelTiers.{select_model_tier}
use pioneer_square.Tools.{
  TaskRow, WorkerRow, TaskAssigned, ToolMessage, Store, ToolContext, Reply, is_given, or_text,
  non_blank, or_value,
}
use pioneer_square.Tools.Capacity.{Room, accepts, worker_can_accept_task, takes_work}
use pioneer_square.Tools.Choice.{
  resolve_tool, apply_spawn_tool_defaults, Checked, then_check, choose_model, unreachable, is_list,
}

-- The links of a task to an issue, a pull request and a branch.
pub record Linkage : Type 0 where
  pub issue_number : Option ℕ
  pub issue_repo : Option String
  pub pr_number : Option ℕ
  pub pr_repo : Option String
  pub branch : Option String
  pub pr_url : Option String

-- The arguments of the call; `create_name` is `desc[:60]`, where no name is given.
pub record AssignInput : Type 0 where
  pub worker_id : String
  pub description : String
  pub short_description : String
  pub phase : Option String
  pub tool : Option String
  pub tier : Option String
  pub provider : Option String
  pub task_id : Option String
  pub linkage : Linkage
  pub head_sha : Option String
  pub repos : List String
  pub name : Option String
  pub parent_task_id : Option String

abbrev pub linkage_of : Task → Linkage
linkage_of t = record {
  issue_number = t.issue_number;
  issue_repo = t.issue_repo;
  pr_number = t.pr_number;
  pr_repo = t.pr_repo;
  branch = t.branch;
  pr_url = t.pr_url;
}

abbrev pub task_row : ℕ → String → TaskRow → Bool
task_row guild_pk task_id row = row.task.id == task_id && row.task.guild_id == guild_pk

-- What the call leaves open, the existing task's row tells.
abbrev pub inherit : Linkage → Option TaskRow → Linkage
inherit given none = given
inherit given (some row) = record {
  issue_number = or_value given.issue_number row.task.issue_number;
  issue_repo = or_text given.issue_repo row.task.issue_repo;
  pr_number = or_value given.pr_number row.task.pr_number;
  pr_repo = or_text given.pr_repo row.task.pr_repo;
  branch = or_text given.branch row.task.branch;
  pr_url = or_text given.pr_url row.task.pr_url;
}

abbrev pub find_row : ℕ → Option String → Store → Option TaskRow
find_row guild_pk none store = none
find_row guild_pk (some task_id) store = find? (task_row guild_pk task_id) store.tasks

abbrev pub singleton_of : Option String → List String
singleton_of none = []
singleton_of (some s) = if s == "" then [] else s ∷ []

abbrev pub or_list : List String → List String → List String
or_list [] ys = ys
or_list (x ∷ xs) ys = x ∷ xs

unfoldable pub repos_of : ToolContext → AssignInput → Linkage → List String
repos_of ctx inp linkage =
    or_list (or_list inp.repos (singleton_of (or_text linkage.pr_repo linkage.issue_repo)))
      (singleton_of ctx.primary_repo)

-- What the checks before the lock decide.
pub record Plan : Type 0 where
  pub linkage : Linkage
  pub repos : List String
  pub tool : String
  pub model : Option String
  pub model_tier : String
  pub provider : Option String

abbrev pub worker_row : ℕ → String → WorkerRow → Bool
worker_row guild_pk worker_id row = row.worker.id == worker_id && row.worker.guild_id == guild_pk

abbrev pub plan_repos : WorkerRow → Plan → Checked Plan
plan_repos row plan =
    if is_list (unreachable row plan.repos)
    then Checked.refused (Reply.repos_unreachable (unreachable row plan.repos))
    else Checked.passed plan

unfoldable pub plan_for :
    (String → Option (List String)) → ToolContext → AssignInput → Store → WorkerRow → Checked Plan
plan_for loads ctx inp store row =
    let linkage = inherit inp.linkage (find_row ctx.guild_pk (non_blank inp.task_id) store) in
    let (tool, lacks) = resolve_tool inp.tool row.tools in
    let tier = select_model_tier (some (or_default inp.phase "execute")) (non_blank inp.tier) in
    let (provider, model) =
      apply_spawn_tool_defaults loads ctx.guild_pk row.user_id tool (non_blank inp.provider, none)
        store in
    if lacks
    then Checked.refused (Reply.tool_not_supported tool row.tools)
    else then_check (choose_model row.provider tool tier model store.catalog) (λ chosen.
      plan_repos row (record {
        linkage = linkage;
        repos = repos_of ctx inp linkage;
        tool = tool;
        model = chosen;
        model_tier = tier;
        provider = provider;
      }))

abbrev pub plan_found :
    (String → Option (List String))
    → ToolContext
    → AssignInput
    → Store
    → Option WorkerRow
    → Checked Plan
plan_found loads ctx inp store none = Checked.refused Reply.worker_not_found
plan_found loads ctx inp store (some row) = plan_for loads ctx inp store row

unfoldable pub plan_assignment :
    (String → Option (List String)) → ToolContext → AssignInput → Store → Checked Plan
plan_assignment loads ctx inp store =
    plan_found loads ctx inp store (find? (worker_row ctx.guild_pk inp.worker_id) store.workers)
