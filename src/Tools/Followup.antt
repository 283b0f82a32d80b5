-- ===== src/Tools/Followup.antt =====
-- `_handle_send_followup` of backend/foreman/tools.py: a task goes on, on its branch, with new
-- instructions, or they are queued while its lock is held.
pub mod Ended
use Prim.Native.String.{◌++◌ as str_append}
use pioneer_square.Shared.{
  ℕ, String, Bool, true, false, not, ◌&&◌, ◌||◌, Option, none, some, List, [], ◌∷◌, ◌++◌, ◌==◌,
  ◌!=◌, string_eq, nat_eq, option_eq, any, find?, update, member, if◌then◌else◌, or_default,
}
use pioneer_square.Locks
use pioneer_square.Tasks.{Task, is_terminal}
use pioneer_square.Tasks.Finalize.{TaskEvent, task_key}
use pioneer_square.Workers.{is_set}
use pioneer_square.ModelTiers.{select_model_tier, get_model_for_tier}
use pioneer_square.Tools.{
  ModelCatalog, TaskRow, WorkerRow, TaskFollowup, ToolMessage, Store, ToolContext, Reply, is_given,
  or_text, non_blank, with_task,
}
use pioneer_square.Tools.Capacity.{select_followup_worker}
use pioneer_square.Tools.Choice.{
  apply_spawn_tool_defaults, Checked, then_check, catalog_row, resolve_bedrock_model_id,
  get_providers_from_db, is_list, first_tool,
}
use pioneer_square.Tools.Assign.{find_row}
use pioneer_square.Tools.Assign.Writes.{with_locks}

pub record FollowupInput : Type 0 where
  pub task_id : String
  pub instructions : String
  pub preferred_worker_id : Option String
  pub tool : Option String
  pub tier : Option String
  pub provider : Option String
  pub create_pr : Bool

-- The tool that the follow-up runs with is a change of the task's tool.
abbrev pub switches : FollowupInput → TaskRow → Bool
switches inp row = is_given inp.tool && inp.tool != some row.tool

abbrev pub followup_tool : FollowupInput → TaskRow → List String → String
followup_tool inp row worker_tools =
    or_default (or_text inp.tool (or_text (some row.tool) none)) (first_tool worker_tools)

abbrev pub kept_model : FollowupInput → TaskRow → Option String
kept_model inp row = if is_given inp.tier || switches inp row then none else row.model

abbrev pub kept_provider : FollowupInput → TaskRow → Option String → Option String
kept_provider inp row worker_provider =
    if is_given inp.provider
    then inp.provider
    else if switches inp row
    then none
    else or_text row.provider worker_provider

abbrev pub followup_tier : FollowupInput → TaskRow → String
followup_tier inp row =
    if is_given inp.tier
    then select_model_tier (some "followup") inp.tier
    else if switches inp row
    then select_model_tier (some "followup") none
    else or_default (non_blank row.model_tier) (select_model_tier (some "followup") none)

-- A new tier asks for the tier's model of the provider.
abbrev pub retiered :
    FollowupInput
    → String
    → String
    → Option String
    → Option String
    → List ModelCatalog
    → Option String
retiered inp tool tier provider model catalog =
    if is_given inp.tier && tool != "pi" && is_given provider
    then get_model_for_tier tier (or_default provider "") (some (get_providers_from_db catalog)) []
    else model

-- What a follow-up runs with.
pub record Setup : Type 0 where
  pub worker_id : String
  pub branch : String
  pub tool : String
  pub model : Option String
  pub model_tier : String
  pub provider : Option String

abbrev pub is_unlisted : String → Option String → Option String → List ModelCatalog → Bool
is_unlisted tool provider model catalog =
    tool != "pi"
    && is_given model
    && is_given provider
    && not (any (catalog_row (or_default provider "") (or_default model "")) catalog)

abbrev pub tools_of : Option WorkerRow → List String
tools_of none = []
tools_of (some row) = row.tools

abbrev pub provider_of : Option WorkerRow → Option String
provider_of none = none
provider_of (some row) = row.provider

abbrev pub user_of : Option WorkerRow → Option String
user_of none = none
user_of (some row) = row.user_id

-- The setup for a worker and a branch.
unfoldable pub set_up :
    (String → Option (List String))
    → ToolContext
    → FollowupInput
    → TaskRow
    → String
    → String
    → Option WorkerRow
    → Store
    → Checked Setup
set_up loads ctx inp row worker_id branch worker store =
    let tool = followup_tool inp row (tools_of worker) in
    let (provider, kept) =
      apply_spawn_tool_defaults loads ctx.guild_pk (user_of worker) tool
        (kept_provider inp row (provider_of worker), kept_model inp row) store in
    let tier = followup_tier inp row in
    let model = retiered inp tool tier provider kept store.catalog in
    if is_given inp.tool
      && is_list (tools_of worker)
      && not (member (or_default inp.tool "") (tools_of worker))
    then Checked.refused (Reply.tool_not_supported (or_default inp.tool "") (tools_of worker))
    else if is_unlisted tool provider model store.catalog
    then Checked.refused (Reply.model_not_available (or_default model "") (or_default provider ""))
    else Checked.passed (record {
      worker_id = worker_id;
      branch = branch;
      tool = tool;
      model = if tool != "pi" then resolve_bedrock_model_id store.catalog provider model else model;
      model_tier = tier;
      provider = provider;
    })

-- A worker first, then the branch, then the rest.
unfoldable pub set_up_for :
    (String → Option (List String))
    → ToolContext
    → FollowupInput
    → TaskRow
    → Option String
    → Store
    → Checked Setup
set_up_for loads ctx inp row none store = Checked.refused Reply.no_idle_worker
set_up_for loads ctx inp row (some worker_id) store =
    if worker_id == ""
    then Checked.refused Reply.no_idle_worker
    else if not (is_given row.task.branch)
    then Checked.refused Reply.no_branch
    else set_up loads ctx inp row worker_id (or_default row.task.branch "")
        (find? (λ (w : WorkerRow). w.worker.id == worker_id) store.workers) store

-- The UPDATE: a terminal task comes back among the live ones.
abbrev pub reopen : Setup → TaskRow → TaskRow → TaskRow
reopen setup before row = record row {
  task = record row.task {
    state = "working";
    phase = some "followup";
    worker_id = some setup.worker_id;
    deleted_at = if is_terminal before.task.state then none else row.task.deleted_at;
  };
  tool = setup.tool;
  model = setup.model;
  model_tier = some setup.model_tier;
  provider = setup.provider;
}

-- The agent's session is on the disk of the worker that ran it.
abbrev pub session_of : Setup → TaskRow → Option String
session_of setup row =
    if some setup.worker_id == row.task.worker_id then row.task.claude_session_id else none

abbrev pub followup_message : FollowupInput → Setup → TaskRow → ToolMessage
followup_message inp setup row = ToolMessage.task_followup (record {
  worker_id = setup.worker_id;
  task_id = inp.task_id;
  name = or_default row.name "";
  description = row.description;
  tool = setup.tool;
  model = setup.model;
  model_tier = setup.model_tier;
  provider = setup.provider;
  branch = setup.branch;
  instructions = inp.instructions;
  issue_number = row.task.issue_number;
  issue_repo = row.task.issue_repo;
  session_id = session_of setup row;
})

abbrev pub followup_reply : Setup → TaskRow → Reply
followup_reply setup row =
    if some setup.worker_id != row.task.worker_id && is_given row.task.worker_id
    then Reply.followup_reassigned (or_default row.task.worker_id "") setup.worker_id
    else Reply.followup_sent setup.worker_id

-- The event that is replayed when the lock is released; `dumps` is `json.dumps` of the arguments.
abbrev pub queued_event : (FollowupInput → String) → ℕ → FollowupInput → TaskEvent
queued_event dumps now inp = record {
  task_id = inp.task_id;
  event_type = "pending-followup";
  payload_json = dumps inp;
  created_at = now;
}

unfoldable pub dispatch : FollowupInput → Setup → TaskRow → Store → Store
dispatch inp setup row store = record store {
  tasks = update (λ (r : TaskRow). r.task.id == inp.task_id) (reopen setup row) store.tasks;
  sent =
      store.sent
      ++ ToolMessage.task_update inp.task_id "working" (some setup.worker_id) none
        ∷ followup_message inp setup row
        ∷ [];
}

unfoldable pub followup_set_up :
    (FollowupInput → String)
    → ℕ
    → String
    → FollowupInput
    → TaskRow
    → Checked Setup
    → Store
    → Reply × Bool × Store
followup_set_up dumps now owner inp row (Checked.refused reply) store = (reply, true, store)
followup_set_up dumps now owner inp row (Checked.passed setup) store =
    let (acquired, locks) =
      Locks.acquire now (task_key inp.task_id) owner Locks.default_ttl_seconds store.locks in
    if acquired
    then (followup_reply setup row, false, dispatch inp setup row (with_locks locks store))
    else (
      Reply.followup_queued,
      false,
      record store {
        locks = locks;
        task_events = store.task_events ++ queued_event dumps now inp ∷ [];
      },
    )

unfoldable pub followup_found :
    (String → Option (List String))
    → (FollowupInput → String)
    → ℕ
    → String
    → ToolContext
    → FollowupInput
    → Option TaskRow
    → Store
    → Reply × Bool × Store
followup_found loads dumps now owner ctx inp none store = (Reply.task_not_found, false, store)
followup_found loads dumps now owner ctx inp (some row) store =
    followup_set_up dumps now owner inp row
      (set_up_for loads ctx inp row
        (select_followup_worker ctx.guild_pk row.task.worker_id inp.preferred_worker_id store)
        store)
      store

unfoldable pub handle_send_followup :
    (String → Option (List String))
    → (FollowupInput → String)
    → ℕ
    → String
    → ToolContext
    → FollowupInput
    → Store
    → Reply × Bool × Store
handle_send_followup loads dumps now owner ctx inp store =
    followup_found loads dumps now owner ctx inp (find_row ctx.guild_pk (some inp.task_id) store)
      store
