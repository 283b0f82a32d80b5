-- ===== src/Tools/Assign/Writes.antt =====
-- The part of `_handle_assign_task` under the lock `assign_task:<worker>`, and the whole call.
use Prim.Native.String.{◌++◌ as str_append}
use pioneer_square.Shared.{
  ℕ, String, Bool, true, false, not, ◌&&◌, Option, none, some, List, [], ◌∷◌, ◌++◌, ◌==◌, ◌!=◌,
  string_eq, nat_eq, option_eq, any, find?, update, if◌then◌else◌, or_default,
}
use pioneer_square.Locks
use pioneer_square.Tasks.{Task}
use pioneer_square.Tools.{
  TaskRow, WorkerRow, ToolMessage, Store, ToolContext, Reply, is_given, or_text, non_blank,
  or_value,
}
use pioneer_square.Tools.Capacity.{accepts, worker_can_accept_task, takes_work}
use pioneer_square.Tools.Choice.{Checked}
use pioneer_square.Tools.Assign.{Linkage, AssignInput, Plan, task_row, plan_assignment}

abbrev pub assign_key : String → String
assign_key worker_id = str_append "assign_task:" worker_id

-- Whether the worker is still there for new work, whatever its guild.
unfoldable pub is_there : String → List WorkerRow → Bool
is_there worker_id workers =
    any
      (λ row. row.worker.id == worker_id && row.worker.state != "offline" && takes_work row.worker)
      workers

abbrev pub link : Linkage → Task → Task
link given t = record t {
  issue_number = or_value given.issue_number t.issue_number;
  issue_repo = or_text given.issue_repo t.issue_repo;
  pr_number = or_value given.pr_number t.pr_number;
  pr_repo = or_text given.pr_repo t.pr_repo;
  branch = or_text given.branch t.branch;
  pr_url = or_text given.pr_url t.pr_url;
}

-- The UPDATE of an existing task.
abbrev pub reassign : AssignInput → Plan → TaskRow → TaskRow
reassign inp plan row = record row {
  task = record (link plan.linkage row.task) {
    worker_id = some inp.worker_id;
    phase = some (or_default inp.phase "execute");
    state = "pending";
    parent_task_id = or_value inp.parent_task_id row.task.parent_task_id;
  };
  description = inp.description;
  tool = plan.tool;
  model = plan.model;
  model_tier = some plan.model_tier;
  provider = plan.provider;
  name = or_text inp.name row.name;
}

abbrev pub conversation_of : ToolContext → Option ℕ
conversation_of ctx =
    or_value ctx.conversation_id (if is_given ctx.user_id then ctx.conversation else none)

-- The row that is inserted.
abbrev pub new_task_row : ℕ → String → ToolContext → AssignInput → Plan → TaskRow
new_task_row now task_id ctx inp plan = record {
  task = record {
    id = task_id;
    guild_id = ctx.guild_pk;
    worker_id = some inp.worker_id;
    state = "pending";
    branch = plan.linkage.branch;
    worktree_path = none;
    pr_url = plan.linkage.pr_url;
    pr_number = plan.linkage.pr_number;
    pr_repo = plan.linkage.pr_repo;
    claude_session_id = none;
    phase = some (or_default inp.phase "execute");
    issue_repo = plan.linkage.issue_repo;
    issue_number = plan.linkage.issue_number;
    issue_state = none;
    parent_task_id = inp.parent_task_id;
    deleted_at = none;
  };
  name = some (or_default (non_blank inp.name) inp.short_description);
  description = inp.description;
  tool = plan.tool;
  model = plan.model;
  model_tier = some plan.model_tier;
  provider = plan.provider;
  user_id = ctx.user_id;
  conversation_id = conversation_of ctx;
  created_at = now;
}

abbrev pub assigned_message : AssignInput → Plan → String → String → Option ℕ → ToolMessage
assigned_message inp plan task_id name conversation_id = ToolMessage.task_assigned (record {
  worker_id = inp.worker_id;
  task_id = task_id;
  name = name;
  description = inp.description;
  tool = plan.tool;
  model = plan.model;
  model_tier = plan.model_tier;
  provider = plan.provider;
  phase = or_default inp.phase "execute";
  conversation_id = conversation_id;
  parent_task_id = inp.parent_task_id;
  issue_number = plan.linkage.issue_number;
  issue_repo = plan.linkage.issue_repo;
  pr_number = plan.linkage.pr_number;
  pr_repo = plan.linkage.pr_repo;
  branch = plan.linkage.branch;
  pr_url = plan.linkage.pr_url;
  head_sha = inp.head_sha;
  repos = plan.repos;
})

abbrev pub name_of : Option TaskRow → String → String
name_of none short = short
name_of (some row) short = or_default (non_blank row.name) short

abbrev pub conversation_in : Option TaskRow → Option ℕ
conversation_in none = none
conversation_in (some row) = row.conversation_id

-- How a call ends: with a reply and whether it is an error, or by an exception.
pub data Ending : Type 0 where
  replied : Reply → Bool → Ending
  raised : Ending

-- Where an exception comes that is not the code's own doing: in the checks and the acquire, under the
-- lock before the write is committed, after that, or after the message was sent. The release in the
-- `finally` is taken to succeed.
pub data Fault : Type 0 where
  no_fault : Fault
  in_checks : Fault
  before_commit : Fault
  after_commit : Fault
  after_send : Fault

-- From the commit of the write on: the message to the worker, and the reply.
unfoldable pub finish : Fault → Reply → ToolMessage → Store → Ending × Store
finish Fault.after_commit reply message store = (Ending.raised, store)
finish Fault.after_send reply message store =
    (Ending.raised, record store { sent = store.sent ++ message ∷ [] })
finish _ reply message store =
    (Ending.replied reply false, record store { sent = store.sent ++ message ∷ [] })

-- `fresh` is the id that is drawn for a new task; the INSERT raises when a row has it.
unfoldable pub write_assignment :
    Fault → ℕ → String → ToolContext → AssignInput → Plan → Option String → Store → Ending × Store
write_assignment fault now fresh ctx inp plan none store =
    if any (λ (r : TaskRow). r.task.id == fresh) store.tasks
    then (Ending.raised, store)
    else finish fault (Reply.task_given fresh)
        (assigned_message inp plan fresh (or_default (non_blank inp.name) inp.short_description)
          (conversation_of ctx))
        (record store { tasks = store.tasks ++ new_task_row now fresh ctx inp plan ∷ [] })
write_assignment fault now fresh ctx inp plan (some task_id) store =
    let tasks = update (task_row ctx.guild_pk task_id) (reassign inp plan) store.tasks in
    let row = find? (λ (r : TaskRow). r.task.id == task_id) tasks in
    finish fault (Reply.task_given task_id)
      (assigned_message inp plan task_id (name_of row inp.short_description) (conversation_in row))
      (record store { tasks = tasks })

abbrev pub comes_before_commit : Fault → Bool
comes_before_commit Fault.before_commit = true
comes_before_commit _ = false

-- Under the lock: the worker is looked at again before anything is written.
unfoldable pub assign_locked :
    Fault → ℕ → String → ToolContext → AssignInput → Plan → Store → Ending × Store
assign_locked fault now fresh ctx inp plan store =
    if comes_before_commit fault
    then (Ending.raised, store)
    else if not (is_there inp.worker_id store.workers)
    then (Ending.replied Reply.went_offline true, store)
    else if not (accepts (worker_can_accept_task ctx.guild_pk inp.worker_id inp.task_id store))
    then (Ending.replied (Reply.no_capacity inp.worker_id) true, store)
    else write_assignment fault now fresh ctx inp plan (non_blank inp.task_id) store

abbrev pub with_locks : List Locks.Lock → Store → Store
with_locks locks store = record store { locks = locks }

-- The `finally`: the lock is released however the part under it ended.
abbrev pub release_after : String → String → Ending × Store → Ending × Store
release_after worker_id owner (ending, store) =
    (ending, with_locks (Locks.release (assign_key worker_id) (some owner) store.locks) store)

unfoldable pub assign_planned :
    Fault → ℕ → String → String → ToolContext → AssignInput → Checked Plan → Store → Ending × Store
assign_planned fault now owner fresh ctx inp (Checked.refused reply) store =
    (Ending.replied reply true, store)
assign_planned fault now owner fresh ctx inp (Checked.passed plan) store =
    let (acquired, locks) = Locks.acquire now (assign_key inp.worker_id) owner 60 store.locks in
    if acquired
    then release_after inp.worker_id owner
        (assign_locked fault now fresh ctx inp plan (with_locks locks store))
    else (Ending.replied Reply.already_assigning true, with_locks locks store)

abbrev pub comes_in_checks : Fault → Bool
comes_in_checks Fault.in_checks = true
comes_in_checks _ = false

unfoldable pub handle_assign_task :
    Fault
    → (String → Option (List String))
    → ℕ
    → String
    → String
    → ToolContext
    → AssignInput
    → Store
    → Ending × Store
handle_assign_task fault loads now owner fresh ctx inp store =
    if comes_in_checks fault
    then (Ending.raised, store)
    else assign_planned fault now owner fresh ctx inp (plan_assignment loads ctx inp store) store
