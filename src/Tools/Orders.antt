-- ===== src/Tools/Orders.antt =====
-- The other tools of backend/foreman/tools.py that change the tables: create_task, redirect_task,
-- cancel_task, shutdown_worker and finalize_task.
pub mod Terminal
pub mod Finalized
use pioneer_square.Shared.{
  ℕ, String, Bool, true, false, not, ◌&&◌, ◌||◌, Option, none, some, List, [], ◌∷◌, ◌++◌, ◌==◌,
  ◌!=◌, string_eq, nat_eq, option_eq, any, find?, update, member, if◌then◌else◌, or_default,
}
use pioneer_square.Locks
use pioneer_square.Tasks.{Task, is_terminal}
use pioneer_square.Tasks.Finalize.{Db, Call, FinalizeResult, finalize_task, task_key}
use pioneer_square.Tools.{
  TaskRow, WorkerRow, ToolMessage, Store, ToolContext, Reply, is_given, non_blank, or_value,
  with_task,
}
use pioneer_square.Tools.Assign.{find_row, worker_row}
use pioneer_square.Tools.Assign.Writes.{conversation_of}

-- The arguments of create_task; `name` is cut to 80 characters.
pub record CreateInput : Type 0 where
  pub name : String
  pub description : Option String
  pub phase : Option String
  pub issue_number : Option ℕ
  pub issue_repo : Option String
  pub pr_number : Option ℕ
  pub pr_repo : Option String

abbrev pub created_row : ℕ → String → ToolContext → CreateInput → TaskRow
created_row now fresh ctx inp = record {
  task = record {
    id = fresh;
    guild_id = ctx.guild_pk;
    worker_id = none;
    state = "pending";
    branch = none;
    worktree_path = none;
    pr_url = none;
    pr_number = inp.pr_number;
    pr_repo = inp.pr_repo;
    claude_session_id = none;
    phase = some (or_default inp.phase "execute");
    issue_repo = inp.issue_repo;
    issue_number = inp.issue_number;
    issue_state = none;
    parent_task_id = none;
    deleted_at = none;
  };
  name = some inp.name;
  description = or_default inp.description inp.name;
  tool = "claude";
  model = none;
  model_tier = none;
  provider = none;
  user_id = ctx.user_id;
  conversation_id = conversation_of ctx;
  created_at = now;
}

-- An id that is taken violates the primary key; the call raises, and nothing is written.
unfoldable pub handle_create_task :
    ℕ → String → ToolContext → CreateInput → Store → Option Reply × Store
handle_create_task now fresh ctx inp store =
    if any (λ (r : TaskRow). r.task.id == fresh) store.tasks then (none, store) else (
      some (Reply.created fresh),
      record store {
        tasks = store.tasks ++ created_row now fresh ctx inp ∷ [];
        sent =
            store.sent
            ++ ToolMessage.task_created fresh inp.name (or_default inp.description inp.name)
                (or_default inp.phase "execute")
              ∷ [];
      },
    )

-- `UPDATE tasks SET ... WHERE id = ...`, whatever the guild and the state are by then.
abbrev pub set_by_id : String → (Task → Task) → List TaskRow → List TaskRow
set_by_id task_id f tasks = update (λ r. r.task.id == task_id) (with_task f) tasks

-- The call from what its SELECT found.
unfoldable pub redirect_found : String → String → Option TaskRow → Store → Reply × Store
redirect_found task_id instructions none store = (Reply.task_not_found, store)
redirect_found task_id instructions (some row) store =
    if is_terminal row.task.state then (Reply.task_terminal row.task.state, store) else (
      Reply.redirected,
      record store {
        tasks = set_by_id task_id (λ t. record t { state = "working" }) store.tasks;
        sent =
            store.sent
            ++ ToolMessage.task_redirect row.task.worker_id task_id instructions
              ∷ ToolMessage.task_update task_id "working" none none
              ∷ [];
      },
    )

unfoldable pub handle_redirect_task : ToolContext → String → String → Store → Reply × Store
handle_redirect_task ctx task_id instructions store =
    redirect_found task_id instructions (find_row ctx.guild_pk (some task_id) store) store

unfoldable pub cancel_found : ℕ → String → Option TaskRow → Store → Reply × Store
cancel_found now task_id none store = (Reply.task_not_found, store)
cancel_found now task_id (some row) store =
    if is_terminal row.task.state then (Reply.task_terminal row.task.state, store) else (
      Reply.cancelled,
      record store {
        tasks =
            set_by_id task_id (λ t. record t { state = "cancelled"; deleted_at = some now })
              store.tasks;
        locks = Locks.release (task_key task_id) none store.locks;
        sent =
            store.sent
            ++ ToolMessage.task_cancel row.task.worker_id task_id
              ∷ ToolMessage.task_update task_id "cancelled" none (some now)
              ∷ [];
      },
    )

unfoldable pub handle_cancel_task : ℕ → ToolContext → String → Store → Reply × Store
handle_cancel_task now ctx task_id store =
    cancel_found now task_id (find_row ctx.guild_pk (some task_id) store) store

-- The worker is told, then disabled; whoever does not go is killed by `ForceKill`.
unfoldable pub handle_shutdown_worker : ToolContext → String → Option String → Store → Reply × Store
handle_shutdown_worker ctx worker_id reason store =
    if any (worker_row ctx.guild_pk worker_id) store.workers
    then (
      Reply.shutting_down,
      record store {
        workers =
            update (λ (w : WorkerRow). w.worker.id == worker_id)
              (λ (w : WorkerRow). record w { worker = record w.worker { disabled = true } })
              store.workers;
        sent = store.sent ++ ToolMessage.worker_shutdown worker_id (non_blank reason) ∷ [];
      },
    )
    else (Reply.worker_not_found, store)

-- The outcome of finalize_task: anything unknown is `done`.
unfoldable pub outcome_of_tool : Option String → String
outcome_of_tool none = "done"
outcome_of_tool (some raw) = if member raw ("done" ∷ "failed" ∷ []) then raw else "done"

-- `handle_finalize_task`, over the tables of `finalize_task`.
unfoldable pub handle_finalize_task : Call → Option String → Db → FinalizeResult × Db
handle_finalize_task call outcome db =
    finalize_task (record call { outcome = outcome_of_tool outcome }) db

-- The orders as they come.
pub data Order : Type 0 where
  create : ℕ → String → CreateInput → Order
  redirect : String → String → Order
  cancel : ℕ → String → Order
  shutdown : String → Option String → Order

unfoldable pub carry_out : ToolContext → Order → Store → Store
carry_out ctx (Order.create now fresh inp) store = (handle_create_task now fresh ctx inp store).1
carry_out ctx (Order.redirect task_id instructions) store =
    (handle_redirect_task ctx task_id instructions store).1
carry_out ctx (Order.cancel now task_id) store = (handle_cancel_task now ctx task_id store).1
carry_out ctx (Order.shutdown worker_id reason) store =
    (handle_shutdown_worker ctx worker_id reason store).1

unfoldable pub carry_out_all : List (ToolContext × Order) → Store → Store
carry_out_all [] store = store
carry_out_all ((ctx, order) ∷ orders) store = carry_out_all orders (carry_out ctx order store)
