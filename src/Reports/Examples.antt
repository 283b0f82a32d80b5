-- ===== src/Reports/Examples.antt =====
-- The workers' reports on concrete inputs.
use pioneer_square.Shared.{
  ℕ, String, ◌≡◌, refl, true, false, not, ◌&&◌, Option, none, some, List, [], ◌∷◌, string_eq, any,
  count, update, find?, member, arith,
}
use pioneer_square.Locks.{lock_row, acquire, is_locked}
use pioneer_square.Tasks.{Task, is_terminal}
use pioneer_square.Tasks.Finalize.Once.{has_state}
use pioneer_square.Workers.{Agent}
use pioneer_square.Reports.{
  Context, Hub, AgentState, Rejection, handle_agent_state, handle_task_rejected, given_up, give_up,
  own_running, assigned,
}
use pioneer_square.Reports.Update.{TaskUpdate, handle_task_update, conclude, patched}
use pioneer_square.Reports.Finish.{Finished}
use pioneer_square.Reports.Terminal.{Report, handle_all, HasEnded, handle_all-HasEnded}
use pioneer_square.Reports.Rejected.{still_taken, handle_task_rejected-assigned}
use pioneer_square.Reports.Freed.{is_freed}
use pioneer_square.Reports.Locked.{is_locked-handle_agent_state}

abbrev task : String → String → Task
task id state = record {
  id = id;
  guild_id = 1;
  worker_id = some "w-1";
  state = state;
  branch = none;
  worktree_path = none;
  pr_url = none;
  pr_number = none;
  pr_repo = none;
  claude_session_id = none;
  phase = some "execute";
  issue_repo = none;
  issue_number = none;
  issue_state = none;
  parent_task_id = none;
  deleted_at = none;
}

abbrev agent : Agent
agent = record {
  id = "a-1";
  guild_id = 1;
  worker_id = some "w-1";
  state = "working";
  activity = some "coding";
  current_task_id = some "run";
}

abbrev hub : Hub
hub = record {
  db = record {
    tasks = task "run" "working" ∷ task "over" "done" ∷ [];
    locks = lock_row 5 "task:run" "w-1" 60 ∷ [];
    task_events = [];
    sent = [];
  };
  agents = agent ∷ [];
  task_logs = [];
  notices = [];
}

abbrev ctx : Context
ctx = record { guild_pk = 1; guild_id = "g" }

abbrev no_link : Option String → Option ℕ × Option String
no_link url = (none, none)

abbrev rests : AgentState
rests = record {
  agent_id = some "a-1";
  worker_id = some "w-1";
  state = "idle";
  activity = none;
  task_id = none;
}

abbrev refuses : String → Rejection
refuses id = record { task_id = id; worker_id = "w-1"; now = 7 }

abbrev finished : String → Finished
finished id = record { task_id = id; state = ""; pr_url = "p"; session_id = "s" }

abbrev reports_state : String → String → TaskUpdate
reports_state id state = record {
  task_id = id;
  state = some state;
  branch = some (some "b");
  worktree_path = none;
  pr_url = none;
  now = 8;
  later = 9;
}

-- A late update with a running state reopens a task that is done.
reopened :
    has_state "over" "working"
      (handle_task_update no_link ctx (reports_state "over" "working") hub).db.tasks
    ≡ true
unfolding handle_task_update conclude patched is_terminal member update any
reopened = refl

-- The idle agent gives its task up for review.
rested : has_state "run" "awaiting-review" (handle_agent_state ctx rests hub).db.tasks ≡ true
unfolding handle_agent_state given_up give_up own_running member find? update any count
rested = refl

refused : has_state "run" "pending" (handle_task_rejected ctx (refuses "run") hub).db.tasks ≡ true
unfolding handle_task_rejected assigned member find? update any
refused = refl

abbrev reports : List (Context × Report)
reports =
    (ctx, Report.agent_report rests)
    ∷ (ctx, Report.rejection (refuses "over"))
    ∷ (ctx, Report.update_report (reports_state "over" "failed"))
    ∷ (ctx, Report.completion (finished "over"))
    ∷ (ctx, Report.followup (finished "over"))
    ∷ []

over-HasEnded : HasEnded "over" "done" hub.db.tasks
unfolding any count
over-HasEnded = (refl, omega arith)

handle_all-HasEnded_example : HasEnded "over" "done" (handle_all no_link reports hub).db.tasks
unfolding any is_terminal member
handle_all-HasEnded_example =
    handle_all-HasEnded no_link "over" "done" reports hub refl refl over-HasEnded

is_locked-handle_agent_state_example :
    is_locked 9 "task:run" (handle_agent_state ctx rests hub).db.locks
    ≡ (is_locked 9 "task:run" hub.db.locks && not (is_freed ctx rests hub "task:run"))
unfolding count
is_locked-handle_agent_state_example =
    is_locked-handle_agent_state ctx rests hub 9 "task:run" (omega arith)

handle_task_rejected-assigned_example :
    (any (still_taken ctx (refuses "run")) (handle_task_rejected ctx (refuses "run") hub).db.tasks
      ≡ false)
    × ((acquire 9 "task:run" "w-2" 60 (handle_task_rejected ctx (refuses "run") hub).db.locks).0
        ≡ true)
unfolding any assigned member
handle_task_rejected-assigned_example =
    handle_task_rejected-assigned ctx (refuses "run") hub 9 "w-2" 60 refl refl
