-- ===== src/Reports/Update.antt =====
-- `handle_task_update` of backend/ws_handlers.py.
use pioneer_square.Shared.{
  ℕ, String, Bool, false, ◌&&◌, Option, none, some, List, [], ◌∷◌, ◌==◌, string_eq, map, filter,
  update, if◌then◌else◌,
}
use pioneer_square.Tasks.{Task, is_terminal}
use pioneer_square.Tasks.Finalize.{TaskEvent, Call, Status, finalize_task}
use pioneer_square.Reports.{Context, Hub, Notice, notify, with_tasks}

-- Whether a field is in the frame, and its value; a state that is there is a text.
pub record TaskUpdate : Type 0 where
  pub task_id : String
  pub state : Option String
  pub branch : Option (Option String)
  pub worktree_path : Option (Option String)
  pub pr_url : Option (Option String)
  pub now : ℕ
  pub later : ℕ

abbrev pub given {ℓ} : {A : Type ℓ} → Option A → A → A
given none old = old
given (some new) old = new

abbrev pub ends : Option String → Bool
ends none = false
ends (some state) = is_terminal state

-- The state is left to `finalize_task` when it is a terminal one.
abbrev pub persisted_state : Option String → String → String
persisted_state none old = old
persisted_state (some state) old = if is_terminal state then old else state

abbrev pub is_pending_followup : String → TaskEvent → Bool
is_pending_followup task_id e = e.task_id == task_id && e.event_type == "pending-followup"

-- The payloads of the events that wait for the task, in their order.
unfoldable pub queued : String → List TaskEvent → List String
queued task_id events = map (λ e. e.payload_json) (filter (is_pending_followup task_id) events)

abbrev pub reports_error : Option String → Bool
reports_error none = false
reports_error (some state) = state == "error"

-- `parse_pr_url` is `_parse_pr_url`: the number and the repository of a pull request's link.
module _ (parse_pr_url : Option String → Option ℕ × Option String) where
  abbrev pub pr_number_of : Option (Option String) → Option ℕ → Option ℕ
  pr_number_of none old = old
  pr_number_of (some url) old = (parse_pr_url url).0

  abbrev pub pr_repo_of : Option (Option String) → Option String → Option String
  pr_repo_of none old = old
  pr_repo_of (some url) old = (parse_pr_url url).1

  -- UPDATE tasks SET the fields of the frame.
  unfoldable pub patched : TaskUpdate → Task → Task
  patched msg t = record t {
    state = persisted_state msg.state t.state;
    branch = given msg.branch t.branch;
    worktree_path = given msg.worktree_path t.worktree_path;
    pr_url = given msg.pr_url t.pr_url;
    pr_number = pr_number_of msg.pr_url t.pr_number;
    pr_repo = pr_repo_of msg.pr_url t.pr_repo;
  }

  abbrev pub patch : TaskUpdate → Hub → Hub
  patch msg hub = with_tasks (update (λ t. t.id == msg.task_id) (patched msg) hub.db.tasks) hub

  abbrev pub call_of : Context → TaskUpdate → String → Call
  call_of ctx msg outcome = record {
    guild_pk = ctx.guild_pk;
    guild_id = ctx.guild_id;
    task_id = msg.task_id;
    outcome = outcome;
    now = msg.now;
    later = msg.later;
  }

  -- The state that the echo carries: that of the row's object, which follows the UPDATE when
  -- there was one.
  abbrev pub echoed : Status → Option Task → String → String
  echoed Status.already_terminal (some t) outcome = t.state
  echoed _ _ outcome = outcome

  unfoldable pub conclude : Context → TaskUpdate → Option String → Hub → Hub
  conclude ctx msg none hub = notify (Notice.task_report msg.task_id none none ∷ []) hub
  conclude ctx msg (some state) hub =
      if is_terminal state
      then (let (res, db) = finalize_task (call_of ctx msg state) hub.db in
          notify
            (Notice.task_report msg.task_id (some (echoed res.status res.task state)) res.deleted_at
              ∷ [])
            (record hub { db = db }))
      else notify (Notice.task_report msg.task_id (some state) none ∷ []) hub

  unfoldable pub handle_task_update : Context → TaskUpdate → Hub → Hub
  handle_task_update ctx msg hub =
      let payloads = queued msg.task_id hub.db.task_events in
      let reported = conclude ctx msg msg.state (patch msg hub) in
      if msg.task_id == ""
      then hub
      else if reports_error msg.state
      then notify (Notice.to_foreman "task-error" msg.task_id payloads ∷ []) reported
      else reported
