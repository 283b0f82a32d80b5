-- ===== src/Reports/Finish.antt =====
-- `handle_task_complete` and `handle_task_followup_done` of backend/ws_handlers.py.
use pioneer_square.Shared.{
  ℕ, String, Bool, not, ◌&&◌, Option, some, List, [], ◌∷◌, ◌==◌, ◌!=◌, string_eq, filter, update,
  member, if◌then◌else◌,
}
use pioneer_square.Tasks.{Task, is_terminal}
use pioneer_square.Reports.{Context, Hub, Notice, notify, with_tasks, unlock, set_state}
use pioneer_square.Reports.Update.{is_pending_followup, queued}

-- A null field of the frame is the empty text, as `or ""` makes it.
pub record Finished : Type 0 where
  pub task_id : String
  pub state : String
  pub pr_url : String
  pub session_id : String

-- The state after a run: the reported one if it is one of the two reviews.
abbrev pub next_state : Finished → String
next_state msg =
    if member msg.state ("awaiting-review" ∷ "awaiting-foreman-review" ∷ [])
    then msg.state
    else if msg.pr_url != ""
    then "awaiting-review"
    else "awaiting-foreman-review"

abbrev pub with_session : Finished → Task → Task
with_session msg t =
    if msg.session_id != "" then record t { claude_session_id = some msg.session_id } else t

abbrev pub by_id : String → Task → Bool
by_id task_id t = t.id == task_id

-- The UPDATE of `handle_task_complete` asks for a working task.
abbrev pub is_working : String → Task → Bool
is_working task_id t = t.id == task_id && t.state == "working"

abbrev pub is_open : String → Task → Bool
is_open task_id t = t.id == task_id && not (is_terminal t.state)

module _ (parse_pr_url : Option String → Option ℕ × Option String) where
  abbrev pub with_pr : Finished → Task → Task
  with_pr msg t =
      if msg.pr_url != ""
      then record t {
        pr_url = some msg.pr_url;
        pr_number = (parse_pr_url (some msg.pr_url)).0;
        pr_repo = (parse_pr_url (some msg.pr_url)).1;
      }
      else t

  unfoldable pub completed : Finished → List Task → List Task
  completed msg tasks =
      let with_sessions = update (by_id msg.task_id) (with_session msg) tasks in
      let with_prs = update (by_id msg.task_id) (with_pr msg) with_sessions in
      update (is_working msg.task_id) (set_state (next_state msg)) with_prs

  unfoldable pub handle_task_complete : Context → Finished → Hub → Hub
  handle_task_complete ctx msg hub =
      if msg.task_id == ""
      then notify (Notice.task_complete msg.task_id ∷ []) hub
      else notify
          (Notice.task_complete msg.task_id ∷ Notice.to_foreman "task-complete" msg.task_id [] ∷ [])
          (unlock msg.task_id (with_tasks (completed msg hub.db.tasks) hub))

  -- The open row gets the pull request and the state, a terminal one the pull request alone.
  unfoldable pub followed_up : Finished → List Task → List Task
  followed_up msg tasks =
      let with_sessions = update (by_id msg.task_id) (with_session msg) tasks in
      let moved =
        update (is_open msg.task_id) (λ t. set_state (next_state msg) (with_pr msg t))
          with_sessions in
      update (λ t. t.id == msg.task_id && is_terminal t.state) (with_pr msg) moved

  abbrev pub drain : String → Hub → Hub
  drain task_id hub = record hub {
    db = record hub.db {
      task_events = filter (λ e. not (is_pending_followup task_id e)) hub.db.task_events;
    };
  }

  unfoldable pub handle_task_followup_done : Context → Finished → Hub → Hub
  handle_task_followup_done ctx msg hub =
      if msg.task_id == ""
      then notify (Notice.followup_done msg.task_id ∷ []) hub
      else notify
          (Notice.followup_done msg.task_id
            ∷ Notice.to_foreman "followup-done" msg.task_id (queued msg.task_id hub.db.task_events)
            ∷ [])
          (drain msg.task_id (unlock msg.task_id (with_tasks (followed_up msg hub.db.tasks) hub)))
