-- ===== src/Reports.antt =====
-- The workers' reports in backend/ws_handlers.py, as transactions over the task, agent, lock and
-- event tables. The tail of a report that only informs (Discord, the plan comment, the poll loop,
-- the link to GitHub deliveries) is left out, and so are the texts of the log and of the messages
-- to the foreman.
pub mod Update
pub mod Finish
pub mod Terminal
pub mod Freed
pub mod Locked
pub mod Rejected
mod Examples
use pioneer_square.Shared.{
  ℕ, String, Bool, true, false, not, ◌&&◌, ◌||◌, Option, none, some, List, [], ◌∷◌, ◌++◌, ◌==◌,
  ◌!=◌, string_eq, nat_eq, option_eq, sql_eq, filter, find?, count, update, member, if◌then◌else◌,
}
use pioneer_square.Locks
use pioneer_square.Tasks.{Task}
use pioneer_square.Tasks.Finalize.{Db, task_key}
use pioneer_square.Workers.{Agent, TaskLog}

-- The guild of the socket.
pub record Context : Type 0 where
  pub guild_pk : ℕ
  pub guild_id : String

-- What a report sends on: to the guild's other sockets, and to the foreman.
pub data Notice : Type 0 where
  agent_state : Option String → String → Option String → Option String → Option String → Notice
  task_pending : String → Notice
  task_rejected : String → String → Notice
  task_report : String → Option String → Option ℕ → Notice
  task_complete : String → Notice
  followup_done : String → Notice
  to_foreman : String → String → List String → Notice

pub record Hub : Type 0 where
  pub db : Db
  pub agents : List Agent
  pub task_logs : List TaskLog
  pub notices : List Notice

abbrev pub notify : List Notice → Hub → Hub
notify ns hub = record hub { notices = hub.notices ++ ns }

abbrev pub with_tasks : List Task → Hub → Hub
with_tasks tasks hub = record hub { db = record hub.db { tasks = tasks } }

-- `LockService(db).release(f"task:{task_id}")`
abbrev pub unlock : String → Hub → Hub
unlock task_id hub = record hub {
  db = record hub.db { locks = Locks.release (task_key task_id) none hub.db.locks };
}

-- `fields` of a frame: whether a field is there, and its value.
pub record AgentState : Type 0 where
  pub agent_id : Option String
  pub worker_id : Option String
  pub state : String
  pub activity : Option String
  pub task_id : Option (Option String)

abbrev pub releases_lock : String → Bool
releases_lock state = member state ("idle" ∷ "offline" ∷ "error" ∷ "timeout" ∷ [])

abbrev pub at_rest : String → Bool
at_rest state = state == "idle" || state == "offline"

abbrev pub new_activity : AgentState → Option String → Option String
new_activity msg old = elim msg.activity [
  | some a ↦ some a
  | none ↦ if at_rest msg.state then none else old
]

abbrev pub new_task_id : AgentState → Option String → Option String
new_task_id msg old = elim msg.task_id [
  | some given ↦ given
  | none ↦ if at_rest msg.state then none else old
]

abbrev pub agent_row : Context → Option String → Agent → Bool
agent_row ctx agent_id a = elim agent_id [
  | none ↦ false
  | some id ↦ a.id == id && a.guild_id == ctx.guild_pk
]

abbrev pub truthy : Option String → Bool
truthy none = false
truthy (some s) = s != ""

abbrev unless_blank : Option String → Option String
unless_blank text = if truthy text then text else none

-- The task that a resting agent gives up, with the agent's worker, read before the UPDATE.
unfoldable pub given_up : Context → AgentState → List Agent → Option (String × String)
given_up ctx msg agents =
    if releases_lock msg.state && truthy msg.agent_id
    then elim (find? (agent_row ctx msg.agent_id) agents) [
      | none ↦ none
      | some a ↦ elim a.current_task_id [
        | none ↦ none
        | some task_id ↦ elim a.worker_id [
          | none ↦ none
          | some worker_id ↦
              if task_id != "" && worker_id != "" then some (task_id, worker_id) else none
        ]
      ]
    ]
    else none

-- The guard of the UPDATE: the worker's own task, while it is working.
unfoldable pub own_running : String → String → Task → Bool
own_running task_id worker_id t =
    t.id == task_id && t.state == "working" && sql_eq t.worker_id worker_id

abbrev pub set_state : String → Task → Task
set_state state t = record t { state = state }

unfoldable pub give_up : Option (String × String) → Hub → Hub
give_up none hub = hub
give_up (some (task_id, worker_id)) hub =
    let moved =
      with_tasks (update (own_running task_id worker_id) (set_state "awaiting-review") hub.db.tasks)
        hub in
    if count (own_running task_id worker_id) hub.db.tasks == 0 then moved else unlock task_id moved

unfoldable pub handle_agent_state : Context → AgentState → Hub → Hub
handle_agent_state ctx msg hub =
    let released = given_up ctx msg hub.agents in
    let agents =
      update (agent_row ctx msg.agent_id)
        (λ a. record a {
          state = msg.state;
          activity = new_activity msg a.activity;
          current_task_id = new_task_id msg a.current_task_id;
        })
        hub.agents in
    notify
      (Notice.agent_state msg.agent_id msg.state (unless_blank msg.worker_id)
          (new_activity msg none) (new_task_id msg none)
        ∷ [])
      (give_up released (record hub { agents = agents }))

pub record Rejection : Type 0 where
  pub task_id : String
  pub worker_id : String
  pub now : ℕ

unfoldable pub assigned : Context → Rejection → Task → Bool
assigned ctx msg t =
    t.id == msg.task_id
    && t.guild_id == ctx.guild_pk
    && sql_eq t.worker_id msg.worker_id
    && member t.state ("pending" ∷ "working" ∷ [])

abbrev pub unassign : Task → Task
unassign t = record t { worker_id = none; state = "pending" }

abbrev pub reject : Context → Rejection → Hub → Hub
reject ctx msg hub =
    notify
      (Notice.task_pending msg.task_id
        ∷ Notice.task_rejected msg.task_id msg.worker_id
        ∷ Notice.to_foreman "task-rejected" msg.task_id []
        ∷ [])
      (unlock msg.task_id
        (record (with_tasks
          (update (λ t. t.id == msg.task_id && t.guild_id == ctx.guild_pk) unassign hub.db.tasks)
          hub) {
            task_logs =
                record {
                  task_id = some msg.task_id;
                  worker_id = some msg.worker_id;
                  timestamp = msg.now;
                }
                ∷ hub.task_logs;
          }))

unfoldable pub handle_task_rejected : Context → Rejection → Hub → Hub
handle_task_rejected ctx msg hub =
    if msg.task_id == "" || msg.worker_id == ""
    then hub
    else elim (find? (assigned ctx msg) hub.db.tasks) [
      | none ↦ hub
      | some task ↦ reject ctx msg hub
    ]
