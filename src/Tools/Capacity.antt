-- ===== src/Tools/Capacity.antt =====
-- Which worker has room: `_worker_can_accept_task` and `_select_followup_worker` of
-- backend/foreman/tools.py.
pub mod Chosen
use pioneer_square.Shared.{
  ℕ, String, Bool, true, false, not, ◌&&◌, ◌||◌, Option, none, some, List, [], ◌∷◌, leb, ◌==◌, ◌!=◌,
  string_eq, nat_eq, option_eq, sql_eq, any, filter, find?, count, length, if◌then◌else◌,
}
use pioneer_square.Tasks.{Task}
use pioneer_square.Workers.{Worker, Agent, is_active, is_set}
use pioneer_square.Tools.{TaskRow, WorkerRow, Store, is_given}

-- The agents that are not offline.
abbrev pub live_agent : ℕ → String → Agent → Bool
live_agent guild_pk worker_id a =
    sql_eq a.worker_id worker_id && a.guild_id == guild_pk && a.state != "offline"

abbrev pub idle_agent : Agent → Bool
idle_agent a = a.state == "idle" && not (is_set a.current_task_id)

-- A task that takes a slot of the worker.
abbrev pub takes_slot : ℕ → String → Task → Bool
takes_slot guild_pk worker_id t =
    sql_eq t.worker_id worker_id && t.guild_id == guild_pk && is_active t.state

abbrev pub other_than : Option String → Task → Bool
other_than exclude_task_id t = elim exclude_task_id [
  | none ↦ true
  | some id ↦ id == "" || t.id != id
]

pub data Room : Type 0 where
  legacy : Room
  full : Room
  none_idle : Room
  room : Room

abbrev pub accepts : Room → Bool
accepts Room.legacy = true
accepts Room.full = false
accepts Room.none_idle = false
accepts Room.room = true

abbrev pub judge_room : List Agent → ℕ → Room
judge_room [] taken = Room.legacy
judge_room (a ∷ agents) taken =
    if leb (length (a ∷ agents)) taken
    then Room.full
    else if any idle_agent (a ∷ agents)
    then Room.room
    else Room.none_idle

unfoldable pub worker_can_accept_task : ℕ → String → Option String → Store → Room
worker_can_accept_task guild_pk worker_id exclude_task_id store =
    judge_room (filter (live_agent guild_pk worker_id) store.agents) (
      count (λ row. takes_slot guild_pk worker_id row.task && other_than exclude_task_id row.task)
        store.tasks)

-- The join of an idle agent with its worker, which takes new work.
abbrev pub takes_work : Worker → Bool
takes_work w = not w.disabled && not (is_set w.drain_requested_at)

abbrev pub works_for_open : List WorkerRow → Agent → Bool
works_for_open workers a =
    any (λ row. sql_eq a.worker_id row.worker.id && takes_work row.worker) workers

-- `_idle`, on an id that may be none.
unfoldable pub has_idle_agent : Store → Option String → Bool
has_idle_agent store none = false
has_idle_agent store (some worker_id) =
    worker_id != ""
    && any
        (λ a. sql_eq a.worker_id worker_id && a.state == "idle" && works_for_open store.workers a)
        store.agents

abbrev pub worker_of : Option Agent → Option String
worker_of none = none
worker_of (some a) = a.worker_id

unfoldable pub select_followup_worker : ℕ → Option String → Option String → Store → Option String
select_followup_worker guild_pk original preferred store =
    if has_idle_agent store preferred
    then preferred
    else if has_idle_agent store original
    then original
    else worker_of (
        find?
          (λ a.
            a.guild_id == guild_pk
            && a.state == "idle"
            && is_set a.worker_id
            && works_for_open store.workers a)
          store.agents)
