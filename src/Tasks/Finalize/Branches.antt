-- ===== src/Tasks/Finalize/Branches.antt =====
-- What a call of `finalize_task` does on each branch.
use pioneer_square.Shared.{
  ℕ, ◌≤◌, String, eq_iff, ◌≡◌, refl, ap, ◌∙◌, Bool, true, false, not, ◌&&◌, Option, none, some,
  List, [], ◌∷◌, ◌++◌, ◌==◌, string_eq, nat_eq, arith, any, count, filter, any-eq-count,
  any-find?_unique, any_imp, if◌then◌else◌,
}
use pioneer_square.Locks
use pioneer_square.Locks.Ending.{acquire-release}
use pioneer_square.Tasks.{Task, is_terminal}
use pioneer_square.Tasks.Finalize.{
  Db, Call, TaskEvent, task_finalize, task_update, task_key, stamp, finalized, already_terminal,
  not_found, open_row, select_task, finalize_found, finalize_selected, finalize_task,
}
use pioneer_square.Tasks.Finalize.Once.{has_state}
use pioneer_square.Tasks.Finalize.Rows.{any-finalize_found, after_update}

-- `id` is the primary key of the table.
abbrev pub HasUniqueId : String → List Task → Type 0
HasUniqueId id tasks = count (λ t. t.id == id) tasks ≤ 1

open_rows :
    (c : Call) (task : Task) (tasks : List Task)
    → HasUniqueId c.task_id tasks
    → select_task c tasks ≡ some task
    → (count (open_row c) tasks == 0) ≡ is_terminal task.state
unfolding select_task open_row
open_rows c task tasks u found = ground (
  arith,
  any-eq-count (open_row c) tasks,
  any-find?_unique (λ (t : Task). t.id == c.task_id && t.guild_id == c.guild_pk)
      (λ (t : Task). not (is_terminal t.state)) (λ (t : Task). t.id == c.task_id) tasks task
      (λ t. left (t.id == c.task_id) (t.guild_id == c.guild_pk)) u found,
)
  where
    left : (a b : Bool) → (a && b) ≡ true → a ≡ true
    left a b h = ground arith

-- No row, or none of this guild: `not_found`, and nothing changes.
pub finalize_task_missing :
    (c : Call) (db : Db)
    → select_task c db.tasks ≡ none
    → ((finalize_task c db).0.status ≡ not_found) × ((finalize_task c db).1 ≡ db)
unfolding finalize_task finalize_selected
finalize_task_missing c db h = rw h (refl, refl)

-- A terminal row: `already_terminal` with the row's own `deleted_at`, and nothing changes.
pub finalize_task_terminal :
    (c : Call) (task : Task) (db : Db)
    → HasUniqueId c.task_id db.tasks
    → select_task c db.tasks ≡ some task
    → is_terminal task.state ≡ true
    → ((finalize_task c db).0.status ≡ already_terminal)
      × ((finalize_task c db).0.deleted_at ≡ task.deleted_at)
      × ((finalize_task c db).1 ≡ db)
unfolding finalize_task finalize_selected finalize_found
finalize_task_terminal c task db u found terminal =
    rw found (rw (open_rows c task db.tasks u found ∙ terminal) (refl, refl, refl))

found_row_open :
    (c : Call) (task : Task) (tasks : List Task)
    → HasUniqueId c.task_id tasks
    → select_task c tasks ≡ some task
    → is_terminal task.state ≡ false
    → any (open_row c) tasks ≡ true
found_row_open c task tasks u found still =
    any-eq-count (open_row c) tasks ∙ ap not (open_rows c task tasks u found ∙ still)

open_row_outcome :
    (c : Call) (at : Option ℕ) (t : Task)
    → open_row c t ≡ true
    → ((after_update c at t).id == c.task_id && (after_update c at t).state == c.outcome) ≡ true
unfolding open_row after_update
open_row_outcome c at t h = ground (arith, eq_iff c.outcome c.outcome)

outcome_written :
    (c : Call) (task : Task) (db : Db)
    → (count (open_row c) db.tasks == 0) ≡ false
    → any (open_row c) db.tasks ≡ true
    → has_state c.task_id c.outcome (finalize_found c task db).1.tasks ≡ true
outcome_written c task db some_row here =
    any-finalize_found _ c task db (λ t at. refl) some_row
    ∙ any_imp (open_row c) _ db.tasks (open_row_outcome c (stamp c task)) here

purged :
    (id task_id : String) (events : List TaskEvent)
    → filter (λ e. e.task_id == id) (filter (λ e. not (e.task_id == task_id)) events)
      ≡ (if id == task_id then [] else filter (λ e. e.task_id == id) events)
unfolding filter
purged id task_id [] = ground arith
purged id task_id (e ∷ events) = ground (
  arith,
  purged id task_id events,
  eq_iff e.task_id id,
  eq_iff e.task_id task_id,
  eq_iff id task_id,
)

-- An open row: this call makes the transition. It reports `finalized`; the row has the outcome;
-- the task's lock is free for anyone; no queued event of the task is left, and those of the
-- other tasks are; and the two messages are sent after what was sent before.
pub finalize_task_open :
    (c : Call) (task : Task) (db : Db)
    → HasUniqueId c.task_id db.tasks
    → select_task c db.tasks ≡ some task
    → is_terminal task.state ≡ false
    → let (result, after) = finalize_task c db in
      (result.status ≡ finalized)
      × (has_state c.task_id c.outcome after.tasks ≡ true)
      × ((now : ℕ) (owner : String) (ttl : ℕ)
          → (Locks.acquire now (task_key c.task_id) owner ttl after.locks).0 ≡ true)
      × ((id : String)
          → filter (λ e. e.task_id == id) after.task_events
            ≡ (if id == c.task_id then [] else filter (λ e. e.task_id == id) db.task_events))
      × (after.sent
          ≡ db.sent
            ++ task_finalize c.guild_id task.worker_id c.task_id
              ∷ task_update c.guild_id c.task_id c.outcome (stamp c task)
              ∷ [])
unfolding finalize_task finalize_selected finalize_found
finalize_task_open c task db u found still =
    let some_row = open_rows c task db.tasks u found ∙ still in
    let state = outcome_written c task db some_row (found_row_open c task db.tasks u found still) in
    rw found (
      rw some_row (
        refl,
        rw some_row at state,
        λ now owner ttl. acquire-release now (task_key c.task_id) owner ttl db.locks,
        λ id. purged id c.task_id db.task_events,
        refl,
      ))
