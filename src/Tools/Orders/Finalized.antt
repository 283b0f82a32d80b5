-- ===== src/Tools/Orders/Finalized.antt =====
-- What finalize_task makes of a task.
use pioneer_square.Shared.{
  ℕ, ◌≡◌, inl, inr, refl, String, true, false, Option, none, some, [], ◌∷◌, string_eq, member,
  Bool-cases,
}
use pioneer_square.Locks
use pioneer_square.Tasks.{Task, is_terminal}
use pioneer_square.Tasks.Finalize.{Db, Call, select_task, task_key}
use pioneer_square.Tasks.Finalize.Once.{has_state}
use pioneer_square.Tasks.Finalize.Branches.{HasUniqueId, finalize_task_open}
use pioneer_square.Tools.Orders.{outcome_of_tool, handle_finalize_task}

outcome_of_tool_lem :
    (raw : Option String) → member (outcome_of_tool raw) ("done" ∷ "failed" ∷ []) ≡ true
unfolding outcome_of_tool member
outcome_of_tool_lem none = refl
outcome_of_tool_lem (some raw) = elim (Bool-cases (member raw ("done" ∷ "failed" ∷ []))) [
  | inl known ↦ rw known known
  | inr unknown ↦ rw unknown refl
]

-- finalize_task on an open task whose id is unique: the task is in the state of the outcome, which is
-- `done` or `failed` whatever the model asked for, and anybody can take the task's lock.
handle_finalize_task_open :
    (call : Call) (raw : Option String) (task : Task) (db : Db)
    → HasUniqueId call.task_id db.tasks
    → select_task (record call { outcome = outcome_of_tool raw }) db.tasks ≡ some task
    → is_terminal task.state ≡ false
    → (member (outcome_of_tool raw) ("done" ∷ "failed" ∷ []) ≡ true)
      × (has_state call.task_id (outcome_of_tool raw) (handle_finalize_task call raw db).1.tasks
          ≡ true)
      × ((now : ℕ) (owner : String) (ttl : ℕ)
          → (Locks.acquire now
              (task_key call.task_id)
              owner
              ttl
              (handle_finalize_task call raw db).1.locks).0
            ≡ true)
unfolding handle_finalize_task
handle_finalize_task_open call raw task db unique found still =
    let (finalized, written, unlocked, replayed, sent) =
      finalize_task_open (record call { outcome = outcome_of_tool raw }) task db unique found
        still in
    (outcome_of_tool_lem raw, written, unlocked)
