-- ===== src/Tasks/Examples.antt =====
-- Tasks on concrete inputs: an issue with its root, a finished and a running task.
use pioneer_square.Shared.{
  ℕ, String, eq_iff, ◌≡◌, ◌≢◌, ◌≤◌, ◌+◌, ◌↔◌, refl, Bool, true, false, Option, none, some, List, [],
  ◌∷◌, ◌==◌, string_eq, arith, filter, any, count, find?, if◌then◌else◌,
}
use pioneer_square.Locks
use pioneer_square.Locks.{lock_row}
use pioneer_square.Tasks.{Task, is_terminal}
use pioneer_square.Tasks.Descendants.{find_descendant_tasks, max_descendant_chain_depth}
use pioneer_square.Tasks.Descendants.Reachable.{Descends, find_descendant_tasks_iff}
use pioneer_square.Tasks.Finalize.{
  Db, Call, task_finalize, task_update, task_key, stamp, finalized, not_found, select_task,
  finalize_task, finalize_selected, finalize_found, open_row,
}
use pioneer_square.Tasks.Finalize.Once.{run, finalize_once, has_state, run-has_state}
use pioneer_square.Tasks.Finalize.Branches.{HasUniqueId, finalize_task_missing, finalize_task_open}
use pioneer_square.Tasks.ClosedIssue.{Closing, finalize_closed_issue}
use pioneer_square.Tasks.ClosedIssue.Swept.{unswept, finalize_closed_issue_sweeps}
use pioneer_square.Tasks.ClosedIssue.Untouched.{work_in_state, finalize_closed_issue_forces_none}

abbrev row : String → String → String → Option String → Task
row id state phase parent = record {
  id = id;
  guild_id = 1;
  worker_id = some "w-1";
  state = state;
  branch = none;
  worktree_path = none;
  pr_url = none;
  pr_number = none;
  pr_repo = none;
  claude_session_id = none;
  phase = some phase;
  issue_repo = some "o/r";
  issue_number = some 7;
  issue_state = some "open";
  parent_task_id = parent;
  deleted_at = none;
}

abbrev tasks : List Task
tasks =
    row "i" "working" "issue" none
    ∷ row "p" "done" "plan" (some "i")
    ∷ row "e" "working" "execute" (some "p")
    ∷ []

abbrev db : Db
db = record {
  tasks = tasks;
  locks = lock_row 5 "task:e" "w-1" 60 ∷ [];
  task_events =
      record { task_id = "e"; event_type = "pending-followup"; payload_json = "{}"; created_at = 6 }
      ∷ [];
  sent = [];
}

abbrev finish : String → String → Call
finish id outcome = record {
  guild_pk = 1;
  guild_id = "g";
  task_id = id;
  outcome = outcome;
  now = 10;
  later = 11;
}

ids_differ : (a b : String) → (a == b) ≡ false → a ≢ b
ids_differ a b h = ground (arith, eq_iff a b)

other_key : (a b key : String) → (a == b) ≡ false → (a == key) ≡ true → (b == key) ≡ false
other_key a b key h e = ground (arith, eq_iff a b, eq_iff a key, eq_iff b key)

at_most_one :
    (a b c : Bool)
    → (a ≡ true → b ≡ false)
    → (a ≡ true → c ≡ false)
    → (b ≡ true → c ≡ false)
    → (if a then 1 else 0) + ((if b then 1 else 0) + ((if c then 1 else 0) + 0)) ≤ 1
at_most_one a b c ab ac bc = ground arith

unique_ids : (key : String) → HasUniqueId key db.tasks
unfolding count
unique_ids key =
    at_most_one ("i" == key) ("p" == key) ("e" == key) (other_key "i" "p" key refl)
      (other_key "i" "e" key refl) (other_key "p" "e" key refl)

selects_e :
    select_task (finish "e" "failed") db.tasks ≡ some (row "e" "working" "execute" (some "p"))
unfolding select_task find?
selects_e = refl

finishes_e : (finalize_task (finish "e" "failed") db).0.status ≡ finalized
unfolding finalize_task finalize_selected finalize_found select_task open_row is_terminal find?
    count filter
finishes_e = refl

abbrev e_row : Task
e_row = row "e" "working" "execute" (some "p")

abbrev left : Db
left =
    run ((finish "p" "done", none) ∷ []) (finalize_selected (finish "e" "failed") (some e_row) db).1

finalize_once_example :
    ((finalize_selected (finish "e" "done") (some e_row) left).0.status ≢ finalized)
    × ((finalize_selected (finish "e" "done") (some e_row) left).1 ≡ left)
unfolding is_terminal finalize_selected finalize_found open_row count
finalize_once_example =
    finalize_once (finish "e" "failed") (finish "e" "done") (some e_row) (some e_row)
      ((finish "p" "done", none) ∷ []) db refl refl refl refl

run-has_state_example :
    has_state "p" "done"
      (run ((finish "p" "failed", none) ∷ (finish "i" "done", none) ∷ []) db).tasks
    ≡ true
unfolding is_terminal any
run-has_state_example =
    run-has_state "p" "done" ((finish "p" "failed", none) ∷ (finish "i" "done", none) ∷ []) db refl
      refl

finalize_task_missing_example :
    ((finalize_task (finish "x" "done") db).0.status ≡ not_found)
    × ((finalize_task (finish "x" "done") db).1 ≡ db)
unfolding select_task find?
finalize_task_missing_example = finalize_task_missing (finish "x" "done") db refl

finalize_task_open_example :
    let (result, after) = finalize_task (finish "e" "done") db in
    (result.status ≡ finalized)
    × (has_state "e" "done" after.tasks ≡ true)
    × ((now : ℕ) (owner : String) (ttl : ℕ)
        → (Locks.acquire now (task_key "e") owner ttl after.locks).0 ≡ true)
    × ((id : String)
        → filter (λ e. e.task_id == id) after.task_events
          ≡ (if id == "e" then [] else filter (λ e. e.task_id == id) db.task_events))
    × (after.sent
        ≡ task_finalize "g" (some "w-1") "e"
          ∷ task_update "g" "e" "done" (stamp (finish "e" "done") e_row)
          ∷ [])
unfolding select_task find? is_terminal
finalize_task_open_example =
    finalize_task_open (finish "e" "done") e_row db (unique_ids "e") refl refl

find_descendant_tasks_iff_example :
    (any (λ t. t.id == "e") (find_descendant_tasks tasks "i") ≡ true)
    ↔ ((n : ℕ) × (n ≤ max_descendant_chain_depth) × Descends tasks n "i" "e")
find_descendant_tasks_iff_example = find_descendant_tasks_iff tasks "i" "e"

abbrev closing : Closing
closing = record {
  guild_pk = 1;
  guild_id = "g";
  issue_repo = "o/r";
  issue_number = 7;
  clock = λ i. 20 + i;
  swept_at = 30;
}

finalize_closed_issue_sweeps_example :
    any (unswept closing) (finalize_closed_issue closing db).1.tasks ≡ false
finalize_closed_issue_sweeps_example = finalize_closed_issue_sweeps closing db

finalize_closed_issue_forces_none_example :
    work_in_state "e" "working" (finalize_closed_issue closing db).1.tasks
    ≡ work_in_state "e" "working" db.tasks
finalize_closed_issue_forces_none_example =
    finalize_closed_issue_forces_none closing db "e" "working" unique_ids
