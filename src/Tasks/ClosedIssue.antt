-- ===== src/Tasks/ClosedIssue.antt =====
-- `finalize_closed_issue` of backend/task_lifecycle.py: what follows when a GitHub issue closes.
pub mod Swept
pub mod Untouched
use pioneer_square.Shared.{
  ℕ, suc, ◌+◌, String, Bool, true, false, not, ◌&&◌, Option, none, some, List, [], ◌∷◌, ◌++◌, map,
  ◌==◌, string_eq, nat_eq, sql_eq, filter, if◌then◌else◌,
}
use pioneer_square.Tasks.{Task, is_terminal}
use pioneer_square.Tasks.Descendants.{cascade_soft_delete_terminal_descendants}
use pioneer_square.Tasks.Finalize.{Db, Call, Status, finalized, finalize_task}

-- The arguments; `clock i` is the i-th reading of the clock in the loop over the roots, and
-- `swept_at` the one for the sweep after it.
pub record Closing : Type 0 where
  pub guild_pk : ℕ
  pub guild_id : String
  pub issue_repo : String
  pub issue_number : ℕ
  pub clock : ℕ → ℕ
  pub swept_at : ℕ

unfoldable pub issue_filter : Closing → Task → Bool
issue_filter c t =
    t.guild_id == c.guild_pk
    && sql_eq t.issue_repo c.issue_repo
    && sql_eq t.issue_number c.issue_number

-- The ids of the open `phase='issue'` rows of the issue.
unfoldable pub root_ids : Closing → List Task → List String
root_ids c tasks =
    map (λ t. t.id)
      (filter (λ t. (issue_filter c t && sql_eq t.phase "issue") && not (is_terminal t.state))
        tasks)

abbrev pub root_call : Closing → ℕ → String → Call
root_call c i root_id = record {
  guild_pk = c.guild_pk;
  guild_id = c.guild_id;
  task_id = root_id;
  outcome = "done";
  now = c.clock i;
  later = c.clock (i + 1);
}

abbrev pub is_finalized : Status → Bool
is_finalized Status.finalized = true
is_finalized _ = false

-- The loop over the roots: the ids that its calls finalized, and the tables after it.
unfoldable pub finalize_roots : Closing → ℕ → List String → Db → List String × Db
finalize_roots c i [] db = ([], db)
finalize_roots c i (root_id ∷ rest) db =
    let (res, db') = finalize_task (root_call c i root_id) db in
    let (ids, db'') = finalize_roots c (i + 2) rest db' in
    (if is_finalized res.status then root_id ∷ ids else ids, db'')

unfoldable pub finalize_closed_issue : Closing → Db → List String × Db
finalize_closed_issue c db =
    let (ids, db') = finalize_roots c 0 (root_ids c db.tasks) db in
    let linked = filter (issue_filter c) db'.tasks in
    let (swept, tasks) = cascade_soft_delete_terminal_descendants linked c.swept_at db'.tasks in
    (ids ++ swept, record db' { tasks = tasks })
