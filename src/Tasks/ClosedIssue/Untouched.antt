-- ===== src/Tasks/ClosedIssue/Untouched.antt =====
-- Closing an issue changes the state of the issue's own root rows only.
use mathlib.Core.List.{Memᴰ}
use pioneer_square.Shared.{
  ℕ, ◌+◌, String, eq_iff, ◌≡◌, refl, sym, ◌∙◌, ap, Bool, true, not, ◌&&◌, Option, none, some, List,
  [], ◌∷◌, ◌==◌, string_eq, nat_eq, sql_eq, any, count, any_of_Mem, any_congr_of_Mem,
  any-not_unique, any_imp, any_congr, member, member-map-filter, arith, Bool-cases, inl, inr,
}
use pioneer_square.Tasks.{Task, is_terminal}
use pioneer_square.Tasks.Descendants.Cascade.{any-cascade_update}
use pioneer_square.Tasks.Finalize.{
  Db, Call, open_row, stamp, select_task, finalize_selected, finalize_found, finalize_task,
}
use pioneer_square.Tasks.Finalize.Rows.{after_update, any-finalize_found, finalize_found_idle}
use pioneer_square.Tasks.Finalize.Branches.{HasUniqueId}
use pioneer_square.Tasks.ClosedIssue.{
  Closing, issue_filter, finalize_roots, finalize_closed_issue, root_ids, root_call,
}

-- A row that is no root of an issue, with the id and the state that are named.
abbrev pub work_in_state : String → String → List Task → Bool
work_in_state id state tasks =
    any (λ t. (t.id == id && t.state == state) && not (sql_eq t.phase "issue")) tasks

-- Every row named `id` is a root of an issue.
abbrev only_root : String → List Task → Bool
only_root id tasks = not (any (λ t. t.id == id && not (sql_eq t.phase "issue")) tasks)

-- A test whose answer the UPDATE of a call on a root cannot change.
update_of_root :
    (c : Call) (at : Option ℕ) (id state : String) (tasks : List Task) (t : Task)
    → only_root c.task_id tasks ≡ true
    → Memᴰ t tasks
    → (((after_update c at t).id == id && (after_update c at t).state == state)
        && not (sql_eq (after_update c at t).phase "issue"))
      ≡ ((t.id == id && t.state == state) && not (sql_eq t.phase "issue"))
unfolding after_update open_row
update_of_root c at id state tasks t roots m =
    ground (arith, any_of_Mem (λ (x : Task). x.id == c.task_id && not (sql_eq x.phase "issue")) m)

found_root :
    (c : Call) (task : Task) (id state : String) (db : Db)
    → only_root c.task_id db.tasks ≡ true
    → work_in_state id state (finalize_found c task db).1.tasks ≡ work_in_state id state db.tasks
found_root c task id state db roots = elim (Bool-cases (count (open_row c) db.tasks == 0)) [
  | inl idle ↦ rw (finalize_found_idle c task db idle) refl
  | inr some_row ↦
      any-finalize_found _ c task db (λ t at. refl) some_row
      ∙ any_congr_of_Mem _ _ db.tasks
          (λ t. update_of_root c (stamp c task) id state db.tasks t roots)
]

found-only_root :
    (c : Call) (task : Task) (id : String) (db : Db)
    → only_root id (finalize_found c task db).1.tasks ≡ only_root id db.tasks
found-only_root c task id db = elim (Bool-cases (count (open_row c) db.tasks == 0)) [
  | inl idle ↦ rw (finalize_found_idle c task db idle) refl
  | inr some_row ↦ ap not (
      any-finalize_found _ c task db (λ t at. refl) some_row
      ∙ any_congr _ _ db.tasks (same_columns (stamp c task)))
]
  where
    same_columns :
        (at : Option ℕ) (t : Task)
        → ((after_update c at t).id == id && not (sql_eq (after_update c at t).phase "issue"))
          ≡ (t.id == id && not (sql_eq t.phase "issue"))
    same_columns at t = unfold after_update in ground arith

selected_root :
    (c : Call) (selected : Option Task) (id state : String) (db : Db)
    → only_root c.task_id db.tasks ≡ true
    → work_in_state id state (finalize_selected c selected db).1.tasks
      ≡ work_in_state id state db.tasks
unfolding finalize_selected
selected_root c none id state db roots = refl
selected_root c (some task) id state db roots = found_root c task id state db roots

selected-only_root :
    (c : Call) (selected : Option Task) (id : String) (db : Db)
    → only_root id (finalize_selected c selected db).1.tasks ≡ only_root id db.tasks
unfolding finalize_selected
selected-only_root c none id db = refl
selected-only_root c (some task) id db = found-only_root c task id db

-- All the ids name roots only.
abbrev AllRoots : List String → List Task → Type 0
AllRoots ids tasks = (root : String) → member root ids ≡ true → only_root root tasks ≡ true

finalize_roots-work :
    (c : Closing) (i : ℕ) (ids : List String) (id state : String) (db : Db)
    → AllRoots ids db.tasks
    → work_in_state id state (finalize_roots c i ids db).1.tasks ≡ work_in_state id state db.tasks
unfolding finalize_roots finalize_task
finalize_roots-work c i [] id state db roots = refl
finalize_roots-work c i (root ∷ rest) id state db roots =
    let call = root_call c i root in
    let selected = select_task call db.tasks in
    finalize_roots-work c (i + 2) rest id state (finalize_selected call selected db).1
      (λ r m. selected-only_root call selected r db ∙ roots r (unfold member in ground (arith, m)))
    ∙ selected_root call selected id state db
        (roots root (unfold member in ground (arith, eq_iff root root)))

root_ids-only_root :
    (c : Closing) (tasks : List Task) (root : String)
    → HasUniqueId root tasks
    → member root (root_ids c tasks) ≡ true
    → only_root root tasks ≡ true
unfolding root_ids
root_ids-only_root c tasks root u h = ap not (
    any-not_unique (λ (t : Task). t.id == root) (λ (t : Task). sql_eq t.phase "issue") tasks u
      (any_imp _ _ tasks root_row (sym (member-map-filter _ _ root tasks) ∙ h)))
  where
    root_row :
        (t : Task)
        → (((issue_filter c t && sql_eq t.phase "issue") && not (is_terminal t.state))
            && root == t.id)
          ≡ true
        → (t.id == root && sql_eq t.phase "issue") ≡ true
    root_row t h = ground (arith, eq_iff root t.id, eq_iff t.id root)

-- Whatever the issue's rows are, closing it changes the state of no row but the roots: a task has
-- a state afterwards exactly when it had that state before.
pub finalize_closed_issue_forces_none :
    (c : Closing) (db : Db) (id state : String)
    → ((key : String) → HasUniqueId key db.tasks)
    → work_in_state id state (finalize_closed_issue c db).1.tasks ≡ work_in_state id state db.tasks
unfolding finalize_closed_issue
finalize_closed_issue_forces_none c db id state u =
    any-cascade_update _ _ c.swept_at _ (λ t at. refl)
    ∙ finalize_roots-work c 0 (root_ids c db.tasks) id state db
        (λ root m. root_ids-only_root c db.tasks root (u root) m)
