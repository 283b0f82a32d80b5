-- ===== src/Tasks/Finalize/Rows.antt =====
-- The task rows after a call, seen by a test that does not read `deleted_at`.
use pioneer_square.Shared.{
  ℕ, String, refl, count-update, ◌≡◌, ◌∙◌, Bool, true, false, Option, List, ◌==◌, string_eq, sql_eq,
  nat_eq, any, count, any-update, if◌then◌else◌, Bool-cases, inl, inr,
}
use pioneer_square.Tasks.{Task}
use pioneer_square.Tasks.Descendants.{cascade_soft_delete_terminal_descendants}
use pioneer_square.Tasks.Descendants.Cascade.{IgnoresDeletion, any-cascade_update}
use pioneer_square.Tasks.Finalize.{Db, Call, open_row, cascade, finalize_found, or_now, stamp}

any-cascade :
    (p : Task → Bool) (c : Call) (task : Task) (at : Option ℕ) (tasks : List Task)
    → IgnoresDeletion p
    → any p (cascade c task at tasks).1 ≡ any p tasks
unfolding cascade
any-cascade p c task at tasks ignores = elim (Bool-cases (sql_eq task.phase "issue")) [
  | inl issue ↦ rw issue (any-cascade_update p _ (or_now at c.later) tasks ignores)
  | inr other ↦ rw other
]

-- One row under the UPDATE.
unfoldable pub after_update : Call → Option ℕ → Task → Task
after_update c at t = if open_row c t then record t { state = c.outcome; deleted_at = at } else t

pub any-finalize_found :
    (p : Task → Bool) (c : Call) (task : Task) (db : Db)
    → IgnoresDeletion p
    → (count (open_row c) db.tasks == 0) ≡ false
    → any p (finalize_found c task db).1.tasks
      ≡ any (λ t. p (after_update c (stamp c task) t)) db.tasks
unfolding finalize_found after_update
any-finalize_found p c task db ignores some_row =
    rw some_row (any-cascade p c task (stamp c task) _ ignores ∙ any-update p _ _ db.tasks)

-- A call that changes no row leaves all as it was.
pub finalize_found_idle :
    (c : Call) (task : Task) (db : Db)
    → (count (open_row c) db.tasks == 0) ≡ true
    → (finalize_found c task db).1 ≡ db
unfolding finalize_found
finalize_found_idle c task db none_open = rw none_open

-- The number of rows that a test selects which reads neither column that a call writes.
pub count-finalize_found :
    (p : Task → Bool) (c : Call) (task : Task) (db : Db)
    → ((t : Task) (state : String) (at : Option ℕ)
        → p (record t { state = state; deleted_at = at }) ≡ p t)
    → count p (finalize_found c task db).1.tasks ≡ count p db.tasks
unfolding finalize_found cascade cascade_soft_delete_terminal_descendants
count-finalize_found p c task db ignores = elim (Bool-cases (count (open_row c) db.tasks == 0)) [
  | inl idle ↦ rw idle refl
  | inr some_row ↦ rw some_row (elim (Bool-cases (sql_eq task.phase "issue")) [
    | inl issue ↦ rw issue (
        count-update p _ _ _ (λ t. ignores t t.state _)
        ∙ count-update p _ _ db.tasks (λ t. ignores t _ _))
    | inr other ↦ rw other (count-update p _ _ db.tasks (λ t. ignores t _ _))
  ])
]
