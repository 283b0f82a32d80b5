-- ===== src/Tasks/Descendants/Cascade.antt =====
-- The cascade stamps finished rows only: it changes no column but `deleted_at`, and that only where
-- it was NULL on a terminal row.
use pioneer_square.Shared.{
  ℕ, ◌≡◌, refl, ◌∙◌, Bool, true, false, some, List, string_eq, any, any-update, any_congr, member,
  if◌then◌else◌,
}
use pioneer_square.Tasks.{Task}
use pioneer_square.Tasks.Descendants.{cascade_soft_delete_terminal_descendants, terminal_ids}

-- A test that does not read `deleted_at`.
abbrev pub IgnoresDeletion : (Task → Bool) → Type 0
IgnoresDeletion p = (t : Task) (at : ℕ) → p (record t { deleted_at = some at }) ≡ p t

-- Rows are neither added nor removed, and no other column changes.
pub any-cascade_update :
    (p : Task → Bool) (descendants : List Task) (at : ℕ) (tasks : List Task)
    → IgnoresDeletion p
    → any p (cascade_soft_delete_terminal_descendants descendants at tasks).1 ≡ any p tasks
unfolding cascade_soft_delete_terminal_descendants
any-cascade_update p descendants at tasks ignores =
    any-update p _ _ tasks
    ∙ any_congr _ p tasks (λ t. either (member t.id (terminal_ids descendants)) t)
  where
    either : (b : Bool) (t : Task) → p (if b then record t { deleted_at = some at } else t) ≡ p t
    either true t = ignores t at
    either false t = refl
