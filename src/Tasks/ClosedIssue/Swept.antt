-- ===== src/Tasks/ClosedIssue/Swept.antt =====
-- What holds of the task table after an issue was closed.
use mathlib.Core.List.{Memᴰ}
use pioneer_square.Shared.{
  ℕ, String, eq_iff, ◌≡◌, ◌∙◌, Bool, true, false, ◌&&◌, some, List, ◌==◌, string_eq, nat_eq, filter,
  if◌then◌else◌, any, any-update, any_of_Mem, any_none_of_Mem, any-filter, member,
  member-map-filter, arith, Bool-cases, inl, inr,
}
use pioneer_square.Tasks.{Task, is_terminal}
use pioneer_square.Tasks.Descendants.{
  cascade_soft_delete_terminal_descendants, terminal_ids, is_none,
}
use pioneer_square.Tasks.Finalize.{Db}
use pioneer_square.Tasks.ClosedIssue.{Closing, issue_filter, finalize_closed_issue}

-- A finished row of the issue that no soft-delete marks.
abbrev pub unswept : Closing → Task → Bool
unswept c t = issue_filter c t && (is_terminal t.state && is_none t.deleted_at)

member-terminal_ids :
    (id : String) (p : Task → Bool) (tasks : List Task)
    → member id (terminal_ids (filter p tasks))
      ≡ any (λ t. p t && ((is_terminal t.state && is_none t.deleted_at) && id == t.id)) tasks
unfolding terminal_ids
member-terminal_ids id p tasks = member-map-filter _ _ id (filter p tasks) ∙ any-filter _ _ tasks

-- The sweep lists every row that it has to stamp.
listed_row :
    (c : Closing) (tasks : List Task) (t : Task)
    → Memᴰ t tasks
    → unswept c t ≡ true
    → member t.id (terminal_ids (filter (issue_filter c) tasks)) ≡ true
listed_row c tasks t m h =
    member-terminal_ids t.id (issue_filter c) tasks
    ∙ any_of_Mem _ m (ground (arith, h, eq_iff t.id t.id))

swept_row :
    (c : Closing) (at : ℕ) (tasks : List Task) (t : Task)
    → Memᴰ t tasks
    → unswept c (
        if member t.id (terminal_ids (filter (issue_filter c) tasks))
        then record t { deleted_at = some at }
        else t)
      ≡ false
swept_row c at tasks t m =
    elim (Bool-cases (member t.id (terminal_ids (filter (issue_filter c) tasks)))) [
      | inl hit ↦ rw hit (ground arith)
      | inr miss ↦ rw miss (ground (arith, listed_row c tasks t m))
    ]

cascade_sweeps :
    (c : Closing) (at : ℕ) (tasks : List Task)
    → any
        (unswept c)
        (cascade_soft_delete_terminal_descendants (filter (issue_filter c) tasks) at tasks).1
      ≡ false
unfolding cascade_soft_delete_terminal_descendants
cascade_sweeps c at tasks = any-update _ _ _ tasks ∙ any_none_of_Mem _ tasks (swept_row c at tasks)

-- After the call no finished row of the issue is left without its soft-delete.
pub finalize_closed_issue_sweeps :
    (c : Closing) (db : Db) → any (unswept c) (finalize_closed_issue c db).1.tasks ≡ false
unfolding finalize_closed_issue
finalize_closed_issue_sweeps c db = cascade_sweeps c c.swept_at _
