-- ===== src/Tasks.antt =====
-- The task rows of backend/models.py and the vocabulary of backend/task_lifecycle.py.
pub mod Descendants
pub mod Finalize
pub mod ClosedIssue
mod Examples
use pioneer_square.Shared.{
  ℕ, ◌+◌, String, Bool, true, false, not, ◌&&◌, ◌||◌, Option, none, some, List, [], ◌∷◌, ltb, hours,
  ◌==◌, ◌!=◌, string_eq, option_eq, if◌then◌else◌, member,
}

-- The columns of `Task` that the lifecycle and the workers' reports read or write.
pub record Task : Type 0 where
  pub id : String
  pub guild_id : ℕ
  pub worker_id : Option String
  pub state : String
  pub branch : Option String
  pub worktree_path : Option String
  pub pr_url : Option String
  pub pr_number : Option ℕ
  pub pr_repo : Option String
  pub claude_session_id : Option String
  pub phase : Option String
  pub issue_repo : Option String
  pub issue_number : Option ℕ
  pub issue_state : Option String
  pub parent_task_id : Option String
  pub deleted_at : Option ℕ

-- TERMINAL_STATES
unfoldable pub is_terminal : String → Bool
unfolding member
is_terminal state = member state ("done" ∷ "failed" ∷ "cancelled" ∷ "error" ∷ [])

abbrev pub soft_delete_grace : ℕ
soft_delete_grace = hours 4

-- `deleted_at > now - SOFT_DELETE_GRACE`, with the duration on the other side.
unfoldable pub is_live : ℕ → Task → Bool
is_live now task = elim task.deleted_at [ none ↦ true | some at ↦ ltb now (at + soft_delete_grace) ]

abbrev is_some : Option ℕ → Bool
is_some none = false
is_some (some n) = true

unfoldable pub finalize_soft_delete_at :
    String → Option ℕ → Option String → Option String → ℕ → Option ℕ
finalize_soft_delete_at outcome issue_number issue_state phase now =
    if outcome == "done"
      && phase != some "issue"
      && is_some issue_number
      && issue_state != some "closed"
    then none
    else some now
