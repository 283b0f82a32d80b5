-- ===== src/Tasks/Descendants.antt =====
-- `find_descendant_tasks` and `cascade_soft_delete_terminal_descendants`.
pub mod Reachable
pub mod Cascade
use mathlib.Core.List.{flat_map}
use pioneer_square.Shared.{
  ℕ, zero, suc, String, Bool, true, false, not, ◌&&◌, Option, none, some, List, [], ◌∷◌, ◌++◌, map,
  sql_eq, string_eq, filter, update, member, if◌then◌else◌,
}
use pioneer_square.Tasks.{Task, is_terminal}

abbrev pub max_descendant_chain_depth : ℕ
max_descendant_chain_depth = 20

unfoldable pub child_ids : List Task → String → List String
child_ids [] parent = []
child_ids (task ∷ tasks) parent =
    let rest = child_ids tasks parent in
    if sql_eq task.parent_task_id parent then task.id ∷ rest else rest

unfoldable pub children_of : List Task → List String → List String
children_of tasks [] = []
children_of tasks (parent ∷ parents) = child_ids tasks parent ++ children_of tasks parents

-- The recursive query: its rows of depth 0 are the root's children, and a row of depth d joins
-- its own children in at depth d + 1 while d < _MAX_DESCENDANT_CHAIN_DEPTH - 1.
unfoldable pub chain : ℕ → List Task → List String → List String
chain zero tasks ids = []
chain (suc levels) tasks ids = let next = children_of tasks ids in next ++ chain levels tasks next

unfoldable pub find_descendant_tasks : List Task → String → List Task
find_descendant_tasks tasks root_task_id =
    let ids = chain max_descendant_chain_depth tasks (root_task_id ∷ []) in
    filter (λ task. member task.id ids) tasks

abbrev pub is_none : Option ℕ → Bool
is_none none = true
is_none (some at) = false

-- Returns the ids that were updated, and the table after the UPDATE.
unfoldable pub terminal_ids : List Task → List String
terminal_ids descendants =
    map (λ task. task.id)
      (filter (λ task. is_terminal task.state && is_none task.deleted_at) descendants)

unfoldable pub cascade_soft_delete_terminal_descendants :
    List Task → ℕ → List Task → List String × List Task
unfolding terminal_ids
cascade_soft_delete_terminal_descendants descendants deleted_at tasks =
    let ids = terminal_ids descendants in
    (
      ids,
      update (λ task. member task.id ids) (λ task. record task { deleted_at = some deleted_at })
          tasks,
    )
