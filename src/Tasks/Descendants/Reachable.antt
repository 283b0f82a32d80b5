-- ===== src/Tasks/Descendants/Reachable.antt =====
-- The recursive query against the tree that the rows' `parent_task_id` columns describe.
use pioneer_square.Shared.{
  ℕ, zero, suc, ◌≤◌, String, eq_iff, ◌≡◌, refl, sym, ◌∙◌, ◌↔◌, Bool, true, ◌&&◌, List, [], ◌∷◌,
  arith, ◌==◌, string_eq, sql_eq, any, any-filter, any_imp, subst, filter, member, member-append,
  any-member, member-any, Bool-cases, inl, inr,
}
use pioneer_square.Tasks.{Task}
use pioneer_square.Tasks.Descendants.{
  child_ids, children_of, chain, find_descendant_tasks, max_descendant_chain_depth,
}

-- A row `id` names `parent` as its parent.
unfoldable pub is_child : List Task → String → String → Bool
is_child tasks parent id = any (λ t. sql_eq t.parent_task_id parent && id == t.id) tasks

-- A chain of n parent links from an ancestor down to `id`.
pub data Descends (tasks : List Task) : ℕ → String → String → Type 0 where
  child :
      {parent id : String} → is_child tasks parent id ≡ true → Descends tasks (suc zero) parent id
  deeper :
      {n : ℕ} {parent middle id : String}
      → is_child tasks parent middle ≡ true
      → Descends tasks n middle id
      → Descends tasks (suc n) parent id

member-child_ids :
    (tasks : List Task) (parent id : String)
    → member id (child_ids tasks parent) ≡ is_child tasks parent id
unfolding member child_ids is_child any
member-child_ids [] parent id = refl
member-child_ids (t ∷ tasks) parent id = ground (arith, member-child_ids tasks parent id)

member-children_of :
    (tasks : List Task) (parents : List String) (id : String)
    → member id (children_of tasks parents) ≡ any (λ parent. is_child tasks parent id) parents
unfolding children_of any
member-children_of tasks [] id = unfold member in refl
member-children_of tasks (p ∷ ps) id = ground (
  arith,
  member-append id (child_ids tasks p) (children_of tasks ps),
  member-child_ids tasks p id,
  member-children_of tasks ps id,
)

parent_of :
    (tasks : List Task) (ids : List String) (id : String)
    → member id (children_of tasks ids) ≡ true
    → (p : String) × (member p ids ≡ true) × (is_child tasks p id ≡ true)
parent_of tasks ids id h = any-member _ ids (sym (member-children_of tasks ids id) ∙ h)

child_of :
    (tasks : List Task) (ids : List String) (p id : String)
    → member p ids ≡ true
    → is_child tasks p id ≡ true
    → member id (children_of tasks ids) ≡ true
child_of tasks ids p id m e = member-children_of tasks ids id ∙ member-any _ p ids m e

chain_sound :
    (levels : ℕ) (tasks : List Task) (ids : List String) (id : String)
    → member id (chain levels tasks ids) ≡ true
    → (n : ℕ) × (top : String) × (n ≤ levels) × (member top ids ≡ true) × Descends tasks n top id
unfolding chain
chain_sound zero tasks ids id h = absurd (unfold member in ground arith)
chain_sound (suc levels) tasks ids id h = elim (Bool-cases (member id (children_of tasks ids))) [
  | inl near ↦ let (p, m, e) = parent_of tasks ids id near in (suc zero, p, omega arith, m, child e)
  | inr far ↦
      let next = children_of tasks ids in
      let below : member id (chain levels tasks next) ≡ true =
        ground (arith, far, h, member-append id next (chain levels tasks next)) in
      let (n, q, le, mq, d) = chain_sound levels tasks next id below in
      let (p, m, e) = parent_of tasks ids q mq in (suc n, p, omega arith, m, deeper e d)
]

chain_complete :
    (tasks : List Task) {n : ℕ} {top id : String} (levels : ℕ) (ids : List String)
    → Descends tasks n top id
    → n ≤ levels
    → member top ids ≡ true
    → member id (chain levels tasks ids) ≡ true
unfolding chain
chain_complete tasks zero ids (child e) le m = absurd (omega arith)
chain_complete tasks (suc levels) ids (child {parent = p} {id = id} e) le m =
    let next = children_of tasks ids in
    ground (arith, child_of tasks ids p id m e, member-append id next (chain levels tasks next))
chain_complete tasks zero ids (deeper e d) le m = absurd (omega arith)
chain_complete tasks (suc levels) ids (deeper {parent = p} {middle = q} {id = id} e d) le m =
    let next = children_of tasks ids in
    let below = chain_complete tasks levels next d (omega arith) (child_of tasks ids p q m e) in
    ground (arith, below, member-append id next (chain levels tasks next))

any_constant {ℓ} : {A : Type ℓ} (b : Bool) (xs : List A) → any (λ (x : A). b) xs ≡ true → b ≡ true
unfolding any
any_constant b [] h = cc
any_constant b (x ∷ xs) h = ground (arith, any_constant b xs)

row_of :
    (parent id : String) (t : Task)
    → (sql_eq t.parent_task_id parent && id == t.id) ≡ true
    → (t.id == id) ≡ true
row_of parent id t h = ground (arith, eq_iff id t.id, eq_iff t.id id)

Descends-row :
    (tasks : List Task) {n : ℕ} {top id : String}
    → Descends tasks n top id
    → any (λ (t : Task). t.id == id) tasks ≡ true
Descends-row tasks (child {parent = p} {id = id} e) =
    unfold is_child in any_imp _ _ tasks (row_of p id) e
Descends-row tasks (deeper e d) = Descends-row tasks d

-- The rows found are those that a chain of 1 to 20 parent links joins to the root: none is missed
-- and none is invented, also when the links run in a circle.
pub find_descendant_tasks_iff :
    (tasks : List Task) (root id : String)
    → (any (λ t. t.id == id) (find_descendant_tasks tasks root) ≡ true)
      ↔ ((n : ℕ) × (n ≤ max_descendant_chain_depth) × Descends tasks n root id)
unfolding find_descendant_tasks
find_descendant_tasks_iff tasks root id = (
  λ h.
      let (n, top, le, m, d) =
        chain_sound max_descendant_chain_depth tasks (root ∷ []) id (listed h) in
      (n, le, subst (λ r. Descends tasks n r id) (only top m) d),
  λ (n, le, d).
      any-filter _ _ tasks
      ∙ any_imp _ _ tasks (λ t e. ground (arith, eq_iff t.id id, reached n le d))
          (Descends-row tasks d),
)
  where
    ids : List String
    ids = chain max_descendant_chain_depth tasks (root ∷ [])

    listed :
        any (λ t. t.id == id) (filter (λ t. member t.id ids) tasks) ≡ true → member id ids ≡ true
    listed h =
        any_constant (member id ids) tasks (
          any_imp _ _ tasks (λ t e. ground (arith, eq_iff t.id id))
            (sym (any-filter _ _ tasks) ∙ h))

    only : (top : String) → member top (root ∷ []) ≡ true → top ≡ root
    only top m = unfold member in ground (arith, eq_iff top root)

    reached :
        (n : ℕ) → n ≤ max_descendant_chain_depth → Descends tasks n root id → member id ids ≡ true
    reached n le d =
        chain_complete tasks max_descendant_chain_depth (root ∷ []) d le
          (unfold member in ground (arith, eq_iff root root))
