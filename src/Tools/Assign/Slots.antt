-- ===== src/Tools/Assign/Slots.antt =====
-- An assignment gives no worker more tasks than it has agents.
use pioneer_square.Shared.{
  ℕ, ◌+◌, ◌≤◌, ◌<◌, ◌≡◌, ◌⊎◌, inl, inr, refl, ap, String, Bool, true, false, not, ◌&&◌, Option,
  none, some, List, [], ◌∷◌, ◌++◌, leb, ◌==◌, ◌!=◌, string_eq, nat_eq, option_eq, filter, count,
  update, length, if◌then◌else◌, arith, Bool-cases,
}
use pioneer_square.Workers.{Agent}
use pioneer_square.Tools.{TaskRow, Store, non_blank}
use pioneer_square.Tools.Capacity.{
  live_agent, takes_slot, other_than, judge_room, accepts, worker_can_accept_task,
}
use pioneer_square.Tools.Assign.{task_row}

abbrev pub taken : ℕ → String → List TaskRow → ℕ
taken guild_pk worker_id tasks = count (λ row. takes_slot guild_pk worker_id row.task) tasks

abbrev pub slots : ℕ → String → Store → ℕ
slots guild_pk worker_id store = length (filter (live_agent guild_pk worker_id) store.agents)

-- A worker with live agents has no more pending and working tasks than agents.
abbrev pub HasRoom : ℕ → String → Store → Type 0
HasRoom guild_pk worker_id store =
    (slots guild_pk worker_id store ≡ 0)
    ⊎ (taken guild_pk worker_id store.tasks ≤ slots guild_pk worker_id store)

accepts-judge_room :
    (agents : List Agent) (n : ℕ)
    → accepts (judge_room agents n) ≡ true
    → (length agents ≡ 0) ⊎ (n < length agents)
accepts-judge_room [] n h = inl refl
accepts-judge_room (a ∷ agents) n h = elim (Bool-cases (leb (length (a ∷ agents)) n)) [
  | inl over ↦ ground (arith, h, over)
  | inr under ↦ inr (ground (arith, under))
]

-- Rows that are changed, within those with a key.
pub count-update_within :
    (t p i : TaskRow → Bool) (f : TaskRow → TaskRow) (rows : List TaskRow)
    → ((row : TaskRow) → p row ≡ true → i row ≡ true)
    → count t (update p f rows) ≤ count (λ row. t row && not (i row)) rows + count i rows
unfolding count update
count-update_within t p i f [] h = omega arith
count-update_within t p i f (row ∷ rows) h =
    ground (arith, h row, count-update_within t p i f rows h)

module _ (guild_pk : ℕ) (worker_id : String) where
  pub taken-append :
      (tasks : List TaskRow) (row : TaskRow)
      → taken guild_pk worker_id (tasks ++ row ∷ [])
        ≡ taken guild_pk worker_id tasks + (if takes_slot guild_pk worker_id row.task then 1 else 0)
  unfolding count
  taken-append [] row = omega arith
  taken-append (other ∷ tasks) row = omega (arith, taken-append tasks row)

  -- Where the row that is written takes no slot of the worker.
  pub taken-update_other :
      (p : TaskRow → Bool) (f : TaskRow → TaskRow) (tasks : List TaskRow)
      → ((row : TaskRow) → takes_slot guild_pk worker_id (f row).task ≡ false)
      → taken guild_pk worker_id (update p f tasks) ≤ taken guild_pk worker_id tasks
  unfolding count update
  taken-update_other p f [] h = omega arith
  taken-update_other p f (row ∷ tasks) h = ground (arith, h row, taken-update_other p f tasks h)

pub task_row-id :
    (guild_pk : ℕ) (task_id : String) (row : TaskRow)
    → task_row guild_pk task_id row ≡ true
    → (row.task.id == task_id) ≡ true
task_row-id guild_pk task_id row h = ground (arith, h)

-- The agents' side of the test.
free_slot :
    (guild_pk : ℕ) (worker_id : String) (exclude : Option String) (store : Store)
    → accepts (worker_can_accept_task guild_pk worker_id exclude store) ≡ true
    → (slots guild_pk worker_id store ≡ 0)
      ⊎ (count
            (λ row. takes_slot guild_pk worker_id row.task && other_than exclude row.task)
            store.tasks
          < slots guild_pk worker_id store)
unfolding worker_can_accept_task
free_slot guild_pk worker_id exclude store h =
    accepts-judge_room (filter (live_agent guild_pk worker_id) store.agents)
      (count (λ row. takes_slot guild_pk worker_id row.task && other_than exclude row.task)
        store.tasks)
      h

pub count_congr :
    (p q : TaskRow → Bool) (rows : List TaskRow)
    → ((row : TaskRow) → p row ≡ q row)
    → count p rows ≡ count q rows
unfolding count
count_congr p q [] h = refl
count_congr p q (row ∷ rows) h = ground (arith, h row, count_congr p q rows h)

abbrev pub spares : Option String → TaskRow → Bool
spares none row = true
spares (some id) row = row.task.id != id

other_than_lem :
    (exclude : Option String) (row : TaskRow)
    → other_than exclude row.task ≡ spares (non_blank exclude) row
other_than_lem none row = refl
other_than_lem (some id) row = elim (Bool-cases (id == "")) [
  | inl blank ↦ rw blank refl
  | inr given ↦ rw given refl
]

-- Room for one more task, beside the one that is reassigned.
abbrev pub HasFreeSlot : ℕ → String → Option String → Store → Type 0
HasFreeSlot guild_pk worker_id reassigned store =
    (slots guild_pk worker_id store ≡ 0)
    ⊎ (count (λ row. takes_slot guild_pk worker_id row.task && spares reassigned row) store.tasks
        < slots guild_pk worker_id store)

pub has_free_slot :
    (guild_pk : ℕ) (worker_id : String) (exclude : Option String) (store : Store)
    → accepts (worker_can_accept_task guild_pk worker_id exclude store) ≡ true
    → HasFreeSlot guild_pk worker_id (non_blank exclude) store
has_free_slot guild_pk worker_id exclude store h =
    elim (free_slot guild_pk worker_id exclude store h) [
      | inl no_agents ↦ inl no_agents
      | inr free ↦ inr (
          omega (
            arith,
            free,
            count_congr
                (λ row. takes_slot guild_pk worker_id row.task && other_than exclude row.task)
                (λ row. takes_slot guild_pk worker_id row.task && spares (non_blank exclude) row)
                store.tasks
                (λ row.
                  ap (λ b. takes_slot guild_pk worker_id row.task && b)
                    (other_than_lem exclude row)),
          ))
    ]
