-- ===== src/Tools/Assign/Kept.antt =====
-- An assignment leaves every worker as many agents as tasks.
use pioneer_square.Shared.{
  ℕ, ◌≤◌, ◌≡◌, ◌⊎◌, inl, inr, refl, String, Bool, true, false, not, any, ◌&&◌, Option, none, some,
  [], ◌∷◌, ◌++◌, ◌==◌, string_eq, nat_eq, option_eq, count, update, if◌then◌else◌, arith,
  Bool-cases, eq_of_==, subst,
}
use pioneer_square.Tasks.{Task}
use pioneer_square.Tools.{TaskRow, Store, ToolContext, Reply, ToolMessage, non_blank}
use pioneer_square.Tools.Capacity.{takes_slot, accepts, worker_can_accept_task}
use pioneer_square.Tools.Assign.{AssignInput, Plan, task_row}
use pioneer_square.Tools.Assign.Writes.{
  Ending, Fault, finish, comes_before_commit, is_there, reassign, new_task_row, write_assignment,
  assign_locked,
}
use pioneer_square.Tools.Assign.Slots.{
  taken, slots, HasRoom, taken-append, taken-update_other, count-update_within, task_row-id,
  count_congr, HasFreeSlot, has_free_slot,
}

not_taken_lem :
    (t : Task) (guild_pk : ℕ) (worker_id owner : String)
    → t.worker_id ≡ some owner
    → (owner == worker_id) ≡ false
    → takes_slot guild_pk worker_id t ≡ false
not_taken_lem t guild_pk worker_id owner h other = rw (h, other) refl

not_taken :
    (t : Task) (guild_pk : ℕ) (worker_id owner : String)
    → t.worker_id ≡ some owner
    → (owner == worker_id) ≡ false
    → ◌≡◌ {A = ℕ} (if takes_slot guild_pk worker_id t then 1 else 0) 0
not_taken t guild_pk worker_id owner h other =
    rw (not_taken_lem t guild_pk worker_id owner h other) refl

-- What the row that is written comes to, for the worker it is written for and for the others.
at_most_one : (b : Bool) → (if b then 1 else 0) ≤ 1
at_most_one true = omega arith
at_most_one false = omega arith

inserted :
    (guild_pk : ℕ) (worker_id : String) (row : TaskRow) (store : Store)
    → HasFreeSlot guild_pk worker_id none store
    → (slots guild_pk worker_id store ≡ 0)
      ⊎ (taken guild_pk worker_id (store.tasks ++ row ∷ []) ≤ slots guild_pk worker_id store)
inserted guild_pk worker_id row store (inl no_agents) = inl no_agents
inserted guild_pk worker_id row store (inr free) = inr (
    omega (
      arith,
      free,
      taken-append guild_pk worker_id store.tasks row,
      at_most_one (takes_slot guild_pk worker_id row.task),
      count_congr (λ r. takes_slot guild_pk worker_id r.task && true)
          (λ r. takes_slot guild_pk worker_id r.task) store.tasks (λ r. ground arith),
    ))

updated :
    (guild_pk : ℕ) (worker_id task_id : String) (f : TaskRow → TaskRow) (store : Store)
    → count (λ row. row.task.id == task_id) store.tasks ≤ 1
    → HasFreeSlot guild_pk worker_id (some task_id) store
    → (slots guild_pk worker_id store ≡ 0)
      ⊎ (taken guild_pk worker_id (update (task_row guild_pk task_id) f store.tasks)
          ≤ slots guild_pk worker_id store)
updated guild_pk worker_id task_id f store unique (inl no_agents) = inl no_agents
updated guild_pk worker_id task_id f store unique (inr free) = inr (
    omega (
      arith,
      free,
      unique,
      count-update_within (λ row. takes_slot guild_pk worker_id row.task)
          (task_row guild_pk task_id) (λ row. row.task.id == task_id) f store.tasks
          (task_row-id guild_pk task_id),
    ))

finish-HasRoom :
    (fault : Fault) (reply : Reply) (message : ToolMessage) (guild_pk : ℕ) (worker_id : String)
    (store : Store)
    → HasRoom guild_pk worker_id store
    → HasRoom guild_pk worker_id (finish fault reply message store).1
unfolding finish
finish-HasRoom Fault.after_commit reply message guild_pk worker_id store fits = fits
finish-HasRoom Fault.after_send reply message guild_pk worker_id store fits = fits
finish-HasRoom _ reply message guild_pk worker_id store fits = fits

insert-HasRoom :
    (now : ℕ) (fresh : String) (ctx : ToolContext) (inp : AssignInput) (plan : Plan) (store : Store)
    (worker_id : String)
    → HasFreeSlot ctx.guild_pk inp.worker_id none store
    → HasRoom ctx.guild_pk worker_id store
    → HasRoom ctx.guild_pk worker_id
        (record store { tasks = store.tasks ++ new_task_row now fresh ctx inp plan ∷ [] })
insert-HasRoom now fresh ctx inp plan store worker_id free (inl no_agents) = inl no_agents
insert-HasRoom now fresh ctx inp plan store worker_id free (inr fits) =
    elim (Bool-cases (inp.worker_id == worker_id)) [
      | inl same ↦
          inserted ctx.guild_pk worker_id (new_task_row now fresh ctx inp plan) store
            (subst (λ w. HasFreeSlot ctx.guild_pk w none store) (eq_of_== same) free)
      | inr other ↦ inr (
          omega (
            arith,
            fits,
            taken-append ctx.guild_pk worker_id store.tasks (new_task_row now fresh ctx inp plan),
            not_taken (new_task_row now fresh ctx inp plan).task ctx.guild_pk worker_id
                inp.worker_id refl other,
          ))
    ]

rewrite-HasRoom :
    (ctx : ToolContext) (inp : AssignInput) (plan : Plan) (task_id : String) (store : Store)
    (worker_id : String)
    → ((id : String) → count (λ row. row.task.id == id) store.tasks ≤ 1)
    → HasFreeSlot ctx.guild_pk inp.worker_id (some task_id) store
    → HasRoom ctx.guild_pk worker_id store
    → HasRoom ctx.guild_pk worker_id (record store {
      tasks = update (task_row ctx.guild_pk task_id) (reassign inp plan) store.tasks;
    })
rewrite-HasRoom ctx inp plan task_id store worker_id unique free (inl no_agents) = inl no_agents
rewrite-HasRoom ctx inp plan task_id store worker_id unique free (inr fits) =
    elim (Bool-cases (inp.worker_id == worker_id)) [
      | inl same ↦
          updated ctx.guild_pk worker_id task_id (reassign inp plan) store (unique task_id)
            (subst (λ w. HasFreeSlot ctx.guild_pk w (some task_id) store) (eq_of_== same) free)
      | inr other ↦ inr (
          omega (
            arith,
            fits,
            taken-update_other ctx.guild_pk worker_id (task_row ctx.guild_pk task_id)
                (reassign inp plan) store.tasks
                (λ row.
                  not_taken_lem (reassign inp plan row).task ctx.guild_pk worker_id inp.worker_id
                    refl other),
          ))
    ]

write_assignment-HasRoom :
    (fault : Fault) (now : ℕ) (fresh : String) (ctx : ToolContext) (inp : AssignInput) (plan : Plan)
    (reassigned : Option String) (store : Store) (worker_id : String)
    → ((id : String) → count (λ row. row.task.id == id) store.tasks ≤ 1)
    → HasFreeSlot ctx.guild_pk inp.worker_id reassigned store
    → HasRoom ctx.guild_pk worker_id store
    → HasRoom ctx.guild_pk worker_id
        (write_assignment fault now fresh ctx inp plan reassigned store).1
unfolding write_assignment
write_assignment-HasRoom fault now fresh ctx inp plan none store worker_id unique free fits =
    elim (Bool-cases (any (λ (r : TaskRow). r.task.id == fresh) store.tasks)) [
      | inl drawn ↦ rw drawn fits
      | inr new ↦ rw new (
          finish-HasRoom fault _ _ ctx.guild_pk worker_id _
            (insert-HasRoom now fresh ctx inp plan store worker_id free fits))
    ]
write_assignment-HasRoom fault now fresh ctx inp plan (some task_id) store worker_id unique free
      fits =
    finish-HasRoom fault _ _ ctx.guild_pk worker_id _
      (rewrite-HasRoom ctx inp plan task_id store worker_id unique free fits)

checked-HasRoom :
    (fault : Fault) (now : ℕ) (fresh : String) (ctx : ToolContext) (inp : AssignInput) (plan : Plan)
    (store : Store) (worker_id : String)
    → ((id : String) → count (λ row. row.task.id == id) store.tasks ≤ 1)
    → HasRoom ctx.guild_pk worker_id store
    → HasRoom ctx.guild_pk worker_id
        (if not (is_there inp.worker_id store.workers)
          then (Ending.replied Reply.went_offline true, store)
          else if not
              (accepts (worker_can_accept_task ctx.guild_pk inp.worker_id inp.task_id store))
          then (Ending.replied (Reply.no_capacity inp.worker_id) true, store)
          else write_assignment fault now fresh ctx inp plan (non_blank inp.task_id) store).1
checked-HasRoom fault now fresh ctx inp plan store worker_id unique fits =
    elim (Bool-cases (is_there inp.worker_id store.workers)) [
      | inl there ↦
          elim (Bool-cases
            (accepts (worker_can_accept_task ctx.guild_pk inp.worker_id inp.task_id store))) [
              | inl room ↦
                  rw (there, room)
                    (write_assignment-HasRoom fault now fresh ctx inp plan (non_blank inp.task_id)
                      store worker_id unique
                      (has_free_slot ctx.guild_pk inp.worker_id inp.task_id store room) fits)
              | inr full ↦ rw (there, full) fits
            ]
      | inr gone ↦ rw gone fits
    ]

-- An assignment, of a new task or of one that is there, and however it ends, gives no worker of the
-- guild more pending and working tasks than it has agents that are not offline, if it had no more
-- before and task ids are unique: the worker's tasks are counted again under the lock. A worker
-- without such agents is exempt.
pub assign_locked-HasRoom :
    (fault : Fault) (now : ℕ) (fresh : String) (ctx : ToolContext) (inp : AssignInput) (plan : Plan)
    (store : Store) (worker_id : String)
    → ((id : String) → count (λ row. row.task.id == id) store.tasks ≤ 1)
    → HasRoom ctx.guild_pk worker_id store
    → HasRoom ctx.guild_pk worker_id (assign_locked fault now fresh ctx inp plan store).1
unfolding assign_locked
assign_locked-HasRoom fault now fresh ctx inp plan store worker_id unique fits =
    elim (Bool-cases (comes_before_commit fault)) [
      | inl early ↦ rw early fits
      | inr later ↦
          rw later (checked-HasRoom fault now fresh ctx inp plan store worker_id unique fits)
    ]
