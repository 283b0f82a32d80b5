-- ===== src/Tools/Assign/Ended.antt =====
-- How a call of `_handle_assign_task` of backend/foreman/tools.py ends: what it has written and sent.
use pioneer_square.Shared.{
  ℕ, ◌≡◌, ◌⊎◌, inl, inr, refl, String, Bool, true, false, not, ◌||◌, if◌then◌else◌, Option, none,
  some, List, [], ◌∷◌, ◌++◌, ◌==◌, string_eq, nat_eq, option_eq, any, update, Bool-cases,
}
use pioneer_square.Tools.{TaskRow, Store, ToolContext, Reply, ToolMessage, non_blank}
use pioneer_square.Tools.Capacity.{accepts, worker_can_accept_task}
use pioneer_square.Tools.Choice.{Checked}
use pioneer_square.Tools.Assign.{AssignInput, Plan, task_row}
use pioneer_square.Tools.Assign.Writes.{
  Ending, Fault, finish, comes_before_commit, comes_in_checks, is_there, reassign, new_task_row,
  write_assignment, assign_locked,
}

-- The tasks after a write: one row is inserted, with an id that no row had, or the rows of one id in
-- the guild are rewritten.
abbrev pub IsWritten :
    ℕ → String → ToolContext → AssignInput → Plan → List TaskRow → List TaskRow → Type 0
IsWritten now fresh ctx inp plan before after =
    ((non_blank inp.task_id ≡ none)
      × (any (λ (r : TaskRow). r.task.id == fresh) before ≡ false)
      × (after ≡ before ++ new_task_row now fresh ctx inp plan ∷ []))
    ⊎ ((task_id : String) × (non_blank inp.task_id ≡ some task_id)
        × (after ≡ update (task_row ctx.guild_pk task_id) (reassign inp plan) before))

-- A plan was made, the worker was there with room when the lock was held, and one task was written.
abbrev pub Written :
    Bool → Bool → Checked Plan → ℕ → String → ToolContext → AssignInput → Store → Store → Type 0
Written there room planned now fresh ctx inp store after =
    (there ≡ true)
    × (room ≡ true)
    × ((plan : Plan) × (planned ≡ Checked.passed plan)
        × IsWritten now fresh ctx inp plan store.tasks after.tasks)

abbrev pub Untouched : Store → Store → Type 0
Untouched store after = (after.tasks ≡ store.tasks) × (after.sent ≡ store.sent)

abbrev pub SentOne : Store → Store → Type 0
SentOne store after = (message : ToolMessage) × (after.sent ≡ store.sent ++ message ∷ [])

abbrev pub comes : Fault → Bool
comes Fault.no_fault = false
comes _ = true

-- What raised: an exception from outside, or the INSERT of an id that was drawn before.
abbrev pub has_cause : Fault → String → Store → Bool
has_cause fault fresh store = comes fault || any (λ (r : TaskRow). r.task.id == fresh) store.tasks

abbrev pub EndedIf :
    Bool
    → Bool
    → Checked Plan
    → Fault
    → ℕ
    → String
    → ToolContext
    → AssignInput
    → Store
    → Ending
    → Store
    → Type 0
EndedIf there room planned fault now fresh ctx inp store (Ending.replied reply true) after =
    Untouched store after
EndedIf there room planned fault now fresh ctx inp store (Ending.replied reply false) after =
    Written there room planned now fresh ctx inp store after × SentOne store after
EndedIf there room planned fault now fresh ctx inp store Ending.raised after =
    (has_cause fault fresh store ≡ true)
    × (Untouched store after
        ⊎ (Written there room planned now fresh ctx inp store after
            × ((after.sent ≡ store.sent) ⊎ SentOne store after)))

abbrev pub Ended :
    Checked Plan → Fault → ℕ → String → ToolContext → AssignInput → Store → Ending × Store → Type 0
Ended planned fault now fresh ctx inp store (ending, after) =
    EndedIf (is_there inp.worker_id store.workers)
      (accepts (worker_can_accept_task ctx.guild_pk inp.worker_id inp.task_id store)) planned fault
      now fresh ctx inp store ending after

abbrev WrittenEnd :
    Fault → ℕ → String → ToolContext → AssignInput → Plan → Store → Ending × Store → Type 0
WrittenEnd fault now fresh ctx inp plan store (ending, after) =
    EndedIf true true (Checked.passed plan) fault now fresh ctx inp store ending after

finish-WrittenEnd :
    (fault : Fault) (now : ℕ) (fresh : String) (ctx : ToolContext) (inp : AssignInput) (plan : Plan)
    (store : Store) (reply : Reply) (message : ToolMessage) (tasks : List TaskRow)
    → IsWritten now fresh ctx inp plan store.tasks tasks
    → WrittenEnd fault now fresh ctx inp plan store
        (finish fault reply message (record store { tasks = tasks }))
unfolding finish
finish-WrittenEnd Fault.after_commit now fresh ctx inp plan store reply message tasks h =
    (refl, inr ((refl, refl, (plan, refl, h)), inl refl))
finish-WrittenEnd Fault.after_send now fresh ctx inp plan store reply message tasks h =
    (refl, inr ((refl, refl, (plan, refl, h)), inr (message, refl)))
finish-WrittenEnd _ now fresh ctx inp plan store reply message tasks h =
    ((refl, refl, (plan, refl, h)), (message, refl))

or_right : (a b : Bool) → b ≡ true → (a || b) ≡ true
or_right true b h = refl
or_right false b h = h

write_assignment-WrittenEnd :
    (fault : Fault) (now : ℕ) (fresh : String) (ctx : ToolContext) (inp : AssignInput) (plan : Plan)
    (reassigned : Option String) (store : Store)
    → non_blank inp.task_id ≡ reassigned
    → WrittenEnd fault now fresh ctx inp plan store
        (write_assignment fault now fresh ctx inp plan reassigned store)
unfolding write_assignment
write_assignment-WrittenEnd fault now fresh ctx inp plan none store e =
    elim (Bool-cases (any (λ (r : TaskRow). r.task.id == fresh) store.tasks)) [
      | inl drawn ↦ rw drawn (or_right (comes fault) _ drawn, inl (refl, refl))
      | inr new ↦
          rw new (finish-WrittenEnd fault now fresh ctx inp plan store _ _ _ (inl (e, new, refl)))
    ]
write_assignment-WrittenEnd fault now fresh ctx inp plan (some task_id) store e =
    finish-WrittenEnd fault now fresh ctx inp plan store _ _ _ (inr (task_id, e, refl))

assign_checked-Ended :
    (fault : Fault) (now : ℕ) (fresh : String) (ctx : ToolContext) (inp : AssignInput) (plan : Plan)
    (store : Store)
    → Ended (Checked.passed plan) fault now fresh ctx inp store (
        if not (is_there inp.worker_id store.workers)
        then (Ending.replied Reply.went_offline true, store)
        else if not (accepts (worker_can_accept_task ctx.guild_pk inp.worker_id inp.task_id store))
        then (Ending.replied (Reply.no_capacity inp.worker_id) true, store)
        else write_assignment fault now fresh ctx inp plan (non_blank inp.task_id) store)
assign_checked-Ended fault now fresh ctx inp plan store =
    elim (Bool-cases (is_there inp.worker_id store.workers)) [
      | inl there ↦
          elim (Bool-cases
            (accepts (worker_can_accept_task ctx.guild_pk inp.worker_id inp.task_id store))) [
              | inl room ↦
                  rw (there, room)
                    (write_assignment-WrittenEnd fault now fresh ctx inp plan
                      (non_blank inp.task_id) store refl)
              | inr full ↦ rw (there, full) (refl, refl)
            ]
      | inr gone ↦ rw gone (refl, refl)
    ]

pub raised-Ended :
    (planned : Checked Plan) (fault : Fault) (now : ℕ) (fresh : String) (ctx : ToolContext)
    (inp : AssignInput) (store : Store)
    → comes fault ≡ true
    → Ended planned fault now fresh ctx inp store (Ending.raised, store)
raised-Ended planned fault now fresh ctx inp store h = (rw h refl, inl (refl, refl))

before_commit_comes : (fault : Fault) → comes_before_commit fault ≡ true → comes fault ≡ true
before_commit_comes Fault.before_commit h = refl
before_commit_comes Fault.no_fault h = cc
before_commit_comes Fault.in_checks h = cc
before_commit_comes Fault.after_commit h = cc
before_commit_comes Fault.after_send h = cc

pub in_checks_comes : (fault : Fault) → comes_in_checks fault ≡ true → comes fault ≡ true
in_checks_comes Fault.in_checks h = refl
in_checks_comes Fault.no_fault h = cc
in_checks_comes Fault.before_commit h = cc
in_checks_comes Fault.after_commit h = cc
in_checks_comes Fault.after_send h = cc

pub assign_locked-Ended :
    (fault : Fault) (now : ℕ) (fresh : String) (ctx : ToolContext) (inp : AssignInput) (plan : Plan)
    (store : Store)
    → Ended
        (Checked.passed plan)
        fault
        now
        fresh
        ctx
        inp
        store
        (assign_locked fault now fresh ctx inp plan store)
unfolding assign_locked
assign_locked-Ended fault now fresh ctx inp plan store =
    elim (Bool-cases (comes_before_commit fault)) [
      | inl early ↦ rw early (
          raised-Ended (Checked.passed plan) fault now fresh ctx inp store
            (before_commit_comes fault early))
      | inr later ↦ rw later (assign_checked-Ended fault now fresh ctx inp plan store)
    ]
