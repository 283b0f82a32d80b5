-- ===== src/Tools/Followup/Ended.antt =====
-- How a follow-up ends, and that one at a time runs on a task.
use pioneer_square.Shared.{
  ℕ, ◌+◌, ◌≤◌, ◌≡◌, ◌≢◌, ◌⊎◌, inl, inr, refl, String, Bool, true, false, Option, none, some, List,
  [], ◌∷◌, ◌++◌, string_eq, All, seconds, Bool-cases,
}
use pioneer_square.Locks
use pioneer_square.Locks.{Lock, Op}
use pioneer_square.Locks.Exclusion.{Harmless, acquire_excludes}
use pioneer_square.Tasks.Finalize.{task_key}
use pioneer_square.Tools.{TaskRow, Store, ToolContext, Reply}
use pioneer_square.Tools.Choice.{Checked}
use pioneer_square.Tools.Followup.{
  FollowupInput, Setup, queued_event, dispatch, followup_set_up, followup_found,
  handle_send_followup,
}

-- A call that starts nothing: its instructions are queued, or it is refused and nothing is left of it.
abbrev pub Deferred :
    (FollowupInput → String) → ℕ → FollowupInput → Store → Reply × Bool × Store → Type 0
Deferred dumps now inp store (reply, is_error, after) =
    (after.tasks ≡ store.tasks)
    × (after.sent ≡ store.sent)
    × (((reply ≡ Reply.followup_queued)
          × (after.task_events ≡ store.task_events ++ queued_event dumps now inp ∷ []))
        ⊎ (after ≡ store))

followup_set_up-Deferred :
    (dumps : FollowupInput → String) (now : ℕ) (owner : String) (inp : FollowupInput)
    (row : TaskRow) (checked : Checked Setup) (store : Store)
    → (Locks.acquire now (task_key inp.task_id) owner Locks.default_ttl_seconds store.locks).0
      ≡ false
    → Deferred dumps now inp store (followup_set_up dumps now owner inp row checked store)
unfolding followup_set_up
followup_set_up-Deferred dumps now owner inp row (Checked.refused reply) store h =
    (refl, refl, inr refl)
followup_set_up-Deferred dumps now owner inp row (Checked.passed setup) store h =
    rw h (refl, refl, inl (refl, refl))

followup_found-Deferred :
    (loads : String → Option (List String)) (dumps : FollowupInput → String) (now : ℕ)
    (owner : String) (ctx : ToolContext) (inp : FollowupInput) (found : Option TaskRow)
    (store : Store)
    → (Locks.acquire now (task_key inp.task_id) owner Locks.default_ttl_seconds store.locks).0
      ≡ false
    → Deferred dumps now inp store (followup_found loads dumps now owner ctx inp found store)
unfolding followup_found
followup_found-Deferred loads dumps now owner ctx inp none store h = (refl, refl, inr refl)
followup_found-Deferred loads dumps now owner ctx inp (some row) store h =
    followup_set_up-Deferred dumps now owner inp row _ store h

-- A call that sends something holds the task's lock.
abbrev Holds : ℕ → String → FollowupInput → Store → Store → Type 0
Holds now owner inp store after =
    ((Locks.acquire now (task_key inp.task_id) owner Locks.default_ttl_seconds store.locks).0
      ≡ true)
    × (after.locks
        ≡ (Locks.acquire now (task_key inp.task_id) owner Locks.default_ttl_seconds store.locks).1)

followup_set_up-Holds :
    (dumps : FollowupInput → String) (now : ℕ) (owner : String) (inp : FollowupInput)
    (row : TaskRow) (checked : Checked Setup) (store : Store)
    → (followup_set_up dumps now owner inp row checked store).2.sent ≢ store.sent
    → Holds now owner inp store (followup_set_up dumps now owner inp row checked store).2
unfolding followup_set_up dispatch
followup_set_up-Holds dumps now owner inp row (Checked.refused reply) store sends =
    absurd (sends refl)
followup_set_up-Holds dumps now owner inp row (Checked.passed setup) store sends =
    elim (Bool-cases
      (Locks.acquire now (task_key inp.task_id) owner Locks.default_ttl_seconds store.locks).0) [
        | inl granted ↦ (granted, rw granted refl)
        | inr refused ↦ absurd (sends (rw refused refl))
      ]

followup_found-Holds :
    (loads : String → Option (List String)) (dumps : FollowupInput → String) (now : ℕ)
    (owner : String) (ctx : ToolContext) (inp : FollowupInput) (found : Option TaskRow)
    (store : Store)
    → (followup_found loads dumps now owner ctx inp found store).2.sent ≢ store.sent
    → Holds now owner inp store (followup_found loads dumps now owner ctx inp found store).2
unfolding followup_found
followup_found-Holds loads dumps now owner ctx inp none store sends = absurd (sends refl)
followup_found-Holds loads dumps now owner ctx inp (some row) store sends =
    followup_set_up-Holds dumps now owner inp row _ store sends

-- One follow-up at a time: after a call that sent something, for the thirty minutes of its lock and
-- whatever the others do with the lock table short of releasing this lock, every later call for the
-- task, by anyone and in any state of the other tables, writes no task and sends nothing; it queues
-- its instructions as one event, or it leaves everything as it was.
pub handle_send_followup-once :
    (loads : String → Option (List String)) (dumps : FollowupInput → String) (now : ℕ)
    (owner : String) (ctx : ToolContext) (inp : FollowupInput) (store : Store) (ops : List Op)
    (later : ℕ) (other : String) (other_ctx : ToolContext) (again : FollowupInput)
    (then_store : Store)
    → (handle_send_followup loads dumps now owner ctx inp store).2.sent ≢ store.sent
    → All (Harmless (task_key inp.task_id) owner (now + seconds Locks.default_ttl_seconds)) ops
    → later ≤ now + seconds Locks.default_ttl_seconds
    → again.task_id ≡ inp.task_id
    → then_store.locks
      ≡ Locks.run ops (handle_send_followup loads dumps now owner ctx inp store).2.locks
    → Deferred dumps later again then_store
        (handle_send_followup loads dumps later other other_ctx again then_store)
unfolding handle_send_followup
handle_send_followup-once loads dumps now owner ctx inp store ops later other other_ctx again
      then_store sends safe soon same left =
    let (granted, locks) = followup_found-Holds loads dumps now owner ctx inp _ store sends in
    followup_found-Deferred loads dumps later other other_ctx again _ then_store (
      rw (same, left, locks)
        (acquire_excludes now (task_key inp.task_id) owner Locks.default_ttl_seconds store.locks ops
          later other Locks.default_ttl_seconds granted safe soon))
