-- ===== src/Reports/Rejected.antt =====
-- What a rejection does.
use pioneer_square.Shared.{
  ℕ, String, ◌≡◌, refl, ◌∙◌, Bool, true, false, not, ◌&&◌, ◌||◌, none, ◌==◌, string_eq, nat_eq,
  option_eq, any, any-update, any_none, any_of_find?, any-false_of_find?, find?, arith,
  if◌then◌else◌, Bool-cases, Option-cases, inl, inr,
}
use pioneer_square.Locks.{acquire}
use pioneer_square.Locks.Ending.{acquire-release}
use pioneer_square.Tasks.{Task}
use pioneer_square.Tasks.Finalize.{task_key}
use pioneer_square.Reports.{Context, Hub, Rejection, assigned, unassign, handle_task_rejected}

-- A row of the task that is not back in the queue.
abbrev pub still_taken : Context → Rejection → Task → Bool
still_taken ctx msg t =
    (t.id == msg.task_id && t.guild_id == ctx.guild_pk)
    && not (t.state == "pending" && t.worker_id == none)

-- A rejection that names a task and its worker, while the task of the guild is pending or working
-- with that worker, puts the task back: no row of it is left that is not pending and unassigned, and
-- anybody can lock it.
pub handle_task_rejected-assigned :
    (ctx : Context) (msg : Rejection) (hub : Hub) (now : ℕ) (owner : String) (ttl : ℕ)
    → (msg.task_id == "" || msg.worker_id == "") ≡ false
    → any (assigned ctx msg) hub.db.tasks ≡ true
    → (any (still_taken ctx msg) (handle_task_rejected ctx msg hub).db.tasks ≡ false)
      × ((acquire now
            (task_key msg.task_id)
            owner
            ttl
            (handle_task_rejected ctx msg hub).db.locks).0
          ≡ true)
unfolding handle_task_rejected
handle_task_rejected-assigned ctx msg hub now owner ttl named has =
    elim (Option-cases (find? (assigned ctx msg) hub.db.tasks)) [
      | inl nobody ↦ absurd (cc (has, any-false_of_find? (assigned ctx msg) hub.db.tasks nobody))
      | inr (task, found) ↦ rw named (
          rw found (
            any-update _ _ _ hub.db.tasks ∙ any_none _ hub.db.tasks (λ t. back t),
            acquire-release now (task_key msg.task_id) owner ttl hub.db.locks,
          ))
    ]
  where
    back :
        (t : Task)
        → still_taken ctx msg
            (if t.id == msg.task_id && t.guild_id == ctx.guild_pk then unassign t else t)
          ≡ false
    back t = elim (Bool-cases (t.id == msg.task_id && t.guild_id == ctx.guild_pk)) [
      | inl hit ↦ rw hit (ground (arith, hit))
      | inr miss ↦ rw miss (ground (arith, miss))
    ]

-- A rejection changes nothing and tells nobody when no pending or working task of the guild is
-- assigned to its worker under its id.
pub handle_task_rejected-stale :
    (ctx : Context) (msg : Rejection) (hub : Hub)
    → any (assigned ctx msg) hub.db.tasks ≡ false
    → handle_task_rejected ctx msg hub ≡ hub
unfolding handle_task_rejected
handle_task_rejected-stale ctx msg hub foreign =
    elim (Bool-cases (msg.task_id == "" || msg.worker_id == "")) [
      | inl skipped ↦ rw skipped refl
      | inr named ↦ rw named (elim (Option-cases (find? (assigned ctx msg) hub.db.tasks)) [
        | inl nobody ↦ rw nobody refl
        | inr (task, found) ↦
            absurd (cc (foreign, any_of_find? (assigned ctx msg) hub.db.tasks task found))
      ])
    ]
