-- ===== src/Reports/Locked.antt =====
-- Which reports free the lock of a task.
use pioneer_square.Shared.{
  ℕ, String, ◌≡◌, true, false, not, ◌&&◌, Option, none, some, List, [], ◌∷◌, ◌==◌, string_eq,
  nat_eq, any, filter, eq_iff, arith, any-eq-count, count, ◌≤◌, ap, ◌∙◌,
}
use pioneer_square.Locks.{Lock, acquire, is_locked, release}
use pioneer_square.Locks.Ending.{acquire-release}
use pioneer_square.Tasks.Finalize.{task_key}
use pioneer_square.Reports.{
  Context, Hub, AgentState, given_up, give_up, own_running, handle_agent_state, agent_row,
}
use pioneer_square.Reports.Freed.{frees, is_freed, frees-given_up}
use pioneer_square.Reports.Finish.{Finished, handle_task_complete, handle_task_followup_done}

module _ (parse_pr_url : Option String → Option ℕ × Option String) where
  -- After a completion or a finished follow-up that names its task,
  -- anybody can lock the task.
  pub acquire-handle_task_complete :
      (ctx : Context) (msg : Finished) (hub : Hub) (now : ℕ) (owner : String) (ttl : ℕ)
      → (msg.task_id == "") ≡ false
      → ((acquire now
            (task_key msg.task_id)
            owner
            ttl
            (handle_task_complete parse_pr_url ctx msg hub).db.locks).0
          ≡ true)
        × ((acquire now
              (task_key msg.task_id)
              owner
              ttl
              (handle_task_followup_done parse_pr_url ctx msg hub).db.locks).0
            ≡ true)
  unfolding handle_task_complete handle_task_followup_done
  acquire-handle_task_complete ctx msg hub now owner ttl named =
      let free = acquire-release now (task_key msg.task_id) owner ttl hub.db.locks in
      rw named (free, free)

is_locked-release :
    (now : ℕ) (key k : String) (table : List Lock)
    → is_locked now key (release k none table) ≡ (is_locked now key table && not (key == k))
unfolding is_locked release any filter
is_locked-release now key k [] = ground arith
is_locked-release now key k (row ∷ table) =
    ground
      (arith, is_locked-release now key k table, eq_iff row.key k, eq_iff row.key key, eq_iff key k)

is_locked-give_up :
    (now : ℕ) (key : String) (released : Option (String × String)) (hub : Hub)
    → is_locked now key (give_up released hub).db.locks
      ≡ (is_locked now key hub.db.locks && not (frees released hub.db.tasks key))
unfolding give_up own_running
is_locked-give_up now key none hub = ground arith
is_locked-give_up now key (some (task_id, worker_id)) hub = ground (
  arith,
  any-eq-count (own_running task_id worker_id) hub.db.tasks,
  is_locked-release now key (task_key task_id) hub.db.locks,
)

-- After an agent's report a key is locked exactly when it was before and is not the lock that the
-- report frees: the one of a working task that the agent's row names and that is assigned to the
-- agent's own worker, if the reported state is idle, offline, error or timeout; where at most one
-- row of the guild has the agent's id.
pub is_locked-handle_agent_state :
    (ctx : Context) (msg : AgentState) (hub : Hub) (now : ℕ) (key : String)
    → count (agent_row ctx msg.agent_id) hub.agents ≤ 1
    → is_locked now key (handle_agent_state ctx msg hub).db.locks
      ≡ (is_locked now key hub.db.locks && not (is_freed ctx msg hub key))
unfolding handle_agent_state
is_locked-handle_agent_state ctx msg hub now key unique =
    is_locked-give_up now key (given_up ctx msg hub.agents) _
    ∙ ap (λ b. is_locked now key hub.db.locks && not b) (frees-given_up ctx msg hub key unique)
