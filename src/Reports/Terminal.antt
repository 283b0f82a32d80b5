-- ===== src/Reports/Terminal.antt =====
-- What the workers' reports leave of a task that has ended.
use pioneer_square.Shared.{
  ℕ, String, eq_iff, ◌≡◌, refl, ◌∙◌, Bool, true, false, not, ◌&&◌, ◌||◌, Option, none, some, List,
  [], ◌∷◌, ◌==◌, string_eq, nat_eq, update, any, sym, eq_of_==, any_of_find?, any-not_unique,
  any_imp, count-update, ◌≤◌, any-update, member, count, find?, if◌then◌else◌, arith, Bool-cases,
  Option-cases, subst, inl, inr,
}
use pioneer_square.Tasks.{Task, is_terminal}
use pioneer_square.Tasks.Finalize.{Db, Call, finalize_task, finalize_selected}
use pioneer_square.Tasks.Finalize.Rows.{count-finalize_found}
use pioneer_square.Tasks.Finalize.Once.{has_state, finalize_selected-has_state}
use pioneer_square.Reports.{
  Context, Hub, AgentState, Rejection, handle_agent_state, handle_task_rejected, give_up, given_up,
  own_running, assigned,
}
use pioneer_square.Reports.Update.{
  TaskUpdate, patch, call_of, persisted_state, reports_error, handle_task_update, patched, conclude,
  ends,
}
use pioneer_square.Reports.Finish.{
  Finished, handle_task_complete, handle_task_followup_done, completed, followed_up,
}

pub data Report : Type 0 where
  agent_report : AgentState → Report
  rejection : Rejection → Report
  update_report : TaskUpdate → Report
  completion : Finished → Report
  followup : Finished → Report

abbrev writes : Option String → Bool
writes none = false
writes (some state) = not (is_terminal state)

-- A report that names a state to write without a guard.
abbrev pub writes_state : Report → Bool
writes_state (Report.update_report msg) = writes msg.state
writes_state _ = false

-- The row is in the terminal state, and no other row has its id.
abbrev pub HasEnded : String → String → List Task → Type 0
HasEnded id state tasks = (has_state id state tasks ≡ true) × (count (λ t. t.id == id) tasks ≤ 1)

-- An UPDATE that keeps ids and does not touch the state of an ended row.
update-HasEnded :
    (id state : String) (p : Task → Bool) (f : Task → Task) (tasks : List Task)
    → ((t : Task) → ((f t).id == id) ≡ (t.id == id))
    → ((t : Task)
        → (t.id == id && t.state == state) ≡ true
        → p t ≡ true
        → ((f t).state == state) ≡ true)
    → HasEnded id state tasks
    → HasEnded id state (update p f tasks)
update-HasEnded id state p f tasks same keep (ended, unique) = (
  any-update _ p f tasks ∙ any_imp _ _ tasks kept ended,
  rw (count-update _ p f tasks same) unique,
)
  where
    kept :
        (t : Task)
        → (t.id == id && t.state == state) ≡ true
        → ((if p t then f t else t).id == id && (if p t then f t else t).state == state) ≡ true
    kept t own = elim (Bool-cases (p t)) [
      | inl touched ↦ rw touched (ground (arith, own, same t, keep t own touched))
      | inr other ↦ rw other own
    ]

-- A terminal state is none of the others.
terminal_ne : (s w : String) → is_terminal s ≡ true → is_terminal w ≡ false → (s == w) ≡ false
terminal_ne s w ends runs = elim (Bool-cases (s == w)) [
  | inl same ↦
      let at : s ≡ w = eq_of_== same in
      let both : is_terminal w ≡ true = rw (sym at) ends in absurd (cc (runs, both))
  | inr other ↦ other
]

terminal_row :
    (id state : String) (t : Task)
    → is_terminal state ≡ true
    → (t.id == id && t.state == state) ≡ true
    → is_terminal t.state ≡ true
terminal_row id state t terminal own =
    let hit : (t.state == state) ≡ true = ground (arith, own) in
    let at : t.state ≡ state = eq_of_== hit in rw at terminal

working_runs : is_terminal "working" ≡ false
unfolding is_terminal member
working_runs = refl

pending_runs : is_terminal "pending" ≡ false
unfolding is_terminal member
pending_runs = refl

-- A frame without a state, or with a terminal one, leaves the column to `finalize_task`.
persisted_old :
    (reported : Option String) (old : String)
    → writes reported ≡ false
    → persisted_state reported old ≡ old
persisted_old none old h = refl
persisted_old (some reported) old h = ground (arith, h)

module _ (id state : String) (terminal : is_terminal state ≡ true) where
  give_up-HasEnded :
      (released : Option (String × String)) (hub : Hub)
      → HasEnded id state hub.db.tasks
      → HasEnded id state (give_up released hub).db.tasks
  unfolding give_up
  give_up-HasEnded none hub h = h
  give_up-HasEnded (some (task_id, worker_id)) hub h =
      let moved =
        update-HasEnded id state (own_running task_id worker_id) _ hub.db.tasks (λ t. refl)
          (λ t own touched. absurd (running_open t own touched)) h in
      elim (Bool-cases (count (own_running task_id worker_id) hub.db.tasks == 0)) [
        | inl none_moved ↦ rw none_moved moved
        | inr some_moved ↦ rw some_moved moved
      ]
    where
      running_open :
          (t : Task)
          → (t.id == id && t.state == state) ≡ true
          → own_running task_id worker_id t ≡ true
          → ⊥
      running_open t own touched =
          let ended = terminal_row id state t terminal own in
          unfold own_running is_terminal in
          ground (arith, touched, terminal_ne t.state "working" ended refl)

  -- A rejection that finds its task cannot be one of an ended task.
  assigned_other :
      (ctx : Context) (msg : Rejection) (tasks : List Task) (task : Task)
      → HasEnded id state tasks
      → find? (assigned ctx msg) tasks ≡ some task
      → (msg.task_id == id) ≡ false
  assigned_other ctx msg tasks task (ended, unique) found = elim (Bool-cases (msg.task_id == id)) [
    | inr other ↦ other
    | inl same ↦
        let at : msg.task_id ≡ id = eq_of_== same in
        let alone = any-not_unique (λ t. t.id == id) (λ t. t.state == state) tasks unique ended in
        let running =
          any_imp (assigned ctx msg) (λ t. t.id == id && not (t.state == state)) tasks
            (open_of_assigned at) (any_of_find? (assigned ctx msg) tasks task found) in
        absurd (cc (alone, running))
  ]
    where
      open_of_assigned :
          msg.task_id ≡ id
          → (t : Task) → assigned ctx msg t ≡ true
          → (t.id == id && not (t.state == state)) ≡ true
      open_of_assigned at t h =
          let hit : (t.id == msg.task_id) ≡ true = unfold assigned in ground (arith, h) in
          let own : (t.id == id) ≡ true = subst (λ j. (t.id == j) ≡ true) at hit in
          let member_hit : (t.state == "pending" || t.state == "working") ≡ true =
            unfold assigned member in ground (arith, h) in
          elim (Bool-cases (t.state == state)) [
            | inr other ↦ ground (arith, own, other)
            | inl same ↦
                let ends = terminal_row id state t terminal (ground (arith, own, same)) in
                ground (
                  arith,
                  member_hit,
                  terminal_ne t.state "pending" ends pending_runs,
                  terminal_ne t.state "working" ends working_runs,
                )
          ]

  rejected-HasEnded :
      (ctx : Context) (msg : Rejection) (hub : Hub)
      → HasEnded id state hub.db.tasks
      → HasEnded id state (handle_task_rejected ctx msg hub).db.tasks
  unfolding handle_task_rejected
  rejected-HasEnded ctx msg hub h = elim (Bool-cases (msg.task_id == "" || msg.worker_id == "")) [
    | inl skipped ↦ rw skipped h
    | inr complete ↦ rw complete (elim (Option-cases (find? (assigned ctx msg) hub.db.tasks)) [
      | inl stale ↦ rw stale h
      | inr (task, found) ↦
          let other = assigned_other ctx msg hub.db.tasks task h found in
          rw found (
            update-HasEnded id state _ _ hub.db.tasks (λ t. refl)
              (λ t own touched. absurd (
                ground (
                  arith,
                  own,
                  touched,
                  other,
                  eq_iff t.id id,
                  eq_iff t.id msg.task_id,
                  eq_iff msg.task_id id,
                )))
              h)
    ])
  ]

  finalize-HasEnded :
      (c : Call) (selected : Option Task) (db : Db)
      → HasEnded id state db.tasks
      → HasEnded id state (finalize_selected c selected db).1.tasks
  unfolding finalize_selected
  finalize-HasEnded c none db h = h
  finalize-HasEnded c (some task) db (ended, unique) = (
    unfold finalize_selected in
        finalize_selected-has_state id state c (some task) db terminal ended,
    rw (count-finalize_found (λ t. t.id == id) c task db (λ t s at. refl)) unique,
  )

  conclude-HasEnded :
      (parse_pr_url : Option String → Option ℕ × Option String) (ctx : Context) (msg : TaskUpdate)
      (reported : Option String) (hub : Hub)
      → HasEnded id state hub.db.tasks
      → HasEnded id state (conclude parse_pr_url ctx msg reported hub).db.tasks
  unfolding conclude finalize_task
  conclude-HasEnded parse_pr_url ctx msg none hub h = h
  conclude-HasEnded parse_pr_url ctx msg (some outcome) hub h =
      elim (Bool-cases (is_terminal outcome)) [
        | inl ends_it ↦
            rw ends_it (finalize-HasEnded (call_of parse_pr_url ctx msg outcome) _ hub.db h)
        | inr goes_on ↦ rw goes_on h
      ]

  patched-HasEnded :
      (parse_pr_url : Option String → Option ℕ × Option String) (msg : TaskUpdate)
      (tasks : List Task)
      → writes_state (Report.update_report msg) ≡ false
      → HasEnded id state tasks
      → HasEnded id state (update (λ t. t.id == msg.task_id) (patched parse_pr_url msg) tasks)
  unfolding patched
  patched-HasEnded parse_pr_url msg tasks guarded h =
      update-HasEnded id state _ _ tasks (λ t. refl)
        (λ t own touched. ground (arith, own, persisted_old msg.state t.state guarded)) h

  updated-HasEnded :
      (parse_pr_url : Option String → Option ℕ × Option String) (ctx : Context) (msg : TaskUpdate)
      (hub : Hub)
      → writes_state (Report.update_report msg) ≡ false
      → HasEnded id state hub.db.tasks
      → HasEnded id state (handle_task_update parse_pr_url ctx msg hub).db.tasks
  unfolding handle_task_update
  updated-HasEnded parse_pr_url ctx msg hub guarded h =
      let patched_all = patched-HasEnded parse_pr_url msg hub.db.tasks guarded h in
      let done =
        conclude-HasEnded parse_pr_url ctx msg msg.state (patch parse_pr_url msg hub) patched_all in
      elim (Bool-cases (msg.task_id == "")) [
        | inl skipped ↦ rw skipped h
        | inr named ↦ rw named (elim (Bool-cases (reports_error msg.state)) [
          | inl error ↦ rw error done
          | inr other ↦ rw other done
        ])
      ]

  completed-HasEnded :
      (parse_pr_url : Option String → Option ℕ × Option String) (msg : Finished) (tasks : List Task)
      → HasEnded id state tasks
      → HasEnded id state (completed parse_pr_url msg tasks)
  unfolding completed
  completed-HasEnded parse_pr_url msg tasks h =
      update-HasEnded id state _ _ _ (λ t. refl)
        (λ t own touched. absurd (
          ground (
            arith,
            touched,
            terminal_ne t.state "working" (terminal_row id state t terminal own) working_runs,
          )))
        (update-HasEnded id state _ _ _ (λ t. ground arith) (λ t own touched. ground arith)
          (update-HasEnded id state _ _ tasks (λ t. ground arith) (λ t own touched. ground arith)
            h))

  followed_up-HasEnded :
      (parse_pr_url : Option String → Option ℕ × Option String) (msg : Finished) (tasks : List Task)
      → HasEnded id state tasks
      → HasEnded id state (followed_up parse_pr_url msg tasks)
  unfolding followed_up
  followed_up-HasEnded parse_pr_url msg tasks h =
      update-HasEnded id state _ _ _ (λ t. ground arith) (λ t own touched. ground arith)
        (update-HasEnded id state _ _ _ (λ t. ground arith)
          (λ t own touched. absurd (ground (arith, touched, terminal_row id state t terminal own)))
          (update-HasEnded id state _ _ tasks (λ t. ground arith) (λ t own touched. ground arith)
            h))

module _ (parse_pr_url : Option String → Option ℕ × Option String) where
  unfoldable pub handle : Context → Report → Hub → Hub
  handle ctx (Report.agent_report msg) = handle_agent_state ctx msg
  handle ctx (Report.rejection msg) = handle_task_rejected ctx msg
  handle ctx (Report.update_report msg) = handle_task_update parse_pr_url ctx msg
  handle ctx (Report.completion msg) = handle_task_complete parse_pr_url ctx msg
  handle ctx (Report.followup msg) = handle_task_followup_done parse_pr_url ctx msg

  -- The reports of any sockets, one after another.
  unfoldable pub handle_all : List (Context × Report) → Hub → Hub
  handle_all [] hub = hub
  handle_all ((ctx, report) ∷ reports) hub = handle_all reports (handle ctx report hub)

  handle-HasEnded :
      (id state : String) (ctx : Context) (report : Report) (hub : Hub)
      → is_terminal state ≡ true
      → writes_state report ≡ false
      → HasEnded id state hub.db.tasks
      → HasEnded id state (handle ctx report hub).db.tasks
  unfolding handle handle_agent_state handle_task_complete handle_task_followup_done
  handle-HasEnded id state ctx (Report.agent_report msg) hub terminal guarded h =
      give_up-HasEnded id state terminal (given_up ctx msg hub.agents) _ h
  handle-HasEnded id state ctx (Report.rejection msg) hub terminal guarded h =
      rejected-HasEnded id state terminal ctx msg hub h
  handle-HasEnded id state ctx (Report.update_report msg) hub terminal guarded h =
      updated-HasEnded id state terminal parse_pr_url ctx msg hub guarded h
  handle-HasEnded id state ctx (Report.completion msg) hub terminal guarded h =
      elim (Bool-cases (msg.task_id == "")) [
        | inl skipped ↦ rw skipped h
        | inr named ↦
            rw named (completed-HasEnded id state terminal parse_pr_url msg hub.db.tasks h)
      ]
  handle-HasEnded id state ctx (Report.followup msg) hub terminal guarded h =
      elim (Bool-cases (msg.task_id == "")) [
        | inl skipped ↦ rw skipped h
        | inr named ↦
            rw named (followed_up-HasEnded id state terminal parse_pr_url msg hub.db.tasks h)
      ]

  -- A task with an id of its own that is in a terminal state is in that state after any reports of
  -- any workers, if none of them is an update that names a state which is not terminal.
  pub handle_all-HasEnded :
      (id state : String) (reports : List (Context × Report)) (hub : Hub)
      → is_terminal state ≡ true
      → any (λ r. writes_state r.1) reports ≡ false
      → HasEnded id state hub.db.tasks
      → HasEnded id state (handle_all reports hub).db.tasks
  unfolding handle_all any
  handle_all-HasEnded id state [] hub terminal guarded h = h
  handle_all-HasEnded id state ((ctx, report) ∷ reports) hub terminal guarded h =
      let first : writes_state report ≡ false = ground (arith, guarded) in
      let others : any (λ r. writes_state r.1) reports ≡ false = ground (arith, guarded) in
      handle_all-HasEnded id state reports (handle ctx report hub) terminal others
        (handle-HasEnded id state ctx report hub terminal first h)
