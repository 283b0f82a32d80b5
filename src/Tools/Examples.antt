-- ===== src/Tools/Examples.antt =====
-- The foreman's tools on concrete inputs.
use pioneer_square.Shared.{
  ◌+◌, ◌≤◌, ◌≡◌, ◌≢◌, ◌⊎◌, inl, inr, refl, String, Bool, true, false, ◌&&◌, Option, none, some,
  List, [], ◌∷◌, ◌==◌, string_eq, nat_eq, any, find?, filter, count, update, member, get,
  if◌then◌else◌, arith, Bool-cases, eq_of_==, subst,
}
use pioneer_square.Locks
use pioneer_square.Locks.{Lock}
use pioneer_square.Tasks.{is_terminal}
use pioneer_square.Workers.{Agent}
use pioneer_square.ModelTiers.{
  select_model_tier, get_model_for_tier, tier_of_phase, first_available, available,
}
use pioneer_square.Tools.{TaskRow, WorkerRow, Store, ToolContext, Reply}
use pioneer_square.Tools.Capacity.{worker_can_accept_task, has_idle_agent, select_followup_worker}
use pioneer_square.Tools.Capacity.Chosen.{
  can_serve, anyone_idle, InOrder, select_followup_worker_lem,
}
use pioneer_square.Tools.Choice.{
  Checked, resolve_tool, choose_model, apply_spawn_tool_defaults, unreachable,
  resolve_bedrock_model_id, get_providers_from_db,
}
use pioneer_square.Tools.Choice.Texts.{orgs}
use pioneer_square.Tools.Assign.{
  AssignInput, Linkage, Plan, repos_of, plan_for, plan_assignment, worker_row,
}
use pioneer_square.Tools.Assign.Writes.{
  Ending, Fault, finish, is_there, write_assignment, assign_locked,
}
use pioneer_square.Tools.Assign.Slots.{HasRoom}
use pioneer_square.Tools.Assign.Kept.{assign_locked-HasRoom}
use pioneer_square.Tools.Assign.Outcome.{Verdict, plan_assignment-Verdict}
use pioneer_square.Tools.Assign.Settled.{Settled}
use pioneer_square.Tools.Followup.{
  FollowupInput, set_up, set_up_for, dispatch, followup_set_up, followup_found,
  handle_send_followup,
}
use pioneer_square.Tools.Followup.Ended.{Deferred, handle_send_followup-once}
use pioneer_square.Tools.Orders.{Order, carry_out_all}
use pioneer_square.Tools.Orders.Terminal.{RowHasEnded, carry_out_all-RowHasEnded}

abbrev worker_of_id : String → WorkerRow
worker_of_id id = record {
  worker = record {
    id = id;
    guild_id = 1;
    state = "idle";
    last_seen = none;
    container_id = none;
    spawned_version = none;
    started_at = none;
    drain_requested_at = none;
    disabled = false;
  };
  repos = "o/r" ∷ [];
  tools = "claude" ∷ [];
  org = some "acme";
  provider = some "anthropic";
  user_id = none;
}

abbrev agent_of : String → String → String → Agent
agent_of id worker_id state = record {
  id = id;
  guild_id = 1;
  worker_id = some worker_id;
  state = state;
  activity = none;
  current_task_id = none;
}

abbrev task_of : String → Option String → String → Option String → TaskRow
task_of id worker_id state branch = record {
  task = record {
    id = id;
    guild_id = 1;
    worker_id = worker_id;
    state = state;
    branch = branch;
    worktree_path = none;
    pr_url = none;
    pr_number = none;
    pr_repo = none;
    claude_session_id = some "s";
    phase = some "execute";
    issue_repo = none;
    issue_number = none;
    issue_state = none;
    parent_task_id = none;
    deleted_at = none;
  };
  name = some id;
  description = "";
  tool = "claude";
  model = none;
  model_tier = none;
  provider = none;
  user_id = none;
  conversation_id = none;
  created_at = 0;
}

-- Worker "w" has two idle agents and one pending task; "v" has one agent, which is busy.
abbrev store : Store
store = record {
  tasks = task_of "t1" (some "w") "pending" none ∷ task_of "t2" (some "v") "done" (some "b") ∷ [];
  workers = worker_of_id "w" ∷ worker_of_id "v" ∷ [];
  agents = agent_of "a1" "w" "idle" ∷ agent_of "a2" "w" "idle" ∷ agent_of "a3" "v" "busy" ∷ [];
  locks = [];
  task_events = [];
  spawn_settings = [];
  catalog =
      record { provider = "anthropic"; model_id = "claude-haiku-4-5"; bedrock_model_id = none }
      ∷ [];
  sent = [];
}

abbrev ctx : ToolContext
ctx = record {
  guild_pk = 1;
  primary_repo = some "acme/site";
  user_id = none;
  conversation_id = none;
  conversation = none;
}

abbrev no_linkage : Linkage
no_linkage = record {
  issue_number = none;
  issue_repo = none;
  pr_number = none;
  pr_repo = none;
  branch = none;
  pr_url = none;
}

abbrev assign_to : String → AssignInput
assign_to worker_id = record {
  worker_id = worker_id;
  description = "fix";
  short_description = "fix";
  phase = some "review";
  tool = none;
  tier = none;
  provider = none;
  task_id = none;
  linkage = no_linkage;
  head_sha = none;
  repos = [];
  name = none;
  parent_task_id = none;
}

abbrev loads : String → Option (List String)
loads text = some []

abbrev plan : Plan
plan = record {
  linkage = no_linkage;
  repos = "acme/site" ∷ [];
  tool = "claude";
  model = some "claude-haiku-4-5";
  model_tier = "cheap";
  provider = none;
}

planned : plan_assignment loads ctx (assign_to "w") store ≡ Checked.passed plan
unfolding plan_assignment find? plan_for resolve_tool choose_model apply_spawn_tool_defaults member
    unreachable filter repos_of any orgs resolve_bedrock_model_id select_model_tier
    get_model_for_tier tier_of_phase get get_providers_from_db first_available available
planned = refl

assigned_to_w :
    (assign_locked Fault.no_fault 7 "t3" ctx (assign_to "w") plan store).0
    ≡ Ending.replied (Reply.task_given "t3") false
unfolding assign_locked is_there write_assignment finish worker_can_accept_task any count filter
    member
assigned_to_w = refl

full_v :
    (assign_locked Fault.no_fault 7 "t3" ctx (assign_to "v") plan store).0
    ≡ Ending.replied (Reply.no_capacity "v") true
unfolding assign_locked is_there write_assignment finish worker_can_accept_task any count filter
    member
full_v = refl

two : (a b : Bool) → (a && b) ≡ false → (if a then 1 else 0) + ((if b then 1 else 0) + 0) ≤ 1
two true true h = cc
two true false h = omega arith
two false true h = omega arith
two false false h = omega arith

apart : (id : String) → ("t1" == id && "t2" == id) ≡ false
apart id = elim (Bool-cases ("t1" == id)) [
  | inl same ↦ subst {A = String} (λ i. ("t1" == i && "t2" == i) ≡ false) (eq_of_== same) refl
  | inr other ↦ rw other refl
]

unique : (id : String) → count (λ row. row.task.id == id) store.tasks ≤ 1
unfolding count
unique id = two ("t1" == id) ("t2" == id) (apart id)

assign_locked-HasRoom_example :
    HasRoom 1 "w" (assign_locked Fault.after_commit 7 "t3" ctx (assign_to "w") plan store).1
unfolding count filter member
assign_locked-HasRoom_example =
    assign_locked-HasRoom Fault.after_commit 7 "t3" ctx (assign_to "w") plan store "w" unique
      (inr (omega arith))

plan_assignment-Verdict_example :
    Verdict ctx
      (assign_to "w")
      store
      (find? (worker_row 1 "w") store.workers)
      (plan_assignment loads ctx (assign_to "w") store)
plan_assignment-Verdict_example = plan_assignment-Verdict loads ctx (assign_to "w") store

-- The preferred worker is busy, and so is the task's own; "w" has an idle agent.
chosen_w : select_followup_worker 1 (some "v") (some "x") store ≡ some "w"
unfolding select_followup_worker has_idle_agent any find?
chosen_w = refl

select_followup_worker_lem_example :
    ((select_followup_worker 1 (some "v") (some "x") store ≡ none)
      × (has_idle_agent store (some "x") ≡ false)
      × (has_idle_agent store (some "v") ≡ false)
      × (anyone_idle 1 store ≡ false))
    ⊎ ((worker_id : String) × (select_followup_worker 1 (some "v") (some "x") store
          ≡ some worker_id)
        × (can_serve store worker_id ≡ true)
        × InOrder 1 (some "v") (some "x") store worker_id)
select_followup_worker_lem_example = select_followup_worker_lem 1 (some "v") (some "x") store

abbrev more : FollowupInput
more = record {
  task_id = "t2";
  instructions = "again";
  preferred_worker_id = none;
  tool = none;
  tier = none;
  provider = none;
  create_pr = false;
}

abbrev dumps : FollowupInput → String
dumps inp = inp.instructions

abbrev later_store : Store
later_store = record store {
  locks = (handle_send_followup loads dumps 0 "me" ctx more store).2.locks;
}

sent_something : (handle_send_followup loads dumps 0 "me" ctx more store).2.sent ≢ store.sent
unfolding handle_send_followup followup_found followup_set_up set_up_for set_up dispatch
    select_followup_worker has_idle_agent select_model_tier tier_of_phase get
    apply_spawn_tool_defaults resolve_bedrock_model_id any find? filter member update Locks.acquire
    Locks.insert
sent_something h = cc

handle_send_followup-once_example :
    Deferred dumps 600 more later_store
      (handle_send_followup loads dumps 600 "you" ctx more later_store)
unfolding Locks.run
handle_send_followup-once_example =
    handle_send_followup-once loads dumps 0 "me" ctx more store [] 600 "you" ctx more later_store
      sent_something tt (omega arith) refl refl

abbrev orders : List (ToolContext × Order)
orders =
    (ctx, Order.redirect "t2" "go on")
    ∷ (ctx, Order.cancel 9 "t1")
    ∷ (ctx, Order.shutdown "w" none)
    ∷ (ctx, Order.cancel 10 "t2")
    ∷ []

carry_out_all-RowHasEnded_example : RowHasEnded "t2" "done" (carry_out_all orders store).tasks
unfolding is_terminal any count member
carry_out_all-RowHasEnded_example =
    carry_out_all-RowHasEnded "t2" "done" refl orders store (refl, unique "t2")
