-- ===== src/Reports/Freed.antt =====
-- Whose lock the report of an agent frees: `handle_agent_state` of backend/ws_handlers.py, from the
-- message and the rows.
use pioneer_square.Shared.{
  String, ◌≡◌, Bool, true, false, ◌&&◌, Option, none, some, List, [], ◌∷◌, ◌==◌, string_eq, nat_eq,
  any, sql_eq, eq_iff, arith, any_congr, any_none, member, Option-cases, count, find?, ◌≤◌, ◌||◌,
  ◌!=◌, refl, ap, sym, ◌∙◌, if◌then◌else◌, eq_of_==, Bool-cases, inl, inr, count-zero→any,
}
use pioneer_square.Tasks.{Task}
use pioneer_square.Workers.{Agent}
use pioneer_square.Tasks.Finalize.{task_key}
use pioneer_square.Reports.{
  Context, Hub, AgentState, given_up, own_running, agent_row, releases_lock, truthy,
}

-- The lock that a resting agent frees: the one of the task that its row names, if that task is
-- working and is its own worker's.
abbrev pub frees : Option (String × String) → List Task → String → Bool
frees none tasks key = false
frees (some (task_id, worker_id)) tasks key =
    any (λ t. t.id == task_id && t.state == "working" && sql_eq t.worker_id worker_id) tasks
    && key == task_key task_id

-- A task of its own worker that the agent's row names.
abbrev pub runs : Agent → Task → Bool
runs a t = t.id != "" && sql_eq a.current_task_id t.id && elim a.worker_id [
  | none ↦ false
  | some worker_id ↦ worker_id != "" && sql_eq t.worker_id worker_id
]

-- The agent rests, and the key is that of a working task that it runs.
abbrev pub is_freed : Context → AgentState → Hub → String → Bool
is_freed ctx msg hub key =
    (msg.state == "idle"
      || msg.state == "offline"
      || msg.state == "error"
      || msg.state == "timeout")
    && any
        (λ a.
          sql_eq msg.agent_id a.id
          && a.id != ""
          && a.guild_id == ctx.guild_pk
          && any (λ t. runs a t && t.state == "working" && key == task_key t.id) hub.db.tasks)
        hub.agents

any-find_unique :
    (p q : Agent → Bool) (agents : List Agent)
    → count p agents ≤ 1
    → any (λ a. p a && q a) agents ≡ elim (find? p agents) [ none ↦ false | some a ↦ q a ]
unfolding any find? count
any-find_unique p q [] unique = refl
any-find_unique p q (a ∷ agents) unique = elim (Bool-cases (p a)) [
  | inl hit ↦
      let others : count p agents ≡ 0 = ground (arith, hit, unique) in
      let no_other : any (λ b. p b && q b) agents ≡ false =
        count-zero→any (λ b. p b && q b) p agents (λ b both. ground (arith, both)) others in
      rw (hit, no_other) (ground arith)
  | inr miss ↦ rw miss (any-find_unique p q agents (ground (arith, miss, unique)))
]

frees_one :
    (key task_id worker_id : String) (a : Agent) (t : Task)
    → a.current_task_id ≡ some task_id
    → a.worker_id ≡ some worker_id
    → (runs a t && t.state == "working" && key == task_key t.id) ≡ (
        (task_id != "" && worker_id != "" && key == task_key task_id)
        && own_running task_id worker_id t)
unfolding own_running
frees_one key task_id worker_id a t names works = elim (Bool-cases (t.id == task_id)) [
  | inl same ↦
      let at : t.id ≡ task_id = eq_of_== same in
      rw (names, works, at) (ground (arith, eq_iff task_id task_id))
  | inr other ↦ rw (names, works) (ground (arith, other, eq_iff task_id t.id, eq_iff t.id task_id))
]

any-and_const :
    (b : Bool) (p : Task → Bool) (tasks : List Task)
    → any (λ t. b && p t) tasks ≡ (b && any p tasks)
unfolding any
any-and_const b p [] = ground arith
any-and_const b p (t ∷ tasks) = ground (arith, any-and_const b p tasks)

abbrev frees_key : Hub → String → Agent → Bool
frees_key hub key a =
    any (λ t. runs a t && t.state == "working" && key == task_key t.id) hub.db.tasks

frees-if :
    (key task_id worker_id : String) (tasks : List Task)
    → ((task_id != "" && worker_id != "" && key == task_key task_id)
        && any (own_running task_id worker_id) tasks)
      ≡ frees
          (if task_id != "" && worker_id != "" then some (task_id, worker_id) else none)
          tasks
          key
unfolding own_running
frees-if key task_id worker_id tasks = elim (Bool-cases (task_id != "" && worker_id != "")) [
  | inl both ↦ rw both (ground (arith, both))
  | inr missing ↦ rw missing (ground (arith, missing))
]

frees-some :
    (key task_id worker_id : String) (a : Agent) (hub : Hub)
    → a.current_task_id ≡ some task_id
    → a.worker_id ≡ some worker_id
    → frees
        (if task_id != "" && worker_id != "" then some (task_id, worker_id) else none)
        hub.db.tasks
        key
      ≡ frees_key hub key a
frees-some key task_id worker_id a hub names works = sym (
    any_congr _ _ hub.db.tasks (λ t. frees_one key task_id worker_id a t names works)
    ∙ any-and_const _ (own_running task_id worker_id) hub.db.tasks
    ∙ frees-if key task_id worker_id hub.db.tasks)

-- What the row of the agent says it gives up.
abbrev named_by : Agent → Option (String × String)
named_by a = elim a.current_task_id [
  | none ↦ none
  | some task_id ↦ elim a.worker_id [
    | none ↦ none
    | some worker_id ↦ if task_id != "" && worker_id != "" then some (task_id, worker_id) else none
  ]
]

abbrev named_by_found : Option Agent → Option (String × String)
named_by_found found = elim found [ none ↦ none | some a ↦ named_by a ]

named_by_both :
    (a : Agent) (task_id worker_id : String)
    → a.current_task_id ≡ some task_id
    → a.worker_id ≡ some worker_id
    → named_by a ≡ (if task_id != "" && worker_id != "" then some (task_id, worker_id) else none)
named_by_both a task_id worker_id names works = rw (names, works) refl

runs_nothing : (a : Agent) (t : Task) → a.current_task_id ≡ none → runs a t ≡ false
runs_nothing a t names = rw names (ground arith)

runs_for_nobody : (a : Agent) (t : Task) → a.worker_id ≡ none → runs a t ≡ false
runs_for_nobody a t works = rw works (ground arith)

frees-named_by :
    (key : String) (a : Agent) (hub : Hub)
    → frees (named_by a) hub.db.tasks key ≡ frees_key hub key a
frees-named_by key a hub = elim (Option-cases a.current_task_id) [
  | inl idle ↦ rw idle (sym (any_none _ hub.db.tasks (λ t. ground (arith, runs_nothing a t idle))))
  | inr (task_id, names) ↦ elim (Option-cases a.worker_id) [
    | inl alone ↦
        rw (names, alone)
          (sym (any_none _ hub.db.tasks (λ t. ground (arith, runs_for_nobody a t alone))))
    | inr (worker_id, works) ↦
        ap (λ g. frees g hub.db.tasks key) (named_by_both a task_id worker_id names works)
        ∙ frees-some key task_id worker_id a hub names works
  ]
]

frees-named_by_found :
    (rests : Bool) (key : String) (found : Option Agent) (hub : Hub)
    → frees (if rests then named_by_found found else none) hub.db.tasks key
      ≡ (rests && elim found [ none ↦ false | some a ↦ frees_key hub key a ])
frees-named_by_found false key found hub = refl
frees-named_by_found true key none hub = refl
frees-named_by_found true key (some a) hub = frees-named_by key a hub

own_row :
    (ctx : Context) (id : String) (q : Agent → Bool) (agents : List Agent)
    → (id != "" && any (λ a. agent_row ctx (some id) a && q a) agents)
      ≡ any (λ a. id == a.id && a.id != "" && a.guild_id == ctx.guild_pk && q a) agents
unfolding any
own_row ctx id q [] = ground arith
own_row ctx id q (a ∷ agents) = elim (Bool-cases (a.id == id)) [
  | inl same ↦
      let at : a.id ≡ id = eq_of_== same in
      ground (arith, own_row ctx id q agents, same, ap (λ (x : String). x == "") at, eq_iff id a.id)
  | inr other ↦ ground (arith, other, own_row ctx id q agents, eq_iff id a.id, eq_iff a.id id)
]

agent_rows :
    (ctx : Context) (agent_id : Option String) (q : Agent → Bool) (agents : List Agent)
    → (truthy agent_id && any (λ a. agent_row ctx agent_id a && q a) agents)
      ≡ any (λ a. sql_eq agent_id a.id && a.id != "" && a.guild_id == ctx.guild_pk && q a) agents
agent_rows ctx none q agents = sym (any_none _ agents (λ a. refl))
agent_rows ctx (some id) q agents = own_row ctx id q agents

and_and_assoc : (a b c : Bool) → ((a && b) && c) ≡ (a && (b && c))
and_and_assoc a b c = ground arith

resting_states :
    (state : String)
    → releases_lock state
      ≡ (state == "idle" || state == "offline" || state == "error" || state == "timeout")
unfolding member
resting_states state = ground arith

pub frees-given_up :
    (ctx : Context) (msg : AgentState) (hub : Hub) (key : String)
    → count (agent_row ctx msg.agent_id) hub.agents ≤ 1
    → frees (given_up ctx msg hub.agents) hub.db.tasks key ≡ is_freed ctx msg hub key
unfolding given_up member
frees-given_up ctx msg hub key unique =
    let of_row =
      frees-named_by_found (releases_lock msg.state && truthy msg.agent_id) key
        (find? (agent_row ctx msg.agent_id) hub.agents) hub in
    let one_row =
      any-find_unique (agent_row ctx msg.agent_id) (frees_key hub key) hub.agents unique in
    let rows = agent_rows ctx msg.agent_id (frees_key hub key) hub.agents in
    of_row
    ∙ ap (λ b. (releases_lock msg.state && truthy msg.agent_id) && b) (sym one_row)
    ∙ and_and_assoc (releases_lock msg.state) (truthy msg.agent_id)
        (any (λ a. agent_row ctx msg.agent_id a && frees_key hub key a) hub.agents)
    ∙ ap (λ b. releases_lock msg.state && b) rows
    ∙ ap
        (λ b.
          b
          && any
              (λ a.
                sql_eq msg.agent_id a.id
                && a.id != ""
                && a.guild_id == ctx.guild_pk
                && frees_key hub key a)
              hub.agents)
        (resting_states msg.state)
