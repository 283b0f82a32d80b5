-- ===== src/Tools/Assign/Outcome.antt =====
-- What an assignment rests on, and what it leaves behind.
use pioneer_square.Shared.{
  ◌≡◌, inl, inr, refl, ◌∙◌, String, Bool, true, false, not, ◌&&◌, ◌||◌, Option, none, some, List,
  [], ◌∷◌, ◌==◌, string_eq, nat_eq, option_eq, any, filter, filter_congr, find?, ap, sym, arith,
  Bool-cases, eq_iff, or_default, member,
}
use pioneer_square.ModelTiers.{select_model_tier}
use pioneer_square.ModelTiers.Chosen.{IsTier, select_model_tier-IsTier}
use pioneer_square.Tools.{ModelCatalog, WorkerRow, Store, ToolContext, Reply, non_blank}
use pioneer_square.Tools.Choice.{
  resolve_tool, apply_spawn_tool_defaults, Checked, then_check, choose_model, catalog_row,
  listed_model, for_provider, resolve_bedrock_model_id, unreachable, in_org, is_list,
}
use pioneer_square.Tools.Choice.Texts.{orgs}
use pioneer_square.Tools.Assign.{
  AssignInput, Plan, worker_row, repos_of, inherit, find_row, plan_repos, plan_for, plan_found,
  plan_assignment,
}

-- The worker has the repository, or one of its organisations owns it.
abbrev pub reaches : WorkerRow → String → Bool
reaches row repo = member repo row.repos || in_org (orgs (or_default row.org "")) repo

abbrev pub out_of_reach : WorkerRow → List String → List String
out_of_reach row repos = filter (λ repo. not (reaches row repo)) repos

-- The repositories of the task: the given ones, else that of its links, else the guild's.
abbrev pub asked_repos : ToolContext → AssignInput → Store → List String
asked_repos ctx inp store =
    repos_of ctx inp (inherit inp.linkage (find_row ctx.guild_pk (non_blank inp.task_id) store))

-- What a plan promises of the worker's row: it has the tool, unless it is of the old kind that lists
-- none, and it reaches every repository of the task.
abbrev pub Suits : ToolContext → AssignInput → Store → Plan → WorkerRow → Type 0
Suits ctx inp store plan row =
    ((not (is_list row.tools) || member plan.tool row.tools) ≡ true)
    × ((tool : String) → inp.tool ≡ some tool → plan.tool ≡ tool)
    × (plan.repos ≡ asked_repos ctx inp store)
    × (out_of_reach row plan.repos ≡ [])
    × IsTier plan.model_tier

-- Why a model is refused: the catalog of the provider lacks it.
abbrev ModelVerdict : Option String → List ModelCatalog → Checked (Option String) → Type 0
ModelVerdict given catalog (Checked.passed model) = Unit
ModelVerdict given catalog (Checked.refused (Reply.model_not_available model provider)) =
    (given ≡ some provider) × (any (catalog_row provider model) catalog ≡ false)
ModelVerdict given catalog (Checked.refused reply) = ⊥

listed_model-ModelVerdict :
    (provider model : String) (catalog : List ModelCatalog)
    → ModelVerdict (some provider) catalog (listed_model provider model catalog)
listed_model-ModelVerdict provider model catalog =
    elim (Bool-cases (any (catalog_row provider model) catalog)) [
      | inl listed ↦ rw listed tt
      | inr unlisted ↦ rw unlisted (refl, unlisted)
    ]

for_provider-ModelVerdict :
    (provider : Option String) (tier : String) (model : Option String) (catalog : List ModelCatalog)
    → ModelVerdict provider catalog (for_provider provider tier model catalog)
for_provider-ModelVerdict none tier model catalog = tt
for_provider-ModelVerdict (some provider) tier none catalog = elim (Bool-cases (provider == "")) [
  | inl blank ↦ rw blank tt
  | inr given ↦ rw given tt
]
for_provider-ModelVerdict (some provider) tier (some model) catalog =
    elim (Bool-cases (provider == "")) [
      | inl blank ↦ rw blank tt
      | inr given ↦ elim (Bool-cases (model == "")) [
        | inl unset ↦ rw (given, unset) tt
        | inr set ↦ rw (given, set) (listed_model-ModelVerdict provider model catalog)
      ]
    ]

resolved-ModelVerdict :
    (provider : Option String) (catalog : List ModelCatalog) (checked : Checked (Option String))
    → ModelVerdict provider catalog checked
    → ModelVerdict provider catalog (
        then_check checked
          (λ chosen. Checked.passed (resolve_bedrock_model_id catalog provider chosen)))
resolved-ModelVerdict provider catalog (Checked.passed model) h = tt
resolved-ModelVerdict provider catalog (Checked.refused reply) h = h

choose_model-ModelVerdict :
    (provider : Option String) (tool tier : String) (model : Option String)
    (catalog : List ModelCatalog)
    → ModelVerdict provider catalog (choose_model provider tool tier model catalog)
unfolding choose_model
choose_model-ModelVerdict provider tool tier model catalog = elim (Bool-cases (tool == "pi")) [
  | inl pi ↦ rw pi tt
  | inr other ↦ rw other (
      resolved-ModelVerdict provider catalog (for_provider provider tier model catalog)
        (for_provider-ModelVerdict provider tier model catalog))
]

-- Why a call is refused before the lock, and what a plan rests on.
abbrev pub Verdict : ToolContext → AssignInput → Store → Option WorkerRow → Checked Plan → Type 0
Verdict ctx inp store found (Checked.passed plan) =
    (row : WorkerRow) × (found ≡ some row) × Suits ctx inp store plan row
Verdict ctx inp store found (Checked.refused Reply.worker_not_found) = found ≡ none
Verdict ctx inp store found (Checked.refused (Reply.tool_not_supported tool tools)) =
    (row : WorkerRow) × (found ≡ some row)
    × (tools ≡ row.tools)
    × (inp.tool ≡ some tool)
    × (is_list row.tools ≡ true)
    × (member tool row.tools ≡ false)
Verdict ctx inp store found (Checked.refused (Reply.model_not_available model provider)) =
    (row : WorkerRow) × (found ≡ some row)
    × (row.provider ≡ some provider)
    × (any (catalog_row provider model) store.catalog ≡ false)
Verdict ctx inp store found (Checked.refused (Reply.repos_unreachable repos)) =
    (row : WorkerRow) × (found ≡ some row)
    × (repos ≡ out_of_reach row (asked_repos ctx inp store))
    × (is_list repos ≡ true)
Verdict ctx inp store found (Checked.refused reply) = ⊥

not_listed : (xs : List String) → is_list xs ≡ false → xs ≡ []
not_listed [] h = refl
not_listed (x ∷ xs) h = cc

unreachable-out_of_reach :
    (row : WorkerRow) (repos : List String) → unreachable row repos ≡ out_of_reach row repos
unfolding unreachable
unreachable-out_of_reach row repos =
    filter_congr _ (λ repo. not (reaches row repo)) repos (λ repo. ground arith)

plan_repos-Verdict :
    (ctx : ToolContext) (inp : AssignInput) (store : Store) (row : WorkerRow) (plan : Plan)
    → (is_list row.tools && not (member plan.tool row.tools)) ≡ false
    → ((tool : String) → inp.tool ≡ some tool → plan.tool ≡ tool)
    → plan.repos ≡ asked_repos ctx inp store
    → IsTier plan.model_tier
    → Verdict ctx inp store (some row) (plan_repos row plan)
plan_repos-Verdict ctx inp store row plan tool asked repos tier =
    let same = unreachable-out_of_reach row plan.repos in
    elim (Bool-cases (is_list (unreachable row plan.repos))) [
      | inl missing ↦ rw missing (row, refl, same ∙ ap (out_of_reach row) repos, missing)
      | inr reached ↦ rw reached (
        row,
        refl,
        (
          ground (arith, tool),
          asked,
          repos,
          sym same ∙ not_listed (unreachable row plan.repos) reached,
          tier,
        ),
      )
    ]

checked-Verdict :
    (ctx : ToolContext) (inp : AssignInput) (store : Store) (row : WorkerRow)
    (plan : Option String → Plan) (checked : Checked (Option String))
    → ModelVerdict row.provider store.catalog checked
    → ((model : Option String) → Verdict ctx inp store (some row) (plan_repos row (plan model)))
    → Verdict ctx inp store (some row) (then_check checked (λ model. plan_repos row (plan model)))
checked-Verdict ctx inp store row plan (Checked.passed model) h repos = repos model
checked-Verdict ctx inp store row plan (Checked.refused (Reply.model_not_available model provider))
      h repos =
    (row, refl, h.0, h.1)
checked-Verdict ctx inp store row plan (Checked.refused reply) h repos = absurd h

first_tool-supported :
    (requested : Option String) (tools : List String)
    → (is_list tools && not (member (resolve_tool requested tools).0 tools))
      ≡ (resolve_tool requested tools).1
unfolding resolve_tool member
first_tool-supported none [] = refl
first_tool-supported none (tool ∷ tools) = ground (arith, eq_iff tool tool)
first_tool-supported (some tool) tools = refl

requested_tool :
    (requested : Option String) (tools : List String) (tool : String)
    → requested ≡ some tool
    → (resolve_tool requested tools).0 ≡ tool
unfolding resolve_tool
requested_tool none tools tool e = cc
requested_tool (some t) tools tool e = cc

lacking_tool :
    (requested : Option String) (tools : List String)
    → (resolve_tool requested tools).1 ≡ true
    → (requested ≡ some (resolve_tool requested tools).0)
      × (is_list tools ≡ true)
      × (member (resolve_tool requested tools).0 tools ≡ false)
unfolding resolve_tool member
lacking_tool none [] h = cc
lacking_tool none (tool ∷ tools) h = cc
lacking_tool (some t) tools h = (refl, ground (arith, h), ground (arith, h))

plan_for-Verdict :
    (loads : String → Option (List String)) (ctx : ToolContext) (inp : AssignInput) (store : Store)
    (row : WorkerRow)
    → Verdict ctx inp store (some row) (plan_for loads ctx inp store row)
unfolding plan_for
plan_for-Verdict loads ctx inp store row = elim (Bool-cases (resolve_tool inp.tool row.tools).1) [
  | inl lacks ↦
      let (asked, lists, lacking) = lacking_tool inp.tool row.tools lacks in
      rw lacks (row, refl, refl, asked, lists, lacking)
  | inr has_tool ↦ rw has_tool (
      checked-Verdict ctx inp store row _ _
        (choose_model-ModelVerdict row.provider (resolve_tool inp.tool row.tools).0
          (select_model_tier (some (or_default inp.phase "execute")) (non_blank inp.tier))
          (apply_spawn_tool_defaults loads ctx.guild_pk row.user_id
            (resolve_tool inp.tool row.tools).0 (non_blank inp.provider, none) store).1
          store.catalog)
        (λ model.
          plan_repos-Verdict ctx inp store row _
            (first_tool-supported inp.tool row.tools ∙ has_tool) (requested_tool inp.tool row.tools)
            refl
            (select_model_tier-IsTier (some (or_default inp.phase "execute"))
              (non_blank inp.tier))))
]

plan_found-Verdict :
    (loads : String → Option (List String)) (ctx : ToolContext) (inp : AssignInput) (store : Store)
    (found : Option WorkerRow)
    → Verdict ctx inp store found (plan_found loads ctx inp store found)
plan_found-Verdict loads ctx inp store none = refl
plan_found-Verdict loads ctx inp store (some row) = plan_for-Verdict loads ctx inp store row

-- The checks before the lock: a plan is made only for a worker of the guild that has the tool, or
-- lists none, and reaches every repository of the task, and it has the tool and the repositories that
-- were asked for and one of the three tiers; and a refusal is true: no worker of the guild has the id;
-- or the worker lists tools and the one asked for is not among them; or the catalog lacks the model
-- for the worker's own provider; or repositories of the task are out of the worker's reach, and the
-- refusal names exactly those.
pub plan_assignment-Verdict :
    (loads : String → Option (List String)) (ctx : ToolContext) (inp : AssignInput) (store : Store)
    → Verdict ctx inp store
        (find? (worker_row ctx.guild_pk inp.worker_id) store.workers)
        (plan_assignment loads ctx inp store)
unfolding plan_assignment
plan_assignment-Verdict loads ctx inp store =
    plan_found-Verdict loads ctx inp store
      (find? (worker_row ctx.guild_pk inp.worker_id) store.workers)
