-- ===== src/Tools/Choice.antt =====
-- The choice of tool, provider and model, and the repositories that a worker reaches, in
-- backend/foreman/tools.py.
pub mod Texts
use Prim.Native.String.{◌++◌ as str_append}
use text.Mathlib.Text.{starts_with}
use pioneer_square.Shared.{
  ℕ, String, Bool, true, false, not, ◌&&◌, ◌||◌, Option, none, some, List, [], ◌∷◌, map, ◌==◌, ◌!=◌,
  string_eq, option_eq, any, filter, find?, member, if◌then◌else◌, get, or_default,
}
use pioneer_square.SpawnConfig.{ResolvedSpawn}
use pioneer_square.SpawnConfig.Stored.{resolve_spawn}
use pioneer_square.ModelTiers.{Provider, get_model_for_tier}
use pioneer_square.Workers.{is_set}
use pioneer_square.Tools.{ModelCatalog, WorkerRow, Store, Reply, is_given, or_text}
use pioneer_square.Tools.Choice.Texts.{orgs}

abbrev pub first_tool : List String → String
first_tool [] = "claude"
first_tool (tool ∷ tools) = tool

abbrev pub is_list : List String → Bool
is_list [] = false
is_list (x ∷ xs) = true

-- The tool of a new assignment, and whether the worker lacks it.
unfoldable pub resolve_tool : Option String → List String → String × Bool
resolve_tool none worker_tools = (first_tool worker_tools, false)
resolve_tool (some tool) worker_tools =
    (tool, is_list worker_tools && not (member tool worker_tools))

abbrev pub has_spawn_defaults : String → Bool
has_spawn_defaults tool = member tool ("pi" ∷ "codex" ∷ [])

-- `defaults.get(field) or (resolved... if tool != "pi" else None)`, where the value is missing.
abbrev pub fill : Option String → Option String → String → Option String → Option String
fill (some given) default tool generic = some given
fill none default tool generic = or_text default (if tool != "pi" then generic else none)

-- `loads` is `json.loads`, for the JSON columns of the settings.
unfoldable pub apply_spawn_tool_defaults :
    (String → Option (List String))
    → ℕ
    → Option String
    → String
    → Option String × Option String
    → Store
    → Option String × Option String
apply_spawn_tool_defaults loads guild_pk user_id tool (provider, model) store =
    let resolved = resolve_spawn loads store.spawn_settings guild_pk user_id none in
    let defaults = or_default (get tool resolved.tool_defaults) [] in
    if not (has_spawn_defaults tool) || is_set provider && is_set model
    then (provider, model)
    else (
      fill provider (get "provider" defaults) tool resolved.provider,
      fill model (get "model" defaults) tool resolved.model,
    )

-- The row of a model under a provider.
abbrev pub catalog_row : String → String → ModelCatalog → Bool
catalog_row provider model row = row.provider == provider && row.model_id == model

abbrev pub bedrock_id : Option ModelCatalog → String → String
bedrock_id none model = model
bedrock_id (some row) model =
    or_default (if is_given row.bedrock_model_id then row.bedrock_model_id else none) model

unfoldable pub resolve_bedrock_model_id :
    List ModelCatalog → Option String → Option String → Option String
resolve_bedrock_model_id catalog provider none = none
resolve_bedrock_model_id catalog provider (some model) =
    if provider != some "bedrock" || model == ""
    then some model
    else some (bedrock_id (find? (catalog_row "bedrock" model) catalog) model)

-- `get_providers_from_db`: one entry for each provider, with the models of its rows; the order in
-- which the providers are listed is left out.
unfoldable pub get_providers_from_db : List ModelCatalog → List Provider
get_providers_from_db [] = []
get_providers_from_db (row ∷ rows) =
    let rest = get_providers_from_db rows in
    record {
      id = row.provider;
      models =
          row.model_id
          ∷ map (λ (r : ModelCatalog). r.model_id)
              (filter (λ (r : ModelCatalog). r.provider == row.provider) rows);
    }
    ∷ filter (λ (p : Provider). not (p.id == row.provider)) rest

-- What a check lets pass, or the reply that it ends with.
pub data Checked (A : Type 0) : Type 0 where
  refused : Reply → Checked A
  passed : A → Checked A

abbrev pub then_check : {B : Type 0} {A : Type 0} → Checked A → (A → Checked B) → Checked B
then_check (Checked.refused reply) next = Checked.refused reply
then_check (Checked.passed a) next = next a

-- A model that is given must be in the catalog of the worker's provider.
abbrev pub listed_model : String → String → List ModelCatalog → Checked (Option String)
listed_model provider model catalog =
    if any (catalog_row provider model) catalog
    then Checked.passed (some model)
    else Checked.refused (Reply.model_not_available model provider)

abbrev pub model_for : String → String → Option String → List ModelCatalog → Checked (Option String)
model_for provider tier none catalog =
    Checked.passed (get_model_for_tier tier provider (some (get_providers_from_db catalog)) [])
model_for provider tier (some model) catalog =
    if model == ""
    then Checked.passed (get_model_for_tier tier provider (some (get_providers_from_db catalog)) [])
    else listed_model provider model catalog

abbrev pub for_provider :
    Option String → String → Option String → List ModelCatalog → Checked (Option String)
for_provider none tier model catalog = Checked.passed model
for_provider (some provider) tier model catalog =
    if provider == "" then Checked.passed model else model_for provider tier model catalog

-- The model of a new assignment: Pi chooses its own.
unfoldable pub choose_model :
    Option String → String → String → Option String → List ModelCatalog → Checked (Option String)
choose_model provider tool tier model catalog =
    if tool == "pi"
    then Checked.passed model
    else then_check (for_provider provider tier model catalog)
        (λ chosen. Checked.passed (resolve_bedrock_model_id catalog provider chosen))

-- `r.startswith(worker_org_prefixes)`
abbrev pub in_org : List String → String → Bool
in_org prefixes repo = any (λ org. starts_with repo (str_append org "/")) prefixes

unfoldable pub unreachable : WorkerRow → List String → List String
unreachable row repos =
    filter (λ repo. not (member repo row.repos) && not (in_org (orgs (or_default row.org "")) repo))
      repos
