-- ===== src/SpawnConfig.antt =====
-- backend/spawn_config.py: the layers that a worker's spawn settings are resolved from.
-- `json.loads` is a parameter: the decoded list, or `none` where it raises.
pub mod Merging
pub mod Precedence
pub mod Stored
pub mod Upsert
pub mod Written
mod Examples
use pioneer_square.Shared.{
  ℕ, String, ◌≡◌, Bool, true, false, not, ◌&&◌, Option, none, some, List, [], ◌∷◌, map, ◌==◌, ◌!=◌,
  string_eq, if◌then◌else◌, Dict, get, set, or_default,
}

pub record SpawnLayer : Type 0 where
  pub repos : Option (List String)
  pub tools : Option (List String)
  pub agent_count : Option ℕ
  pub env_vars : Option (Dict String)
  pub tool_env_vars : Option (Dict (Dict String))
  pub provider : Option String
  pub model : Option String
  pub tool_defaults : Option (Dict (Dict String))

pub record ResolvedSpawn : Type 0 where
  pub repos : List String
  pub tools : List String
  pub agent_count : Option ℕ
  pub env_vars : Dict String
  pub tool_env_vars : Dict (Dict String)
  pub provider : Option String
  pub model : Option String
  pub tool_defaults : Dict (Dict String)

abbrev pub empty_spawn : ResolvedSpawn
empty_spawn = record {
  repos = [];
  tools = [];
  agent_count = none;
  env_vars = [];
  tool_env_vars = [];
  provider = none;
  model = none;
  tool_defaults = [];
}

-- The truth of `out.get(k)`: there is a value and it is not the empty text.
abbrev pub is_real : Option String → Bool
is_real none = false
is_real (some v) = v != ""

unfoldable pub merge_entry : Dict String → String × String → Dict String
merge_entry out e = if e.1 == "" && is_real (get e.0 out) then out else set e.0 e.1 out

unfoldable pub merge_env : Dict String → Dict String → Dict String
merge_env out [] = out
merge_env out (e ∷ over) = merge_env (merge_entry out e) over

unfoldable pub merge_tools : Dict (Dict String) → Dict (Dict String) → Dict (Dict String)
merge_tools out [] = out
merge_tools out (e ∷ over) =
    merge_tools (set e.0 (merge_env (or_default (get e.0 out) []) e.1) out) over

-- `if layer.repos: r.repos = list(layer.repos)`
abbrev pub replace_list : List String → Option (List String) → List String
replace_list old none = old
replace_list old (some []) = old
replace_list old (some (x ∷ xs)) = x ∷ xs

-- `if layer.model is not None: r.model = layer.model`
abbrev pub replace {ℓ} : {A : Type ℓ} → Option A → Option A → Option A
replace old none = old
replace old (some a) = some a

-- A dict that is None is falsy, as an empty one is.
abbrev pub or_empty {ℓ} : {V : Type ℓ} → Option (Dict V) → Dict V
or_empty none = []
or_empty (some d) = d

unfoldable pub merge_layer : ResolvedSpawn → SpawnLayer → ResolvedSpawn
merge_layer r layer = record {
  repos = replace_list r.repos layer.repos;
  tools = replace_list r.tools layer.tools;
  agent_count = replace r.agent_count layer.agent_count;
  env_vars = merge_env r.env_vars (or_empty layer.env_vars);
  tool_env_vars = merge_tools r.tool_env_vars (or_empty layer.tool_env_vars);
  provider = replace r.provider layer.provider;
  model = replace r.model layer.model;
  tool_defaults = merge_tools r.tool_defaults (or_empty layer.tool_defaults);
}

unfoldable pub merge_from : ResolvedSpawn → List (Option SpawnLayer) → ResolvedSpawn
merge_from r [] = r
merge_from r (none ∷ layers) = merge_from r layers
merge_from r (some layer ∷ layers) = merge_from (merge_layer r layer) layers

abbrev pub merge_layers : List (Option SpawnLayer) → ResolvedSpawn
merge_layers = merge_from empty_spawn
