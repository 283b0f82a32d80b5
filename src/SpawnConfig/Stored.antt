-- ===== src/SpawnConfig/Stored.antt =====
-- The rows of `spawn_settings`: reading, the partial upsert, and the resolution over the table.
use pioneer_square.Shared.{
  ℕ, String, Bool, ◌&&◌, Option, none, some, List, [], ◌∷◌, map, ◌==◌, string_eq, nat_eq, option_eq,
  if◌then◌else◌, find?, update, Dict,
}
use pioneer_square.SpawnConfig.{SpawnLayer, ResolvedSpawn, or_empty, merge_layers}

-- A JSON column: null is none.
pub record SpawnSettings : Type 0 where
  pub guild_id : ℕ
  pub user_id : Option String
  pub repos : String
  pub tools : String
  pub agent_count : Option ℕ
  pub env_vars : Option (Dict String)
  pub tool_env_vars : Option (Dict (Option (Dict String)))
  pub provider : Option String
  pub model : Option String
  pub tool_defaults : Option (Dict (Option (Dict String)))
  pub updated_at : ℕ

abbrev tool_dicts : Option (Dict (Option (Dict String))) → Dict (Dict String)
tool_dicts d = map (λ e. (e.0, or_empty e.1)) (or_empty d)

abbrev text_or : String → String → String
text_or s t = if s == "" then t else s

abbrev list_or_empty : Option (List String) → List String
list_or_empty none = []
list_or_empty (some xs) = xs

-- `loads` is `json.loads`: none when it raises.
unfoldable pub row_to_layer :
    (String → Option (List String)) → Option SpawnSettings → Option SpawnLayer
row_to_layer loads none = none
row_to_layer loads (some row) = some (record {
  repos = some (list_or_empty (loads (text_or row.repos "[]")));
  tools = some (list_or_empty (loads (text_or row.tools "[]")));
  agent_count = row.agent_count;
  env_vars = some (or_empty row.env_vars);
  tool_env_vars = some (tool_dicts row.tool_env_vars);
  provider = row.provider;
  model = row.model;
  tool_defaults = some (tool_dicts row.tool_defaults);
})

-- The WHERE clause: `user_id IS NULL` for the baseline of the guild, `user_id = ...` for a user.
abbrev pub row_of : ℕ → Option String → SpawnSettings → Bool
row_of guild_pk user_id row = row.guild_id == guild_pk && row.user_id == user_id

unfoldable pub get_spawn_row : ℕ → Option String → List SpawnSettings → Option SpawnSettings
get_spawn_row guild_pk user_id rows = find? (row_of guild_pk user_id) rows

-- The keyword arguments of `upsert_spawn_row`.
pub data Field : Type 0 where
  repos : String → Field
  tools : String → Field
  agent_count : Option ℕ → Field
  env_vars : Dict String → Field
  tool_env_vars : Dict (Option (Dict String)) → Field
  provider : Option String → Field
  model : Option String → Field
  tool_defaults : Dict (Option (Dict String)) → Field

unfoldable pub set_field : SpawnSettings → Field → SpawnSettings
set_field row (Field.repos v) = record row { repos = v }
set_field row (Field.tools v) = record row { tools = v }
set_field row (Field.agent_count v) = record row { agent_count = v }
set_field row (Field.env_vars v) = record row { env_vars = some v }
set_field row (Field.tool_env_vars v) = record row { tool_env_vars = some v }
set_field row (Field.provider v) = record row { provider = v }
set_field row (Field.model v) = record row { model = v }
set_field row (Field.tool_defaults v) = record row { tool_defaults = some v }

unfoldable pub set_fields : ℕ → List Field → SpawnSettings → SpawnSettings
set_fields now [] row = record row { updated_at = now }
set_fields now (f ∷ fs) row = set_fields now fs (set_field row f)

-- The defaults of the columns.
abbrev pub new_row : ℕ → ℕ → Option String → SpawnSettings
new_row now guild_pk user_id = record {
  guild_id = guild_pk;
  user_id = user_id;
  repos = "[]";
  tools = "[]";
  agent_count = none;
  env_vars = some [];
  tool_env_vars = some [];
  provider = none;
  model = none;
  tool_defaults = some [];
  updated_at = now;
}

unfoldable pub upsert_found :
    ℕ
    → ℕ
    → Option String
    → List Field
    → List SpawnSettings
    → Option SpawnSettings
    → List SpawnSettings
upsert_found now guild_pk user_id fields rows none =
    set_fields now fields (new_row now guild_pk user_id) ∷ rows
upsert_found now guild_pk user_id fields rows (some row) =
    update (row_of guild_pk user_id) (set_fields now fields) rows

unfoldable pub upsert_spawn_row :
    ℕ → ℕ → Option String → List Field → List SpawnSettings → List SpawnSettings
upsert_spawn_row now guild_pk user_id fields rows =
    upsert_found now guild_pk user_id fields rows (get_spawn_row guild_pk user_id rows)

abbrev pub user_row : List SpawnSettings → ℕ → Option String → Option SpawnSettings
user_row rows guild_pk none = none
user_row rows guild_pk (some user) = get_spawn_row guild_pk (some user) rows

unfoldable pub resolve_spawn :
    (String → Option (List String))
    → List SpawnSettings
    → ℕ
    → Option String
    → Option SpawnLayer
    → ResolvedSpawn
resolve_spawn loads rows guild_pk user_id call = merge_layers (
    row_to_layer loads (get_spawn_row guild_pk none rows)
    ∷ row_to_layer loads (user_row rows guild_pk user_id)
    ∷ call
    ∷ [])
