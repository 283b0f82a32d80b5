-- ===== src/SpawnConfig/Examples.antt =====
-- Spawn settings on concrete inputs.
use pioneer_square.Shared.{
  ℕ, ◌&&◌, false, ◌==◌, any, String, ◌≡◌, refl, Option, none, some, List, [], ◌∷◌, arith, get, set,
  has, count, nat_eq, option_eq, string_eq, or_default,
}
use pioneer_square.SpawnConfig.{
  SpawnLayer, merge_entry, merge_env, merge_layer, merge_from, merge_layers,
}
use pioneer_square.SpawnConfig.Merging.{get_in}
use pioneer_square.SpawnConfig.Precedence.{
  offers, pick, AreLayers, env_of, tool_env_of, tool_default_of, get-merge_layers,
  get_in-merge_layers,
}
use pioneer_square.SpawnConfig.Stored.{
  Field, SpawnSettings, get_spawn_row, new_row, upsert_spawn_row,
}
use pioneer_square.SpawnConfig.Written.{IsUpserted, get_spawn_row-upsert_spawn_row}
use pioneer_square.SpawnConfig.Upsert.{HasUniqueRows}

abbrev guild_layer : SpawnLayer
guild_layer = record {
  repos = some ("o/r" ∷ []);
  tools = some ("claude" ∷ []);
  agent_count = some 3;
  env_vars = some (("TOKEN", "real") ∷ ("REGION", "west") ∷ []);
  tool_env_vars = some (("pi", ("KEY", "k") ∷ []) ∷ []);
  provider = some "bedrock";
  model = none;
  tool_defaults = none;
}

abbrev call_layer : SpawnLayer
call_layer = record {
  repos = some [];
  tools = none;
  agent_count = some 0;
  env_vars = some (("TOKEN", "") ∷ ("REGION", "east") ∷ ("NEW", "") ∷ []);
  tool_env_vars = some (("pi", ("KEY", "") ∷ ("B", "b") ∷ []) ∷ []);
  provider = none;
  model = some "m";
  tool_defaults = some [];
}

abbrev layers : List (Option SpawnLayer)
layers = some guild_layer ∷ none ∷ some call_layer ∷ []

merged_env :
    (merge_layers layers).env_vars ≡ (("TOKEN", "real") ∷ ("REGION", "east") ∷ ("NEW", "") ∷ [])
unfolding merge_from merge_layer merge_env merge_entry get set
merged_env = refl

layers-AreLayers : AreLayers layers
unfolding has
layers-AreLayers = (
  ((refl, (refl, tt)), (refl, tt), ((refl, tt), tt), tt, tt),
  (((refl, (refl, (refl, tt))), (refl, tt), ((refl, (refl, tt)), tt), tt, tt), tt),
)

get-merge_layers_example :
    get "TOKEN" (merge_layers layers).env_vars ≡ pick (offers (env_of "TOKEN") layers)
get-merge_layers_example = get-merge_layers "TOKEN" layers layers-AreLayers

get_in-merge_layers_example :
    (get_in "pi" "KEY" (merge_layers layers).tool_env_vars
      ≡ pick (offers (tool_env_of "pi" "KEY") layers))
    × (get_in "pi" "KEY" (merge_layers layers).tool_defaults
        ≡ pick (offers (tool_default_of "pi" "KEY") layers))
get_in-merge_layers_example = get_in-merge_layers "pi" "KEY" layers layers-AreLayers

-- The guild's baseline and the override of one user.
abbrev rows : List SpawnSettings
rows = new_row 10 1 none ∷ new_row 20 1 (some "u-1") ∷ []

abbrev fields : List Field
fields = Field.model (some "m") ∷ Field.env_vars (("A", "b") ∷ []) ∷ []

get_spawn_row-upsert_spawn_row_example :
    ((after : SpawnSettings) × (get_spawn_row 1
          (some "u-1")
          (upsert_spawn_row 30 1 (some "u-1") fields rows)
        ≡ some after)
      × IsUpserted 30 fields
          (or_default (get_spawn_row 1 (some "u-1") rows) (new_row 30 1 (some "u-1")))
          after)
    × ((h : ℕ) (v : Option String)
        → (1 == h && some "u-1" == v) ≡ false
        → get_spawn_row h v (upsert_spawn_row 30 1 (some "u-1") fields rows)
          ≡ get_spawn_row h v rows)
unfolding any
get_spawn_row-upsert_spawn_row_example =
    get_spawn_row-upsert_spawn_row 30 1 (some "u-1") fields rows (refl, (refl, tt))

abbrev no_json : String → Option (List String)
no_json text = none

rows-HasUniqueRows : HasUniqueRows rows
unfolding count
rows-HasUniqueRows g none = ground arith
rows-HasUniqueRows g (some v) = ground arith
