-- ===== src/SpawnConfig/Precedence.antt =====
-- Which layer each resolved setting comes from.
use pioneer_square.Shared.{
  String, ◌≡◌, refl, sym, ap, ◌∙◌, Bool, true, false, Option, none, some, List, [], ◌∷◌, string_eq,
  eq_iff, if◌then◌else◌, any, get, HasDistinctKeys, or_default, arith,
}
use pioneer_square.SpawnConfig.{
  SpawnLayer, ResolvedSpawn, empty_spawn, is_real, or_empty, merge_layer, merge_from, merge_layers,
  replace, replace_list,
}
use pioneer_square.SpawnConfig.Merging.{
  overlay, get-merge_env, get_in, HasDistinctKeysInside, get_in-merge_tools,
}

-- What the layers that are there say, the lowest first.
unfoldable pub offers {ℓ} : {A : Type ℓ} → (SpawnLayer → A) → List (Option SpawnLayer) → List A
offers f [] = []
offers f (none ∷ layers) = offers f layers
offers f (some layer ∷ layers) = f layer ∷ offers f layers

-- The last value of a list that is there.
unfoldable pub highest {ℓ} : {A : Type ℓ} → List (Option A) → Option A
highest [] = none
highest (o ∷ os) = replace o (highest os)

unfoldable pub highest_real : List (Option String) → Option String
highest_real [] = none
highest_real (o ∷ os) = replace (if is_real o then o else none) (highest_real os)

abbrev pub named : Option String → Bool
named none = false
named (some v) = true

abbrev pub or_else : Option String → Bool → Option String
or_else (some v) blank = some v
or_else none blank = if blank then some "" else none

-- The highest value that is not empty; the empty one where only empty ones are given.
abbrev pub pick : List (Option String) → Option String
pick os = or_else (highest_real os) (any named os)

pick-overlay :
    (low high : Option String) (os : List (Option String))
    → pick (overlay low high ∷ os) ≡ pick (low ∷ high ∷ os)
unfolding highest_real any
pick-overlay none none os = ground arith
pick-overlay none (some v) os = ground (arith, eq_iff v "")
pick-overlay (some u) none os = ground (arith, eq_iff u "")
pick-overlay (some u) (some v) os = ground (arith, eq_iff v "", eq_iff u "")

pick-single : (o : Option String) → pick (o ∷ []) ≡ o
unfolding highest_real any
pick-single none = refl
pick-single (some v) = ground (arith, eq_iff v "")

abbrev pub IsLayer : SpawnLayer → Type 0
IsLayer layer =
    HasDistinctKeys (or_empty layer.env_vars)
    × HasDistinctKeys (or_empty layer.tool_env_vars)
    × HasDistinctKeysInside (or_empty layer.tool_env_vars)
    × HasDistinctKeys (or_empty layer.tool_defaults)
    × HasDistinctKeysInside (or_empty layer.tool_defaults)

-- The layers are made of Python dicts.
abbrev pub AreLayers : List (Option SpawnLayer) → Type 0
AreLayers [] = Unit
AreLayers (none ∷ layers) = AreLayers layers
AreLayers (some layer ∷ layers) = IsLayer layer × AreLayers layers

abbrev pub env_of : String → SpawnLayer → Option String
env_of k layer = get k (or_empty layer.env_vars)

abbrev pub tool_env_of : String → String → SpawnLayer → Option String
tool_env_of tool k layer = get_in tool k (or_empty layer.tool_env_vars)

abbrev pub tool_default_of : String → String → SpawnLayer → Option String
tool_default_of tool k layer = get_in tool k (or_empty layer.tool_defaults)

-- A value read from the result, that each layer overlays by its own, is the pick of the layers.
module _ (read : ResolvedSpawn → Option String) (offer : SpawnLayer → Option String)
    (step : (r : ResolvedSpawn) (layer : SpawnLayer)
      → IsLayer layer
      → read (merge_layer r layer) ≡ overlay (read r) (offer layer)) where
  read-merge_from :
      (r : ResolvedSpawn) (layers : List (Option SpawnLayer))
      → AreLayers layers
      → read (merge_from r layers) ≡ pick (read r ∷ offers offer layers)
  unfolding merge_from offers
  read-merge_from r [] h = sym (pick-single (read r))
  read-merge_from r (none ∷ layers) h = read-merge_from r layers h
  read-merge_from r (some layer ∷ layers) h =
      read-merge_from (merge_layer r layer) layers h.1
      ∙ ap (λ o. pick (o ∷ offers offer layers)) (step r layer h.0)
      ∙ pick-overlay (read r) (offer layer) (offers offer layers)

pick-none : (os : List (Option String)) → pick (none ∷ os) ≡ pick os
unfolding highest_real any
pick-none os = ground arith

-- When the layers have the distinct keys of Python dicts, a variable of the merged environment is
-- the highest value that is not empty, the empty text where only empty ones are given, and none
-- where no layer names it.
pub get-merge_layers :
    (k : String) (layers : List (Option SpawnLayer))
    → AreLayers layers
    → get k (merge_layers layers).env_vars ≡ pick (offers (env_of k) layers)
unfolding merge_layer get
get-merge_layers k layers h =
    read-merge_from (λ r. get k r.env_vars) (env_of k)
      (λ r layer good. get-merge_env k r.env_vars (or_empty layer.env_vars) good.0) empty_spawn
      layers h
    ∙ pick-none (offers (env_of k) layers)

-- When the layers have the distinct keys of Python dicts, the same holds of the variables and of
-- the defaults of each tool.
pub get_in-merge_layers :
    (tool k : String) (layers : List (Option SpawnLayer))
    → AreLayers layers
    → (get_in tool k (merge_layers layers).tool_env_vars
        ≡ pick (offers (tool_env_of tool k) layers))
      × (get_in tool k (merge_layers layers).tool_defaults
          ≡ pick (offers (tool_default_of tool k) layers))
unfolding merge_layer get
get_in-merge_layers tool k layers h = (
  read-merge_from (λ r. get_in tool k r.tool_env_vars) (tool_env_of tool k)
        (λ r layer good.
          get_in-merge_tools tool k r.tool_env_vars (or_empty layer.tool_env_vars) good.1 good.2)
        empty_spawn layers h
      ∙ pick-none (offers (tool_env_of tool k) layers),
  read-merge_from (λ r. get_in tool k r.tool_defaults) (tool_default_of tool k)
        (λ r layer good.
          get_in-merge_tools tool k r.tool_defaults (or_empty layer.tool_defaults) good.3 good.4)
        empty_spawn layers h
      ∙ pick-none (offers (tool_default_of tool k) layers),
)

abbrev pub unless_empty : Option (List String) → Option (List String)
unless_empty (some (x ∷ xs)) = some (x ∷ xs)
unless_empty _ = none

replace-highest {ℓ} :
    {A : Type ℓ} (a b : Option A) (os : List (Option A))
    → replace (replace a b) (highest os) ≡ replace a (highest (b ∷ os))
unfolding highest
replace-highest a b os = ground arith

replace_list-highest :
    (old : List String) (o : Option (List String)) (os : List (Option (List String)))
    → or_default (highest os) (replace_list old o) ≡ or_default (highest (unless_empty o ∷ os)) old
unfolding highest
replace_list-highest old none os = ground arith
replace_list-highest old (some []) os = ground arith
replace_list-highest old (some (x ∷ xs)) os = ground arith

scalar-merge_from {ℓ} :
    {A : Type ℓ} (read : ResolvedSpawn → Option A) (offer : SpawnLayer → Option A)
    (step : (r : ResolvedSpawn) (layer : SpawnLayer)
      → read (merge_layer r layer) ≡ replace (read r) (offer layer))
    (r : ResolvedSpawn) (layers : List (Option SpawnLayer))
    → read (merge_from r layers) ≡ replace (read r) (highest (offers offer layers))
unfolding merge_from offers highest
scalar-merge_from read offer step r [] = refl
scalar-merge_from read offer step r (none ∷ layers) = scalar-merge_from read offer step r layers
scalar-merge_from read offer step r (some layer ∷ layers) =
    scalar-merge_from read offer step (merge_layer r layer) layers
    ∙ ap (λ o. replace o (highest (offers offer layers))) (step r layer)
    ∙ replace-highest (read r) (offer layer) (offers offer layers)

list-merge_from :
    (read : ResolvedSpawn → List String) (offer : SpawnLayer → Option (List String))
    (step : (r : ResolvedSpawn) (layer : SpawnLayer)
      → read (merge_layer r layer) ≡ replace_list (read r) (offer layer))
    (r : ResolvedSpawn) (layers : List (Option SpawnLayer))
    → read (merge_from r layers)
      ≡ or_default (highest (offers (λ l. unless_empty (offer l)) layers)) (read r)
unfolding merge_from offers highest
list-merge_from read offer step r [] = refl
list-merge_from read offer step r (none ∷ layers) = list-merge_from read offer step r layers
list-merge_from read offer step r (some layer ∷ layers) =
    list-merge_from read offer step (merge_layer r layer) layers
    ∙ ap (or_default (highest (offers (λ l. unless_empty (offer l)) layers))) (step r layer)
    ∙ replace_list-highest (read r) (offer layer) (offers (λ l. unless_empty (offer l)) layers)

-- The highest layer that gives a list that is not empty, or a value, decides it.
abbrev pub IsHighest : ResolvedSpawn → List (Option SpawnLayer) → Type 0
IsHighest r layers =
    (r.repos ≡ or_default (highest (offers (λ l. unless_empty l.repos) layers)) [])
    × (r.tools ≡ or_default (highest (offers (λ l. unless_empty l.tools) layers)) [])
    × (r.agent_count ≡ highest (offers (λ l. l.agent_count) layers))
    × (r.provider ≡ highest (offers (λ l. l.provider) layers))
    × (r.model ≡ highest (offers (λ l. l.model) layers))

replace-none {ℓ} : {A : Type ℓ} (o : Option A) → replace none o ≡ o
replace-none o = ground arith

-- The two lists are the highest ones that are not empty, the three scalars the highest ones that
-- are there.
pub merge_layers-IsHighest :
    (layers : List (Option SpawnLayer)) → IsHighest (merge_layers layers) layers
unfolding merge_layer
merge_layers-IsHighest layers = (
  list-merge_from (λ r. r.repos) (λ l. l.repos) (λ r l. refl) empty_spawn layers,
  list-merge_from (λ r. r.tools) (λ l. l.tools) (λ r l. refl) empty_spawn layers,
  scalar-merge_from (λ r. r.agent_count) (λ l. l.agent_count) (λ r l. refl) empty_spawn layers
      ∙ replace-none _,
  scalar-merge_from (λ r. r.provider) (λ l. l.provider) (λ r l. refl) empty_spawn layers
      ∙ replace-none _,
  scalar-merge_from (λ r. r.model) (λ l. l.model) (λ r l. refl) empty_spawn layers ∙ replace-none _,
)
