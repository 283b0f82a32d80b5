-- ===== src/ModelTiers.antt =====
-- backend/util/model_tiers.py: the tier of a task, and the model of a tier.
pub mod Chosen
mod Examples
use pioneer_square.Shared.{
  String, Bool, Option, none, some, List, [], ◌∷◌, map, string_eq, ◌==◌, if◌then◌else◌, find?,
  member, Dict, get, or_default,
}

abbrev pub tier_cheap : String
tier_cheap = "cheap"

abbrev pub tier_standard : String
tier_standard = "standard"

abbrev pub tier_powerful : String
tier_powerful = "powerful"

abbrev pub valid_tiers : List String
valid_tiers = tier_cheap ∷ tier_standard ∷ tier_powerful ∷ []

abbrev pub phase_tiers : Dict String
phase_tiers =
    ("issue", tier_cheap)
    ∷ ("plan", tier_standard)
    ∷ ("execute", tier_standard)
    ∷ ("review", tier_cheap)
    ∷ []

abbrev pub tier_model_preferences : Dict (Dict (List String))
tier_model_preferences =
    (
      "anthropic",
      (tier_cheap, "claude-haiku-4-5-20251001" ∷ "claude-haiku-4-5" ∷ "claude-sonnet-4-6" ∷ [])
          ∷ (tier_standard, "claude-sonnet-4-6" ∷ "claude-haiku-4-5-20251001" ∷ [])
          ∷ (tier_powerful, "claude-opus-4-8" ∷ "claude-sonnet-4-6" ∷ [])
          ∷ [],
    )
    ∷ (
      "bedrock",
      (tier_cheap, "claude-haiku-4-5-20251001" ∷ "claude-sonnet-4-6" ∷ [])
          ∷ (tier_standard, "claude-sonnet-4-6" ∷ [])
          ∷ (tier_powerful, "claude-sonnet-4-6" ∷ [])
          ∷ [],
    )
    ∷ []

unfoldable pub tier_of_phase : Option String → String
tier_of_phase phase = or_default (get (or_default phase "") phase_tiers) tier_standard

unfoldable pub select_model_tier : Option String → Option String → String
select_model_tier phase none = tier_of_phase phase
select_model_tier phase (some hint) = if member hint valid_tiers then hint else tier_of_phase phase

-- A provider of the catalog, with the ids of its models.
pub record Provider : Type 0 where
  pub id : String
  pub models : List String

abbrev pub models_of : Option Provider → List String
models_of none = []
models_of (some p) = p.models

-- The models of the first provider of that id.
unfoldable pub available : String → List Provider → List String
available provider catalog = models_of (find? (λ (p : Provider). p.id == provider) catalog)

-- The loop over the preferences, with what follows it.
unfoldable pub first_available : List String → List String → String → String
first_available models [] top = top
first_available models (m ∷ prefs) top =
    if member m models then m else first_available models prefs top

-- `cached` is the in-memory list of `util.models_dev`, which stands in where there is no catalog.
abbrev pub effective_catalog : Option (List Provider) → List Provider → List Provider
effective_catalog none cached = cached
effective_catalog (some catalog) cached = catalog

abbrev pub preferences : String → String → List String
preferences tier provider =
    or_default (get tier (or_default (get provider tier_model_preferences) [])) []

abbrev pub pick_model : String → List Provider → List String → Option String
pick_model provider catalog [] = none
pick_model provider [] (top ∷ prefs) = some top
pick_model provider (p ∷ catalog) (top ∷ prefs) =
    some (first_available (available provider (p ∷ catalog)) (top ∷ prefs) top)

unfoldable pub get_model_for_tier :
    String → String → Option (List Provider) → List Provider → Option String
get_model_for_tier tier provider catalog cached =
    pick_model provider (effective_catalog catalog cached) (preferences tier provider)
