-- ===== src/ModelTiers/Examples.antt =====
-- Tiers and models on concrete inputs.
use pioneer_square.Shared.{◌≡◌, refl, none, some, [], ◌∷◌, has, get, find?, any, member}
use pioneer_square.Workers.{is_set}
use pioneer_square.ModelTiers.{
  select_model_tier, tier_of_phase, get_model_for_tier, first_available, available,
  tier_model_preferences,
}
use pioneer_square.ModelTiers.Chosen.{IsTier, get_model_for_tier-select_model_tier}

haiku_missing :
    get_model_for_tier
      (select_model_tier (some "review") none)
      "bedrock"
      (some (record { id = "bedrock"; models = "claude-sonnet-4-6" ∷ [] } ∷ []))
      []
    ≡ some "claude-sonnet-4-6"
unfolding get_model_for_tier select_model_tier tier_of_phase first_available available find? any
    member get
haiku_missing = refl

get_model_for_tier-select_model_tier_example :
    IsTier (select_model_tier (some "plan") (some "huge"))
    × (is_set
          (get_model_for_tier (select_model_tier (some "plan") (some "huge")) "anthropic" none [])
        ≡ has "anthropic" tier_model_preferences)
get_model_for_tier-select_model_tier_example =
    get_model_for_tier-select_model_tier (some "plan") (some "huge") "anthropic" none []
