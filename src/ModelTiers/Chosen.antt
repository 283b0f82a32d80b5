-- ===== src/ModelTiers/Chosen.antt =====
-- What the choice of a tier and of a model comes to.
use pioneer_square.Shared.{
  String, Bool, true, false, ◌≡◌, inl, inr, refl, sym, subst, Option, none, some, List, [], ◌∷◌,
  string_eq, ◌==◌, any, member, get, or_default, eq_of_==, eq_iff, ◌∙◌, arith, Bool-cases, Dict,
  All, has,
}
use pioneer_square.Workers.{is_set}
use pioneer_square.ModelTiers.{
  tier_cheap, tier_standard, tier_powerful, valid_tiers, phase_tiers, tier_of_phase,
  select_model_tier, Provider, first_available, effective_catalog, preferences,
  tier_model_preferences, pick_model, get_model_for_tier,
}

abbrev pub IsTier : String → Type 0
IsTier tier = member tier valid_tiers ≡ true

-- A value of a dict of tiers, or the standard tier.
get-IsTier :
    (k : String) (d : Dict String)
    → All (λ e. IsTier e.1) d
    → IsTier (or_default (get k d) tier_standard)
unfolding get member
get-IsTier k [] tiers = refl
get-IsTier k (e ∷ d) (tier, tiers) = elim (Bool-cases (e.0 == k)) [
  | inl here ↦ rw here tier
  | inr there ↦ rw there (get-IsTier k d tiers)
]

tier_of_phase-IsTier : (phase : Option String) → IsTier (tier_of_phase phase)
unfolding tier_of_phase member
tier_of_phase-IsTier phase =
    get-IsTier (or_default phase "") phase_tiers (refl, (refl, (refl, (refl, tt))))

pub select_model_tier-IsTier : (phase hint : Option String) → IsTier (select_model_tier phase hint)
unfolding select_model_tier
select_model_tier-IsTier phase none = tier_of_phase-IsTier phase
select_model_tier-IsTier phase (some hint) = elim (Bool-cases (member hint valid_tiers)) [
  | inl valid ↦ rw valid valid
  | inr other ↦ rw other (tier_of_phase-IsTier phase)
]

abbrev is_nonempty : List String → Bool
is_nonempty [] = false
is_nonempty (x ∷ xs) = true

abbrev IsListed : Dict (List String) → String → Type 0
IsListed d tier = is_nonempty (or_default (get tier d) []) ≡ true

tiers-IsListed :
    (tier : String) (d : Dict (List String))
    → All (IsListed d) valid_tiers
    → IsTier tier
    → IsListed d tier
unfolding member
tiers-IsListed tier d (cheap, (standard, (powerful, end))) h =
    elim (Bool-cases (tier == tier_cheap)) [
      | inl is_cheap ↦ subst (IsListed d) (sym (eq_of_== is_cheap)) cheap
      | inr not_cheap ↦ elim (Bool-cases (tier == tier_standard)) [
        | inl is_standard ↦ subst (IsListed d) (sym (eq_of_== is_standard)) standard
        | inr not_standard ↦
            let is_powerful : (tier == tier_powerful) ≡ true =
              ground (arith, h, not_cheap, not_standard) in
            subst (IsListed d) (sym (eq_of_== is_powerful)) powerful
      ]
    ]

preferences_known :
    (tier provider : String)
    → IsTier tier
    → is_nonempty (preferences tier provider) ≡ has provider tier_model_preferences
unfolding get has
preferences_known tier provider h = elim (Bool-cases ("anthropic" == provider)) [
  | inl anthropic ↦ rw (anthropic) (
      tiers-IsListed tier (or_default (get "anthropic" tier_model_preferences) [])
        (refl, (refl, (refl, tt))) h)
  | inr other ↦ elim (Bool-cases ("bedrock" == provider)) [
    | inl bedrock ↦
        rw (other, bedrock)
          (tiers-IsListed tier (or_default (get "bedrock" tier_model_preferences) [])
            (refl, (refl, (refl, tt))) h)
    | inr unknown ↦ rw (other, unknown) refl
  ]
]

pick_model_known :
    (provider : String) (catalog : List Provider) (prefs : List String)
    → is_set (pick_model provider catalog prefs) ≡ is_nonempty prefs
pick_model_known provider catalog [] = refl
pick_model_known provider [] (top ∷ prefs) = refl
pick_model_known provider (p ∷ catalog) (top ∷ prefs) = refl

-- The tier of a task is one of the three, whatever the phase and the hint; and a provider has a model
-- for it exactly when preferences are kept for the provider, whatever the catalog holds.
pub get_model_for_tier-select_model_tier :
    (phase hint : Option String) (provider : String) (catalog : Option (List Provider))
    (cached : List Provider)
    → IsTier (select_model_tier phase hint)
      × (is_set (get_model_for_tier (select_model_tier phase hint) provider catalog cached)
          ≡ has provider tier_model_preferences)
unfolding get_model_for_tier
get_model_for_tier-select_model_tier phase hint provider catalog cached = (
  select_model_tier-IsTier phase hint,
  pick_model_known provider (effective_catalog catalog cached)
        (preferences (select_model_tier phase hint) provider)
      ∙ preferences_known (select_model_tier phase hint) provider
          (select_model_tier-IsTier phase hint),
)

member_later : (a x : String) (xs : List String) → member a xs ≡ true → member a (x ∷ xs) ≡ true
unfolding member
member_later a x xs h = ground (arith, h)

member_here : (a : String) (xs : List String) → member a (a ∷ xs) ≡ true
unfolding member
member_here a xs = ground (arith, eq_iff a a)

-- If the catalog has a preferred model, what is chosen is a preferred model that the catalog has.
member-first_available :
    (models prefs : List String) (top : String)
    → any (λ m. member m models) prefs ≡ true
    → (member (first_available models prefs top) models ≡ true)
      × (member (first_available models prefs top) prefs ≡ true)
unfolding any first_available
member-first_available models [] top h = cc
member-first_available models (m ∷ prefs) top h = elim (Bool-cases (member m models)) [
  | inl offered ↦ rw offered (offered, member_here m prefs)
  | inr missing ↦
      let (in_models, in_prefs) =
        member-first_available models prefs top (ground (arith, h, missing)) in
      rw missing (in_models, member_later (first_available models prefs top) m prefs in_prefs)
]
