-- ===== src/SpawnConfig/Written.antt =====
-- What `upsert_spawn_row` of backend/spawn_config.py leaves in each column.
use mathlib.Core.List.{Memᴰ}
use mathlib.Core.List.Memᴰ
use pioneer_square.Shared.{
  ℕ, String, ◌≡◌, refl, sym, ◌∙◌, Bool, true, false, ◌&&◌, Option, some, List, [], ◌∷◌, ◌==◌, ◌||◌,
  string_eq, nat_eq, option_eq, any, or_default, inl, inr, subst,
}
use pioneer_square.SpawnConfig.Stored.{
  SpawnSettings, Field, set_field, set_fields, get_spawn_row, new_row, upsert_spawn_row,
}
use pioneer_square.SpawnConfig.Upsert.{
  get_spawn_row-upsert_spawn_row_lem, get_spawn_row-upsert_spawn_row_other,
}

-- The name of the keyword argument.
abbrev pub column : Field → String
column (Field.repos v) = "repos"
column (Field.tools v) = "tools"
column (Field.agent_count v) = "agent_count"
column (Field.env_vars v) = "env_vars"
column (Field.tool_env_vars v) = "tool_env_vars"
column (Field.provider v) = "provider"
column (Field.model v) = "model"
column (Field.tool_defaults v) = "tool_defaults"

-- The row has the value of the field in its column.
abbrev pub Holds : Field → SpawnSettings → Type 0
Holds (Field.repos v) row = row.repos ≡ v
Holds (Field.tools v) row = row.tools ≡ v
Holds (Field.agent_count v) row = row.agent_count ≡ v
Holds (Field.env_vars v) row = row.env_vars ≡ some v
Holds (Field.tool_env_vars v) row = row.tool_env_vars ≡ some v
Holds (Field.provider v) row = row.provider ≡ v
Holds (Field.model v) row = row.model ≡ v
Holds (Field.tool_defaults v) row = row.tool_defaults ≡ some v

-- The two rows have one value in the column of the field.
abbrev pub Agree : Field → SpawnSettings → SpawnSettings → Type 0
Agree (Field.repos v) a b = a.repos ≡ b.repos
Agree (Field.tools v) a b = a.tools ≡ b.tools
Agree (Field.agent_count v) a b = a.agent_count ≡ b.agent_count
Agree (Field.env_vars v) a b = a.env_vars ≡ b.env_vars
Agree (Field.tool_env_vars v) a b = a.tool_env_vars ≡ b.tool_env_vars
Agree (Field.provider v) a b = a.provider ≡ b.provider
Agree (Field.model v) a b = a.model ≡ b.model
Agree (Field.tool_defaults v) a b = a.tool_defaults ≡ b.tool_defaults

abbrev pub is_given_in : List Field → Field → Bool
is_given_in fields f = any (λ g. column g == column f) fields

-- Keyword arguments: no name twice.
abbrev pub HasDistinctColumns : List Field → Type 0
HasDistinctColumns [] = Unit
HasDistinctColumns (f ∷ fields) = (is_given_in fields f ≡ false) × HasDistinctColumns fields

Agree-refl : (f : Field) (row : SpawnSettings) → Agree f row row
Agree-refl (Field.repos v) row = refl
Agree-refl (Field.tools v) row = refl
Agree-refl (Field.agent_count v) row = refl
Agree-refl (Field.env_vars v) row = refl
Agree-refl (Field.tool_env_vars v) row = refl
Agree-refl (Field.provider v) row = refl
Agree-refl (Field.model v) row = refl
Agree-refl (Field.tool_defaults v) row = refl

Agree-set_field :
    (f g : Field) (row : SpawnSettings)
    → (column g == column f) ≡ false
    → Agree f (set_field row g) row
unfolding set_field
Agree-set_field (Field.repos v) (Field.repos w) row h = cc
Agree-set_field (Field.repos v) _ row h = refl
Agree-set_field (Field.tools v) (Field.tools w) row h = cc
Agree-set_field (Field.tools v) _ row h = refl
Agree-set_field (Field.agent_count v) (Field.agent_count w) row h = cc
Agree-set_field (Field.agent_count v) _ row h = refl
Agree-set_field (Field.env_vars v) (Field.env_vars w) row h = cc
Agree-set_field (Field.env_vars v) _ row h = refl
Agree-set_field (Field.tool_env_vars v) (Field.tool_env_vars w) row h = cc
Agree-set_field (Field.tool_env_vars v) _ row h = refl
Agree-set_field (Field.provider v) (Field.provider w) row h = cc
Agree-set_field (Field.provider v) _ row h = refl
Agree-set_field (Field.model v) (Field.model w) row h = cc
Agree-set_field (Field.model v) _ row h = refl
Agree-set_field (Field.tool_defaults v) (Field.tool_defaults w) row h = cc
Agree-set_field (Field.tool_defaults v) _ row h = refl

Agree-trans : (f : Field) (a b c : SpawnSettings) → Agree f a b → Agree f b c → Agree f a c
Agree-trans (Field.repos v) a b c p q = p ∙ q
Agree-trans (Field.tools v) a b c p q = p ∙ q
Agree-trans (Field.agent_count v) a b c p q = p ∙ q
Agree-trans (Field.env_vars v) a b c p q = p ∙ q
Agree-trans (Field.tool_env_vars v) a b c p q = p ∙ q
Agree-trans (Field.provider v) a b c p q = p ∙ q
Agree-trans (Field.model v) a b c p q = p ∙ q
Agree-trans (Field.tool_defaults v) a b c p q = p ∙ q

Holds-Agree : (f : Field) (a b : SpawnSettings) → Agree f a b → Holds f b → Holds f a
Holds-Agree (Field.repos v) a b p q = p ∙ q
Holds-Agree (Field.tools v) a b p q = p ∙ q
Holds-Agree (Field.agent_count v) a b p q = p ∙ q
Holds-Agree (Field.env_vars v) a b p q = p ∙ q
Holds-Agree (Field.tool_env_vars v) a b p q = p ∙ q
Holds-Agree (Field.provider v) a b p q = p ∙ q
Holds-Agree (Field.model v) a b p q = p ∙ q
Holds-Agree (Field.tool_defaults v) a b p q = p ∙ q

Holds-set_field : (f : Field) (row : SpawnSettings) → Holds f (set_field row f)
unfolding set_field
Holds-set_field (Field.repos v) row = refl
Holds-set_field (Field.tools v) row = refl
Holds-set_field (Field.agent_count v) row = refl
Holds-set_field (Field.env_vars v) row = refl
Holds-set_field (Field.tool_env_vars v) row = refl
Holds-set_field (Field.provider v) row = refl
Holds-set_field (Field.model v) row = refl
Holds-set_field (Field.tool_defaults v) row = refl

Agree-stamped : (now : ℕ) (f : Field) (row : SpawnSettings) → Agree f (set_fields now [] row) row
unfolding set_fields
Agree-stamped now (Field.repos v) row = refl
Agree-stamped now (Field.tools v) row = refl
Agree-stamped now (Field.agent_count v) row = refl
Agree-stamped now (Field.env_vars v) row = refl
Agree-stamped now (Field.tool_env_vars v) row = refl
Agree-stamped now (Field.provider v) row = refl
Agree-stamped now (Field.model v) row = refl
Agree-stamped now (Field.tool_defaults v) row = refl

or_false : (a b : Bool) → (a || b) ≡ false → (a ≡ false) × (b ≡ false)
or_false true b h = cc
or_false false b h = (refl, h)

Agree-set_fields :
    (now : ℕ) (f : Field) (fields : List Field) (row : SpawnSettings)
    → is_given_in fields f ≡ false
    → Agree f (set_fields now fields row) row
unfolding set_fields any
Agree-set_fields now f [] row h = Agree-stamped now f row
Agree-set_fields now f (g ∷ fields) row h =
    let (apart, rest) = or_false (column g == column f) (is_given_in fields f) h in
    Agree-trans f (set_fields now fields (set_field row g)) (set_field row g) row
      (Agree-set_fields now f fields (set_field row g) rest) (Agree-set_field f g row apart)

Holds-set_fields :
    (now : ℕ) (f : Field) (fields : List Field) (row : SpawnSettings)
    → HasDistinctColumns fields
    → Memᴰ f fields
    → Holds f (set_fields now fields row)
unfolding set_fields
Holds-set_fields now f [] row distinct m = absurd (Memᴰ.not-nil m)
Holds-set_fields now f (g ∷ fields) row distinct m = elim (Memᴰ.cases_cons m) [
  | inl e ↦
      subst (λ x. Holds x (set_fields now fields (set_field row g))) (sym e)
        (Holds-Agree g (set_fields now fields (set_field row g)) (set_field row g)
          (Agree-set_fields now g fields (set_field row g) distinct.0) (Holds-set_field g row))
  | inr n ↦ Holds-set_fields now f fields (set_field row g) distinct.1 n
]

updated_at-set_fields :
    (now : ℕ) (fields : List Field) (row : SpawnSettings)
    → (set_fields now fields row).updated_at ≡ now
unfolding set_fields
updated_at-set_fields now [] row = refl
updated_at-set_fields now (f ∷ fields) row = updated_at-set_fields now fields (set_field row f)

-- The row that an upsert with the fields leaves where `before` was.
abbrev pub IsUpserted : ℕ → List Field → SpawnSettings → SpawnSettings → Type 0
IsUpserted now fields before after =
    ((f : Field) → Memᴰ f fields → Holds f after)
    × ((f : Field) → is_given_in fields f ≡ false → Agree f after before)
    × (after.updated_at ≡ now)

-- After an upsert, whose keyword arguments name no column twice, the row of that guild and user has
-- each given value in its column, in the other columns what it had before, or the default if there was
-- no row, and the time of the upsert; and the row of any other guild or user is found as before.
pub get_spawn_row-upsert_spawn_row :
    (now g : ℕ) (u : Option String) (fields : List Field) (rows : List SpawnSettings)
    → HasDistinctColumns fields
    → ((after : SpawnSettings) × (get_spawn_row g u (upsert_spawn_row now g u fields rows)
          ≡ some after)
        × IsUpserted now fields (or_default (get_spawn_row g u rows) (new_row now g u)) after)
      × ((h : ℕ) (v : Option String)
          → (g == h && u == v) ≡ false
          → get_spawn_row h v (upsert_spawn_row now g u fields rows) ≡ get_spawn_row h v rows)
get_spawn_row-upsert_spawn_row now g u fields rows distinct =
    let before = or_default (get_spawn_row g u rows) (new_row now g u) in
    (
      (
        set_fields now fields before,
        get_spawn_row-upsert_spawn_row_lem now g u fields rows,
        (
          λ f m. Holds-set_fields now f fields before distinct m,
          λ f new. Agree-set_fields now f fields before new,
          updated_at-set_fields now fields before,
        ),
      ),
      λ h v apart. get_spawn_row-upsert_spawn_row_other now g h u v fields rows apart,
    )
