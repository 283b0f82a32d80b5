-- ===== src/SpawnConfig/Upsert.antt =====
-- What the partial upsert changes, and what it leaves alone.
use pioneer_square.Shared.{
  ℕ, String, ◌≡◌, ◌≤◌, refl, sym, ap, ◌∙◌, true, false, ◌&&◌, Option, none, some, List, [], ◌∷◌,
  ◌==◌, string_eq, nat_eq, option_eq, find?, count, count-update, count-zero_of_find?, find?-update,
  find?-update_other, or_default, arith, ==_refl, inl, inr, Bool-cases, eq_of_==,
}
use pioneer_square.SpawnConfig.{SpawnLayer, merge_layers}
use pioneer_square.SpawnConfig.Stored.{
  SpawnSettings, Field, set_field, set_fields, row_of, get_spawn_row, new_row, upsert_found,
  upsert_spawn_row, resolve_spawn, row_to_layer,
}

key-set_field :
    (g : ℕ) (u : Option String) (row : SpawnSettings) (f : Field)
    → row_of g u (set_field row f) ≡ row_of g u row
unfolding set_field
key-set_field g u row (Field.repos v) = refl
key-set_field g u row (Field.tools v) = refl
key-set_field g u row (Field.agent_count v) = refl
key-set_field g u row (Field.env_vars v) = refl
key-set_field g u row (Field.tool_env_vars v) = refl
key-set_field g u row (Field.provider v) = refl
key-set_field g u row (Field.model v) = refl
key-set_field g u row (Field.tool_defaults v) = refl

key-set_fields :
    (now g : ℕ) (u : Option String) (fields : List Field) (row : SpawnSettings)
    → row_of g u (set_fields now fields row) ≡ row_of g u row
unfolding set_fields
key-set_fields now g u [] row = refl
key-set_fields now g u (f ∷ fs) row =
    key-set_fields now g u fs (set_field row f) ∙ key-set_field g u row f

row_of-new_row : (now g : ℕ) (u : Option String) → row_of g u (new_row now g u) ≡ true
row_of-new_row now g none = ground arith
row_of-new_row now g (some v) = ground (arith, ==_refl v)

get-upsert_found :
    (now g : ℕ) (u : Option String) (fields : List Field) (rows : List SpawnSettings)
    (found : Option SpawnSettings)
    → find? (row_of g u) rows ≡ found
    → find? (row_of g u) (upsert_found now g u fields rows found)
      ≡ some (set_fields now fields (or_default found (new_row now g u)))
unfolding upsert_found find?
get-upsert_found now g u fields rows none h =
    ground (arith, key-set_fields now g u fields (new_row now g u), row_of-new_row now g u)
get-upsert_found now g u fields rows (some row) h =
    find?-update (row_of g u) (set_fields now fields) rows row (key-set_fields now g u fields) h

-- After an upsert the row of that guild and user is the old one, or a new one with the defaults,
-- with the given fields set.
pub get_spawn_row-upsert_spawn_row_lem :
    (now g : ℕ) (u : Option String) (fields : List Field) (rows : List SpawnSettings)
    → get_spawn_row g u (upsert_spawn_row now g u fields rows)
      ≡ some (set_fields now fields (or_default (get_spawn_row g u rows) (new_row now g u)))
unfolding get_spawn_row upsert_spawn_row
get_spawn_row-upsert_spawn_row_lem now g u fields rows =
    get-upsert_found now g u fields rows (get_spawn_row g u rows) refl

keys_apart :
    (g h : ℕ) (u v : Option String)
    → (g == h && u == v) ≡ false
    → (row : SpawnSettings) → row_of g u row ≡ true
    → row_of h v row ≡ false
keys_apart g h u v ne row e =
    let guild_hit : (row.guild_id == g) ≡ true = ground (arith, e) in
    let user_hit : (row.user_id == u) ≡ true = ground (arith, e) in
    let same_guild : row.guild_id ≡ g = eq_of_== guild_hit in
    let same_user : row.user_id ≡ u = eq_of_== user_hit in rw same_guild (rw same_user ne)

get-upsert_found_other :
    (now g h : ℕ) (u v : Option String) (fields : List Field) (rows : List SpawnSettings)
    (found : Option SpawnSettings)
    → (g == h && u == v) ≡ false
    → find? (row_of h v) (upsert_found now g u fields rows found) ≡ find? (row_of h v) rows
unfolding upsert_found find?
get-upsert_found_other now g h u v fields rows none ne = ground (
  arith,
  key-set_fields now h v fields (new_row now g u),
  keys_apart g h u v ne (new_row now g u) (row_of-new_row now g u),
)
get-upsert_found_other now g h u v fields rows (some row) ne =
    find?-update_other (row_of h v) (row_of g u) (set_fields now fields) rows
      (key-set_fields now h v fields) (keys_apart g h u v ne)

pub get_spawn_row-upsert_spawn_row_other :
    (now g h : ℕ) (u v : Option String) (fields : List Field) (rows : List SpawnSettings)
    → (g == h && u == v) ≡ false
    → get_spawn_row h v (upsert_spawn_row now g u fields rows) ≡ get_spawn_row h v rows
unfolding get_spawn_row upsert_spawn_row
get_spawn_row-upsert_spawn_row_other now g h u v fields rows ne =
    get-upsert_found_other now g h u v fields rows (get_spawn_row g u rows) ne

-- An override written for one user changes no resolution for another user, for no user, or in
-- another guild.
pub resolve_spawn-upsert_spawn_row_other :
    (loads : String → Option (List String)) (now g h : ℕ) (user : String) (v : Option String)
    (fields : List Field) (rows : List SpawnSettings) (call : Option SpawnLayer)
    → (g == h && some user == v) ≡ false
    → resolve_spawn loads (upsert_spawn_row now g (some user) fields rows) h v call
      ≡ resolve_spawn loads rows h v call
unfolding resolve_spawn
resolve_spawn-upsert_spawn_row_other loads now g h user none fields rows call apart =
    ap (λ base. merge_layers (row_to_layer loads base ∷ row_to_layer loads none ∷ call ∷ []))
      (get_spawn_row-upsert_spawn_row_other now g h (some user) none fields rows apart)
resolve_spawn-upsert_spawn_row_other loads now g h user (some v) fields rows call apart =
    let base =
      get_spawn_row-upsert_spawn_row_other now g h (some user) none fields rows (ground arith) in
    let own = get_spawn_row-upsert_spawn_row_other now g h (some user) (some v) fields rows apart in
    rw base (rw own refl)

abbrev pub HasUniqueRows : List SpawnSettings → Type 0
HasUniqueRows rows = (g : ℕ) (u : Option String) → count (row_of g u) rows ≤ 1

count-upsert_found :
    (now g h : ℕ) (u v : Option String) (fields : List Field) (rows : List SpawnSettings)
    (found : Option SpawnSettings)
    → find? (row_of g u) rows ≡ found
    → count (row_of h v) rows ≤ 1
    → count (row_of h v) (upsert_found now g u fields rows found) ≤ 1
unfolding upsert_found count
count-upsert_found now g h u v fields rows none missing unique =
    elim (Bool-cases (g == h && u == v)) [
      | inl same ↦
          let guild_hit : (g == h) ≡ true = ground (arith, same) in
          let user_hit : (u == v) ≡ true = ground (arith, same) in
          let same_guild : g ≡ h = eq_of_== guild_hit in
          let same_user : u ≡ v = eq_of_== user_hit in
          let no_row : count (row_of h v) rows ≡ 0 =
            rw (sym same_guild)
              (rw (sym same_user) (count-zero_of_find? (row_of g u) rows missing)) in
          ground (arith, no_row)
      | inr apart ↦ ground (
        arith,
        key-set_fields now h v fields (new_row now g u),
        keys_apart g h u v apart (new_row now g u) (row_of-new_row now g u),
      )
    ]
count-upsert_found now g h u v fields rows (some row) found unique =
    rw
      (count-update (row_of h v) (row_of g u) (set_fields now fields) rows
        (key-set_fields now h v fields))
      unique

-- An upsert keeps at most one row for each guild and user.
pub upsert_spawn_row-HasUniqueRows :
    (now g : ℕ) (u : Option String) (fields : List Field) (rows : List SpawnSettings)
    → HasUniqueRows rows
    → HasUniqueRows (upsert_spawn_row now g u fields rows)
unfolding upsert_spawn_row get_spawn_row
upsert_spawn_row-HasUniqueRows now g u fields rows unique h v =
    count-upsert_found now g h u v fields rows (get_spawn_row g u rows) refl (unique h v)
