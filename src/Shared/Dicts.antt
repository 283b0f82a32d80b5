-- ===== src/Shared/Dicts.antt =====
-- Python's dict with text keys, as the list of its items in the order of insertion.
use Prim.Native.String.{String}
use mathlib.Core.Path.{◌≡◌, refl}
use mathlib.Core.Bool.{Bool, false, ◌||◌}
use mathlib.Core.List.{List, [], ◌∷◌}
use mathlib.Core.Option.{Option, none, some}
use native.Mathlib.Omega.{arith}
use text.Mathlib.TextEquality.{eq_iff}
use pioneer_square.Shared.Tests.{if◌then◌else◌, ◌==◌, string_eq}

abbrev pub Dict {ℓ} : Type ℓ → Type ℓ
Dict V = List (String × V)

module _ {ℓ} {V : Type ℓ} where
  unfoldable pub get : String → Dict V → Option V
  get k [] = none
  get k (e ∷ d) = if e.0 == k then some e.1 else get k d

  -- `d[k] = v`: in place when the key is there, at the end when it is not.
  unfoldable pub set : String → V → Dict V → Dict V
  set k v [] = (k, v) ∷ []
  set k v (e ∷ d) = if e.0 == k then (e.0, v) ∷ d else e ∷ set k v d

  unfoldable pub has : String → Dict V → Bool
  has k [] = false
  has k (e ∷ d) = e.0 == k || has k d

  -- What a dict has by construction: no key twice.
  abbrev pub HasDistinctKeys : Dict V → Type 0
  HasDistinctKeys [] = Unit
  HasDistinctKeys (e ∷ d) = (has e.0 d ≡ false) × HasDistinctKeys d

  -- `d.get(k, default)`
  abbrev pub or_default : Option V → V → V
  or_default none v = v
  or_default (some w) v = w

  pub get-set :
      (k j : String) (v : V) (d : Dict V) → get j (set k v d) ≡ (if k == j then some v else get j d)
  unfolding get set
  get-set k j v [] = refl
  get-set k j v (e ∷ d) = ground (arith, eq_iff e.0 k, eq_iff e.0 j, eq_iff k j, get-set k j v d)

  pub get-none_of_has : (k : String) (d : Dict V) → has k d ≡ false → get k d ≡ none
  unfolding get has
  get-none_of_has k [] h = refl
  get-none_of_has k (e ∷ d) h = ground (arith, get-none_of_has k d)
