-- ===== src/SpawnConfig/Merging.antt =====
-- What one overlay of the dicts does to each key.
use pioneer_square.Shared.{
  String, ◌≡◌, refl, false, ◌&&◌, Option, none, some, [], ◌∷◌, ◌==◌, string_eq, eq_iff,
  if◌then◌else◌, Dict, get, set, HasDistinctKeys, or_default, get-set, get-none_of_has, arith,
  Bool-cases, inl, inr,
}
use pioneer_square.SpawnConfig.{is_real, merge_entry, merge_env, merge_tools}

-- A key's value under a lower layer's and a higher one's: the higher one wins,
-- unless it is empty and the lower one is not.
abbrev pub overlay : Option String → Option String → Option String
overlay low none = low
overlay low (some v) = if v == "" && is_real low then low else some v

get-merge_entry_same :
    (out : Dict String) (e : String × String)
    → get e.0 (merge_entry out e) ≡ overlay (get e.0 out) (some e.1)
unfolding merge_entry
get-merge_entry_same out e = ground (arith, get-set e.0 e.0 e.1 out, eq_iff e.0 e.0)

get-merge_entry_other :
    (k : String) (out : Dict String) (e : String × String)
    → (e.0 == k) ≡ false
    → get k (merge_entry out e) ≡ get k out
unfolding merge_entry
get-merge_entry_other k out e h = ground (arith, get-set e.0 k e.1 out)

pub get-merge_env :
    (k : String) (out over : Dict String)
    → HasDistinctKeys over
    → get k (merge_env out over) ≡ overlay (get k out) (get k over)
unfolding merge_env get
get-merge_env k out [] h = refl
get-merge_env k out (e ∷ over) h = elim (Bool-cases (e.0 == k)) [
  | inl same ↦ ground (
    arith,
    get-merge_env k (merge_entry out e) over h.1,
    get-merge_entry_same out e,
    eq_iff e.0 k,
    get-none_of_has e.0 over h.0,
  )
  | inr other ↦
      ground
        (arith, get-merge_env k (merge_entry out e) over h.1, get-merge_entry_other k out e other)
]

-- The value of a key in the dict of a tool.
abbrev pub get_in : String → String → Dict (Dict String) → Option String
get_in tool k d = get k (or_default (get tool d) [])

-- The dicts of every tool come from Python dicts.
abbrev pub HasDistinctKeysInside : Dict (Dict String) → Type 0
HasDistinctKeysInside [] = Unit
HasDistinctKeysInside (e ∷ d) = HasDistinctKeys e.1 × HasDistinctKeysInside d

pub get_in-merge_tools :
    (tool k : String) (out over : Dict (Dict String))
    → HasDistinctKeys over
    → HasDistinctKeysInside over
    → get_in tool k (merge_tools out over) ≡ overlay (get_in tool k out) (get_in tool k over)
unfolding merge_tools get
get_in-merge_tools tool k out [] h inside = refl
get_in-merge_tools tool k out (e ∷ over) h inside =
    let merged = merge_env (or_default (get e.0 out) []) e.1 in
    let rest = get_in-merge_tools tool k (set e.0 merged out) over h.1 inside.1 in
    elim (Bool-cases (e.0 == tool)) [
      | inl same ↦ ground (
        arith,
        rest,
        get-set e.0 tool merged out,
        eq_iff e.0 tool,
        get-merge_env k (or_default (get e.0 out) []) e.1 inside.0,
        get-none_of_has e.0 over h.0,
      )
      | inr other ↦ ground (arith, rest, get-set e.0 tool merged out)
    ]
