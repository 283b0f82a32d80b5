-- ===== src/Tools/Choice/Texts.antt =====
-- The organisations of a worker, `Worker.org` split at its commas.
use Prim.Native.Nat.{ℕ}
use Prim.Native.Char.{Char, code}
use Prim.Native.String.{String, [], ◌∷◌}
use mathlib.Core.List.{List, [] as nil, ◌∷◌ as cons}
use pioneer_square.Shared.{
  Bool, ◌&&◌, ◌||◌, if◌then◌else◌, leb, ◌==◌, nat_eq, string_eq, filter, map, ◌!=◌, ◌≡◌, refl,
}

abbrev is_in : Char → ℕ → ℕ → Bool
is_in c low high = leb low (code c) && leb (code c) high

-- What `str.strip` takes off.
abbrev pub is_space : Char → Bool
is_space c =
    is_in c 9 13
    || is_in c 28 32
    || is_in c 133 133
    || is_in c 160 160
    || is_in c 5760 5760
    || is_in c 8192 8202
    || is_in c 8232 8233
    || is_in c 8239 8239
    || is_in c 8287 8287
    || is_in c 12288 12288

abbrev lstrip : String → String
lstrip [] = []
lstrip (c ∷ s) = let rest = lstrip s in if is_space c then rest else c ∷ s

abbrev rstrip : String → String
rstrip [] = []
rstrip (c ∷ s) = let rest = rstrip s in if is_space c && rest == "" then [] else c ∷ rest

abbrev put_before : Char → List String → List String
put_before c nil = cons (c ∷ []) nil
put_before c (cons part parts) = cons (c ∷ part) parts

-- `s.split(",")`
abbrev split_commas : String → List String
split_commas [] = cons [] nil
split_commas (c ∷ s) =
    let rest = split_commas s in if code c == 44 then cons [] rest else put_before c rest

-- `[org.strip() for org in (worker_org or "").split(",") if org.strip()]`
unfoldable pub orgs : String → List String
orgs text = filter (λ org. org != "") (map (λ part. rstrip (lstrip part)) (split_commas text))

orgs_split : orgs " acme, ,tok io ," ≡ cons "acme" (cons "tok io" nil)
unfolding orgs filter
orgs_split = refl
