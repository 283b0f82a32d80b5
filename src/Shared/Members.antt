-- ===== src/Shared/Members.antt =====
-- Membership of texts in lists.
use Prim.Native.String.{String}
use mathlib.Core.Path.{◌≡◌, refl}
use mathlib.Core.Bool.{Bool, true, ◌||◌, ◌&&◌}
use mathlib.Core.List.{List, [], ◌∷◌, ◌++◌, map}
use native.Mathlib.Omega.{arith}
use text.Mathlib.TextEquality.{eq_iff}
use pioneer_square.Shared.Tests.{Bool-cases, ◌==◌, string_eq}
use pioneer_square.Shared.Lists.{any, member, filter}
use mathlib.Core.Logic.{inl, inr}

pub member-append :
    (a : String) (xs ys : List String) → member a (xs ++ ys) ≡ (member a xs || member a ys)
unfolding member
member-append a [] ys = refl
member-append a (x ∷ xs) ys = ground (arith, member-append a xs ys)

-- What `any` finds stands in the list.
pub any-member :
    (f : String → Bool) (xs : List String)
    → any f xs ≡ true
    → (x : String) × (member x xs ≡ true) × (f x ≡ true)
unfolding any member
any-member f [] h = cc
any-member f (x ∷ xs) h = elim (Bool-cases (f x)) [
  | inl here ↦ (x, ground (arith, eq_iff x x), here)
  | inr there ↦ let (y, m, e) = any-member f xs (ground (arith, there)) in (y, ground (arith, m), e)
]

pub member-any :
    (f : String → Bool) (x : String) (xs : List String)
    → member x xs ≡ true
    → f x ≡ true
    → any f xs ≡ true
unfolding any member
member-any f x [] m h = m
member-any f x (y ∷ ys) m h = ground (arith, eq_iff x y, member-any f x ys)

pub member-map-filter {ℓ} :
    {A : Type ℓ} (f : A → String) (p : A → Bool) (s : String) (xs : List A)
    → member s (map f (filter p xs)) ≡ any (λ x. p x && s == f x) xs
unfolding any member filter
member-map-filter f p s [] = refl
member-map-filter f p s (x ∷ xs) = ground (arith, member-map-filter f p s xs)
