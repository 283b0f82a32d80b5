-- ===== src/Shared/Filters.antt =====
-- The laws of `filter` over appended lists, and of what it leaves out.
use Prim.Native.Nat.{suc, ◌≤◌}
use mathlib.Core.Path.{◌≡◌, refl}
use mathlib.Core.Bool.{Bool, true, false, not}
use mathlib.Core.List.{List, [], ◌∷◌, ◌++◌}
use native.Mathlib.Omega.{arith}
use pioneer_square.Shared.Lists.{filter, any, length}

module _ {ℓ} {A : Type ℓ} where
  pub filter-append :
      (p : A → Bool) (xs ys : List A) → filter p (xs ++ ys) ≡ filter p xs ++ filter p ys
  unfolding filter
  filter-append p [] ys = refl
  filter-append p (x ∷ xs) ys = ground (arith, filter-append p xs ys)

  pub filter-not_all :
      (p : A → Bool) (xs : List A) → any p xs ≡ false → filter (λ x. not (p x)) xs ≡ xs
  unfolding filter any
  filter-not_all p [] h = refl
  filter-not_all p (x ∷ xs) h = ground (arith, filter-not_all p xs)

  pub length-filter : (p : A → Bool) (xs : List A) → length (filter p xs) ≤ length xs
  unfolding filter
  length-filter p [] = omega arith
  length-filter p (x ∷ xs) = ground (arith, length-filter p xs)

  pub length-filter_lt :
      (p : A → Bool) (xs : List A)
      → any p xs ≡ true
      → suc (length (filter (λ x. not (p x)) xs)) ≤ length xs
  unfolding filter any
  length-filter_lt p [] h = cc
  length-filter_lt p (x ∷ xs) h =
      ground (arith, length-filter_lt p xs, length-filter (λ y. not (p y)) xs)
