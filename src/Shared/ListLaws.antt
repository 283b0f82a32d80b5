-- ===== src/Shared/ListLaws.antt =====
-- The laws of `filter`, `any`, `count` and `update`.
use Prim.Native.Nat.{◌≤◌}
use mathlib.Core.Path.{◌≡◌, refl, ap}
use mathlib.Core.Bool.{Bool, true, false, not, ◌&&◌, ◌||◌}
use mathlib.Core.List.{Memᴰ, List, [], ◌∷◌}
use mathlib.Core.Logic.{inl, inr}
use mathlib.Core.Option.{none, some}
use native.Mathlib.Omega.{arith}
use pioneer_square.Shared.Tests.{if◌then◌else◌, Bool-cases, ◌==◌, nat_eq}
use pioneer_square.Shared.Lists.{filter, any, count, find?, update}

module _ {ℓ} {A : Type ℓ} where
  pub any-filter : (p q : A → Bool) (xs : List A) → any p (filter q xs) ≡ any (λ x. q x && p x) xs
  unfolding any filter
  any-filter p q [] = refl
  any-filter p q (x ∷ xs) = ground (arith, any-filter p q xs)

  pub count-filter : (p q : A → Bool) (xs : List A) → count p (filter q xs) ≤ count p xs
  unfolding count filter
  count-filter p q [] = omega arith
  count-filter p q (x ∷ xs) = ground (arith, count-filter p q xs)

  pub count-zero_of_any : (p : A → Bool) (xs : List A) → any p xs ≡ false → count p xs ≡ 0
  unfolding count any
  count-zero_of_any p [] h = refl
  count-zero_of_any p (x ∷ xs) h = ground (arith, count-zero_of_any p xs)

  -- A filter keeps a row that its test keeps.
  pub any-filter_of_imp :
      (p q : A → Bool) (xs : List A)
      → ((x : A) → p x ≡ true → q x ≡ true)
      → any p xs ≡ true
      → any p (filter q xs) ≡ true
  unfolding any filter
  any-filter_of_imp p q [] keep h = h
  any-filter_of_imp p q (x ∷ xs) keep h = ground (arith, keep x, any-filter_of_imp p q xs keep)

  pub any_imp :
      (p q : A → Bool) (xs : List A)
      → ((x : A) → p x ≡ true → q x ≡ true)
      → any p xs ≡ true
      → any q xs ≡ true
  unfolding any
  any_imp p q [] keep h = h
  any_imp p q (x ∷ xs) keep h = ground (arith, keep x, any_imp p q xs keep)

  pub any_congr : (p q : A → Bool) (xs : List A) → ((x : A) → p x ≡ q x) → any p xs ≡ any q xs
  unfolding any
  any_congr p q [] h = refl
  any_congr p q (x ∷ xs) h = ground (arith, h x, any_congr p q xs h)

  pub any-or : (p q : A → Bool) (xs : List A) → any (λ x. p x || q x) xs ≡ (any p xs || any q xs)
  unfolding any
  any-or p q [] = refl
  any-or p q (x ∷ xs) = ground (arith, any-or p q xs)

  pub any-false_of_imp :
      (p q : A → Bool) (xs : List A)
      → ((x : A) → q x ≡ true → p x ≡ true)
      → any p xs ≡ false
      → any q xs ≡ false
  unfolding any
  any-false_of_imp p q [] imp h = refl
  any-false_of_imp p q (x ∷ xs) imp h = ground (arith, imp x, any-false_of_imp p q xs imp)

  pub any-update :
      (q p : A → Bool) (f : A → A) (xs : List A)
      → any q (update p f xs) ≡ any (λ x. q (if p x then f x else x)) xs
  unfolding any update
  any-update q p f [] = refl
  any-update q p f (x ∷ xs) = ground (arith, any-update q p f xs)

  pub any-eq-count : (p : A → Bool) (xs : List A) → any p xs ≡ not (count p xs == 0)
  unfolding any count
  any-eq-count p [] = refl
  any-eq-count p (x ∷ xs) = ground (arith, any-eq-count p xs)

  pub count-zero→any :
      (p r : A → Bool) (xs : List A)
      → ((x : A) → p x ≡ true → r x ≡ true)
      → count r xs ≡ 0
      → any p xs ≡ false
  unfolding any count
  count-zero→any p r [] imp h = refl
  count-zero→any p r (x ∷ xs) imp h = ground (arith, imp x, count-zero→any p r xs imp)

  any-and_left :
      (p q : A → Bool) (xs : List A) → any p xs ≡ false → any (λ x. p x && q x) xs ≡ false
  unfolding any
  any-and_left p q [] h = refl
  any-and_left p q (x ∷ xs) h = ground (arith, any-and_left p q xs)

  -- With a key `r` that at most one row has, the row that `p` finds speaks for all that `p` selects.
  pub any-find?_unique :
      (p q r : A → Bool) (xs : List A) (a : A)
      → ((x : A) → p x ≡ true → r x ≡ true)
      → count r xs ≤ 1
      → find? p xs ≡ some a
      → any (λ x. p x && q x) xs ≡ q a
  unfolding any count find?
  any-find?_unique p q r [] a imp u h = cc
  any-find?_unique p q r (x ∷ xs) a imp u h = elim (Bool-cases (p x)) [
    | inl here ↦ ground (arith, here, imp x here, count-zero→any p r xs imp, any-and_left p q xs)
    | inr there ↦ ground (arith, there, any-find?_unique p q r xs a imp)
  ]

  pub any_of_Mem : (p : A → Bool) {x : A} {xs : List A} → Memᴰ x xs → p x ≡ true → any p xs ≡ true
  unfolding any
  any_of_Mem p (Memᴰ.head e) h = ground (arith, ap p e)
  any_of_Mem p (Memᴰ.tail m) h = ground (arith, any_of_Mem p m h)

  pub any_none_of_Mem :
      (p : A → Bool) (xs : List A) → ((x : A) → Memᴰ x xs → p x ≡ false) → any p xs ≡ false
  unfolding any
  any_none_of_Mem p [] h = refl
  any_none_of_Mem p (x ∷ xs) h =
      ground (arith, h x (Memᴰ.head refl), any_none_of_Mem p xs (λ y m. h y (Memᴰ.tail m)))

  pub any_congr_of_Mem :
      (p q : A → Bool) (xs : List A) → ((x : A) → Memᴰ x xs → p x ≡ q x) → any p xs ≡ any q xs
  unfolding any
  any_congr_of_Mem p q [] h = refl
  any_congr_of_Mem p q (x ∷ xs) h =
      ground (arith, h x (Memᴰ.head refl), any_congr_of_Mem p q xs (λ y m. h y (Memᴰ.tail m)))

  -- A key that at most one row has: if a row of it passes `q`, none of it fails `q`.
  pub any-not_unique :
      (r q : A → Bool) (xs : List A)
      → count r xs ≤ 1
      → any (λ x. r x && q x) xs ≡ true
      → any (λ x. r x && not (q x)) xs ≡ false
  unfolding any count
  any-not_unique r q [] u h = refl
  any-not_unique r q (x ∷ xs) u h = elim (Bool-cases (r x)) [
    | inl here ↦
        let none_left = count-zero→any r r xs (λ y e. e) (ground (arith, here)) in
        ground (arith, here, any-and_left r q xs, any-and_left r (λ y. not (q y)) xs, none_left)
    | inr there ↦ ground (arith, there, any-not_unique r q xs)
  ]

  -- A row found by a test that the change keeps is the changed row.
  pub find?-update :
      (p : A → Bool) (f : A → A) (xs : List A) (a : A)
      → ((x : A) → p (f x) ≡ p x)
      → find? p xs ≡ some a
      → find? p (update p f xs) ≡ some (f a)
  unfolding find? update
  find?-update p f [] a keep h = cc
  find?-update p f (x ∷ xs) a keep h = ground (arith, keep x, find?-update p f xs a keep)

  pub find?-update_other :
      (q p : A → Bool) (f : A → A) (xs : List A)
      → ((x : A) → q (f x) ≡ q x)
      → ((x : A) → p x ≡ true → q x ≡ false)
      → find? q (update p f xs) ≡ find? q xs
  unfolding find? update
  find?-update_other q p f [] keep apart = refl
  find?-update_other q p f (x ∷ xs) keep apart =
      ground (arith, keep x, apart x, find?-update_other q p f xs keep apart)

  pub count-update :
      (q p : A → Bool) (f : A → A) (xs : List A)
      → ((x : A) → q (f x) ≡ q x)
      → count q (update p f xs) ≡ count q xs
  unfolding count update
  count-update q p f [] keep = refl
  count-update q p f (x ∷ xs) keep = ground (arith, keep x, count-update q p f xs keep)

  pub count-zero_of_find? : (p : A → Bool) (xs : List A) → find? p xs ≡ none → count p xs ≡ 0
  unfolding count find?
  count-zero_of_find? p [] h = refl
  count-zero_of_find? p (x ∷ xs) h = ground (arith, count-zero_of_find? p xs)

  pub update_congr_of_Mem :
      (p q : A → Bool) (f : A → A) (xs : List A)
      → ((x : A) → Memᴰ x xs → p x ≡ q x)
      → update p f xs ≡ update q f xs
  unfolding update
  update_congr_of_Mem p q f [] h = refl
  update_congr_of_Mem p q f (x ∷ xs) h =
      ground (arith, h x (Memᴰ.head refl), update_congr_of_Mem p q f xs (λ y m. h y (Memᴰ.tail m)))

  pub update_none :
      (p : A → Bool) (f : A → A) (xs : List A) → ((x : A) → p x ≡ false) → update p f xs ≡ xs
  unfolding update
  update_none p f [] h = refl
  update_none p f (x ∷ xs) h = ground (arith, h x, update_none p f xs h)

  -- Two updates by a change that need not be made twice are one.
  pub update-update :
      (p q : A → Bool) (f : A → A) (xs : List A)
      → ((x : A) → q (f x) ≡ q x)
      → ((x : A) → f (f x) ≡ f x)
      → update q f (update p f xs) ≡ update (λ x. p x || q x) f xs
  unfolding update
  update-update p q f [] keep once = refl
  update-update p q f (x ∷ xs) keep once =
      ground (arith, keep x, once x, update-update p q f xs keep once)

  pub update-if_update :
      (b : Bool) (p q : A → Bool) (f : A → A) (xs : List A)
      → ((x : A) → q (f x) ≡ q x)
      → ((x : A) → f (f x) ≡ f x)
      → update q f (if b then update p f xs else xs) ≡ update (λ x. b && p x || q x) f xs
  update-if_update true p q f xs keep once = update-update p q f xs keep once
  update-if_update false p q f xs keep once = refl

  pub count_of_Mem : (r : A → Bool) {w : A} {xs : List A} → Memᴰ w xs → r w ≡ true → 1 ≤ count r xs
  unfolding count
  count_of_Mem r (Memᴰ.head e) h = ground (arith, ap r e)
  count_of_Mem r (Memᴰ.tail m) h = ground (arith, count_of_Mem r m h)

  -- A member whose key at most one row has speaks for that key.
  pub any-own_unique :
      (p r : A → Bool) {w : A} {xs : List A}
      → Memᴰ w xs
      → r w ≡ true
      → count r xs ≤ 1
      → any (λ v. p v && r v) xs ≡ p w
  unfolding any count
  any-own_unique p r (Memᴰ.head {xs = xs} e) h unique =
      let others : count r xs ≡ 0 = ground (arith, ap r e) in
      let none_else =
        count-zero→any (λ v. p v && r v) r xs (λ v both. ground (arith, both)) others in
      ground (arith, ap p e, ap r e, none_else)
  any-own_unique p r (Memᴰ.tail m) h unique =
      ground (arith, count_of_Mem r m h, any-own_unique p r m h)

  pub filter_none : (p : A → Bool) (xs : List A) → ((x : A) → p x ≡ false) → filter p xs ≡ []
  unfolding filter
  filter_none p [] h = refl
  filter_none p (x ∷ xs) h = ground (arith, h x, filter_none p xs h)

  pub filter_congr :
      (p q : A → Bool) (xs : List A) → ((x : A) → p x ≡ q x) → filter p xs ≡ filter q xs
  unfolding filter
  filter_congr p q [] h = refl
  filter_congr p q (x ∷ xs) h = ground (arith, h x, filter_congr p q xs h)

  pub any_none : (p : A → Bool) (xs : List A) → ((x : A) → p x ≡ false) → any p xs ≡ false
  unfolding any
  any_none p [] h = refl
  any_none p (x ∷ xs) h = ground (arith, h x, any_none p xs h)

  pub any_of_find? : (p : A → Bool) (xs : List A) (a : A) → find? p xs ≡ some a → any p xs ≡ true
  unfolding any find?
  any_of_find? p [] a h = cc
  any_of_find? p (x ∷ xs) a h = ground (arith, any_of_find? p xs a)

  pub any-false_of_find? : (p : A → Bool) (xs : List A) → find? p xs ≡ none → any p xs ≡ false
  unfolding any find?
  any-false_of_find? p [] h = refl
  any-false_of_find? p (x ∷ xs) h = ground (arith, any-false_of_find? p xs)
