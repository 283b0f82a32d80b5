-- ===== src/Shared/Sequences.antt =====
-- Lengths, reversal and suffixes of lists.
use Prim.Native.Nat.{ℕ, zero, suc, ◌+◌, ◌-◌}
use mathlib.Core.Path.{◌≡◌, refl, ap, sym, ◌∙◌}
use mathlib.Core.List.{List, [], ◌∷◌, ◌++◌, map, reverse_aux}
use native.Mathlib.Nat.{zero-add, suc-add}
use native.Mathlib.Omega.{arith}
use pioneer_square.Shared.Lists.{length, drop}

module _ {ℓ} {A : Type ℓ} where
  pub length-append : (xs ys : List A) → length (xs ++ ys) ≡ length xs + length ys
  length-append [] ys = omega arith
  length-append (x ∷ xs) ys = omega (arith, length-append xs ys)

  pub drop-suc :
      (n : ℕ) {y : A} {ys : List A} (zs : List A) → drop n zs ≡ y ∷ ys → drop (suc n) zs ≡ ys
  drop-suc zero [] h = cc
  drop-suc zero (z ∷ zs) h = cc
  drop-suc (suc n) [] h = cc
  drop-suc (suc n) (z ∷ zs) h = drop-suc n zs h

  -- What stood behind the reversed part.
  pub drop-reverse_aux : (xs ys : List A) → drop (length xs) (reverse_aux xs ys) ≡ ys
  drop-reverse_aux [] ys = refl
  drop-reverse_aux (x ∷ xs) ys =
      drop-suc (length xs) (reverse_aux xs (x ∷ ys)) (drop-reverse_aux xs (x ∷ ys))

  pub length-reverse_aux : (xs ys : List A) → length (reverse_aux xs ys) ≡ length xs + length ys
  length-reverse_aux [] ys = omega arith
  length-reverse_aux (x ∷ xs) ys = omega (arith, length-reverse_aux xs (x ∷ ys))

  pub drop-length-append : (xs ys : List A) → drop (length xs) (xs ++ ys) ≡ ys
  drop-length-append [] ys = refl
  drop-length-append (x ∷ xs) ys = drop-length-append xs ys

  pub drop-map {κ} :
      {B : Type κ} (f : A → B) (n : ℕ) (xs : List A) → drop n (map f xs) ≡ map f (drop n xs)
  drop-map f zero xs = refl
  drop-map f (suc n) [] = refl
  drop-map f (suc n) (x ∷ xs) = drop-map f n xs

  pub length-drop : (n : ℕ) (xs : List A) → length (drop n xs) ≡ length xs - n
  length-drop zero xs = omega arith
  length-drop (suc n) [] = omega arith
  length-drop (suc n) (x ∷ xs) = omega (arith, length-drop n xs)

  pub drop_all : (xs : List A) → drop (length xs) xs ≡ []
  drop_all [] = refl
  drop_all (x ∷ xs) = drop_all xs

  pub length-map {κ} : {B : Type κ} (f : A → B) (xs : List A) → length (map f xs) ≡ length xs
  length-map f [] = refl
  length-map f (x ∷ xs) = ap suc (length-map f xs)

  drop_nil : (n : ℕ) → drop {A = A} n [] ≡ []
  drop_nil zero = refl
  drop_nil (suc n) = refl

  pub drop-drop : (m n : ℕ) (xs : List A) → drop n (drop m xs) ≡ drop (m + n) xs
  drop-drop zero n xs = rw zero-add
  drop-drop (suc m) n [] = drop_nil n ∙ sym (drop_nil (suc m + n))
  drop-drop (suc m) n (x ∷ xs) = rw suc-add (drop-drop m n xs)
