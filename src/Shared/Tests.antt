-- ===== src/Shared/Tests.antt =====
-- Boolean tests, the conditional, and equality as an interface with the instances that are used.
use Prim.Native.Nat.{ℕ, compare, Ordering}
use Prim.Native.String.{String}
use mathlib.Core.Path.{◌≡◌, refl, ap}
use mathlib.Core.Logic.{◌↔◌, ◌⊎◌, ◌≢◌, inl, inr}
use mathlib.Core.Bool.{Bool, true, false, not}
use mathlib.Core.Option.{Option, none, some}
use native.Mathlib.Omega.{arith}
use text.Mathlib.Text.{◌==◌ as str_eq}
use text.Mathlib.TextEquality.{eq_iff}

abbrev pub ltb : ℕ → ℕ → Bool
ltb a b = elim (compare a b) [ Ordering.lt ↦ true | _ ↦ false ]

abbrev pub leb : ℕ → ℕ → Bool
leb a b = elim (compare a b) [ Ordering.gt ↦ false | _ ↦ true ]

abbrev nat_beq : ℕ → ℕ → Bool
nat_beq a b = elim (compare a b) [ Ordering.eq ↦ true | _ ↦ false ]

infix 1 if◌then◌else◌
abbrev pub if◌then◌else◌ {ℓ} : {A : Type ℓ} → Bool → A → A → A
if true then x else y = x
if false then x else y = y

-- To split on a computed value and keep the equation.
pub Bool-cases : (b : Bool) → (b ≡ true) ⊎ (b ≡ false)
Bool-cases true = inl refl
Bool-cases false = inr refl

pub Option-cases {ℓ} : {A : Type ℓ} (o : Option A) → (o ≡ none) ⊎ ((a : A) × (o ≡ some a))
Option-cases none = inl refl
Option-cases (some a) = inr (a, refl)

-- An equality test, as Python's `==` and SQL's `=` on columns that are not NULL.
-- It decides equality.
pub record Eq {ℓ} (A : Type ℓ) : Type ℓ where
  pub test : A → A → Bool
  pub decides : (x y : A) → (test x y ≡ true) ↔ (x ≡ y)

infix 50 ◌==◌ ◌!=◌
abbrev pub ◌==◌ {ℓ} : {A : Type ℓ} ⦃e : Eq A⦄ → A → A → Bool
◌==◌ ⦃e⦄ a b = e.test a b

abbrev pub ◌!=◌ {ℓ} : {A : Type ℓ} ⦃e : Eq A⦄ → A → A → Bool
◌!=◌ a b = not (a == b)

instance abbrev pub string_eq : Eq String
string_eq = record { test = str_eq; decides = eq_iff }

pub nat_beq_iff : (a b : ℕ) → (nat_beq a b ≡ true) ↔ (a ≡ b)
nat_beq_iff a b = ground arith

instance abbrev pub nat_eq : Eq ℕ
nat_eq = record { test = nat_beq; decides = nat_beq_iff }

module _ {ℓ} {A : Type ℓ} ⦃e : Eq A⦄ where
  abbrev option_beq : Option A → Option A → Bool
  option_beq none none = true
  option_beq (some a) (some b) = a == b
  option_beq _ _ = false

  pub option_beq_iff : (a b : Option A) → (option_beq a b ≡ true) ↔ (a ≡ b)
  option_beq_iff none none = (λ _. refl, λ _. refl)
  option_beq_iff (some a) (some b) =
      (λ h. ap some ((e.decides a b).0 h), λ p. (e.decides a b).1 (ground arith))
  option_beq_iff none (some b) = (λ h. cc, λ p. cc)
  option_beq_iff (some a) none = (λ h. cc, λ p. cc)

  instance abbrev pub option_eq : Eq (Option A)
  option_eq = record { test = option_beq; decides = option_beq_iff }

  -- SQL's `column = value` where the column may be NULL: NULL equals nothing.
  abbrev pub sql_eq : Option A → A → Bool
  sql_eq none a = false
  sql_eq (some b) a = b == a

  pub ==_refl : (a : A) → (a == a) ≡ true
  ==_refl a = (e.decides a a).1 refl

  pub eq_of_== : {a b : A} → (a == b) ≡ true → a ≡ b
  eq_of_== {a} {b} h = (e.decides a b).0 h

  pub ==_false_of_ne : {a b : A} → a ≢ b → (a == b) ≡ false
  ==_false_of_ne {a} {b} n = elim (Bool-cases (a == b)) [
    | inl p ↦ absurd (n (eq_of_== p))
    | inr q ↦ q
  ]

  pub some_of_sql_eq : (o : Option A) (a : A) → sql_eq o a ≡ true → o ≡ some a
  some_of_sql_eq none a h = cc
  some_of_sql_eq (some b) a h = ap some (eq_of_== h)
