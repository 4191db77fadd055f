-- ===== src/Common/Keys.antt =====
-- Types whose values Go compares with `==`, and Boolean membership in a list of them.
use Prim.Native.Nat.{ℕ}
use mathlib.Core.Path.{◌≡◌, refl}
use mathlib.Core.Logic.{◌↔◌}
use mathlib.Core.Bool.{Bool, true, false, ◌&&◌, ◌||◌}
use mathlib.Core.List.{List, [], ◌∷◌, ◌++◌}
use native.Mathlib.Omega.{arith}
use fault.Common.Tests.{◌==◌, ==_iff}

pub record Key {ℓ} (A : Type ℓ) : Type ℓ where
  pub same : A → A → Bool
  pub same_iff : (a b : A) → (same a b ≡ true) ↔ (a ≡ b)

abbrev pub same {ℓ} : {A : Type ℓ} ⦃k : Key A⦄ → A → A → Bool
same ⦃k⦄ = k.same

abbrev pub same_iff {ℓ} : {A : Type ℓ} ⦃k : Key A⦄ (a b : A) → (same a b ≡ true) ↔ (a ≡ b)
same_iff ⦃k⦄ = k.same_iff

instance abbrev pub nat_key : Key ℕ
nat_key = record { same = ◌==◌; same_iff = ==_iff }

module _ {ℓ} {A : Type ℓ} ⦃k : Key A⦄ where
  pub same_refl : (a : A) → same a a ≡ true
  same_refl a = (same_iff a a).1 refl

  pub same_comm : (a b : A) → same a b ≡ same b a
  same_comm a b = ground (arith, same_iff a b, same_iff b a)

  abbrev pub list_same : List A → List A → Bool
  list_same [] [] = true
  list_same [] (y ∷ ys) = false
  list_same (x ∷ xs) [] = false
  list_same (x ∷ xs) (y ∷ ys) = same x y && list_same xs ys

  pub list_same_iff : (xs ys : List A) → (list_same xs ys ≡ true) ↔ (xs ≡ ys)
  list_same_iff [] [] = ground arith
  list_same_iff [] (y ∷ ys) = ground arith
  list_same_iff (x ∷ xs) [] = ground arith
  list_same_iff (x ∷ xs) (y ∷ ys) = ground (arith, same_iff x y, list_same_iff xs ys)

  -- Some element of the list is `a`.
  abbrev pub has : A → List A → Bool
  has a [] = false
  has a (x ∷ xs) = same x a || has a xs

  pub has-append : (a : A) (xs ys : List A) → has a (xs ++ ys) ≡ (has a xs || has a ys)
  has-append a [] ys = refl
  has-append a (x ∷ xs) ys = ground (arith, has-append a xs ys)

  -- No element occurs twice.
  abbrev pub distinct : List A → Bool
  distinct [] = true
  distinct (x ∷ xs) = elim (has x xs) [ true ↦ false | false ↦ distinct xs ]

module _ {ℓ} {A : Type ℓ} ⦃k : Key A⦄ where
  pub distinct-cons :
      (x : A) (xs : List A) → has x xs ≡ false → distinct xs ≡ true → distinct (x ∷ xs) ≡ true
  distinct-cons x xs h d = ground arith

instance abbrev pub list_key {ℓ} : {A : Type ℓ} ⦃k : Key A⦄ → Key (List A)
list_key = record { same = list_same; same_iff = list_same_iff }
