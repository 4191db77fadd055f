-- ===== src/Generator/Permutations/Choose.antt =====
-- The exchanges of elements in `parallelPermutations` of smt/generator.go.
use fault.Common.{
  list_key, ℕ, zero, suc, ◌+◌, ◌<◌, ◌≡◌, refl, ap, ◌∙◌, List, [], ◌∷◌, ◌++◌, Option, none, some,
  arith, get_elem?, set, length, length-set, same, same_iff, if◌then◌else◌, Bool-cases, inl, inr,
}
use fault.Common.Text.{Text, text_key}
use fault.Generator.Permutations.{swap, swap_with}

-- How often `c` is in a list.
unfoldable pub count : Text → List Text → ℕ
count c [] = 0
count c (x ∷ xs) = (if same x c then 1 else 0) + count c xs

-- The list with its element `j` and its first one exchanged, as that element and the others.
put_back : Text → List Text → ℕ → Option Text → Text × List Text
put_back x xs j none = (x, xs)
put_back x xs j (some y) = (y, set xs j x)

unfoldable pub choose : Text → List Text → ℕ → Text × List Text
unfolding put_back
choose x xs zero = (x, xs)
choose x xs (suc j) = put_back x xs j (get_elem? xs j)

count-set :
    (c x y : Text) (xs : List Text) (j : ℕ)
    → get_elem? xs j ≡ some y
    → count c (y ∷ set xs j x) ≡ count c (x ∷ xs)
unfolding count
count-set c x y [] j h = cc
count-set c x y (z ∷ xs) zero h = ground (arith, h)
count-set c x y (z ∷ xs) (suc j) h = omega (arith, count-set c x y xs j h)

pub count-choose :
    (c x : Text) (xs : List Text) (j : ℕ)
    → count c ((choose x xs j).0 ∷ (choose x xs j).1) ≡ count c (x ∷ xs)
unfolding choose put_back
count-choose c x xs zero = refl
count-choose c x xs (suc j) = go (get_elem? xs j) refl
  where
    go :
        (o : Option Text)
        → get_elem? xs j ≡ o
        → count c ((put_back x xs j o).0 ∷ (put_back x xs j o).1) ≡ count c (x ∷ xs)
    go none e = refl
    go (some y) e = count-set c x y xs j e

pub length-choose : (x : Text) (xs : List Text) (j : ℕ) → length (choose x xs j).1 ≡ length xs
unfolding choose put_back
length-choose x xs zero = refl
length-choose x xs (suc j) = go (get_elem? xs j)
  where
    go : (o : Option Text) → length (put_back x xs j o).1 ≡ length xs
    go none = refl
    go (some y) = length-set xs j x

-- An element of the list is chosen at some turn.
index_of :
    (c : Text) (xs : List Text)
    → 0 < count c xs
    → (j : ℕ) × (j < length xs) × (get_elem? xs j ≡ some c)
unfolding count
index_of c [] h = absurd (omega (arith, h))
index_of c (x ∷ xs) h = elim (Bool-cases (same x c)) [
  | inl e ↦ (0, omega arith, ap (λ a. some a) ((same_iff x c).0 e))
  | inr e ↦ let (j, l, g) = index_of c xs (ground (arith, h, e)) in (suc j, omega (arith, l), g)
]

pub choose-count :
    (c x : Text) (xs : List Text)
    → 0 < count c (x ∷ xs)
    → (j : ℕ) × (j < suc (length xs)) × ((choose x xs j).0 ≡ c)
unfolding choose count put_back
choose-count c x xs h = elim (Bool-cases (same x c)) [
  | inl e ↦ (0, omega arith, (same_iff x c).0 e)
  | inr e ↦
      let (j, l, g) = index_of c xs (ground (arith, h, e)) in (suc j, omega (arith, l), rw (g))
]

swap-cons : (p : Text) (a : List Text) (k i : ℕ) → swap (p ∷ a) (suc k) (suc i) ≡ p ∷ swap a k i
unfolding swap swap_with
swap-cons p a k i = go (get_elem? a k) (get_elem? a i)
  where
    go : (o u : Option Text) → swap_with (p ∷ a) (suc k) (suc i) o u ≡ p ∷ swap_with a k i o u
    go (some x) (some y) = refl
    go none u = refl
    go (some x) none = refl

pub swap-append :
    (pre a : List Text) (i : ℕ) → swap (pre ++ a) (length pre) (length pre + i) ≡ pre ++ swap a 0 i
swap-append [] a i = ap (λ j. swap a 0 j) (omega arith)
swap-append (p ∷ pre) a i =
    ap (λ j. swap (p ∷ pre ++ a) (suc (length pre)) j) (omega arith)
    ∙ swap-cons p (pre ++ a) (length pre) (length pre + i)
    ∙ ap (λ b. p ∷ b) (swap-append pre a i)

pub swap-choose :
    (x : Text) (xs : List Text) (j : ℕ) → swap (x ∷ xs) 0 j ≡ (choose x xs j).0 ∷ (choose x xs j).1
unfolding swap choose swap_with put_back
swap-choose x xs zero = refl
swap-choose x xs (suc j) = go (get_elem? xs j)
  where
    go :
        (o : Option Text)
        → swap_with (x ∷ xs) 0 (suc j) (some x) o ≡ (put_back x xs j o).0 ∷ (put_back x xs j o).1
    go none = refl
    go (some y) = refl

set_twice :
    (xs : List Text) (j : ℕ) (x y : Text)
    → get_elem? xs j ≡ some y
    → (get_elem? (set xs j x) j ≡ some x) × (set (set xs j x) j y ≡ xs)
set_twice [] j x y h = cc
set_twice (z ∷ xs) zero x y h = (refl, ground (arith, h))
set_twice (z ∷ xs) (suc j) x y h =
    ((set_twice xs j x y h).0, ap (λ a. z ∷ a) (set_twice xs j x y h).1)

-- A second exchange restores the list.
pub choose-choose :
    (x : Text) (xs : List Text) (j : ℕ) → swap ((choose x xs j).0 ∷ (choose x xs j).1) 0 j ≡ x ∷ xs
unfolding choose put_back swap swap_with
choose-choose x xs zero = swap-choose x xs 0
choose-choose x xs (suc j) = go (get_elem? xs j) refl
  where
    go :
        (o : Option Text)
        → get_elem? xs j ≡ o
        → swap ((put_back x xs j o).0 ∷ (put_back x xs j o).1) 0 (suc j) ≡ x ∷ xs
    go none e = rw (e)
    go (some y) e = rw ((set_twice xs j x y e).0, (set_twice xs j x y e).1)
