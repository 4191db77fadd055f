-- ===== src/Generator/Permutations/Exact.antt =====
-- What `parallelPermutations` of smt/generator.go returns.
use fault.Common.{
  right_of, subst, list_key, ◌==◌, ==_iff, ℕ, zero, suc, ◌+◌, ◌<◌, ◌≤◌, ◌≡◌, refl, sym, ap, ◌∙◌,
  ◌↔◌, Bool, true, false, ◌||◌, List, [], ◌∷◌, arith, length, map, same, same_iff, same_refl, has,
  has-append, Bool-cases, inl, inr,
}
use fault.Common.Text.{Text, text_key}
use fault.Generator.Permutations.{parallel_permutations}
use fault.Generator.Permutations.Choose.{count, choose, count-choose, length-choose, choose-count}
use fault.Generator.Permutations.Orders.{orders_from, orders, parallel_permutations-orders}

-- A list that is an order with `y` first.
has-cons :
    (y : Text) (b : List Text) (bs : List (List Text))
    → has b (map (λ a. y ∷ a) bs) ≡ true
    → (d : List Text) × (b ≡ y ∷ d) × (has d bs ≡ true)
has-cons y b [] h = cc
has-cons y b (a ∷ bs) h = elim (Bool-cases (same (y ∷ a) b)) [
  | inl e ↦ (a, sym ((same_iff (y ∷ a) b).0 e), rw (same_refl a, ◌||◌))
  | inr e ↦ let (d, f, g) = has-cons y b bs (ground (arith, h, e)) in (d, f, ground (arith, g))
]

has-cons-cons :
    (y : Text) (d : List Text) (bs : List (List Text))
    → has (y ∷ d) (map (λ a. y ∷ a) bs) ≡ has d bs
has-cons-cons y d [] = refl
has-cons-cons y d (a ∷ bs) = ground (arith, same_refl y, has-cons-cons y d bs)

-- `b` has the elements of `xs`, each as often.
abbrev pub Rearranges : (b xs : List Text) → Type 0
Rearranges b xs = (c : Text) → count c b ≡ count c xs

count-step :
    (c y : Text) (d ys : List Text) → count c d ≡ count c ys → count c (y ∷ d) ≡ count c (y ∷ ys)
unfolding count
count-step c y d ys h = omega (arith, h)

count-rest :
    (c y : Text) (d ys : List Text) → count c (y ∷ d) ≡ count c (y ∷ ys) → count c d ≡ count c ys
unfolding count
count-rest c y d ys h = omega (arith, h)

only_empty : (b : List Text) → has b ([] ∷ []) ≡ true → b ≡ []
only_empty [] h = refl
only_empty (x ∷ b) h = cc

orders_from_sound :
    (again : List Text → List (List Text)) (t : ℕ) (x : Text) (xs : List Text) (j : ℕ)
    (b : List Text)
    → ((d ys : List Text) → length ys ≡ length xs → has d (again ys) ≡ true → Rearranges d ys)
    → has b (orders_from again t x xs j) ≡ true
    → Rearranges b (x ∷ xs)
unfolding orders_from
orders_from_sound again zero x xs j b ih h = cc
orders_from_sound again (suc t) x xs j b ih h =
    let y = (choose x xs j).0 in
    let ys = (choose x xs j).1 in
    elim (Bool-cases (has b (map (λ a. y ∷ a) (again ys)))) [
      | inl e ↦
          let (d, f, g) = has-cons y b (again ys) e in
          λ c.
            ap (λ a. count c a) f
            ∙ count-step c y d ys (ih d ys (length-choose x xs j) g c)
            ∙ count-choose c x xs j
      | inr e ↦ orders_from_sound again t x xs (suc j) b ih (
          right_of (has b (map (λ a. y ∷ a) (again ys))) (has b (orders_from again t x xs (suc j)))
            e
            (sym (has-append b (map (λ a. y ∷ a) (again ys)) (orders_from again t x xs (suc j)))
              ∙ h))
    ]

orders_sound :
    (n : ℕ) (b xs : List Text) → length xs ≡ n → has b (orders n xs) ≡ true → Rearranges b xs
unfolding orders
orders_sound zero b [] l h = λ c. ap (λ a. count c a) (only_empty b h)
orders_sound zero b (x ∷ xs) l h = absurd (omega (arith, l))
orders_sound (suc n) b [] l h = cc
orders_sound (suc n) b (x ∷ xs) l h =
    orders_from_sound (orders n) (suc n) x xs 0 b
      (λ d ys e g. orders_sound n d ys (omega (arith, e, l)) g) h

or_left : (a b : Bool) → a ≡ true → (a || b) ≡ true
or_left a b h = ground (arith, h)

or_right : (a b : Bool) → b ≡ true → (a || b) ≡ true
or_right a b h = ground (arith, h)

above : (j i : ℕ) → j ≤ i → (j == i) ≡ false → suc j ≤ i
above j i l e = ground (arith, l, e)

-- The orders that begin with the element of turn `i`.
turn : (List Text → List (List Text)) → Text → List Text → ℕ → List (List Text)
unfolding choose
turn again x xs i = map (λ a. (choose x xs i).0 ∷ a) (again (choose x xs i).1)

orders_from_complete :
    (again : List Text → List (List Text)) (t : ℕ) (x : Text) (xs : List Text) (j i : ℕ)
    (b : List Text)
    → j ≤ i
    → i < j + t
    → has b (turn again x xs i) ≡ true
    → has b (orders_from again t x xs j) ≡ true
unfolding orders_from turn
orders_from_complete again zero x xs j i b l u h = absurd (omega (arith, l, u))
orders_from_complete again (suc t) x xs j i b l u h =
    has-append b (turn again x xs j) (orders_from again t x xs (suc j))
    ∙ elim (Bool-cases (j == i)) [
      | inl e ↦
          or_left (has b (turn again x xs j)) (has b (orders_from again t x xs (suc j)))
            (subst (λ k. has b (turn again x xs k) ≡ true) (sym ((==_iff j i).0 e)) h)
      | inr e ↦
          or_right (has b (turn again x xs j)) (has b (orders_from again t x xs (suc j)))
            (orders_from_complete again t x xs (suc j) i b (above j i l e) (omega (arith, u)) h)
    ]

-- An order of the other elements is one of all, with the element of its turn in front.
has-turn :
    (again : List Text → List (List Text)) (x : Text) (xs : List Text) (i : ℕ) (y : Text)
    (b : List Text)
    → (choose x xs i).0 ≡ y
    → has b (again (choose x xs i).1) ≡ true
    → has (y ∷ b) (turn again x xs i) ≡ true
unfolding turn
has-turn again x xs i y b f h =
    ap (λ z. has (y ∷ b) (map (λ a. z ∷ a) (again (choose x xs i).1))) f
    ∙ has-cons-cons y b (again (choose x xs i).1)
    ∙ h

Rearranges-rest :
    (x : Text) (xs : List Text) (i : ℕ) (y : Text) (b : List Text)
    → (choose x xs i).0 ≡ y
    → Rearranges (y ∷ b) (x ∷ xs)
    → Rearranges b (choose x xs i).1
Rearranges-rest x xs i y b f r c =
    count-rest c y b (choose x xs i).1
      (r c ∙ sym (count-choose c x xs i) ∙ ap (λ z. count c (z ∷ (choose x xs i).1)) f)

orders_complete :
    (n : ℕ) (b xs : List Text) → length xs ≡ n → Rearranges b xs → has b (orders n xs) ≡ true
unfolding orders count
orders_complete zero [] [] l r = refl
orders_complete zero (y ∷ b) [] l r = absurd (ground (arith, r y, same_refl y))
orders_complete zero b (x ∷ xs) l r = absurd (omega (arith, l))
orders_complete (suc n) b [] l r = absurd (omega (arith, l))
orders_complete (suc n) [] (x ∷ xs) l r = absurd (ground (arith, r x, same_refl x))
orders_complete (suc n) (y ∷ b) (x ∷ xs) l r =
    let (i, u, f) = choose-count y x xs (ground (arith, r y, same_refl y)) in
    orders_from_complete (orders n) (suc n) x xs 0 i (y ∷ b) (omega arith) (omega (arith, u, l)) (
      has-turn (orders n) x xs i y b f (
        orders_complete n b (choose x xs i).1 (length-choose x xs i ∙ omega (arith, l))
          (Rearranges-rest x xs i y b f r)))

-- parallelPermutations returns exactly the lists that have the elements of its argument, each as often.
pub parallel_permutations-Rearranges :
    (p b : List Text) → (has b (parallel_permutations p) ≡ true) ↔ Rearranges b p
parallel_permutations-Rearranges p b = (
  λ h.
      orders_sound (length p) b p refl
        (ap (λ o. has b o) (sym (parallel_permutations-orders p)) ∙ h),
  λ r. ap (λ o. has b o) (parallel_permutations-orders p) ∙ orders_complete (length p) b p refl r,
)
