-- ===== src/Generator/Permutations/Orders.antt =====
-- `parallelPermutations` of smt/generator.go without the slice that it writes to.
use fault.Common.{
  list_key, ℕ, zero, suc, ◌+◌, ◌≡◌, refl, sym, ap, ◌∙◌, List, [], ◌∷◌, ◌++◌, arith, length,
  length-append, map, append_assoc, append-nil,
}
use fault.Common.Text.{Text, text_key}
use fault.Generator.Permutations.{swap, rc_loop, rc, parallel_permutations}
use fault.Generator.Permutations.Choose.{
  choose, length-choose, swap-append, swap-choose, choose-choose,
}

-- The orders, by the element that comes first.
unfoldable pub orders_from :
    (List Text → List (List Text)) → (turns : ℕ) → Text → List Text → ℕ → List (List Text)
unfolding choose
orders_from again zero x xs j = []
orders_from again (suc t) x xs j =
    map (λ b. (choose x xs j).0 ∷ b) (again (choose x xs j).1) ++ orders_from again t x xs (suc j)

unfoldable pub orders : ℕ → List Text → List (List Text)
unfolding orders_from
orders zero xs = [] ∷ []
orders (suc n) [] = []
orders (suc n) (x ∷ xs) = orders_from (orders n) (suc n) x xs 0

under : List Text → List (List Text) → List (List Text)
under pre bs = map (λ b. pre ++ b) bs

under-append :
    (pre : List Text) (bs cs : List (List Text))
    → under pre (bs ++ cs) ≡ under pre bs ++ under pre cs
unfolding under
under-append pre [] cs = refl
under-append pre (b ∷ bs) cs = ap (λ ds. (pre ++ b) ∷ ds) (under-append pre bs cs)

-- `rc` restores the slice and adds what `again` gives behind the elements before `k`.
Restores : List Text → (List Text → List (List Text)) → ℕ → Type 0
Restores pre again n =
    (y : Text) (ys : List Text) (out : List (List Text))
    → length ys ≡ n
    → rc n (pre ++ y ∷ ys) (length pre + 1) out
      ≡ (pre ++ y ∷ ys, out ++ under pre (map (λ b. y ∷ b) (again ys)))

swap_to :
    (pre : List Text) (x : Text) (xs : List Text) (j : ℕ)
    → swap (pre ++ x ∷ xs) (length pre) (length pre + j)
      ≡ pre ++ (choose x xs j).0 ∷ (choose x xs j).1
swap_to pre x xs j = swap-append pre (x ∷ xs) j ∙ ap (λ a. pre ++ a) (swap-choose x xs j)

swap_back :
    (pre : List Text) (x : Text) (xs : List Text) (j : ℕ)
    → swap (pre ++ (choose x xs j).0 ∷ (choose x xs j).1) (length pre) (length pre + j)
      ≡ pre ++ x ∷ xs
swap_back pre x xs j =
    swap-append pre ((choose x xs j).0 ∷ (choose x xs j).1) j
    ∙ ap (λ a. pre ++ a) (choose-choose x xs j)

rc_loop-orders :
    (n : ℕ) (pre : List Text) (x : Text) (xs : List Text) (t j : ℕ) (out : List (List Text))
    → Restores pre (orders n) n
    → length xs ≡ n
    → rc_loop (λ b o. rc n b (length pre + 1) o) t (pre ++ x ∷ xs) (length pre) (length pre + j) out
      ≡ (pre ++ x ∷ xs, out ++ under pre (orders_from (orders n) t x xs j))
unfolding rc_loop orders_from Restores under
rc_loop-orders n pre x xs zero j out ih l = ap (λ o. (pre ++ x ∷ xs, o)) (sym (append-nil out))
rc_loop-orders n pre x xs (suc t) j out ih l =
    let y = (choose x xs j).0 in
    let ys = (choose x xs j).1 in
    let new = under pre (map (λ b. y ∷ b) (orders n ys)) in
    rw (swap_to pre x xs j, ih y ys out (length-choose x xs j ∙ l), swap_back pre x xs j)
      (ap
          (λ i.
            rc_loop (λ b o. rc n b (length pre + 1) o) t (pre ++ x ∷ xs) (length pre) i
              (out ++ new))
          (omega arith)
        ∙ rc_loop-orders n pre x xs t (suc j) (out ++ new) ih l
        ∙ ap (λ o. (pre ++ x ∷ xs, o))
            (append_assoc out new (under pre (orders_from (orders n) t x xs (suc j)))
              ∙ ap (λ o. out ++ o)
                  (sym (
                    under-append pre (map (λ b. y ∷ b) (orders n ys))
                      (orders_from (orders n) t x xs (suc j))))))

-- A first element that is put to those before `k`.
under-cons :
    (pre : List Text) (y : Text) (bs : List (List Text))
    → under (pre ++ y ∷ []) bs ≡ under pre (map (λ b. y ∷ b) bs)
unfolding under
under-cons pre y [] = refl
under-cons pre y (b ∷ bs) =
    ap (λ a. a ∷ under (pre ++ y ∷ []) bs) (append_assoc pre (y ∷ []) b)
    ∙ ap (λ ds. (pre ++ y ∷ b) ∷ ds) (under-cons pre y bs)

length-snoc : (pre : List Text) (y : Text) → length (pre ++ y ∷ []) ≡ length pre + 1
length-snoc pre y = omega (arith, length-append pre (y ∷ []))

-- What `rc` does from `k + 1` on, for a step to `k`.
next-Restores :
    (n : ℕ) (pre : List Text)
    → ((pre' xs : List Text) (out : List (List Text))
        → length xs ≡ n
        → rc n (pre' ++ xs) (length pre') out ≡ (pre' ++ xs, out ++ under pre' (orders n xs)))
    → Restores pre (orders n) n
unfolding Restores
next-Restores n pre ih y ys out e =
    ap (λ a. rc n a (length pre + 1) out) (sym (append_assoc pre (y ∷ []) ys))
    ∙ ap (λ i. rc n ((pre ++ y ∷ []) ++ ys) i out) (sym (length-snoc pre y))
    ∙ ih (pre ++ y ∷ []) ys out e
    ∙ ap (λ a. (a, out ++ under (pre ++ y ∷ []) (orders n ys))) (append_assoc pre (y ∷ []) ys)
    ∙ ap (λ bs. (pre ++ y ∷ ys, out ++ bs)) (under-cons pre y (orders n ys))

rc-orders :
    (n : ℕ) (pre xs : List Text) (out : List (List Text))
    → length xs ≡ n
    → rc n (pre ++ xs) (length pre) out ≡ (pre ++ xs, out ++ under pre (orders n xs))
unfolding rc orders under
rc-orders zero pre [] out l = refl
rc-orders zero pre (x ∷ xs) out l = absurd (omega (arith, l))
rc-orders (suc n) pre [] out l = absurd (omega (arith, l))
rc-orders (suc n) pre (x ∷ xs) out l =
    ap (λ i. rc_loop (λ b o. rc n b (length pre + 1) o) (suc n) (pre ++ x ∷ xs) (length pre) i out)
      (omega arith)
    ∙ rc_loop-orders n pre x xs (suc n) 0 out
        (next-Restores n pre (λ pre' xs' out'. rc-orders n pre' xs' out')) (omega (arith, l))

under_none : (bs : List (List Text)) → under [] bs ≡ bs
unfolding under
under_none [] = refl
under_none (b ∷ bs) = ap (λ ds. b ∷ ds) (under_none bs)

pub parallel_permutations-orders : (p : List Text) → parallel_permutations p ≡ orders (length p) p
unfolding parallel_permutations
parallel_permutations-orders p =
    ap (λ r. r.1) (rc-orders (length p) [] p [] refl) ∙ under_none (orders (length p) p)
