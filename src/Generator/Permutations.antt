-- ===== src/Generator/Permutations.antt =====
-- `parallelPermutations` of smt/generator.go: the orders in which calls in parallel may run.
pub mod Choose
pub mod Orders
pub mod Exact
use fault.Common.{
  ℕ, zero, suc, ◌+◌, List, [], ◌∷◌, ◌++◌, Option, none, some, get_elem?, set, length,
}
use fault.Common.Text.{Text}

-- `a[k], a[i] = a[i], a[k]`; the callers keep both indexes in range.
swap_with : List Text → ℕ → ℕ → Option Text → Option Text → List Text
swap_with a k i (some x) (some y) = set (set a k y) i x
swap_with a k i _ _ = a

unfoldable pub swap : List Text → ℕ → ℕ → List Text
unfolding swap_with
swap a k i = swap_with a k i (get_elem? a k) (get_elem? a i)

-- The loop of `rc` from `i`, for as many turns as there are elements from there; `rc` is the call with
-- `k + 1`. The slice and the permutations so far are passed on.
rc_loop :
    (rc : List Text → List (List Text) → List Text × List (List Text))
    → (turns : ℕ) → List Text
    → (k i : ℕ) → List (List Text)
    → List Text × List (List Text)
unfolding swap
rc_loop rc zero a k i permuts = (a, permuts)
rc_loop rc (suc t) a k i permuts =
    let (a', permuts') = rc (swap a k i) permuts in rc_loop rc t (swap a' k i) k (i + 1) permuts'

-- `rc`, where `left` elements are behind `k`.
unfoldable pub rc : (left : ℕ) → List Text → ℕ → List (List Text) → List Text × List (List Text)
unfolding rc_loop
rc zero a k permuts = (a, permuts ++ a ∷ [])
rc (suc n) a k permuts = rc_loop (λ b out. rc n b (k + 1) out) (suc n) a k k permuts

unfoldable pub parallel_permutations : List Text → List (List Text)
unfolding rc
parallel_permutations p = (rc (length p) p 0 []).1
