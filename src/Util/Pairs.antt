-- ===== src/Util/Pairs.antt =====
-- The rows of `PairCombinations` in util/util.go.
use fault.Common.{◌≡◌, refl, List, [], ◌∷◌, ◌++◌, All}
use fault.Common.Text.{Text}
use fault.Util.{pair_with, cartesian, pair_combinations}

abbrev pub IsPair : List Text → Type 0
IsPair row = (a : Text) × (b : Text) × (row ≡ a ∷ b ∷ [])

pairs_append : (xs ys : List (List Text)) → All IsPair xs → All IsPair ys → All IsPair (xs ++ ys)
pairs_append [] ys p q = q
pairs_append (x ∷ xs) ys p q = (p.0, pairs_append xs ys p.1 q)

pair_with-IsPair : (a : Text) (bs : List Text) → All IsPair (pair_with a bs)
unfolding pair_with
pair_with-IsPair a [] = tt
pair_with-IsPair a (b ∷ bs) = ((a, b, refl), pair_with-IsPair a bs)

cartesian-IsPair : (as1 bs : List Text) → All IsPair (cartesian as1 bs)
unfolding cartesian
cartesian-IsPair [] bs = tt
cartesian-IsPair (a ∷ as1) bs =
    pairs_append (pair_with a bs) (cartesian as1 bs) (pair_with-IsPair a bs)
      (cartesian-IsPair as1 bs)

pub pair_combinations-IsPair : (left right : List Text) → All IsPair (pair_combinations left right)
unfolding pair_combinations
pair_combinations-IsPair left right = cartesian-IsPair left right
