-- ===== src/Util.antt =====
-- util/util.go: string sets, and the slice helpers of the generator.
pub mod Sets
pub mod Slices
pub mod Pairs
mod Tests
use fault.Common.{
  ℕ, zero, suc, ◌+◌, ◌-◌, ◌≡◌, Bool, true, false, not, List, [], ◌∷◌, ◌++◌, Option, none, some,
  if◌then◌else◌, length, same, has, ltb, leb, take, drop, init, ◌==◌, map,
}
use fault.Common.Text.{Text, text, text_key}
use fault.Common.Fallible.{◌>>=◌}

-- `Cartesian`, and `PairCombinations`, which is written the same way.
pair_with : Text → List Text → List (List Text)
pair_with a [] = []
pair_with a (b ∷ bs) = (a ∷ b ∷ []) ∷ pair_with a bs

unfoldable pub cartesian : List Text → List Text → List (List Text)
unfolding pair_with
cartesian [] list2 = []
cartesian (a ∷ as1) list2 = pair_with a list2 ++ cartesian as1 list2

unfoldable pub pair_combinations : List Text → List Text → List (List Text)
unfolding cartesian
pair_combinations left right = cartesian left right

unfoldable pub in_string_slice : List Text → Text → Bool
in_string_slice [] sub = false
in_string_slice (s ∷ sl) sub = if same s sub then true else in_string_slice sl sub

-- `MergeStrSlices`: the elements of the second slice that are not in the first go behind it.
missing_from : List Text → List Text → List Text
unfolding in_string_slice
missing_from sl1 [] = []
missing_from sl1 (v ∷ sl2) =
    if in_string_slice sl1 v then missing_from sl1 sl2 else v ∷ missing_from sl1 sl2

unfoldable pub merge_str_slices : List Text → List Text → List Text
unfolding missing_from
merge_str_slices sl1 sl2 = sl1 ++ missing_from sl1 sl2

-- `strings.Join(r, "")`
unfoldable pub concat : List Text → Text
concat [] = []
concat (s ∷ ss) = s ++ concat ss

joined_in : Text → List (List Text) → Bool
unfolding concat
joined_in r [] = false
joined_in r (o ∷ os) = if same r (concat o) then true else joined_in r os

unfoldable pub not_in_set : List (List Text) → List (List Text) → List (List Text)
unfolding joined_in concat
not_in_set o [] = []
not_in_set o (r ∷ c) = if joined_in (concat r) o then not_in_set o c else r ∷ not_in_set o c

-- `Intersection`. The inner loop drops the last element once for each equal element of `s2`; on an
-- empty slice that is a panic.
drop_last : List Text → Option (List Text)
drop_last [] = none
drop_last (x ∷ s3) = some (init (x ∷ s3))

pop_equal : Text → List Text → List Text → Option (List Text)
unfolding drop_last
pop_equal s [] s3 = some s3
pop_equal s (z ∷ s2) s3 = elim (same s z) [
  | true ↦ (drop_last s3 >>= λ s3'. pop_equal s s2 s3')
  | false ↦ pop_equal s s2 s3
]

scan_slice : List Text → List Text → List Text → Option (List Text)
unfolding pop_equal
scan_slice [] s2 s3 = some s3
scan_slice (s ∷ s1) s2 s3 = pop_equal s s2 (s3 ++ s ∷ []) >>= λ s3'. scan_slice s1 s2 s3'

unfoldable pub intersection : List Text → List Text → Bool → Option (List Text)
unfolding scan_slice
intersection s1 s2 both = scan_slice s1 s2 [] >>= λ s3.
    if both then (scan_slice s2 s1 [] >>= λ s4. some (s3 ++ s4)) else some s3
