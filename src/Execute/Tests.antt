-- ===== src/Execute/Tests.antt =====
-- execute/format.go and `LoadMeta` on traces of a few digits.
use fault.Common.{
  ℕ, ◌+◌, ◌≡◌, refl, Bool, true, not, ◌||◌, List, [], ◌∷◌, none, some, arith, if◌then◌else◌, length,
  ◌==◌,
}
use fault.Common.Text.{Text, text, text_key}
use fault.Common.Dict.{lookup}
use fault.Common.Int.{ℤ, pos, int_key}
use fault.Forks.{Choice}
use fault.Execute.{
  Branch, Trace, end, in_trail, index, generate_rows_float, generate_rows_int, int_row,
  dead_branches, load_meta, or_empty,
}
use fault.Execute.Rows.{cell, shown, generate_rows_float-shown, int_row_late}
use fault.Execute.Branches.{in_dead, dead_branches-index}
use fault.Execute.Traces.{is_phi}
use fault.Execute.Meta.{outranked, load_meta-outranked}

abbrev digit : ℕ → Text
digit n = (48 + n) ∷ []

abbrev with_gap : Trace ℕ ℕ
with_gap = record { results = (pos 2, 7) ∷ (pos 0, 4) ∷ []; weights = (pos 0, 1) ∷ [] }

generate_rows_float-shown_example :
    (r : List Text) × (generate_rows_float digit digit with_gap ≡ some r)
    × (length r ≡ 3)
    × ((j : ℕ) → cell r j ≡ shown digit digit with_gap.weights with_gap.results [] j)
generate_rows_float-shown_example = generate_rows_float-shown digit digit with_gap refl refl

float_gap :
    generate_rows_float digit digit with_gap ≡ some (text "-> 4 (1)" ∷ [] ∷ text "-> 7" ∷ [])
unfolding generate_rows_float lookup
float_gap = refl

-- The same values in an `IntTrace` take four places.
int_gap :
    generate_rows_int digit digit with_gap ≡ some (text "-> 4 (1)" ∷ [] ∷ [] ∷ text "-> 7" ∷ [])
unfolding generate_rows_int lookup
int_gap = refl

int_row_late_example :
    (r : List Text) × (int_row [] (pos 2) (digit 7) ≡ some r)
    × (length r ≡ 4)
    × (cell r 2 ≡ [])
    × (cell r 3 ≡ digit 7)
int_row_late_example = int_row_late [] 2 (digit 7) (omega arith)

abbrev differ : ℕ → ℕ → Bool
differ a b = not (a == b)

abbrev taken : Branch
taken = record { trail = pos 1 ∷ pos 2 ∷ []; phi = pos 5; base = text "x" }

abbrev not_taken : Branch
not_taken = record { trail = pos 3 ∷ pos 4 ∷ []; phi = pos 5; base = text "x" }

abbrev six_values : Trace ℕ ℕ
six_values = record {
  results = (pos 0, 1) ∷ (pos 1, 2) ∷ (pos 2, 3) ∷ (pos 3, 2) ∷ (pos 4, 8) ∷ (pos 5, 3) ∷ [];
  weights = [];
}

dead_branches-index_example :
    (t' : Trace ℕ ℕ) × (dead_branches differ (taken ∷ not_taken ∷ []) six_values ≡ some t')
    × ((i : ℤ)
        → index t' i ≡ (
            if is_phi (taken ∷ not_taken ∷ []) i
              || in_dead differ six_values (taken ∷ not_taken ∷ []) i
            then none
            else index six_values i))
unfolding end index in_trail lookup
dead_branches-index_example =
    dead_branches-index differ (taken ∷ not_taken ∷ []) six_values refl refl

abbrev left : Choice
left = record { base = text "x"; branch = text "true"; values = pos 1 ∷ pos 2 ∷ [] }

abbrev right : Choice
right = record { base = text "x"; branch = text "false"; values = pos 3 ∷ pos 4 ∷ [] }

load_meta-outranked_example :
    (tree : List (Text × List Branch)) × (load_meta (((text "x", left ∷ right ∷ []) ∷ []) ∷ [])
      ≡ some tree)
    × ((k : Text) → outranked (or_empty (lookup k tree)) ≡ true)
load_meta-outranked_example = load_meta-outranked (((text "x", left ∷ right ∷ []) ∷ []) ∷ []) refl
