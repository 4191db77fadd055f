-- ===== src/Asserts/Examples.antt =====
-- `mergeByRound` of smt/asserts.go on the states of small variables.
use fault.Common.{
  ℕ, ◌≡◌, refl, true, false, [], ◌∷◌, some, none, if◌then◌else◌, leb, nat_key, arith, inl,
}
use fault.Common.Text.{text, join}
use fault.Common.Dict.{lookup}
use fault.Util.{pair_combinations}
use fault.Asserts.{package_state_graph}
use fault.Asserts.Merge.{
  States, invalid_base, merge_by_round, join_states, flatten_states, merge_invariant_prefix,
}
use fault.Common.Fallible.{◌>>=◌}
use fault.Asserts.Carried.{IsSound, latest, merge_by_round-latest}
use fault.Asserts.Gaps.{merge_by_round-gap}

-- `x` has states in the rounds 0 and 2, `y` in round 1.
abbrev x_states : States
x_states = record {
  terminal = true;
  base = text "x";
  states = (0, text "x_0" ∷ text "x_1" ∷ []) ∷ (2, text "x_2" ∷ []) ∷ [];
  constant = false;
}

abbrev y_states : States
y_states = record {
  terminal = false;
  base = text "y";
  states = (1, text "y_1" ∷ []) ∷ [];
  constant = false;
}

x_states-IsSound : IsSound x_states
unfolding invalid_base
x_states-IsSound = (refl, ((λ e. cc), ((λ e. cc), tt)))

y_states-IsSound : IsSound y_states
unfolding invalid_base
y_states-IsSound = (refl, ((λ e. cc), tt))

merge_by_round-latest_example :
    (m : States) × (merge_by_round 2 [] x_states y_states (text "<") ≡ some m)
    × ((j : ℕ)
        → lookup j m.states ≡ (
            if leb j 2
            then package_state_graph
                (pair_combinations (latest x_states j) (latest y_states j))
                (text "<")
            else none))
merge_by_round-latest_example =
    merge_by_round-latest 2 [] x_states y_states (text "<") x_states-IsSound y_states-IsSound refl
      refl refl refl

-- `x[1]`, compared with `x`.
abbrev x_once : States
x_once = record x_states { states = (1, text "x_1" ∷ []) ∷ []; constant = true }

merge_by_round-gap_example : merge_by_round 2 [] x_states x_once (text ">") ≡ none
unfolding lookup
merge_by_round-gap_example =
    merge_by_round-gap 2 [] x_states x_once (text ">") 0 (text "x_0") (text "x_1" ∷ []) refl refl
      refl (omega arith) (inl (omega arith, refl, refl))

-- The states of a negated variable are no terms of SMT-LIB.
in_brackets :
    flatten_states 2 (merge_invariant_prefix 2 (x_states ∷ []) (text "not"))
    ≡ text "(not [x_0 x_1])" ∷ text "(not [x_2])" ∷ []
unfolding flatten_states merge_invariant_prefix lookup join
in_brackets = refl

-- The sum `x + y` has four states, which are joined in the order of the rounds.
joined :
    (merge_by_round 2 [] x_states y_states (text "+") >>= λ m.
    some (join_states 2 (m ∷ []) (text "and")))
    ≡ some (text "(and (+ x_0 y_0) (+ x_1 y_0) (+ x_1 y_1) (+ x_2 y_1))")
unfolding merge_by_round join_states lookup invalid_base join
joined = refl
