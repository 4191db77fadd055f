-- ===== src/Generator/Tests.antt =====
-- Runs of the parts of smt/generator.go on small inputs.
use fault.Common.{
  ◌≡◌, refl, ◌↔◌, Bool, true, false, List, [], ◌∷◌, ◌++◌, none, some, has, list_key, nat_key, arith,
}
use fault.Common.Text.{Text, text, text_key, itoa}
use fault.Common.Int.{pos}
use fault.Common.Dict.{lookup}
use fault.Rules.{Rule, nil, cons, infix_rule, wrap}
use fault.Variables.{new_variables}
use fault.Generator.Permutations.{parallel_permutations}
use fault.Generator.Permutations.Exact.{Rearranges, parallel_permutations-Rearranges}
use fault.Generator.Rounds.{or_nil, var_rounds}
use fault.Generator.Rounds.Places.{Step, begin, make, run, no_rounds}
use fault.Generator.Rounds.Grouped.{made, run-var_rounds}
use fault.Generator.Choosing.{Fork, build_fork_choice, all_state_changes_in_rules}
use fault.Generator.Choosing.Ends.{Ends, versions, values_of, build_fork_choice-Ends}
use fault.Generator.Writes.{generate_rules}
use fault.Generator.Writes.Declared.{declarations, all_declares, generate_rules-declares}

abbrev calls : List Text
calls = text "a" ∷ text "b" ∷ text "c" ∷ []

six :
    parallel_permutations calls
    ≡ (text "a" ∷ text "b" ∷ text "c" ∷ [])
      ∷ (text "a" ∷ text "c" ∷ text "b" ∷ [])
      ∷ (text "b" ∷ text "a" ∷ text "c" ∷ [])
      ∷ (text "b" ∷ text "c" ∷ text "a" ∷ [])
      ∷ (text "c" ∷ text "b" ∷ text "a" ∷ [])
      ∷ (text "c" ∷ text "a" ∷ text "b" ∷ [])
      ∷ []
unfolding parallel_permutations
six = refl

parallel_permutations-Rearranges_example :
    (has (text "b" ∷ text "a" ∷ text "c" ∷ []) (parallel_permutations calls) ≡ true)
    ↔ Rearranges (text "b" ∷ text "a" ∷ text "c" ∷ []) calls
parallel_permutations-Rearranges_example =
    parallel_permutations-Rearranges calls (text "b" ∷ text "a" ∷ text "c" ∷ [])

abbrev steps : List Step
steps = make (text "x") (pos 0) ∷ begin ∷ make (text "y") (pos 0) ∷ make (text "x") (pos 1) ∷ []

run-var_rounds_example :
    (ir : _) × (var_rounds (run no_rounds steps) (text "x") [] ≡ some ir)
    × (or_nil (lookup 1 ir) ≡ made (text "x") 1 0 steps)
run-var_rounds_example = run-var_rounds steps (text "x") 1

x_in_round_1 : made (text "x") 1 0 steps ≡ text "x_1" ∷ []
unfolding made itoa
x_in_round_1 = refl

abbrev a_wrap : Text → Rule Text
a_wrap v = wrap (record { value = v; state = []; all = false; constant = false; tag = none })

-- `x_2 = x_1 + y_0`
abbrev a_sum : Rule Text
a_sum =
    infix_rule (a_wrap (text "x_2"))
      (infix_rule (a_wrap (text "x_1")) (a_wrap (text "y_0")) (text "Real") (text "+") none)
      (text "Real") [] none

abbrev no_float : Text → Bool
no_float t = false

build_fork_choice-Ends_example :
    (fork' : Fork) × (build_fork_choice no_float (cons a_sum nil) (text "true") [] ≡ some fork')
    × Ends
        (text "true")
        (lookup (text "x") [])
        (lookup (text "x") fork')
        (values_of (text "x") ((text "x", pos 2) ∷ (text "x", pos 1) ∷ (text "y", pos 0) ∷ []) [])
unfolding all_state_changes_in_rules versions itoa
build_fork_choice-Ends_example =
    build_fork_choice-Ends no_float (cons a_sum nil) (text "true") []
      ((text "x", pos 2) ∷ (text "x", pos 1) ∷ (text "y", pos 0) ∷ []) (text "x") refl
      (omega arith, (omega arith, (omega arith, tt)))

generate_rules-declares_example :
    (ts : List Text) × (generate_rules some new_variables (a_sum ∷ []) []
      ≡ some (ts, [] ++ declarations ((text "x_2", text "Real") ∷ [])))
unfolding all_declares
generate_rules-declares_example =
    generate_rules-declares some new_variables (a_sum ∷ []) ((text "x_2", text "Real") ∷ []) [] refl

written :
    generate_rules some new_variables (a_sum ∷ []) []
    ≡ some (text "(assert (= x_2 (+ x_1 y_0)))" ∷ [], text "(declare-fun x_2 () Real)" ∷ [])
unfolding generate_rules
written = refl
