-- ===== src/Responses/Tests.antt =====
-- The output of a solver that found a model of one constant.
use fault.Common.{◌≡◌, refl, ◌∷◌, ◌++◌, some, arith, List, [], none, ℕ, same, ◌&&◌, if◌then◌else◌}
use fault.Common.Text.{text, Text, text_key, split, split_first, join, atoi}
use fault.Common.Int.{pos, ℤ, int_key}
use fault.Variables.{ssa_name}
use fault.Responses.{
  check_answer, unsatisfiable, satisfiable, clean_extra_outputs, cleaned, goes_on, symbol_of,
}
use fault.Common.Dict.{lookup}
use fault.Execute.{new_trace, add}
use fault.Responses.Model.{
  real, integer, Scenario, float_trace, exit_function_def, at_index, exit_function_def-ssa_name,
}
use fault.Responses.Output.{check_answer_lem, clean_extra_outputs_lem}
use fault.Responses.Idents.{symbol_of-ssa_name}

check_answer_lem_example :
    (check_answer (text "; run" ++ text "unsat") ≡ unsatisfiable)
    × (check_answer (text "; run" ++ b'.' ∷ 10 ∷ text "sat") ≡ satisfiable)
check_answer_lem_example = check_answer_lem (text "; run") b'.' 10 refl

answer_alone : check_answer (text "sat") ≡ satisfiable
unfolding check_answer
answer_alone = refl

clean_extra_outputs_lem_example :
    (clean_extra_outputs (b's' ∷ text "at" ++ 10 ∷ b'(' ∷ text "model)")
      ≡ cleaned (b'(' ∷ text "model)"))
    × (clean_extra_outputs (b's' ∷ text "at") ≡ goes_on)
clean_extra_outputs_lem_example = clean_extra_outputs_lem b's' (text "at") (text "model)") refl refl

symbol_of-ssa_name_example :
    symbol_of (ssa_name (text "spec_x") (pos 12)) ≡ some (text "spec_x", pos 12)
symbol_of-ssa_name_example = symbol_of-ssa_name (text "spec_x") (pos 12) (omega arith)

-- Floats are numbers here, and weights too.
abbrev first_version : List (Text × Scenario ℕ ℕ)
first_version = (text "spec_x", float_trace (add new_trace (pos 0) 30)) ∷ []

exit_function_def-ssa_name_example :
    (results' : List (Text × Scenario ℕ ℕ)) × (exit_function_def first_version
        (ssa_name (text "spec_x") (pos 1))
        (real 40)
      ≡ some results')
    × ((id' : Text) (j : ℤ)
        → at_index (lookup id' results') j ≡ (
            if same (text "spec_x") id' && same (pos 1) j
            then some (real 40)
            else at_index (lookup id' first_version) j))
unfolding lookup
exit_function_def-ssa_name_example =
    exit_function_def-ssa_name first_version (text "spec_x") (pos 1) (real 40) (omega arith) refl

-- A number is not stored in a trace of floats.
sort_panics : exit_function_def first_version (text "spec_x_1") (integer (pos 40)) ≡ none
unfolding exit_function_def lookup split split_first join atoi
sort_panics = refl
