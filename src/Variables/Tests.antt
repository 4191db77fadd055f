-- ===== src/Variables/Tests.antt =====
-- smt/variables/variables.go at concrete inputs.
use fault.Common.{◌≡◌, refl, true, some, ℕ, [], ◌∷◌, distinct, arith, inl, inr, Bool-cases, same}
use fault.Common.Dict.{lookup, insert}
use fault.Common.Int.{pos}
use fault.Common.Text.{Text, text, text_key, split, join, itoa, atoi}
use fault.Common.Fallible.{◌>>=◌}
use fault.Variables.{new_variables, ssa_name, get_var_base, advance_ssa}
use fault.Variables.Names.{get_var_base-ssa_name}
use fault.Variables.Fresh.{advance_all, advance_all-distinct}
use fault.Variables.Phis.{Phis, init_phis, pop_phis, append_state}
use fault.Variables.Isolation.{IsStacks, branch-isolated}

base_of_name : get_var_base (text "spec_x_12") ≡ some (text "spec_x", pos 12)
unfolding get_var_base split join atoi
base_of_name = refl

get_var_base-ssa_name_example :
    get_var_base (ssa_name (text "spec_x_2") (pos 12)) ≡ some (text "spec_x_2", pos 12)
get_var_base-ssa_name_example = get_var_base-ssa_name (text "spec_x_2") (pos 12) (omega arith)

advance_all-distinct_example :
    distinct (advance_all (new_variables {V = ℕ}) (text "x" ∷ text "y" ∷ text "x" ∷ [])) ≡ true
advance_all-distinct_example =
    advance_all-distinct ℕ (text "x" ∷ text "y" ∷ text "x" ∷ []) (omega arith)

-- The counter of a variable is an `int16`, so it goes on below zero after its largest value.
wrapped :
    (advance_ssa (record (new_variables {V = ℕ}) { ssa = (text "x", pos 32767) ∷ [] }) (text "x")).0
    ≡ text "x_-32768"
unfolding advance_ssa new_variables lookup insert ssa_name itoa
wrapped = refl

abbrev stacks : Phis
stacks = (text "x", (pos 0 ∷ pos 3 ∷ []) ∷ []) ∷ []

stacks-IsStacks : IsStacks stacks
unfolding lookup
stacks-IsStacks = record {
  keys_distinct = refl;
  is_open = λ k known. elim (Bool-cases (same (text "x") k)) [
    | inl e ↦ ((pos 0 ∷ pos 3 ∷ []) ∷ [], rw e, (pos 3, (pos 0 ∷ pos 3 ∷ [], refl, refl)))
    | inr e ↦ ground arith
  ];
}

branch-isolated_example :
    (vd' : Phis) × ((init_phis stacks >>= λ vd1.
    append_state vd1 ((text "x", pos 7) ∷ []) >>= pop_phis)
      ≡ some vd')
    × ((id : Text) → lookup id vd' ≡ lookup id stacks)
branch-isolated_example = branch-isolated stacks ((text "x", pos 7) ∷ []) stacks-IsStacks (refl, tt)
