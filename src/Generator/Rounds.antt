-- ===== src/Generator/Rounds.antt =====
-- The rounds of smt/generator.go: which versions of a variable were made in which round.
pub mod Places
pub mod Grouped
use fault.Common.{
  ℕ, zero, suc, ◌-◌, Bool, true, false, List, [], ◌∷◌, ◌++◌, Option, none, some, length, nat_key,
}
use fault.Common.Text.{Text, text_key, itoa, atoi}
use fault.Common.Int.{ℤ, eqb_ℤ, int_key}
use fault.Common.Dict.{lookup, insert}
use fault.Common.Fallible.{◌>>=◌}
use fault.Variables.{ssa_name}

-- Where a version of a variable is: its number, its round, and its place in the round.
pub record Place : Type 0 where
  pub num : ℤ
  pub idx : ℕ
  pub idx2 : ℕ

-- `RoundVars`, whose entries are a variable and the text of a number, and `RVarLookup`.
pub record Rounds : Type 0 where
  pub round_vars : List (List (Text × Text))
  pub rvar_lookup : List (Text × List Place)

unfoldable pub new_round : Rounds → Rounds
new_round g = record g { round_vars = g.round_vars ++ [] ∷ [] }

-- The write to the current round, and `initVarRound` where there is none.
unfoldable pub append_last : List (List (Text × Text)) → Text × Text → List (List (Text × Text))
append_last [] e = (e ∷ []) ∷ []
append_last (r ∷ []) e = (r ++ e ∷ []) ∷ []
append_last (r ∷ s ∷ rs) e = r ∷ append_last (s ∷ rs) e

-- `len(g.RoundVars[len(g.RoundVars)-1]) - 1`
last_place : List (List (Text × Text)) → ℕ
last_place [] = 0
last_place (r ∷ []) = length r - 1
last_place (r ∷ s ∷ rs) = last_place (s ∷ rs)

abbrev pub or_nil {ℓ} : {A : Type ℓ} → Option (List A) → List A
or_nil none = []
or_nil (some xs) = xs

unfoldable pub add_var_to_round_lookup : Rounds → Text → ℤ → (idx idx2 : ℕ) → Rounds
add_var_to_round_lookup g base num idx idx2 = record g {
  rvar_lookup =
      insert base
        (or_nil (lookup base g.rvar_lookup) ++ record { num = num; idx = idx; idx2 = idx2 } ∷ [])
        g.rvar_lookup;
}

unfoldable pub add_var_to_round : Rounds → Text → ℤ → Rounds
unfolding append_last last_place add_var_to_round_lookup
add_var_to_round g base num =
    let rv = append_last g.round_vars (base, itoa num) in
    add_var_to_round_lookup (record g { round_vars = rv }) base num (length rv - 1) (last_place rv)

find_place : List Place → ℤ → Option (List Place)
find_place [] n = none
find_place (b ∷ bs) n = elim (eqb_ℤ b.num n) [ true ↦ some (b ∷ []) | false ↦ find_place bs n ]

-- The panics are on a text that is no number and on a version that is missing.
unfoldable pub lookup_var_specific_state : Rounds → Text → ℤ → Option (List Place)
unfolding find_place
lookup_var_specific_state g base n = find_place (or_nil (lookup base g.rvar_lookup)) n

unfoldable pub lookup_var_rounds : Rounds → Text → Text → Option (List Place)
unfolding lookup_var_specific_state
lookup_var_rounds g base [] = some (or_nil (lookup base g.rvar_lookup))
lookup_var_rounds g base (c ∷ num) = atoi (c ∷ num) >>= λ n. lookup_var_specific_state g base n

pub collect : Text → List Place → List (ℕ × List Text) → List (ℕ × List Text)
unfolding ssa_name
collect base [] ir = ir
collect base (s ∷ states) ir =
    collect base states (insert s.idx (or_nil (lookup s.idx ir) ++ ssa_name base s.num ∷ []) ir)

unfoldable pub var_rounds : Rounds → Text → Text → Option (List (ℕ × List Text))
unfolding lookup_var_rounds collect
var_rounds g base num = lookup_var_rounds g base num >>= λ states. some (collect base states [])
