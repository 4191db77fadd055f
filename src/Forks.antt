-- ===== src/Forks.antt =====
-- smt/forks/forks.go: the versions of a variable in each branch of a conditional.
pub mod Choices
mod Tests
use fault.Common.{
  ℕ, zero, suc, ◌+◌, ◌-◌, ◌≡◌, Bool, true, false, not, List, [], ◌∷◌, ◌++◌, Option, none, some,
  if◌then◌else◌, last?, ◌==◌,
}
use fault.Common.Text.{Text, text, text_key}
use fault.Common.Fallible.{◌>>=◌}
use fault.Common.Int.{ℤ, pos, negsuc, ltb_ℤ}

-- `PhiState`: how deep the generator is inside conditionals.
pub record PhiState : Type 0 where
  pub levels : ℕ

unfoldable pub new_phi_state : PhiState
new_phi_state = record { levels = 0 }

unfoldable pub check : PhiState → Bool
check p = not (p.levels == 0)

unfoldable pub level : PhiState → ℕ
level p = p.levels

unfoldable pub enter : PhiState → PhiState
enter p = record p { levels = p.levels + 1 }

unfoldable pub leave : PhiState → PhiState
leave p = if not (p.levels == 0) then record p { levels = p.levels - 1 } else p

pub record Choice : Type 0 where
  pub base : Text
  pub branch : Text
  pub values : List ℤ

-- `sort.Slice` by `<`, on a slice whose equal elements cannot be told apart.
unfoldable pub insert_sorted : ℤ → List ℤ → List ℤ
insert_sorted n [] = n ∷ []
insert_sorted n (v ∷ vs) = if ltb_ℤ v n then v ∷ insert_sorted n vs else n ∷ v ∷ vs

unfoldable pub sort : List ℤ → List ℤ
unfolding insert_sorted
sort [] = []
sort (v ∷ vs) = insert_sorted v (sort vs)

unfoldable pub add_choice_value : Choice → ℤ → Choice
unfolding sort
add_choice_value c n = record c { values = sort (c.values ++ n ∷ []) }

-- `none` is the panic of the index -1.
unfoldable pub get_end : Choice → Option ℤ
get_end c = last? c.values

unfoldable pub get_fork_end_points : List Choice → Option (List ℤ)
get_fork_end_points [] = some []
get_fork_end_points (v ∷ c) =
    last? v.values >>= λ e. get_fork_end_points c >>= λ ends. some (e ∷ ends)
