-- ===== src/Variables.antt =====
-- smt/variables/variables.go: what the SMT generator knows of each variable: the number of its last
-- assignment (SSA), the instructions behind its temporaries, and a stack of the numbers that each
-- branch has seen (Phis). `V` is `value.Value` of the LLVM library.
pub mod Names
pub mod Fresh
pub mod Phis
pub mod Isolation
mod Tests
use fault.Common.{
  ℕ, zero, suc, ◌≡◌, Bool, true, false, ◌&&◌, List, [], ◌∷◌, ◌++◌, Option, none, some,
  if◌then◌else◌, leb, same, has, ◌==◌, last?, init,
}
use fault.Common.Dict.{lookup, insert, is_some, keys}
use fault.Common.Int.{ℤ, pos, negsuc, suc_ℤ, int16, eqb_ℤ}
use fault.Common.Text.{Text, text, text_key, join, split, itoa, atoi}
use fault.Common.Fallible.{◌>>=◌, ◌>>◌}
use fault.Rules.{Rule}

pub record VarData (V : Type 0) : Type 0 where
  pub ssa : List (Text × ℤ)
  pub ref : List (Text × Rule V)
  pub loads : List (Text × V)
  pub phis : List (Text × List (List ℤ))
  pub types : List (Text × Text)

unfoldable pub new_variables : {V : Type 0} → VarData V
new_variables = record { ssa = []; ref = []; loads = []; phis = []; types = [] }

-- `IsTemp`: an index past the end panics. `IsNumeric` holds of one character if it is a digit.
unfoldable pub is_temp : Text → Option Bool
is_temp [] = none
is_temp (c ∷ []) = if c == b'%' then none else some false
is_temp (c ∷ d ∷ s) = some (c == b'%' && (leb b'0' d && leb d b'9'))

unfoldable pub is_global : Text → Option Bool
is_global [] = none
is_global (c ∷ s) = some (c == b'@')

unfoldable pub is_boolean : Text → Bool
is_boolean id = if same id (text "true") then true else same id (text "false")

unfoldable pub format_ident : Text → Option Text
format_ident [] = none
format_ident (c ∷ s) = some (if c == b'@' then s else if c == b'%' then s else c ∷ s)

-- `fmt.Sprint(id, "_", n)`
unfoldable pub ssa_name : Text → ℤ → Text
ssa_name id n = id ++ b'_' ∷ itoa n

-- `GetVarBase`. The panic is on a last part that is no number.
unfoldable pub get_var_base : Text → Option (Text × ℤ)
get_var_base id = do
  let v = split b'_' id
  part ← last? v
  num ← atoi part
  some (join b'_' (init v), num)

-- A lookup in a Go map without `ok`: the zero value where the key is missing.
abbrev or_zero : Option ℤ → ℤ
or_zero none = pos 0
or_zero (some i) = i

module _ {V : Type 0} where
  unfoldable pub get_ssa : VarData V → Text → Text × VarData V
  get_ssa vd id = elim (lookup id vd.ssa) [
    | some n ↦ (ssa_name id n, vd)
    | none ↦ (id ++ text "_0", record vd { ssa = insert id (pos 0) vd.ssa })
  ]

  unfoldable pub advance_ssa : VarData V → Text → Text × VarData V
  advance_ssa vd id = elim (lookup id vd.ssa) [
    | some i ↦
        (ssa_name id (int16 (suc_ℤ i)), record vd { ssa = insert id (int16 (suc_ℤ i)) vd.ssa })
    | none ↦ (id ++ text "_0", record vd { ssa = insert id (pos 0) vd.ssa })
  ]

  -- A temporary stands for the variable that it was loaded from.
  convert_temp : (V → Text) → VarData V → Text → Text → Option Text
  unfolding format_ident
  convert_temp ident vd f val = do
    v ← lookup (f ++ b'-' ∷ val) vd.loads
    id ← format_ident (ident v)
    n ← lookup id vd.ssa
    some (ssa_name id n)

  convert_name : VarData V → Text → Option Text
  unfolding format_ident
  convert_name vd val = do id ← format_ident val; some (ssa_name id (or_zero (lookup id vd.ssa)))

  -- `ident` is the method `Ident` of the LLVM library.
  unfoldable pub convert_ident : (V → Text) → VarData V → Text → Text → Option Text
  unfolding is_temp is_global convert_temp convert_name
  convert_ident ident vd f val = do
    temp ← is_temp val
    global ← is_global val
    local ← elim val [ [] ↦ none | c ∷ _ ↦ some (c == b'%') ]
    if temp
        then convert_temp ident vd f val
        else if (if local then true else global)
        then convert_name vd val
        else some val
