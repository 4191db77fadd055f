-- ===== src/Types/Ty.antt =====
-- The types of types/types.go, and what becomes of two of them under an operator.
use fault.Common.{
  ℕ, Bool, not, ◌&&◌, ◌||◌, List, [], ◌∷◌, Option, none, some, if◌then◌else◌, has, same, ◌==◌, ltb,
}
use fault.Common.Text.{Text, text, text_key}
use fault.Common.Dict.{lookup}
use fault.Common.Int.{ℤ, pos}
use fault.Record.{Result, ok, err, panic}

-- `address` tells two `*ast.Type` apart, which the code is_compare_op as pointers.
pub record Ty : Type 0 where
  pub address : ℕ
  pub name : Text
  pub scope : ℤ
  pub params : List (Text × ℤ)

-- `ast.TYPES`
abbrev pub ranks : List (Text × ℕ)
ranks =
    (text "STRING", 0)
    ∷ (text "BOOL", 1)
    ∷ (text "NATURAL", 2)
    ∷ (text "FLOAT", 3)
    ∷ (text "INT", 4)
    ∷ (text "UNCERTAIN", 5)
    ∷ (text "UNKNOWN", 6)
    ∷ []

abbrev or_zero : Option ℕ → ℕ
or_zero none = 0
or_zero (some n) = n

-- `ast.TYPES[name]`; a missing key is 0.
unfoldable pub rank : Text → ℕ
unfolding lookup
rank name = or_zero (lookup name ranks)

-- `COMPARE[op]`
unfoldable pub is_compare_op : Text → Bool
is_compare_op op = has op (
    text ">"
    ∷ text "<"
    ∷ text "=="
    ∷ text "!="
    ∷ text "<="
    ∷ text ">="
    ∷ text "&&"
    ∷ text "||"
    ∷ text "!"
    ∷ [])

-- Of two types that are no pointer to the same one, the one with the lower rank.
unfoldable pub lower : Ty → Ty → Result (Option Ty)
unfolding rank
lower left right =
    if left.address == right.address
    then ok (some left)
    else if rank left.name == 0 || rank right.name == 0
    then err
    else if ltb (rank right.name) (rank left.name)
    then ok (some right)
    else ok (some left)

-- `typeAdju` where both types are there.
unfoldable pub adjust : Text → Ty → Ty → Result (Option Ty)
unfolding is_compare_op lower
adjust op left right =
    if same op (text "=")
    then (if same right.name left.name then ok (some right) else err)
    else if not (is_compare_op op)
        && (same left.name (text "BOOL") || same right.name (text "BOOL"))
    then err
    else lower left right

-- `typeAdju`, with the address of the type that it allocates.
unfoldable pub type_adju : ℕ → Option Ty → Option Ty → Text → Result (Option Ty)
unfolding adjust
type_adju next left right op =
    if same op (text "then")
    then ok (some (record { address = next; name = text "BOOL"; scope = pos 0; params = [] }))
    else elim left [
      | none ↦ if same op (text "=") then ok right else err
      | some l ↦ elim right [ none ↦ err | some r ↦ adjust op l r ]
    ]

unfoldable pub is_numeric : Ty → Bool
is_numeric t = has t.name (text "INT" ∷ text "FLOAT" ∷ text "UNKNOWN" ∷ text "UNCERTAIN" ∷ [])

-- `isConvertible`, whose second argument may be nil.
unfoldable pub is_convertible : Ty → Option Ty → Result Bool
unfolding is_numeric
is_convertible t1 none = panic
is_convertible t1 (some t2) = ok (same t1.name t2.name || is_numeric t1 && is_numeric t2)
