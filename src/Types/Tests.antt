-- ===== src/Types/Tests.antt =====
-- types/types.go on small trees.
use fault.Common.{
  nat_key, ℕ, ◌≡◌, ◌≤◌, refl, Bool, true, false, [], ◌∷◌, Option, some, none, All, has, arith, ◌⊎◌,
  ◌≢◌, ◌^◌, ◌*◌, ◌+◌, ◌%◌, length,
}
use fault.Common.Text.{Text, text, split}
use fault.Common.Dict.{lookup}
use fault.Record.{new_spec_record, fetch_var}
use fault.Record.Types.{get_struct_type}
use fault.Types.Ty.{Ty, is_compare_op, type_adju, is_convertible}
use fault.Types.Expr.{
  Expr, missing, integer, string, boolean, identifier, infix_of, function, block, stmt, expression,
  no_stmts, typeable, type_name,
}
use fault.Common.Int.{ℤ, pos, negsuc}
use fault.Types.Checker.{Floats, Checker, Outcome, done, failed, calculate_base, base_from}
use fault.Types.Infer.{infer_any, typecheck}
use fault.Types.Operands.{Kind, kind_text, weight, plus, times}
use fault.Types.Sums.{Sum, leaf, sum, an_integer, a_float, a_string, untyped, weights, size, moved}
use fault.Types.Arithmetic.{infer_any-accepted, infer_any-refused}
use fault.Types.Scope.{calculate_base-least, IsDigit, value}

-- Two floats, as `%f` prints them.
abbrev shown_float : Bool → Text
shown_float true = text "2.500000"
shown_float false = text "0.120000"

shown_float-split : (f : Bool) → (a b : Text) × (split b'.' (shown_float f) ≡ a ∷ b ∷ [])
unfolding split
shown_float-split true = (text "2", text "500000", refl)
shown_float-split false = (text "0", text "120000", refl)

-- On amd64, a conversion out of range gives -2 ^ 31.
abbrev amd64_wide : ℕ → ℤ
amd64_wide n = negsuc 2147483647

abbrev floats : Floats Bool
floats = record { sprintf = shown_float; int32_wide = amd64_wide }

abbrev new_checker : Checker Bool
new_checker = record { specs = []; in_stock = []; temps = []; next = 0 }

-- `2 + 2.5 * 0.12`
abbrev mixed : Sum Bool
mixed = sum plus (leaf an_integer) (sum times (leaf (a_float true)) (leaf (a_float false)))

infer_any-accepted_example :
    (e : Expr Bool) × (ty : Ty) × (k : Kind) × (infer_any floats 6 (untyped mixed) new_checker
      ≡ done e (moved (size mixed) new_checker))
    × (typeable e ≡ some ty)
    × (ty.name ≡ kind_text k)
    × (has (weight k) (weights mixed) ≡ true)
    × All (λ w. weight k ≤ w) (weights mixed)
infer_any-accepted_example =
    infer_any-accepted floats shown_float-split mixed 6 new_checker (omega arith) refl

-- `(2 + "2") * 2.5`
abbrev ill_typed : Sum Bool
ill_typed = sum times (sum plus (leaf an_integer) (leaf a_string)) (leaf (a_float true))

infer_any-refused_example :
    (d : Checker Bool) × (infer_any floats 6 (untyped ill_typed) new_checker ≡ failed missing d)
infer_any-refused_example =
    infer_any-refused floats shown_float-split ill_typed 6 new_checker (omega arith) refl

digits : All IsDigit (text "120000")
digits = (
  (omega arith, omega arith),
  (
    (omega arith, omega arith),
    (
      (omega arith, omega arith),
      ((omega arith, omega arith), ((omega arith, omega arith), ((omega arith, omega arith), tt))),
    ),
  ),
)

calculate_base-least_example :
    (p : ℕ) × (q : ℕ) × (r : ℕ) × (calculate_base amd64_wide (text "120000") ≡ pos (10 ^ p))
    × (p + r ≡ length (text "120000"))
    × (value (length (text "120000")) (text "120000") ≡ q * 10 ^ r)
    × ((p ≡ 0) ⊎ (q % 10 ≢ 0))
calculate_base-least_example = calculate_base-least amd64_wide (text "120000") (omega arith) digits

base_of_twelve : calculate_base amd64_wide (text "120000") ≡ pos 100
unfolding calculate_base base_from
base_of_twelve = refl

base_of_ten_digits : calculate_base amd64_wide (text "0000000001") ≡ negsuc 2147483647
unfolding calculate_base base_from
base_of_ten_digits = refl

-- A comparison is a Boolean, whatever its operands are.
abbrev odd_comparison : Expr Bool
odd_comparison = infix_of none false (text "<") (string none) (boolean none)

abbrev type_of : Outcome Bool (Expr Bool) → Option Text
type_of (done e c) = type_name e
type_of _ = none

unchecked_comparison : type_of (infer_any floats 2 odd_comparison new_checker) ≡ some (text "BOOL")
unfolding infer_any is_compare_op type_name
unchecked_comparison = refl

-- `func { x = 2; }` and then `func { x + 1; }`: the temporary of the first function is one of the second.
abbrev local_x : Expr Bool
local_x = identifier none (text "s") (text "s" ∷ text "f" ∷ text "x" ∷ []) (text "x")

abbrev assigning : Expr Bool
assigning = function (
    block none
      (stmt (expression none (infix_of none true (text "=") local_x (integer none))) no_stmts))

abbrev using : Expr Bool
using = function (
    block none
      (stmt (expression none (infix_of none false (text "+") local_x (integer none))) no_stmts))

abbrev after :
    Outcome Bool (Expr Bool) → (Checker Bool → Outcome Bool (Expr Bool)) → Outcome Bool (Expr Bool)
after (done e c) f = f c
after o f = o

abbrev in_spec : Checker Bool
in_spec = record { specs = (text "s", new_spec_record) ∷ []; in_stock = []; temps = []; next = 0 }

leaked :
    type_of (after (typecheck floats 12 assigning in_spec) (typecheck floats 12 using))
    ≡ some (text "INT")
unfolding typecheck is_compare_op infer_any type_adju is_convertible lookup type_name
    new_spec_record fetch_var get_struct_type
leaked = refl

-- Without the first, the name is an error.
unknown_alone : type_of (typecheck floats 12 using in_spec) ≡ none
unfolding typecheck is_compare_op infer_any type_adju is_convertible lookup type_name
    new_spec_record fetch_var get_struct_type
unknown_alone = refl
