-- ===== src/Negation.antt =====
-- llvm/compiler.go, `negate` and what it calls: an assertion is negated, so that the solver looks for a
-- run that breaks it.
pub mod Meaning
pub mod Filters
pub mod Flags
mod Tests
use fault.Common.{
  ℕ, zero, suc, ◌+◌, ◌-◌, ◌*◌, ◌%◌, ◌≡◌, Bool, true, false, not, ◌||◌, List, [], ◌∷◌, ◌++◌, Option,
  none, some, if◌then◌else◌, same, has,
}
use fault.Common.Int.{ℤ, pos, negsuc, suc_ℤ}
use fault.Common.Text.{Text, text, text_key}
use fault.Common.Dict.{lookup}
use fault.Common.Fallible.{◌>>=◌}

-- `F` is float64. A `node` is any expression that `negate` returns as it is.
pub data Expr (F : Type 0) : Type 0 where
  boolean : Bool → Expr F
  integer : ℤ → Expr F
  float : F → Expr F
  infix_expression : (left : Expr F) (operator : Text) (right : Expr F) → Expr F
  prefix_expression : (operator : Text) (right : Expr F) → Expr F
  node : Text → Expr F

-- `OP_NEGATE`
unfoldable pub op_negate : Text → Option Text
unfolding lookup
op_negate op = lookup op (
    (text "==", text "!=")
    ∷ (text ">=", text "<")
    ∷ (text ">", text "<=")
    ∷ (text "<=", text ">")
    ∷ (text "!=", text "==")
    ∷ (text "<", text ">=")
    ∷ (text "&&", text "||")
    ∷ (text "||", text "&&")
    ∷ (text "then", text "then")
    ∷ [])

-- `util.IsCompare`
unfoldable pub is_compare : Text → Bool
is_compare op = has op (
    text ">"
    ∷ text "<"
    ∷ text "=="
    ∷ text "!="
    ∷ text "<="
    ∷ text ">="
    ∷ text "&&"
    ∷ text "||"
    ∷ text "!"
    ∷ [])

-- The arithmetic of Go on float64 and int64, which wraps, and the conversion.
pub record Arithmetic (F : Type 0) : Type 0 where
  pub float_add : F → F → F
  pub float_sub : F → F → F
  pub float_mul : F → F → F
  pub float_div : F → F → F
  pub int_add : ℤ → ℤ → ℤ
  pub int_sub : ℤ → ℤ → ℤ
  pub int_mul : ℤ → ℤ → ℤ
  pub of_int : ℤ → F

module _ {F : Type 0} (go : Arithmetic F) where
  -- `none` is the panic on another operator.
  unfoldable pub eval_float : F → F → Text → Option F
  eval_float f1 f2 op =
      if same op (text "+")
      then some (go.float_add f1 f2)
      else if same op (text "-")
      then some (go.float_sub f1 f2)
      else if same op (text "*")
      then some (go.float_mul f1 f2)
      else if same op (text "/")
      then some (go.float_div f1 f2)
      else none

  unfoldable pub eval_int : ℤ → ℤ → Text → Option ℤ
  eval_int i1 i2 op =
      if same op (text "+")
      then some (go.int_add i1 i2)
      else if same op (text "-")
      then some (go.int_sub i1 i2)
      else if same op (text "*")
      then some (go.int_mul i1 i2)
      else none

  fold_float : F → F → Text → Option (Expr F)
  unfolding eval_float
  fold_float f1 f2 op = eval_float f1 f2 op >>= λ v. some (float v)

  fold_int : ℤ → ℤ → Text → Option (Expr F)
  unfolding eval_int fold_float
  fold_int i1 i2 op =
      if same op (text "/")
      then fold_float (go.of_int i1) (go.of_int i2) op
      else (eval_int i1 i2 op >>= λ v. some (integer v))

  -- Two literals under an arithmetic operator.
  fold : Expr F → Text → Expr F → Option (Expr F)
  unfolding fold_float fold_int
  fold (float f1) op (float f2) = fold_float f1 f2 op
  fold (float f1) op (integer i2) = fold_float f1 (go.of_int i2) op
  fold (integer i1) op (float f2) = fold_float (go.of_int i1) f2 op
  fold (integer i1) op (integer i2) = fold_int i1 i2 op
  fold left op right = some (infix_expression left op right)

  unfoldable pub evaluate : Expr F → Text → Expr F → Option (Expr F)
  unfolding is_compare fold
  evaluate left op right =
      if is_compare op then some (infix_expression left op right) else fold left op right

  abbrev negated_op : Option Text → Text → Text
  negated_op none op = op
  negated_op (some op') op = op'

  unfoldable pub negate : Expr F → Option (Expr F)
  unfolding evaluate op_negate
  negate (infix_expression left op right) =
      negate left >>= λ l. negate right >>= λ r. evaluate l (negated_op (op_negate op) op) r
  negate (boolean b) = some (boolean (not b))
  negate (prefix_expression op right) =
      let deep = (negate right >>= λ r. some (prefix_expression op r)) in
      if same op (text "!") then some right else deep
  negate (integer i) = some (integer i)
  negate (float f) = some (float f)
  negate (node s) = some (node s)

-- `negateTemporal`
unfoldable pub negate_temporal : Text → ℤ → Text × ℤ
negate_temporal op n =
    if same op (text "nmt")
    then (text "nft", suc_ℤ n)
    else if same op (text "nft")
    then (text "nmt", pred_ℤ n)
    else (text "", pos 0)
  where
    pred_ℤ : ℤ → ℤ
    pred_ℤ (pos zero) = negsuc 0
    pred_ℤ (pos (suc k)) = pos k
    pred_ℤ (negsuc k) = negsuc (suc k)

-- The constraint and the temporal filter of an assertion.
pub record Assertion (F : Type 0) : Type 0 where
  pub left : Expr F
  pub operator : Text
  pub right : Expr F
  pub temporal_filter : Text
  pub temporal_n : ℤ

abbrev or_empty : Option Text → Text
or_empty none = text ""
or_empty (some op) = op

abbrev is_negative : ℤ → Bool
is_negative (pos n) = false
is_negative (negsuc n) = true

module _ {F : Type 0} (go : Arithmetic F) where
  negate_constraint : Assertion F → Option (Assertion F)
  unfolding negate op_negate
  negate_constraint a = do
    l ← negate go a.left
    r ← negate go a.right
    some (record a { left = l; operator = or_empty (op_negate a.operator); right = r })

  negate_filter : Assertion F → Option (Assertion F)
  unfolding negate_temporal
  negate_filter a =
      let (op, n) = negate_temporal a.temporal_filter a.temporal_n in
      if is_negative n then none else some (record a { temporal_filter = op; temporal_n = n })

  -- The part of `compileAssert` that negates an assertion; `none` is a panic.
  unfoldable pub compile_assert : Assertion F → Option (Assertion F)
  unfolding negate_constraint negate_filter
  compile_assert a =
      if same a.temporal_filter (text "") then negate_constraint a else negate_filter a
