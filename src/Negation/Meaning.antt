-- ===== src/Negation/Meaning.antt =====
-- What `negate` and `compileAssert` (llvm/compiler.go) do to the truth of an expression.
use fault.Common.{◌≡◌, refl, Bool, not, ◌&&◌, ◌||◌, some, arith}
use fault.Common.Int.{ℤ}
use fault.Common.Text.{Text, text, text_key}
use fault.Common.Dict.{lookup}
use fault.Negation.{
  Expr, boolean, integer, float, infix_expression, prefix_expression, node, Arithmetic, negate,
}

-- The operators that an assertion joins truth values and compares numbers with.
pub data Comparison : Type 0 where
  lt le gt ge eq ne : Comparison

abbrev pub comparison_text : Comparison → Text
comparison_text lt = text "<"
comparison_text le = text "<="
comparison_text gt = text ">"
comparison_text ge = text ">="
comparison_text eq = text "=="
comparison_text ne = text "!="

abbrev pub opposite : Comparison → Comparison
opposite lt = ge
opposite le = gt
opposite gt = le
opposite ge = lt
opposite eq = ne
opposite ne = eq

-- The numbers of the solver: the order, the literals, and the values of the variables.
pub record Numbers (F N : Type 0) : Type 0 where
  pub less : N → N → Bool
  pub equal : N → N → Bool
  pub of_integer : ℤ → N
  pub of_float : F → N
  pub of_variable : Text → N

-- A side of a comparison.
pub data Operand (F : Type 0) : Type 0 where
  int_operand : ℤ → Operand F
  float_operand : F → Operand F
  variable : Text → Operand F

-- What an assertion says: comparisons of numbers under "&&", "||" and "!", and truth values.
pub data Claim (F : Type 0) : Type 0 where
  literal : Bool → Claim F
  compares : Comparison → Operand F → Operand F → Claim F
  both either : Claim F → Claim F → Claim F
  denies : Claim F → Claim F

module _ {F : Type 0} where
  abbrev operand_expr : Operand F → Expr F
  operand_expr (int_operand i) = integer i
  operand_expr (float_operand f) = float f
  operand_expr (variable x) = node x

  -- The expression that says so.
  unfoldable pub claim_expr : Claim F → Expr F
  claim_expr (literal b) = boolean b
  claim_expr (compares c a b) =
      infix_expression (operand_expr a) (comparison_text c) (operand_expr b)
  claim_expr (both p q) = infix_expression (claim_expr p) (text "&&") (claim_expr q)
  claim_expr (either p q) = infix_expression (claim_expr p) (text "||") (claim_expr q)
  claim_expr (denies p) = prefix_expression (text "!") (claim_expr p)

  negation : Claim F → Claim F
  negation (literal b) = literal (not b)
  negation (compares c a b) = compares (opposite c) a b
  negation (both p q) = either (negation p) (negation q)
  negation (either p q) = both (negation p) (negation q)
  negation (denies p) = p

  module _ {N : Type 0} (numbers : Numbers F N) where
    abbrev operand_value : Operand F → N
    operand_value (int_operand i) = numbers.of_integer i
    operand_value (float_operand f) = numbers.of_float f
    operand_value (variable x) = numbers.of_variable x

    abbrev compare_values : Comparison → N → N → Bool
    compare_values lt a b = numbers.less a b
    compare_values le a b = not (numbers.less b a)
    compare_values gt a b = numbers.less b a
    compare_values ge a b = not (numbers.less a b)
    compare_values eq a b = numbers.equal a b
    compare_values ne a b = not (numbers.equal a b)

    unfoldable pub is_true : Claim F → Bool
    is_true (literal b) = b
    is_true (compares c a b) = compare_values c (operand_value a) (operand_value b)
    is_true (both p q) = is_true p && is_true q
    is_true (either p q) = is_true p || is_true q
    is_true (denies p) = not (is_true p)

    is_true-compares :
        (c : Comparison) (a b : N) → compare_values (opposite c) a b ≡ not (compare_values c a b)
    is_true-compares lt a b = refl
    is_true-compares le a b = ground arith
    is_true-compares gt a b = refl
    is_true-compares ge a b = ground arith
    is_true-compares eq a b = refl
    is_true-compares ne a b = ground arith

    is_true-negation : (p : Claim F) → is_true (negation p) ≡ not (is_true p)
    unfolding is_true negation
    is_true-negation (literal b) = refl
    is_true-negation (compares c a b) = is_true-compares c (operand_value a) (operand_value b)
    is_true-negation (both p q) = ground (arith, is_true-negation p, is_true-negation q)
    is_true-negation (either p q) = ground (arith, is_true-negation p, is_true-negation q)
    is_true-negation (denies p) = ground arith

  module _ (go : Arithmetic F) where
    negate_operand : (a : Operand F) → negate go (operand_expr a) ≡ some (operand_expr a)
    unfolding negate
    negate_operand (int_operand i) = refl
    negate_operand (float_operand f) = refl
    negate_operand (variable x) = refl

    negate_compares :
        (c : Comparison) (a b : Operand F)
        → negate go (claim_expr (compares c a b)) ≡ some (claim_expr (compares (opposite c) a b))
    unfolding claim_expr negate lookup
    negate_compares lt a b = rw (negate_operand a, negate_operand b)
    negate_compares le a b = rw (negate_operand a, negate_operand b)
    negate_compares gt a b = rw (negate_operand a, negate_operand b)
    negate_compares ge a b = rw (negate_operand a, negate_operand b)
    negate_compares eq a b = rw (negate_operand a, negate_operand b)
    negate_compares ne a b = rw (negate_operand a, negate_operand b)

    negate-claim_expr : (p : Claim F) → negate go (claim_expr p) ≡ some (claim_expr (negation p))
    unfolding claim_expr negation negate lookup
    negate-claim_expr (literal b) = refl
    negate-claim_expr (compares c a b) = negate_compares c a b
    negate-claim_expr (both p q) = rw (negate-claim_expr p, negate-claim_expr q)
    negate-claim_expr (either p q) = rw (negate-claim_expr p, negate-claim_expr q)
    negate-claim_expr (denies p) = refl

-- `negate` does not panic on the expression of a claim, and returns one of a claim that is true
-- exactly where the first is false.
pub negate_lem :
    {F N : Type 0} (go : Arithmetic F) (numbers : Numbers F N) (p : Claim F)
    → (q : Claim F) × (negate go (claim_expr p) ≡ some (claim_expr q))
      × (is_true numbers q ≡ not (is_true numbers p))
negate_lem go numbers p = (negation p, negate-claim_expr go p, is_true-negation numbers p)
