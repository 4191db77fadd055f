-- ===== src/Negation/Tests.antt =====
-- The negation of llvm/compiler.go at concrete inputs.
use fault.Common.{
  ◌≡◌, refl, ℕ, ◌+◌, ◌-◌, ◌*◌, ◌/◌, Bool, true, not, none, some, ◌⊎◌, inl, ltb, ◌==◌, ◌<◌,
}
use fault.Common.Int.{pos}
use fault.Common.Text.{Text, text, text_key}
use fault.Common.Dict.{lookup}
use fault.Negation.{infix_expression, boolean, integer, node, Arithmetic, negate, compile_assert}
use fault.Negation.Meaning.{
  Numbers, Claim, gt, compares, both, denies, variable, int_operand, claim_expr, is_true,
  negate_lem,
}
use fault.Negation.Filters.{Filter, nmt, nft, meets, counting, compile_assert-counting}
use fault.Negation.Flags.{flag_assertion, flag_holds, compile_assert-flag_assertion}

-- Whole numbers in place of floats.
abbrev whole : Arithmetic ℕ
whole = record {
  float_add = λ a b. a + b;
  float_sub = λ a b. a - b;
  float_mul = λ a b. a * b;
  float_div = λ a b. a / b;
  int_add = λ a b. a;
  int_sub = λ a b. a;
  int_mul = λ a b. a;
  of_int = λ a. 0;
}

abbrev naturals : Numbers ℕ ℕ
naturals = record {
  less = ltb;
  equal = ◌==◌;
  of_integer = λ i. 5;
  of_float = λ f. f;
  of_variable = λ x. 7;
}

abbrev claim : Claim ℕ
claim =
    both (compares gt (variable (text "x")) (int_operand (pos 5)))
      (denies (compares gt (variable (text "y")) (int_operand (pos 5))))

negate_claim :
    negate whole (claim_expr (compares gt (variable (text "x")) (int_operand (pos 5))))
    ≡ some (infix_expression (node (text "x")) (text "<=") (integer (pos 5)))
unfolding negate claim_expr lookup
negate_claim = refl

negate_lem_example :
    (q : Claim ℕ) × (negate whole (claim_expr claim) ≡ some (claim_expr q))
    × (is_true naturals q ≡ not (is_true naturals claim))
negate_lem_example = negate_lem whole naturals claim

compile_assert-flag_assertion_example :
    (op' : Text) × (b' : Bool) × (compile_assert whole
        (flag_assertion (text "x") (text "==") true (pos 0))
      ≡ some (flag_assertion (text "x") op' b' (pos 0)))
    × ((v : Bool) → flag_holds op' b' v ≡ flag_holds (text "==") true v)
compile_assert-flag_assertion_example =
    compile_assert-flag_assertion whole (text "x") (text "==") true (pos 0) (inl refl)

compile_assert-counting_example :
    (compile_assert whole (counting (node (text "x")) (boolean true) (text "==") nft 0) ≡ none)
    × ((f : Filter) (n : ℕ)
        → (f ≡ nmt) ⊎ (0 < n)
        → (f' : Filter) × (n' : ℕ) × (compile_assert whole
              (counting (node (text "x")) (boolean true) (text "==") f n)
            ≡ some (counting (node (text "x")) (boolean true) (text "==") f' n'))
          × ((k : ℕ) → meets f' n' k ≡ not (meets f n k)))
compile_assert-counting_example =
    compile_assert-counting whole (node (text "x")) (boolean true) (text "==")
