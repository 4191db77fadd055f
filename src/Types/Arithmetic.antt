-- ===== src/Types/Arithmetic.antt =====
-- The inference of types/types.go on arithmetic over literals.
use fault.Common.{
  Bool-cases, inl, inr, All, has, nat_key, ℕ, zero, suc, ◌≤◌, ◌≡◌, ◌∙◌, true, false, [], ◌∷◌, some,
  arith,
}
use fault.Common.Text.{Text, text_key, split}
use fault.Types.Ty.{Ty}
use fault.Types.Expr.{Expr, missing, typeable}
use fault.Types.Checker.{Floats, Checker, Outcome, done, failed}
use fault.Types.Infer.{infer_any, infer_function}
use fault.Types.Operands.{Kind, kind_text, weight, Arithmetic}
use fault.Types.Sums.{
  Sum, leaf, sum, untyped, accepted, least, weights, depth, size, moved, Inferred,
  all_numeric-refused, both-numeric, depth_positive, least-below, least-among,
}
use fault.Types.Combined.{costs, right_fails, left_fails, sum_typed, sum_refused}
use fault.Types.Leaves.{infer_any-leaf_expr}

module _ {F : Type 0} (floats : Floats F)
    (prints : (f : F) → (a b : Text) × (split b'.' (floats.sprintf f) ≡ a ∷ b ∷ [])) where
  -- All that can become of a tree.
  record Answers (t : Sum F) (o : Outcome F (Expr F)) (c : Checker F) : Type 0 where
    yes : accepted t ≡ true → Inferred o c (least t) (size t)
    no : accepted t ≡ false → (d : Checker F) × (o ≡ failed missing d)

  operands_answer :
      (op : Arithmetic) (a b : Sum F) (m : ℕ) (c : Checker F)
      → accepted b ≡ true
      → Inferred (infer_any floats (suc m) (untyped b) c) c (least b) (size b)
      → Answers a (infer_any floats (suc m) (untyped a) (moved (size b) c)) (moved (size b) c)
      → Answers (sum op a b) (infer_function floats (suc (suc m)) (untyped (sum op a b)) c) c
  operands_answer op a b m c tb right left = elim (Bool-cases (accepted a)) [
    | inr fa ↦
        let (d, e) = left.no fa in
        record {
          yes = λ h. absurd (ground (arith, h, all_numeric-refused a fa));
          no = λ h.
              (d, left_fails floats op (untyped a) (untyped b) m c d (least b) (size b) right e);
        }
    | inl ta ↦
        let l = left.yes ta in
        record {
          yes = λ h.
              sum_typed floats op (untyped a) (untyped b) m c (least a) (least b) (size a) (size b)
                right l (both-numeric a b ta tb ∙ h);
          no = λ h. (
            costs floats c (size b) (size a),
            sum_refused floats op (untyped a) (untyped b) m c (least a) (least b) (size a) (size b)
                right l (both-numeric a b ta tb ∙ h),
          );
        }
  ]

  sum-Answers :
      (op : Arithmetic) (a b : Sum F) (m : ℕ) (c : Checker F)
      → Answers b (infer_any floats (suc m) (untyped b) c) c
      → ((c : Checker F) → Answers a (infer_any floats (suc m) (untyped a) c) c)
      → Answers (sum op a b) (infer_function floats (suc (suc m)) (untyped (sum op a b)) c) c
  sum-Answers op a b m c right left = elim (Bool-cases (accepted b)) [
    | inr fb ↦
        let (d, e) = right.no fb in
        record {
          yes = λ h. absurd (ground (arith, h, all_numeric-refused b fb));
          no = λ h. (d, right_fails floats op (untyped a) (untyped b) m c d e);
        }
    | inl tb ↦ operands_answer op a b m c tb (right.yes tb) (left (moved (size b) c))
  ]

  answers :
      (t : Sum F) (n : ℕ) (c : Checker F)
      → depth t ≤ n
      → Answers t (infer_any floats n (untyped t) c) c
  unfolding infer_any
  answers (leaf x) (suc (suc n)) c h = record {
    yes = λ e. infer_any-leaf_expr floats prints x n c;
    no = λ e. cc;
  }
  answers (leaf x) (suc zero) c h = absurd (omega arith)
  answers (leaf x) zero c h = absurd (omega arith)
  answers (sum op a b) (suc (suc (suc m))) c h =
      sum-Answers op a b m c (answers b (suc m) c (ground (arith, h)))
        (λ c. answers a (suc m) c (ground (arith, h)))
  answers (sum op a b) (suc (suc zero)) c h =
      absurd (ground (arith, h, depth_positive a, depth_positive b))
  answers (sum op a b) (suc zero) c h = absurd (ground (arith, h))
  answers (sum op a b) zero c h = absurd (ground (arith, h))

  -- Arithmetic over literals that is a literal, or has no string and no Boolean among its operands, is
  -- typed: on fuel of its depth the outcome is a node with a type, which is the type of one of the
  -- operands, and no operand has a type of lower rank. `%f` prints one dot.
  pub infer_any-accepted :
      (t : Sum F) (n : ℕ) (c : Checker F)
      → depth t ≤ n
      → accepted t ≡ true
      → (e : Expr F) × (ty : Ty) × (k : Kind) × (infer_any floats n (untyped t) c
          ≡ done e (moved (size t) c))
        × (typeable e ≡ some ty)
        × (ty.name ≡ kind_text k)
        × (has (weight k) (weights t) ≡ true)
        × All (λ w. weight k ≤ w) (weights t)
  infer_any-accepted t n c h p =
      let i = (answers t n c h).yes p in
      (i.node, i.type, least t, i.returned, i.typed, i.has_name, least-among t, least-below t)

  -- Arithmetic that has an operator, and a string or a Boolean among its operands, is an error, however
  -- deep it stands. `%f` prints one dot.
  pub infer_any-refused :
      (t : Sum F) (n : ℕ) (c : Checker F)
      → depth t ≤ n
      → accepted t ≡ false
      → (d : Checker F) × (infer_any floats n (untyped t) c ≡ failed missing d)
  infer_any-refused t n c h p = (answers t n c h).no p
