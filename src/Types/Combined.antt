-- ===== src/Types/Combined.antt =====
-- `inferFunction` on an arithmetic operator whose operands are typed, or are not.
use fault.Common.{
  nat_key, ℕ, suc, ◌+◌, ◌≤◌, ◌<◌, ◌≡◌, ◌≢◌, refl, ap, ◌∙◌, Bool, true, false, ◌&&◌, Option, some,
  none, if◌then◌else◌, ltb, arith,
}
use fault.Common.Text.{text_key}
use fault.Record.{ok, err}
use fault.Types.Ty.{Ty}
use fault.Types.Expr.{Expr, missing, infix_of, typeable, is_nil, is_missing}
use fault.Types.Checker.{
  Floats, Checker, Outcome, done, failed, panicked, and_then, with_err, of_record,
}
use fault.Types.Steps.{combine}
use fault.Types.Infer.{infer_any, infer_again, infer_function}
use fault.Types.Operands.{
  Kind, kind_text, numeric, lower_kind, weight, Arithmetic, op_text, type_adju-kinds,
}
use fault.Types.Sums.{moved, Inferred, is_compare_op-op_text, flows-op_text}

module _ {F : Type 0} (floats : Floats F) where
  abbrev with_left : Arithmetic → (nr nr' nl : Expr F) → Checker F → Outcome F (Expr F)
  with_left op nr nr' nl c =
      if is_missing nr'
      then panicked
      else combine (λ ty. infix_of ty false (op_text op) nl nr') (op_text op) (typeable nl)
          (typeable nr) (is_nil nl) (is_nil nr') c

  -- The case of `infer_function` that arithmetic comes to.
  infer_function-untyped :
      (op : Arithmetic) (l r : Expr F) (m : ℕ) (c : Checker F)
      → infer_function floats (suc m) (infix_of none false (op_text op) l r) c
        ≡ and_then missing (infer_any floats m r c) (λ nr c1.
          with_err
            (infer_again floats m nr c1)
            λ nr' _ c2. and_then missing (infer_any floats m l c2) (with_left op nr nr'))
  unfolding infer_function
  infer_function-untyped op l r m c =
      rw (is_compare_op-op_text op, infer_function) rw (flows-op_text op, infer_function) refl

  infer_again_typed :
      (m : ℕ) (e : Expr F) {t : Ty} (c : Checker F)
      → typeable e ≡ some t
      → infer_again floats (suc m) e c ≡ done e c
  unfolding infer_again
  infer_again_typed m e c p = rw (p, infer_again) refl

  sum_step :
      (op : Arithmetic) (l r : Expr F) (m : ℕ) (c : Checker F) (a b : Kind) (i j : ℕ)
      (right : Inferred (infer_any floats (suc m) r c) c b j)
      (left : Inferred (infer_any floats (suc m) l (moved j c)) (moved j c) a i)
      → infer_function floats (suc (suc m)) (infix_of none false (op_text op) l r) c
        ≡ combine
            (λ ty. infix_of ty false (op_text op) left.node right.node)
            (op_text op)
            (some left.type)
            (some right.type)
            false
            false
            (moved i (moved j c))
  sum_step op l r m c a b i j right left =
      infer_function-untyped op l r (suc m) c
      ∙ ap
          (λ o. and_then missing o (λ nr c1.
            with_err (infer_again floats (suc m) nr c1)
              λ nr' _ c2. and_then missing (infer_any floats (suc m) l c2) (with_left op nr nr')))
          right.returned
      ∙ ap
          (λ o. with_err o λ nr' _ c2.
            and_then missing (infer_any floats (suc m) l c2) (with_left op right.node nr'))
          (infer_again_typed m right.node (moved j c) right.typed)
      ∙ ap (λ o. and_then missing o (with_left op right.node right.node)) left.returned
      ∙ rw left.typed rw right.typed rw left.not_nil rw right.not_nil rw right.not_missing refl

  -- The error of an operand is the error of the whole.
  pub right_fails :
      (op : Arithmetic) (l r : Expr F) (m : ℕ) (c d : Checker F)
      → infer_any floats (suc m) r c ≡ failed missing d
      → infer_function floats (suc (suc m)) (infix_of none false (op_text op) l r) c
        ≡ failed missing d
  right_fails op l r m c d e =
      infer_function-untyped op l r (suc m) c
      ∙ ap
          (λ o. and_then missing o (λ nr c1.
            with_err (infer_again floats (suc m) nr c1)
              λ nr' _ c2. and_then missing (infer_any floats (suc m) l c2) (with_left op nr nr')))
          e

  pub left_fails :
      (op : Arithmetic) (l r : Expr F) (m : ℕ) (c d : Checker F) (b : Kind) (j : ℕ)
      (right : Inferred (infer_any floats (suc m) r c) c b j)
      → infer_any floats (suc m) l (moved j c) ≡ failed missing d
      → infer_function floats (suc (suc m)) (infix_of none false (op_text op) l r) c
        ≡ failed missing d
  left_fails op l r m c d b j right e =
      infer_function-untyped op l r (suc m) c
      ∙ ap
          (λ o. and_then missing o (λ nr c1.
            with_err (infer_again floats (suc m) nr c1)
              λ nr' _ c2. and_then missing (infer_any floats (suc m) l c2) (with_left op nr nr')))
          right.returned
      ∙ ap
          (λ o. with_err o λ nr' _ c2.
            and_then missing (infer_any floats (suc m) l c2) (with_left op right.node nr'))
          (infer_again_typed m right.node (moved j c) right.typed)
      ∙ ap (λ o. and_then missing o (with_left op right.node right.node)) e

  branches :
      (x y : Bool) (node : Option Ty → Expr F) (l r : Ty) (c : Checker F)
      → of_record missing
          (if x then (if y then ok (some r) else ok (some l)) else err)
          c
          (λ ty. done (node ty) (record c { next = c.next + 1 }))
        ≡ (if x then done (node (some (if y then r else l))) (moved 1 c) else failed missing c)
  branches false y node l r c = refl
  branches true false node l r c = refl
  branches true true node l r c = refl

  combine-kinds :
      (node : Option Ty → Expr F) (op : Arithmetic) (l r : Ty) (a b : Kind) (c : Checker F)
      → l.name ≡ kind_text a
      → r.name ≡ kind_text b
      → l.address ≢ r.address
      → combine node (op_text op) (some l) (some r) false false c ≡ (
          if numeric a && numeric b
          then done (node (some (if ltb (weight b) (weight a) then r else l))) (moved 1 c)
          else failed missing c)
  unfolding combine
  combine-kinds node op l r a b c p q d =
      ap (λ s. of_record missing s c λ ty. done (node ty) (record c { next = c.next + 1 }))
        (type_adju-kinds c.next l r op a b p q d)
      ∙ branches (numeric a && numeric b) (ltb (weight b) (weight a)) node l r c

  -- The right operand is typed first.
  abbrev pub costs : Checker F → ℕ → ℕ → Checker F
  costs c j i = moved i (moved j c)

  picked :
      (P : Ty → Kind → Type 0) (x : Bool) (r l : Ty) (b a : Kind)
      → P r b
      → P l a
      → P (if x then r else l) (if x then b else a)
  picked P true r l b a p q = p
  picked P false r l b a p q = q

  pub sum_typed :
      (op : Arithmetic) (l r : Expr F) (m : ℕ) (c : Checker F) (a b : Kind) (i j : ℕ)
      → Inferred (infer_any floats (suc m) r c) c b j
      → Inferred (infer_any floats (suc m) l (moved j c)) (moved j c) a i
      → (numeric a && numeric b) ≡ true
      → Inferred
          (infer_function floats (suc (suc m)) (infix_of none false (op_text op) l r) c)
          c
          (lower_kind a b)
          (j + i + 1)
  sum_typed op l r m c a b i j right left h =
      let pick : Ty = if ltb (weight b) (weight a) then right.type else left.type in
      record {
        node = infix_of (some pick) false (op_text op) left.node right.node;
        type = pick;
        returned =
            sum_step op l r m c a b i j right left
            ∙ combine-kinds (λ ty. infix_of ty false (op_text op) left.node right.node) op left.type
                right.type a b (costs c j i) left.has_name right.has_name (λ e. omega arith)
            ∙ rw h (
                ap
                  (λ k.
                    done (infix_of (some pick) false (op_text op) left.node right.node)
                      (record c { next = k }))
                  (omega arith));
        typed = refl;
        has_name =
            picked (λ t k. t.name ≡ kind_text k) (ltb (weight b) (weight a)) right.type left.type b
              a right.has_name left.has_name;
        from_next =
            picked (λ t k. c.next ≤ t.address) (ltb (weight b) (weight a)) right.type left.type b a
              right.from_next (omega arith);
        below_next =
            picked (λ t k. t.address < c.next + (j + i + 1)) (ltb (weight b) (weight a)) right.type
              left.type b a (omega arith) (omega arith);
        not_nil = refl;
        not_missing = refl;
      }

  pub sum_refused :
      (op : Arithmetic) (l r : Expr F) (m : ℕ) (c : Checker F) (a b : Kind) (i j : ℕ)
      → Inferred (infer_any floats (suc m) r c) c b j
      → Inferred (infer_any floats (suc m) l (moved j c)) (moved j c) a i
      → (numeric a && numeric b) ≡ false
      → infer_function floats (suc (suc m)) (infix_of none false (op_text op) l r) c
        ≡ failed missing (costs c j i)
  sum_refused op l r m c a b i j right left h =
      sum_step op l r m c a b i j right left
      ∙ combine-kinds (λ ty. infix_of ty false (op_text op) left.node right.node) op left.type
          right.type a b (costs c j i) left.has_name right.has_name (λ e. omega arith)
      ∙ rw h refl
