-- ===== src/Types/Leaves.antt =====
-- `infer` on a literal.
use fault.Common.{
  nat_key, ℕ, suc, ◌≡◌, refl, sym, subst, ap, false, List, [], ◌∷◌, Option, some, none, arith,
  get_elem?,
}
use fault.Common.Text.{Text, text, text_key, split}
use fault.Common.Int.{ℤ, pos}
use fault.Types.Ty.{Ty}
use fault.Types.Expr.{
  Expr, integer, float, boolean, string, natural, uncertain, unknown, typeable, is_nil, is_missing,
}
use fault.Types.Checker.{Floats, Checker, or_panic, fresh, infer_scope, calculate_base}
use fault.Types.Steps.{infer_literal}
use fault.Types.Infer.{infer, infer_any}
use fault.Types.Operands.{
  Kind, string_kind, bool_kind, natural_kind, float_kind, int_kind, uncertain_kind, unknown_kind,
  kind_text,
}
use fault.Types.Sums.{
  Literal, an_integer, a_float, a_boolean, a_string, a_natural, an_uncertain, an_unknown, leaf_kind,
  leaf_expr, Inferred,
}

module _ {F : Type 0} (floats : Floats F) where
  fresh_type :
      (k : Kind) (scope : ℤ) (params : List (Text × ℤ)) (node : Option Ty → Expr F) (c : Checker F)
      → ((t : Ty) → typeable (node (some t)) ≡ some t)
      → ((t : Ty) → is_nil (node (some t)) ≡ false)
      → ((t : Ty) → is_missing (node (some t)) ≡ false)
      → Inferred (fresh (kind_text k) scope params node c) c k 1
  fresh_type k scope params node c p q r =
      let type : Ty = record {
        address = c.next;
        name = kind_text k;
        scope = scope;
        params = params;
      } in
      record {
        node = node (some type);
        type = type;
        returned = refl;
        typed = p type;
        has_name = refl;
        from_next = omega arith;
        below_next = omega arith;
        not_nil = q type;
        not_missing = r type;
      }

  module _ (prints : (f : F) → (a b : Text) × (split b'.' (floats.sprintf f) ≡ a ∷ b ∷ [])) where
    infer_scope_printed : (f : F) → (s : ℤ) × (infer_scope floats f ≡ some s)
    unfolding infer_scope
    infer_scope_printed f =
        let (a, b, p) = prints f in
        (
          calculate_base floats.int32_wide b,
          ap
              (λ ts. elim (get_elem? ts 1) [
                | some s ↦ some (calculate_base floats.int32_wide s)
                | none ↦ none
              ])
              p,
        )

    pub infer_any-leaf_expr :
        (x : Literal F) (n : ℕ) (c : Checker F)
        → Inferred (infer_any floats (suc (suc n)) (leaf_expr x) c) c (leaf_kind x) 1
    unfolding infer_any infer infer_literal
    infer_any-leaf_expr an_integer n c =
        fresh_type int_kind (pos 1) [] integer c (λ t. refl) (λ t. refl) (λ t. refl)
    infer_any-leaf_expr (a_float f) n c =
        let (s, p) = infer_scope_printed f in
        let node : Option Ty → Expr F = λ t. float t f in
        subst (λ o. Inferred (or_panic o λ s. fresh (text "FLOAT") s [] node c) c float_kind 1)
          (sym p) (fresh_type float_kind s [] node c (λ t. refl) (λ t. refl) (λ t. refl))
    infer_any-leaf_expr a_boolean n c =
        fresh_type bool_kind (pos 0) [] boolean c (λ t. refl) (λ t. refl) (λ t. refl)
    infer_any-leaf_expr a_string n c =
        fresh_type string_kind (pos 0) [] string c (λ t. refl) (λ t. refl) (λ t. refl)
    infer_any-leaf_expr a_natural n c =
        fresh_type natural_kind (pos 1) [] natural c (λ t. refl) (λ t. refl) (λ t. refl)
    infer_any-leaf_expr (an_uncertain m s) n c =
        let (a, p) = infer_scope_printed m in
        let (b, q) = infer_scope_printed s in
        let node : Option Ty → Expr F = λ t. uncertain t m s in
        subst
          (λ o.
            Inferred
              (or_panic o λ a. or_panic (infer_scope floats s) λ b.
                fresh (text "UNCERTAIN") (pos 0) ((text "MEAN", a) ∷ (text "SIGMA", b) ∷ []) node c)
              c uncertain_kind 1)
          (sym p)
          (subst
            (λ o.
              Inferred
                (or_panic o λ b.
                  fresh (text "UNCERTAIN") (pos 0) ((text "MEAN", a) ∷ (text "SIGMA", b) ∷ []) node
                    c)
                c uncertain_kind 1)
            (sym q)
            (fresh_type uncertain_kind (pos 0) ((text "MEAN", a) ∷ (text "SIGMA", b) ∷ []) node c
              (λ t. refl) (λ t. refl) (λ t. refl)))
    infer_any-leaf_expr an_unknown n c =
        fresh_type unknown_kind (pos 0) [] unknown c (λ t. refl) (λ t. refl) (λ t. refl)
