-- ===== src/Types/Steps.antt =====
-- The parts of types/types.go's methods on expressions that call none of the others.
use fault.Common.{◌+◌, Bool, true, false, [], ◌∷◌, Option, none, some, if◌then◌else◌}
use fault.Common.Text.{Text, text, text_key}
use fault.Common.Dict.{insert}
use fault.Common.Int.{pos}
use fault.Record.{ok, err, panic}
use fault.Types.Ty.{Ty, is_compare_op, type_adju, is_convertible}
use fault.Types.Expr.{
  Expr, missing, integer, float, boolean, string, natural, uncertain, unknown, nil, built_in,
  index_of, infix_of, prefix, struct_of, typeable, is_value, set_type, shown, kind_name,
}
use fault.Types.Checker.{
  Floats, Checker, Outcome, done, failed, panicked, with_err, return, of_record, or_panic, fresh,
  infer_scope,
}

module _ {F : Type 0} where
  abbrev pub bool_type : (Option Ty → Expr F) → Checker F → Outcome F (Expr F)
  bool_type node c = fresh (text "BOOL") (pos 0) [] node c

  -- The end of both cases with two operands: a nil has the type of the other operand.
  unfoldable pub combine :
      (Option Ty → Expr F)
      → Text
      → (left right : Option Ty) → (nil_left nil_right : Bool) → Checker F
      → Outcome F (Expr F)
  unfolding type_adju
  combine node op left right true true c = fresh (text "NIL") (pos 0) [] node c
  combine node op left right true false c = done (node right) c
  combine node op left right false true c = done (node left) c
  combine node op left right false false c =
      of_record missing (type_adju c.next left right op) c
        λ ty. done (node ty) (record c { next = c.next + 1 })

  -- The names of the nodes that `LookupType` looks up are kept.
  unfoldable pub keep_temp :
      Text → (left right : Expr F) → Option Ty → Checker F → Outcome F (Expr F)
  unfolding insert
  keep_temp op left right ty c =
      let node = infix_of ty true op (set_type ty left) right in
      elim (shown left) [
        | some name ↦ done node (record c { temps = insert name ty c.temps })
        | none ↦ done node c
      ]

  -- An assignment, behind the typing of the right side and the look-up of the left one.
  unfoldable pub assign_temp :
      Option Ty
      → Text
      → (left right : Expr F) → (found ty : Option Ty) → Checker F
      → Outcome F (Expr F)
  unfolding is_convertible keep_temp
  assign_temp old op left right found ty c = elim found [
    | none ↦ keep_temp op left right ty c
    | some t ↦ elim (is_convertible t ty) [
      | ok true ↦ keep_temp op left right ty c
      | ok false ↦ failed (infix_of old true op left right) c
      | err ↦ panicked
      | panic ↦ panicked
    ]
  ]

  unfoldable pub finish_prefix : Text → Expr F → Bool → Checker F → Outcome F (Expr F)
  unfolding is_compare_op
  finish_prefix op r failing c = elim (is_compare_op op) [
    | true ↦ with_err (bool_type (λ ty. prefix ty op r) c) λ n _ c1. return n failing c1
    | false ↦ return (prefix (typeable r) op r) failing c
  ]

module _ {F : Type 0} (floats : Floats F) where
  -- The cases of `infer` that look nothing up, for a node without a type.
  unfoldable pub infer_literal : Expr F → Checker F → Outcome F (Expr F)
  unfolding infer_scope
  infer_literal missing c = panicked
  infer_literal (integer none) c = fresh (text "INT") (pos 1) [] integer c
  infer_literal (boolean none) c = bool_type boolean c
  infer_literal (float none f) c =
      or_panic (infer_scope floats f) λ s. fresh (text "FLOAT") s [] (λ t. float t f) c
  infer_literal (string none) c = fresh (text "STRING") (pos 0) [] string c
  infer_literal (natural none) c = fresh (text "NATURAL") (pos 1) [] natural c
  infer_literal (uncertain none m s) c = or_panic (infer_scope floats m) λ a.
      or_panic (infer_scope floats s) λ b.
        fresh (text "UNCERTAIN") (pos 0) ((text "MEAN", a) ∷ (text "SIGMA", b) ∷ [])
          (λ t. uncertain t m s) c
  infer_literal (unknown none) c = fresh (text "UNKNOWN") (pos 0) [] unknown c
  infer_literal (nil none) c = fresh (text "NIL") (pos 0) [] nil c
  infer_literal (struct_of kind none id raw ps) c =
      fresh (kind_name kind) (pos 0) [] (λ t. struct_of kind t id raw ps) c
  infer_literal (index_of t e) c = done (index_of t e) c
  infer_literal (built_in s) c = done (built_in s) c
  infer_literal e c = if is_value e then done e c else failed missing c
