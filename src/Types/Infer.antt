-- ===== src/Types/Infer.antt =====
-- The methods of types/types.go on expressions and statements. The node that a method returns has
-- the types that the source writes into the nodes below it. Every call takes one of the fuel.
-- Of a call that ends in an error the state of the checker is kept, and of the nodes only the one that
-- it returns.
use fault.Common.{
  ℕ, zero, suc, Bool, true, false, not, ◌&&◌, List, [], ◌∷◌, ◌++◌, Option, none, some,
  if◌then◌else◌, init, same,
}
use fault.Common.Text.{Text, text, text_key}
use fault.Common.Dict.{lookup}
use fault.Common.Int.{pos}
use fault.Record.{fetch_constant}
use fault.Types.Ty.{Ty, is_compare_op}
use fault.Types.Expr.{
  Expr, missing, clock, built_in, identifier, parameter_call, index_of, infix_of, invariant, prefix,
  if_of, function, struct_of, StructKind, stock_kind, OptExpr, no_expr, an_expr, Exprs, no_exprs,
  expr, expression, parallel, passed, Stmts, no_stmts, stmt, block, OptBlock, no_block, a_block,
  Pairs, no_pairs, pair, typeable, is_value, shown, is_nil, is_missing, kind_name, type_name,
}
use fault.Types.Checker.{
  Floats, Checker, Outcome, done, failed, panicked, spent, and_then, with_err, return, of_record,
  or_panic, fresh, put_var, find_var, kind_type,
}
use fault.Types.Steps.{bool_type, combine, assign_temp, finish_prefix, infer_literal}

module _ {F : Type 0} (floats : Floats F) where
  unfoldable mutual
    unfolding lookup is_compare_op infer_literal combine assign_temp finish_prefix put_var find_var
        fetch_constant

    pub infer : ℕ → Expr F → Checker F → Outcome F (Expr F)
    infer zero e c = spent
    infer (suc n) (identifier none sp id v) c =
        and_then missing (lookup_type n (identifier none sp id v) c)
          λ t c1. done (identifier t sp id v) c1
    infer (suc n) (parameter_call none id v) c =
        and_then missing (lookup_type n (parameter_call none id v) c)
          λ t c1. done (parameter_call t id v) c1
    infer (suc n) e c = infer_literal floats e c

    -- `if c.isValue(e) { c.infer(e) } else { c.inferFunction(e) }`
    pub infer_any : ℕ → Expr F → Checker F → Outcome F (Expr F)
    infer_any zero e c = spent
    infer_any (suc n) e c = elim (is_value e) [ true ↦ infer n e c | false ↦ infer_function n e c ]

    -- `LookupType`; another node than these has no id, which is a panic.
    pub lookup_type : ℕ → Expr F → Checker F → Outcome F (Option Ty)
    lookup_type zero e c = spent
    lookup_type (suc n) e c = elim (typeable e) [
      | some t ↦ done (some t) c
      | none ↦
          or_panic (shown e)
            λ name. elim (lookup name c.temps) [ some t ↦ done t c | none ↦ lookup_new n e c ]
    ]

    pub lookup_new : ℕ → Expr F → Checker F → Outcome F (Option Ty)
    lookup_new zero e c = spent
    lookup_new (suc n) (built_in s) c = fresh (text "BOOLEAN") (pos 0) [] (λ t. t) c
    lookup_new (suc n) (parameter_call t id v) c = lookup_call_type n (parameter_call t id v) c
    lookup_new (suc n) (identifier t sp id v) c = and_then none (find_var id id c) λ found c1.
        elim (typeable found.1) [
          | some t ↦ done (some t) c1
          | none ↦
              and_then none (typecheck n found.1 c1)
                λ v2 c2. and_then none (put_var id found.0 v2 c2) λ _ c3. done (typeable v2) c3
        ]
    lookup_new (suc n) e c = panicked

    pub lookup_call_type : ℕ → Expr F → Checker F → Outcome F (Option Ty)
    lookup_call_type zero e c = spent
    lookup_call_type (suc n) (parameter_call t id v) c =
        and_then none (find_var (init id) id c) λ found c1. lookup_call_type n found.1 c1
    lookup_call_type (suc n) e c =
        with_err (infer_any n e c) λ e' failing c1. return (typeable e') failing c1

    -- An identifier that refers to another one is taken for a constant.
    pub lookup_reference : ℕ → Expr F → Checker F → Outcome F (Expr F)
    lookup_reference zero e c = spent
    lookup_reference (suc n) (parameter_call t id v) c =
        and_then missing (find_var id id c) λ found c1. lookup_reference n found.1 c1
    lookup_reference (suc n) (identifier t sp id v) c =
        with_err (find_var id id c) λ found failing c1. lookup_constant n sp v found.1 c1
    lookup_reference (suc n) e c = infer_any n e c

    pub lookup_constant : ℕ → (spec value : Text) → Expr F → Checker F → Outcome F (Expr F)
    lookup_constant zero sp v p c = spent
    lookup_constant (suc n) sp v (identifier t sp' id' v') c =
        or_panic (lookup sp c.specs)
          λ spec. of_record missing (fetch_constant spec v) c λ m. done m c
    lookup_constant (suc n) sp v p c = infer n p c

    pub infer_function : ℕ → Expr F → Checker F → Outcome F (Expr F)
    infer_function zero e c = spent
    infer_function (suc n) missing c = panicked
    infer_function (suc n) (function (block t (stmt (expression u e) no_stmts))) c =
        elim (is_value e) [
          | true ↦ with_err (infer n e c) λ e' failing c1.
              if failing
              then panicked
              else done (function (block t (stmt (expression u e') no_stmts))) c1
          | false ↦ with_err (infer_function n e c) λ e' failing c1.
              return (function (block t (stmt (expression u e') no_stmts))) failing c1
        ]
    infer_function (suc n) (function (block t ss)) c =
        with_err (infer_body n ss false c)
          λ ss' failing c1. return (function (block t ss')) failing c1
    infer_function (suc n) (built_in s) c = done (built_in s) c
    infer_function (suc n) (index_of t e) c = done (index_of t e) c
    infer_function (suc n) (parameter_call t id v) c =
        with_err (infer n (parameter_call t id v) c)
          λ e' failing c1. if failing then panicked else done e' c1
    infer_function (suc n) (infix_of t assign op l r) c = elim (is_compare_op op) [
      | true ↦ bool_type (λ ty. infix_of ty assign op l r) c
      | false ↦ elim (same op (text "<-") && not (same c.in_stock [])) [
        | true ↦ failed missing c
        | false ↦ and_then missing (infer_any n r c) λ nr c1.
            with_err (infer_again n nr c1) λ nr' _ c2. elim assign [
              | true ↦ with_err (lookup_type n l c2) λ found failing c3.
                  assign_temp t op l (if is_missing nr' then nr else nr')
                    (if failing then none else found) (typeable nr) c3
              | false ↦ and_then missing (infer_any n l c2) λ nl c3.
                  if is_missing nr'
                  then panicked
                  else combine (λ ty. infix_of ty false op nl nr') op (typeable nl) (typeable nr)
                      (is_nil nl) (is_nil nr') c3
            ]
      ]
    ]
    infer_function (suc n) (invariant t op l r) c = and_then missing (infer_any n l c) λ nl c1.
        and_then missing (infer_any n r c1) λ nr c2.
          if is_compare_op op
          then bool_type (λ ty. invariant ty op nl nr) c2
          else combine (λ ty. invariant ty op nl nr) op (typeable nl) (typeable nr) (is_nil nl)
              (is_nil nr) c2
    infer_function (suc n) (if_of t cond (block b ss) alternative elif) c =
        with_err (infer_any n cond c) λ cond' failing c1.
          if is_missing cond'
          then panicked
          else and_then missing (infer_branch n ss b failing c1) λ taken c2.
            and_then missing (infer_alternative n alternative taken.2 c2) λ other c3.
              and_then missing (infer_elif n elif other.1 c3) λ last c4.
                return (if_of taken.1 cond' (block taken.1 taken.0) other.0 last.0) last.1 c4
    infer_function (suc n) (prefix t op r) c = elim (is_value r) [
      | true ↦ and_then (prefix t op r) (infer n r c) λ r' c1. finish_prefix op r' false c1
      | false ↦ with_err (infer_function n r c) λ r' failing c1. finish_prefix op r' failing c1
    ]
    infer_function (suc n) e c = failed missing c

    -- The right side of an infix that has no type is inferred again; the error is not read.
    pub infer_again : ℕ → Expr F → Checker F → Outcome F (Expr F)
    infer_again zero e c = spent
    infer_again (suc n) e c = elim (typeable e) [ some t ↦ done e c | none ↦ infer n e c ]

    -- The body of a function: the error that is returned is the one of the last statement.
    pub infer_body : ℕ → Stmts F → Bool → Checker F → Outcome F (Stmts F)
    infer_body zero ss failing c = spent
    infer_body (suc n) no_stmts failing c = return no_stmts failing c
    infer_body (suc n) (stmt (expression t e) ss) _ c =
        with_err (infer_function n e c) λ e' failing c1.
          with_err (infer_body n ss failing c1)
            λ ss' failing' c2. return (stmt (expression t e') ss') failing' c2
    infer_body (suc n) (stmt s ss) _ c = panicked

    -- A branch of a conditional: its statements, its type, and whether an error is still to be read.
    pub infer_branch :
        ℕ → Stmts F → Option Ty → Bool → Checker F → Outcome F (Stmts F × Option Ty × Bool)
    infer_branch zero ss t failing c = spent
    infer_branch (suc n) no_stmts t failing c = done (no_stmts, t, failing) c
    infer_branch (suc n) (stmt (expression u e) ss) t failing c =
        and_then (no_stmts, none, false) (infer_any n e c)
          λ e' c1.
            and_then (no_stmts, none, false) (infer_branch n ss (typeable e') false c1)
              λ rest c2. done (stmt (expression u e') rest.0, rest.1, rest.2) c2
    infer_branch (suc n) (stmt (parallel u es) ss) t failing c =
        and_then (no_stmts, none, false) (infer_parallel n es failing c)
          λ es' c1.
            and_then (no_stmts, none, false) (infer_branch n ss t es'.1 c1)
              λ rest c2. done (stmt (parallel u es'.0) rest.0, rest.1, rest.2) c2
    infer_branch (suc n) (stmt passed ss) t failing c =
        and_then (no_stmts, none, false) (infer_branch n ss t failing c)
          λ rest c1. done (stmt passed rest.0, rest.1, rest.2) c1

    pub infer_parallel : ℕ → Exprs F → Bool → Checker F → Outcome F (Exprs F × Bool)
    infer_parallel zero es failing c = spent
    infer_parallel (suc n) no_exprs failing c = done (no_exprs, failing) c
    infer_parallel (suc n) (expr e es) _ c = with_err (infer_function n e c) λ e' failing c1.
        if is_missing e'
        then panicked
        else and_then (no_exprs, false) (infer_parallel n es failing c1)
            λ rest c2. done (expr e' rest.0, rest.1) c2

    pub infer_alternative : ℕ → OptBlock F → Bool → Checker F → Outcome F (OptBlock F × Bool)
    infer_alternative zero b failing c = spent
    infer_alternative (suc n) no_block failing c = done (no_block, failing) c
    infer_alternative (suc n) (a_block (block t ss)) failing c =
        and_then (no_block, false) (infer_branch n ss t failing c)
          λ other c1. done (a_block (block other.1 other.0), other.2) c1

    pub infer_elif : ℕ → OptExpr F → Bool → Checker F → Outcome F (OptExpr F × Bool)
    infer_elif zero e failing c = spent
    infer_elif (suc n) no_expr failing c = done (no_expr, failing) c
    infer_elif (suc n) (an_expr e) _ c =
        and_then (no_expr, false) (infer_function n e c) λ e' c1. done (an_expr e', false) c1

    pub typecheck : ℕ → Expr F → Checker F → Outcome F (Expr F)
    typecheck zero e c = spent
    typecheck (suc n) missing c = panicked
    typecheck (suc n) (identifier t sp id v) c =
        and_then (identifier t sp id v) (lookup_reference n (identifier t sp id v) c) λ e c1.
          and_then (identifier t sp id v) (typecheck n e c1) λ e' c2.
            or_panic (type_name e') λ name. fresh name (pos 0) [] (λ ty. identifier ty sp id v) c2
    typecheck (suc n) (struct_of stock_kind t id raw ps) c =
        with_err (fresh (text "STOCK") (pos 0) [] (λ ty. ty) (record c { in_stock = id }))
          λ ty _ c1.
            and_then (struct_of stock_kind ty id raw ps) (typecheck_pairs n stock_kind raw ps c1)
              λ ps' c2. done (struct_of stock_kind ty id raw ps') (record c2 { in_stock = [] })
    typecheck (suc n) (struct_of kind t id raw ps) c =
        with_err (fresh (kind_name kind) (pos 0) [] (λ ty. ty) c) λ ty _ c1.
          and_then (struct_of kind ty id raw ps) (typecheck_pairs n kind raw ps c1)
            λ ps' c2. done (struct_of kind ty id raw ps') c2
    typecheck (suc n) (function (block t ss)) c =
        and_then missing (typecheck_stmts n ss none c)
          λ ss' c1. done (function (block ss'.1 ss'.0)) c1
    typecheck (suc n) (built_in s) c = done (built_in s) c
    typecheck (suc n) (clock t) c = done (clock t) c
    typecheck (suc n) (index_of t e) c =
        and_then (index_of t e) (typecheck n e c) λ e' c1. done (index_of t e') c1
    typecheck (suc n) (infix_of t a op l r) c = infer_function n (infix_of t a op l r) c
    typecheck (suc n) (invariant t op l r) c = infer_function n (invariant t op l r) c
    typecheck (suc n) (prefix t op r) c = infer_function n (prefix t op r) c
    typecheck (suc n) (if_of t e b a l) c = infer_function n (if_of t e b a l) c
    typecheck (suc n) e c = infer n e c

    -- The error of `UpdateVar` is not read.
    pub typecheck_pairs : ℕ → StructKind → List Text → Pairs F → Checker F → Outcome F (Pairs F)
    typecheck_pairs zero kind raw ps c = spent
    typecheck_pairs (suc n) kind raw no_pairs c = done no_pairs c
    typecheck_pairs (suc n) kind raw (pair key e ps) c =
        and_then no_pairs (typecheck n e c) λ e' c1.
          and_then no_pairs (put_var (raw ++ key ∷ []) (kind_type kind) e' c1) λ _ c2.
            and_then no_pairs (typecheck_pairs n kind raw ps c2) λ ps' c3. done (pair key e' ps') c3

    -- The statements of a block, and its type.
    pub typecheck_stmts : ℕ → Stmts F → Option Ty → Checker F → Outcome F (Stmts F × Option Ty)
    typecheck_stmts zero ss t c = spent
    typecheck_stmts (suc n) no_stmts t c = done (no_stmts, t) c
    typecheck_stmts (suc n) (stmt (expression u e) ss) t c =
        and_then (no_stmts, none) (infer_function n e c)
          λ e' c1.
            and_then (no_stmts, none) (typecheck_stmts n ss (typeable e') c1)
              λ rest c2. done (stmt (expression (typeable e') e') rest.0, rest.1) c2
    typecheck_stmts (suc n) (stmt (parallel u es) ss) t c =
        and_then (no_stmts, none) (typecheck_exprs n es none c)
          λ es' c1.
            and_then (no_stmts, none) (typecheck_stmts n ss t c1)
              λ rest c2. done (stmt (parallel es'.1 es'.0) rest.0, rest.1) c2
    typecheck_stmts (suc n) (stmt passed ss) t c =
        and_then (no_stmts, none) (typecheck_stmts n ss t c)
          λ rest c1. done (stmt passed rest.0, rest.1) c1

    pub typecheck_exprs : ℕ → Exprs F → Option Ty → Checker F → Outcome F (Exprs F × Option Ty)
    typecheck_exprs zero es t c = spent
    typecheck_exprs (suc n) no_exprs t c = done (no_exprs, t) c
    typecheck_exprs (suc n) (expr e es) t c =
        and_then (no_exprs, none) (infer_function n e c)
          λ e' c1.
            and_then (no_exprs, none) (typecheck_exprs n es (typeable e') c1)
              λ rest c2. done (expr e' rest.0, rest.1) c2
