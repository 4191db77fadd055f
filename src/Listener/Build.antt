-- ===== src/Listener/Build.antt =====
-- What each `Exit` method of listener/listener.go makes of the nodes that it pops. `none` is a panic.
use fault.Common.{
  zero, suc, Bool, true, false, List, [], ◌∷◌, ◌++◌, Option, none, some, if◌then◌else◌, same, has,
  ◌==◌,
}
use fault.Common.Text.{Text, text, text_key, join, atoi}
use fault.Common.Dict.{lookup, insert}
use fault.Common.Fallible.{◌>>=◌}
use fault.Common.Int.{ℤ, pos, negsuc}
use fault.Listener.Node.{
  Ident, Node, identifier, parameter_call, integer, float, boolean, natural, uncertain, unknown,
  instance_of, empty_prefix, prefix, infix_of, index_of, function, block, expression_statement,
  Nodes, no_nodes, cons, is_statement, is_expression,
}

-- The fields of `FaultListener` but for the stack, the tree, and what it reads files with.
pub record Env (F : Type 0) : Type 0 where
  pub scope : Text
  pub structscope : Text
  pub curr_spec : Text
  pub specs : List Text
  pub unknowns : List Text
  pub uncertains : List (Text × (F × F))
  pub struct_order : List (Text × List Text)

-- The float64 that the listener reads and computes with.
pub record Floats (F : Type 0) : Type 0 where
  pub parse_float : Text → Option F
  pub of_int : ℤ → F
  pub negate_float : F → F

-- `-i` on an int64.
abbrev pub negate_int : ℤ → ℤ
negate_int (pos zero) = pos 0
negate_int (pos (suc n)) = negsuc n
negate_int (negsuc n) = if n == 9223372036854775807 then negsuc n else pos (suc n)

-- `strconv.ParseBool`
abbrev pub parse_bool : Text → Option Bool
parse_bool t =
    if has t (text "1" ∷ text "t" ∷ text "T" ∷ text "TRUE" ∷ text "true" ∷ text "True" ∷ [])
    then some true
    else if has t (text "0" ∷ text "f" ∷ text "F" ∷ text "FALSE" ∷ text "false" ∷ text "False" ∷ [])
    then some false
    else none

-- `strings.Join([]string{a, b}, "_")`
abbrev pub key_of : Ident → Text
key_of i = join b'_' (i.spec ∷ i.value ∷ [])

abbrev pub or_empty : Option (List Text) → List Text
or_empty none = []
or_empty (some ts) = ts

module _ {F : Type 0} where
  -- An identifier of the spec that is read.
  abbrev pub named : Env F → Text → Ident
  named env value = record { spec = env.curr_spec; value = value }

  -- The key under which `Unknowns` and `Uncertains` have a variable of the scope.
  abbrev pub scoped : Env F → Text → Text
  scoped env value = join b'_' (env.curr_spec ∷ env.scope ∷ value ∷ [])

  abbrev pub expression_of : Node F → Option (Node F)
  expression_of n = if is_expression n then some n else none

  -- `ExitParamCall`; `parts` is its text, split at the dots.
  unfoldable pub make_param_call : Env F → List Text → Option (Node F)
  make_param_call env [] = none
  make_param_call env (p ∷ parts) =
      some
        (parameter_call (if has p env.specs then p else env.curr_spec) env.structscope (p ∷ parts))

  -- `ExitOpInstance`, with one or two identifiers.
  unfoldable pub make_instance : Env F → List Text → Option (Node F)
  make_instance env (value ∷ []) =
      let i = named env value in
      some (instance_of i [] (or_empty (lookup (key_of i) env.struct_order)))
  make_instance env (spec ∷ value ∷ []) =
      let i : Ident = record { spec = spec; value = value } in
      some (instance_of i [] (or_empty (lookup (key_of i) env.struct_order)))
  make_instance env _ = none

  unfoldable pub make_integer : Text → Option (Node F)
  make_integer t = atoi t >>= λ v. some (integer v)

  unfoldable pub make_bool : Text → Option (Node F)
  make_bool t = parse_bool t >>= λ v. some (boolean v)

  unfoldable pub make_float : Floats F → Text → Option (Node F)
  make_float go t = go.parse_float t >>= λ v. some (float v)

  -- `ExitNegative`
  unfoldable pub make_negative : Floats F → Node F → Option (Node F)
  make_negative go (integer v) = some (integer (negate_int v))
  make_negative go (float v) = some (float (go.negate_float v))
  make_negative go (identifier i) = some (prefix (text "-") (identifier i))
  make_negative go _ = none

  -- `ExitLrExpr`. An empty prefix on the left is filled in.
  unfoldable pub make_lr_expr : Text → Node F → Node F → Option (Node F)
  make_lr_expr op empty_prefix right = expression_of right >>= λ r. some (prefix op r)
  make_lr_expr op left right =
      expression_of left >>= λ l. expression_of right >>= λ r. some (infix_of op l r)

  -- `ExitBuiltinInfix`
  unfoldable pub make_builtin_infix : Text → Node F → Node F → Option (Node F)
  make_builtin_infix op left right =
      expression_of left >>= λ l. expression_of right >>= λ r. some (infix_of op l r)

  unfoldable pub make_prefix : Text → Node F → Option (Node F)
  make_prefix op right = expression_of right >>= λ r. some (prefix op r)

  -- `ExitIncDecStmt`, `++` or `--`
  unfoldable pub make_inc_dec : (plus : Bool) → Node F → Option (Node F)
  make_inc_dec plus left = expression_of left >>= λ l.
      some (infix_of (if plus then text "+" else text "-") l (integer (pos 1)))

  -- `ExitFaultAssign`
  unfoldable pub make_fault_assign : Text → Node F → Node F → Option (Node F)
  make_fault_assign op left right = do
    l ← expression_of left
    r ← expression_of right
    if same op (text "->")
        then some (infix_of (text "<-") l (infix_of (text "-") l r))
        else if same op (text "<-")
        then some (infix_of (text "<-") l (infix_of (text "+") l r))
        else none

  -- What a variable is declared as: an unknown without a name gets one. The lists of unknown and of
  -- uncertain variables grow.
  declare : Env F → Ident → Node F → Node F × Env F
  declare env i (instance_of s name order) = (instance_of s i.value order, env)
  declare env i (unknown none) =
      (unknown (some i), record env { unknowns = env.unknowns ++ scoped env i.value ∷ [] })
  declare env i (unknown (some j)) =
      (unknown (some j), record env { unknowns = env.unknowns ++ scoped env i.value ∷ [] })
  declare env i (uncertain mean sigma) = (
    uncertain mean sigma,
    record env { uncertains = insert (scoped env i.value) (mean, sigma) env.uncertains },
  )
  declare env i n = (n, env)

  -- A new instance gets the name of the left side.
  rename : Text → Node F → Node F
  rename name (instance_of s old order) = instance_of s name order
  rename name n = n

  -- `ExitMiscAssign`
  unfoldable pub make_misc_assign : Text → Env F → Node F → Node F → Option (Node F × Env F)
  unfolding declare rename
  make_misc_assign op env (identifier i) right =
      let (n, env') = declare env i right in
      expression_of n >>= λ r. some (infix_of op (identifier i) r, env')
  make_misc_assign op env (parameter_call spec scope []) right = none
  make_misc_assign op env (parameter_call spec scope (v ∷ value)) right =
      expression_of (rename v right) >>= λ r.
      some (infix_of op (parameter_call spec scope (v ∷ value)) r, env)
  make_misc_assign op env left right = none

  -- `ExitAccessHistory`: an index expression for each index, the first innermost.
  unfoldable pub make_access_history : Node F → List (Node F) → Option (Node F)
  make_access_history left [] = some left
  make_access_history left (i ∷ indices) = expression_of left >>= λ l.
      expression_of i >>= λ r. make_access_history (index_of l r) indices

  -- `intOrFloatOk`; the callers turn its error into a panic.
  unfoldable pub int_or_float_ok : Floats F → Node F → Option F
  int_or_float_ok go (float v) = some v
  int_or_float_ok go (integer v) = some (go.of_int v)
  int_or_float_ok go _ = none

  -- `ExitSolvable`, by the arguments that are on the stack.
  unfoldable pub make_natural : Node F → Option (Node F)
  make_natural (integer v) = some (natural v)
  make_natural _ = none

  unfoldable pub make_uncertain : Floats F → Node F → Node F → Option (Node F)
  unfolding int_or_float_ok
  make_uncertain go mean sigma = do
    s ← int_or_float_ok go sigma
    m ← int_or_float_ok go mean
    some (uncertain m s)

  unfoldable pub make_unknown : Node F → Option (Node F)
  make_unknown (identifier i) = some (unknown (some i))
  make_unknown _ = some (unknown none)

  -- `ExitStatementList`: an expression becomes a statement.
  unfoldable pub make_statement : Node F → Node F
  make_statement n = if is_statement n then n else expression_statement n

  statements : List (Node F) → Nodes F
  unfolding make_statement
  statements [] = no_nodes
  statements (n ∷ ns) = cons (make_statement n) (statements ns)

  unfoldable pub make_statement_list : List (Node F) → Node F
  unfolding statements
  make_statement_list ns = block (statements ns)

  -- `ExitFunctionLit` and `ExitStateLit`
  unfoldable pub make_function : Node F → Option (Node F)
  make_function (block body) = some (function body)
  make_function _ = none
