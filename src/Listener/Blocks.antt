-- ===== src/Listener/Blocks.antt =====
-- What the listener makes of conditionals and of the blocks of a run or a state. `none` is a panic.
use fault.Common.{true, List, [], ◌∷◌, Option, none, some, if◌then◌else◌, same}
use fault.Common.Text.{Text, text, text_key}
use fault.Common.Dict.{lookup}
use fault.Common.Fallible.{◌>>=◌}
use fault.Listener.Node.{
  Ident, Node, parameter_call, boolean, instance_of, infix_of, built_in, if_of, block, parallel,
  expression_statement, Nodes, no_nodes, cons, OptNode, absent, present, append, is_statement,
  is_operand,
}
use fault.Listener.Build.{Env, expression_of, named, key_of, or_empty}

module _ {F : Type 0} where
  abbrev one : Node F → Nodes F
  one n = cons n no_nodes

  -- A condition that is an operand is compared with true.
  specific : Node F → Node F
  unfolding is_operand
  specific c = if is_operand c then infix_of (text "==") c (boolean true) else c

  -- The consequence as a block.
  block_of : Node F → Option (Nodes F)
  block_of (block ns) = some ns
  block_of (parallel ns) = some (one (parallel ns))
  block_of _ = none

  if_with : Node F → Node F → (alternative elif : OptNode F) → Option (Node F)
  unfolding specific block_of
  if_with cond csq a b =
      expression_of (specific cond) >>= λ c. block_of csq >>= λ ns. some (if_of c ns a b)

  -- `assembleIf` with no more than three children. Parallel calls on the place of the condition are
  -- the consequence.
  unfoldable pub make_if : Node F → Node F → Option (Node F)
  unfolding if_with
  make_if (parallel ns) csq = if_with csq (parallel ns) absent absent
  make_if cond csq = if_with cond csq absent absent

  -- The same with what follows `else`.
  unfoldable pub make_if_else : Node F → Node F → Node F → Option (Node F)
  unfolding if_with
  make_if_else (parallel ns) csq (block a) = if_with csq (parallel ns) (present (block a)) absent
  make_if_else (parallel ns) csq (parallel a) =
      if_with csq (parallel ns) (present (block (one (parallel a)))) absent
  make_if_else (parallel ns) csq (if_of c s a b) =
      if_with csq (parallel ns) absent (present (if_of c s a b))
  make_if_else cond csq (block a) = if_with cond csq (present (block a)) absent
  make_if_else cond csq (parallel a) = if_with cond csq (present (block (one (parallel a)))) absent
  make_if_else cond csq (if_of c s a b) = if_with cond csq absent (present (if_of c s a b))
  make_if_else cond csq _ = none

  -- `ExitRunStepExpr` and `ExitStateStepExpr`
  expressions_of : List (Node F) → Option (Nodes F)
  expressions_of [] = some no_nodes
  expressions_of (n ∷ ns) = expression_of n >>= λ e. expressions_of ns >>= λ es. some (cons e es)

  unfoldable pub make_parallel : List (Node F) → Option (Node F)
  unfolding expressions_of
  make_parallel ns = expressions_of ns >>= λ es. some (parallel es)

  -- `ExitRunExpr` and `ExitStateExpr`
  unfoldable pub make_expression_statement : Node F → Option (Node F)
  make_expression_statement n = expression_of n >>= λ e. some (expression_statement e)

  -- `ExitBuiltins`: "advance" takes a state from the stack, and any other function nothing.
  unfoldable pub make_advance : Node F → Option (Node F)
  unfolding is_operand
  make_advance p = if is_operand p then some (built_in (text "advance") (present p)) else none

  -- `ExitRunInit` with the identifiers of its text, and with a call of one that it takes from the
  -- stack.
  unfoldable pub make_run_init : Env F → List Text → Option (Node F)
  make_run_init env (name ∷ value ∷ []) =
      let i = named env value in
      some (instance_of i name (or_empty (lookup (key_of i) env.struct_order)))
  make_run_init env (name ∷ spec ∷ value ∷ []) =
      let i : Ident = record { spec = spec; value = value } in
      some (instance_of i name (or_empty (lookup (key_of i) env.struct_order)))
  make_run_init env _ = none

  unfoldable pub make_run_init_call : Env F → Text → Node F → Option (Node F)
  make_run_init_call env name (parameter_call s scope (spec ∷ value ∷ rest)) =
      let i : Ident = record { spec = spec; value = value } in
      some (instance_of i name (or_empty (lookup (key_of i) env.struct_order)))
  make_run_init_call env name _ = none

  -- The joining of two sides of a "|" in `packageCallsAsRunSteps`.
  join_calls : Node F → Node F → Nodes F
  join_calls (parallel ls) (parallel rs) = append ls rs
  join_calls (parallel ls) right = append ls (one right)
  join_calls left (parallel rs) = append rs (one left)
  join_calls left right = cons left (one right)

  -- An expression statement whose expression became a statement.
  unfoldable pub package_statement : Node F → Node F
  package_statement n = if is_statement n then n else expression_statement n

  -- A call of a parameter becomes a step of parallel calls. The sides of an infix are expressions, and
  -- no conditionals, which the walk would change in place.
  unfoldable mutual
    unfolding join_calls package_statement

    pub package_calls : Node F → Node F
    package_calls (block ns) = block (package_all ns)
    package_calls (expression_statement n) = package_statement (package_calls n)
    package_calls (if_of c ns a b) = if_of c (package_all ns) (package_opt a) (package_opt b)
    package_calls (parameter_call spec scope value) =
        parallel (one (parameter_call spec scope value))
    package_calls (infix_of op l r) =
        if same op (text "|")
        then parallel (join_calls (package_calls l) (package_calls r))
        else infix_of op l r
    package_calls n = n

    pub package_all : Nodes F → Nodes F
    package_all no_nodes = no_nodes
    package_all (cons n ns) = cons (package_calls n) (package_all ns)

    pub package_opt : OptNode F → OptNode F
    package_opt absent = absent
    package_opt (present n) = present (package_calls n)

  -- The statements of one step of a run. An expression that is no instance comes from no step, and the
  -- context of its step would not be the one that is asked for.
  run_step : Node F → Option (Nodes F)
  unfolding package_calls
  run_step (instance_of i name order) = some (one (expression_statement (instance_of i name order)))
  run_step (parallel ns) = some (one (parallel ns))
  run_step (block ns) = some (package_all ns)
  run_step (expression_statement n) = elim (package_calls (expression_statement n)) [
    | expression_statement e ↦ some (one (expression_statement e))
    | _ ↦ none
  ]
  run_step _ = none

  -- The statements of one step of a state.
  state_step : Node F → Option (Nodes F)
  unfolding package_calls
  state_step (parallel ns) = some (one (parallel ns))
  state_step (block ns) = some (package_all ns)
  state_step (expression_statement n) = elim (package_calls (expression_statement n)) [
    | expression_statement e ↦ some (one (expression_statement e))
    | _ ↦ none
  ]
  state_step (built_in f s) = some (one (expression_statement (built_in f s)))
  state_step (infix_of op l r) = some (one (expression_statement (infix_of op l r)))
  state_step _ = none

  steps_of : (Node F → Option (Nodes F)) → List (Node F) → Option (Nodes F)
  steps_of step [] = some no_nodes
  steps_of step (n ∷ ns) = step n >>= λ s. steps_of step ns >>= λ rest. some (append s rest)

  -- `ExitRunBlock` and `ExitStateBlock`
  unfoldable pub make_run_block : List (Node F) → Option (Node F)
  unfolding steps_of run_step
  make_run_block ns = steps_of run_step ns >>= λ body. some (block body)

  unfoldable pub make_state_block : List (Node F) → Option (Node F)
  unfolding steps_of state_step
  make_state_block ns = steps_of state_step ns >>= λ body. some (block body)
