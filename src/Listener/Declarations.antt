-- ===== src/Listener/Declarations.antt =====
-- What the listener makes of properties, structs, constants and assertions. `none` is a panic.
use fault.Common.{
  ◌-◌, Bool, true, false, List, [], ◌∷◌, ◌++◌, Option, none, some, if◌then◌else◌, same, length,
  take,
}
use fault.Common.Text.{Text, text, text_key, itoa}
use fault.Common.Dict.{lookup, insert}
use fault.Common.Fallible.{◌>>=◌}
use fault.Common.Int.{ℤ, pos}
use fault.Listener.Node.{
  Ident, Node, identifier, parameter_call, integer, boolean, uncertain, unknown, instance_of,
  prefix, infix_of, built_in, if_of, function, block, expression_statement, init_of, invariant,
  assertion, definition, stock, flow, for_of, Nodes, no_nodes, cons, OptNode, absent, present,
  Pairs, no_pairs, pair,
}
use fault.Listener.Build.{Env, expression_of, named, scoped, key_of, or_empty}

-- `temporalRaw[0 : len(temporalRaw)-len(i.String())]`
filter_of : Text → ℤ → Text
filter_of raw k = take (length raw - length (itoa k)) raw

module _ {F : Type 0} where
  -- `ExitPropVar`: an instance gets the name of the property.
  unfoldable pub make_prop_var : Text → Node F → Option (Node F)
  make_prop_var name (instance_of i old order) = some (instance_of i name order)
  make_prop_var name (identifier i) = some (identifier i)
  make_prop_var name (parameter_call spec scope value) = some (parameter_call spec scope value)
  make_prop_var name (prefix op r) = some (prefix op r)
  make_prop_var name _ = none

  -- `ExitPropSolvable`: an unknown gets the name of the property.
  unfoldable pub make_prop_solvable : Ident → Node F → Node F
  make_prop_solvable i (unknown old) = unknown (some i)
  make_prop_solvable i n = n

  -- One pass of `getPairs`: the lists of unknown and of uncertain variables grow.
  declare_pair : Env F → Ident → Node F → Node F × Env F
  declare_pair env i (unknown old) =
      (unknown (some i), record env { unknowns = env.unknowns ++ scoped env i.value ∷ [] })
  declare_pair env i (uncertain mean sigma) = (
    uncertain mean sigma,
    record env { uncertains = insert (scoped env i.value) (mean, sigma) env.uncertains },
  )
  declare_pair env i n = (n, env)

  -- `getPairs`, which takes the last property first.
  unfoldable pub get_pairs : Env F → List (Node F × Node F) → Option (Pairs F × Env F)
  unfolding declare_pair
  get_pairs env [] = some (no_pairs, env)
  get_pairs env ((identifier i, right) ∷ ps) = do
    (rest, env1) ← get_pairs env ps
    let (n, env2) = declare_pair env1 i right
    r ← expression_of n
    some (pair i r rest, env2)
  get_pairs env ((left, right) ∷ ps) = none

  -- The order of the properties.
  abbrev pub order_of : Pairs F → List Text
  order_of no_pairs = []
  order_of (pair i n ps) = i.value ∷ order_of ps

  -- `componentPairs`, on one function: it runs only while its state is active. An empty function is a
  -- panic, and one that only stays is kept.
  abbrev only_stays : Nodes F → Bool
  only_stays (cons (expression_statement (built_in f s)) no_nodes) = same f (text "stay")
  only_stays _ = false

  guarded : Ident → Nodes F → Node F
  guarded i body =
      let called = parameter_call i.spec [] (text "this" ∷ i.value ∷ []) in
      let cond = infix_of (text "==") called (boolean true) in
      function (cons (expression_statement (if_of cond body absent absent)) no_nodes)

  state_function : Ident → Node F → Option (Node F)
  unfolding guarded
  state_function i (function no_nodes) = none
  state_function i (function (cons n body)) =
      some (if only_stays (cons n body) then function (cons n body) else guarded i (cons n body))
  state_function i n = some n

  unfoldable pub component_pairs : Pairs F → Option (Pairs F)
  unfolding state_function
  component_pairs no_pairs = some no_pairs
  component_pairs (pair i n ps) =
      state_function i n >>= λ f. component_pairs ps >>= λ rest. some (pair i f rest)

  -- `ExitStructDecl`
  unfoldable pub make_struct_decl : Text → Env F → Node F → Option (Node F × Env F)
  make_struct_decl name env (stock ps) =
      let i = named env name in
      some (
        definition i (stock ps),
        record env {
          scope = [];
          structscope = [];
          struct_order = insert (key_of i) (order_of ps) env.struct_order;
        },
      )
  make_struct_decl name env (flow ps) =
      let i = named env name in
      some (
        definition i (flow ps),
        record env {
          scope = [];
          structscope = [];
          struct_order = insert (key_of i) (order_of ps) env.struct_order;
        },
      )
  make_struct_decl name env _ = none

  -- `ExitGlobalDecl`
  unfoldable pub make_global_decl : Text → Env F → Node F → Option (Node F)
  make_global_decl name env (instance_of i old order) = some (
      definition (named env name)
        (instance_of i name (or_empty (lookup (key_of i) env.struct_order))))
  make_global_decl name env n = expression_of n >>= λ e. some (definition (named env name) e)

  -- The clause that an assertion asks for. `absent` is the nil clause that an integer leaves.
  unfoldable pub assert_clause : Node F → Option (OptNode F)
  assert_clause (integer n) = some absent
  assert_clause (identifier i) =
      some (present (invariant (text "==") (identifier i) (boolean true)))
  assert_clause (prefix op r) =
      if same op (text "!") then some (present (invariant (text "!=") r (boolean true))) else none
  assert_clause (infix_of op l r) = some (present (invariant op l r))
  assert_clause (invariant op l r) = some (present (invariant op l r))
  assert_clause _ = none

  -- The clause that an assumption asks for: a "!=" is kept as it is, on the right of another one.
  unfoldable pub assume_clause : Node F → Option (OptNode F)
  assume_clause (identifier i) =
      some (present (invariant (text "==") (identifier i) (boolean true)))
  assume_clause (prefix op r) =
      if same op (text "!") then some (present (invariant (text "!=") r (boolean true))) else none
  assume_clause (infix_of op l r) = some (
      present (
        if same op (text "!=")
        then invariant (text "!=") (boolean true) (infix_of op l r)
        else invariant op l r))
  assume_clause (invariant op l r) = some (present (invariant op l r))
  assume_clause _ = none

  -- `ExitAssertion` and `ExitAssumption` with no temporal word, or with one and no number.
  unfoldable pub make_assertion : (assume : Bool) → Text → Node F → Option (Node F)
  unfolding assert_clause assume_clause
  make_assertion true temporal n =
      assume_clause n >>= λ c. some (assertion true c temporal [] (pos 0))
  make_assertion false temporal n =
      assert_clause n >>= λ c. some (assertion false c temporal [] (pos 0))

  -- With a filter and its number, whose text is `raw`.
  unfoldable pub make_counted : (assume : Bool) → Text → Node F → Node F → Option (Node F)
  unfolding assert_clause assume_clause filter_of
  make_counted true raw n (integer k) =
      assume_clause n >>= λ c. some (assertion true c [] (filter_of raw k) k)
  make_counted false raw n (integer k) =
      assert_clause n >>= λ c. some (assertion false c [] (filter_of raw k) k)
  make_counted assume raw n _ = none

  -- `ExitStageInvariant`
  unfoldable pub make_stage_invariant : Node F → Node F → Option (Node F)
  make_stage_invariant left right =
      expression_of left >>= λ l. expression_of right >>= λ r. some (invariant (text "then") l r)

  -- `ExitForStmt`, where the run is not skipped.
  unfoldable pub make_for : Node F → Node F → Option (Node F)
  make_for (integer rounds) (block body) = some (for_of rounds body)
  make_for _ _ = none

  unfoldable pub make_init : Node F → Option (Node F)
  make_init n = expression_of n >>= λ e. some (init_of e)
