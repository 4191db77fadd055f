-- ===== src/Preprocess/Walk.antt =====
-- `walk` and `Run` of preprocess/preprocess.go. Every call of `walk` takes one of the fuel.
pub mod Expressions
pub mod Reading
pub mod Collapsed
pub mod Nested
use fault.Common.{ℕ, zero, suc, Bool, true, false, List, [], Option, none, some}
use fault.Common.Text.{Text}
use fault.Common.Dict.{insert}
use fault.Record.{Struct, new_spec_record}
use fault.Preprocess.Tree.{
  Node, identifier, unknown, parameter_call, built_in, infix_of, prefix, index_of, invariant, if_at,
  function, block, expression, parallel, instance_of, struct_instance, struct_of, spec_tree,
  spec_decl, sys_decl, import_of, constant_of, def_of, assertion, for_of, Nodes, no_nodes, node,
  IfNode,
}
use fault.Preprocess.Processor.{
  Processor, Cmd, Outcome, done, failed, panicked, spent, return, and_then, ◌>>=◌, ◌>>◌, gets,
  modify, when, push_spec, pop_spec, new_spec,
}
use fault.Preprocess.Naming.{walk_identifier, walk_unknown, walk_index}
use fault.Preprocess.Collapse.{an_expression, walk_if}
use fault.Preprocess.Structs.{walk_struct, walk_def, walk_constant}
use fault.Preprocess.Instances.{walk_instance, walk_struct_instance}
use fault.Preprocess.Calls.{walk_call, walk_built_in, walk_function}

-- `case *ast.SpecDeclStatement` and `case *ast.SysDeclStatement`; the second pass does not push a system.
declare_spec : Text → Cmd Node
unfolding insert new_spec_record
declare_spec name = do
  initial ← gets λ p. p.initial_pass
  when initial (new_spec name)
  push_spec name
  return (spec_decl name)

declare_system : Text → Cmd Node
unfolding insert new_spec_record
declare_system name = do
  initial ← gets λ p. p.initial_pass
  when initial (new_spec name >> push_spec name)
  return (sys_decl name)

walk_parallel : Bool → (Nodes → Cmd Nodes) → Nodes → Cmd Node
walk_parallel true ws ns = return (parallel ns)
walk_parallel false ws ns = ws ns >>= λ ns'. return (parallel ns')

-- A call of `walk`; `w` are the calls in it, `k` what `collapse` may take.
module _ (copy : Struct Node → List IfNode → Option (Struct Node × List IfNode)) (k : ℕ)
    (w : Node → Cmd Node) where
  -- The loops over statements and expressions, whose nodes are not nil.
  unfoldable pub walk_nodes : Nodes → Cmd Nodes
  walk_nodes no_nodes = return no_nodes
  walk_nodes (node n ns) = do
    pro ← w n
    e ← an_expression pro
    rest ← walk_nodes ns
    return (node e rest)

  -- The two sides of an infix expression or of an invariant.
  unfoldable pub walk_sides : (Node → Node → Node) → Node → Node → Cmd Node
  walk_sides f left right = do
    l ← w left
    r ← w right
    l' ← an_expression l
    r' ← an_expression r
    return (f l' r')

  walk_inside : (Node → Node) → Node → Cmd Node
  walk_inside f n = do pro ← w n; e ← an_expression pro; return (f e)

  unfoldable pub walk_case : Node → Cmd Node
  unfolding walk_nodes walk_sides walk_inside declare_spec declare_system walk_parallel
      walk_identifier walk_unknown walk_index walk_if walk_struct walk_def walk_constant
      walk_instance walk_struct_instance walk_call walk_built_in walk_function
  walk_case (spec_tree ns) = walk_nodes ns >>= λ ns'. return (spec_tree ns')
  walk_case (spec_decl name) = declare_spec name
  walk_case (sys_decl name) = declare_system name
  walk_case (import_of ns) = do
    tree ← w (spec_tree ns)
    pop_spec
    elim tree [ spec_tree ns' ↦ return (import_of ns') | _ ↦ λ p. panicked ]
  walk_case (constant_of id sp name v) = do
    initial ← gets λ p. p.initial_pass
    walk_constant w initial id sp name v
  walk_case (def_of global id sp name v) = walk_def w global id sp name v
  walk_case (struct_of kind id order ps) = walk_struct w kind id order ps
  walk_case (assertion c) = walk_inside assertion c
  walk_case (invariant op l r) = walk_sides (invariant op) l r
  walk_case (expression e) = walk_inside expression e
  walk_case (for_of ns) = walk_nodes ns >>= λ ns'. return (for_of ns')
  walk_case (function id body) = walk_function w id body
  walk_case (block ns) = walk_nodes ns >>= λ ns'. return (block ns')
  walk_case (infix_of op l r) = walk_sides (infix_of op) l r
  walk_case (index_of id l i) = walk_index w l i
  walk_case (prefix id op r) = walk_inside (prefix id op) r
  walk_case (if_at a) = walk_if w k a
  walk_case (instance_of id i) = walk_instance copy w i
  walk_case (struct_instance id s ps) = walk_struct_instance copy w s ps
  walk_case (identifier id sp v) = walk_identifier sp v
  walk_case (unknown id n) = walk_unknown id n
  walk_case (parameter_call id v) = walk_call w id v
  walk_case (parallel ns) = do
    initial ← gets λ p. p.initial_pass
    walk_parallel initial walk_nodes ns
  walk_case (built_in id f s t) = walk_built_in w id f s t
  walk_case n = return n

module _ (copy : Struct Node → List IfNode → Option (Struct Node × List IfNode)) where
  unfoldable pub walk : ℕ → Node → Cmd Node
  unfolding walk_case
  walk zero n = λ p. spent
  walk (suc k) n = walk_case copy k (walk k) n

  -- An error of `walk` is a panic of `Run`.
  or_panic_of : {A : Type 0} → Outcome A → Outcome A
  or_panic_of failed = panicked
  or_panic_of m = m

  -- `Run`, two passes.
  unfoldable pub run : ℕ → Node → Cmd Node
  unfolding walk or_panic_of
  run fuel n = λ p.
      or_panic_of
        ((do tree ← walk fuel n; modify λ p. record p { initial_pass = false }; walk fuel tree) p)

-- `NewProcesser`, with the order and the ifs that the listener has.
unfoldable pub new_processer : List (Text × List Text) → List IfNode → Processor
new_processer order ifs = record {
  specs = [];
  scope = [];
  local_idents = [];
  trail = [];
  struct_types = [];
  initial_pass = true;
  in_func = false;
  in_struct = [];
  in_state = [];
  in_global = false;
  structs_property_order = order;
  ifs = ifs;
}
