-- ===== src/Listener/Tests.antt =====
-- listener/listener.go on structs, on a function and on a literal.
use fault.Common.{List, ◌≡◌, refl, [], ◌∷◌, none, some}
use fault.Common.Text.{Text, text, itoa, atoi, join}
use fault.Common.Int.{pos}
use fault.Listener.Node.{
  Node, Ident, Pairs, string, integer, definition, stock, flow, pair, no_pairs, function, cons,
  no_nodes, expression_statement, infix_of, parameter_call, identifier, is_expression, is_statement,
}
use fault.Listener.Build.{
  Env, Floats, make_integer, make_param_call, make_lr_expr, make_fault_assign, make_function,
  make_statement_list,
}
use fault.Listener.Blocks.{make_expression_statement}
use fault.Listener.Trees.{
  Tree, op_name, integer_tree, lr_expr, fault_assign, op_param, statement_list, function_lit,
  step_statement, struct_tree, struct_decl, StructKind, stock_kind, flow_kind, no_trees, tree,
  no_properties, property, prop_func, prop_value,
}
use fault.Common.Dict.{insert}
use fault.Listener.Declarations.{get_pairs, make_struct_decl}
use fault.Listener.Stack.{Listener, make_struct}
use fault.Listener.Walk.{walk}
use fault.Listener.Denote.{denote}
use fault.Listener.Runs.{pushed}
use fault.Listener.Agree.{walk-denote}

-- Floats as they are written.
abbrev written : Floats Text
written = record { parse_float = λ t. some t; of_int = λ i. itoa i; negate_float = λ t. b'-' ∷ t }

abbrev new_env : Env Text
new_env = record {
  scope = [];
  structscope = [];
  curr_spec = text "spec";
  specs = text "spec" ∷ [];
  unknowns = [];
  uncertains = [];
  struct_order = [];
}

abbrev busy : Listener Text
busy = record { stack = string (text "below") ∷ []; env = new_env }

-- `flow f { fill: func { s.x <- x + 2; }, }`
abbrev fill : Tree
fill = function_lit (
    statement_list (
      tree
        (step_statement (
          fault_assign (text "<-") (op_param (text "s" ∷ text "x" ∷ []))
            (lr_expr (text "+") (op_name (text "x")) (integer_tree (text "2")))))
        no_trees))

abbrev flow_tree : Tree
flow_tree = struct_decl (text "f") (
    struct_tree flow_kind (
      property (prop_value (text "cap") (integer_tree (text "10")))
        (property (prop_func (text "fill") fill) no_properties)))

walk-denote_example :
    walk written flow_tree busy ≡ pushed (denote written flow_tree busy.env) busy.stack
walk-denote_example = walk-denote written flow_tree busy

-- A literal in another base is read as no number.
octal_panics : walk written (integer_tree (text "0x1")) busy ≡ none
unfolding walk make_integer atoi
octal_panics = refl

-- `stock f { cap: 10, }` and `flow f { cap: 10, }` are definitions of the struct of their kind.
abbrev declared : StructKind → Tree
declared kind =
    struct_decl (text "f") (
      struct_tree kind
        (property (prop_value (text "cap") (integer_tree (text "10"))) no_properties))

abbrev with_order : List Text → Env Text
with_order ids = record new_env { struct_order = (text "spec_f", ids) ∷ [] }

abbrev in_spec : Text → Ident
in_spec name = record { spec = text "spec"; value = name }

abbrev cap_is_ten : Pairs Text
cap_is_ten = pair (in_spec (text "cap")) (integer (pos 10)) no_pairs

abbrev declares : (Pairs Text → Node Text) → Listener Text
declares struct = record {
  stack = definition (in_spec (text "f")) (struct cap_is_ten) ∷ string (text "below") ∷ [];
  env = with_order (text "cap" ∷ []);
}

stock_declared : walk written (declared stock_kind) busy ≡ some (declares stock)
unfolding walk atoi make_integer make_struct get_pairs is_expression make_struct_decl insert join
stock_declared = refl

flow_declared : walk written (declared flow_kind) busy ≡ some (declares flow)
unfolding walk atoi make_integer make_struct get_pairs is_expression make_struct_decl insert join
flow_declared = refl

-- `s.x <- x + 2` is an assignment of the sum of `s.x` and the right side.
assigned :
    walk written fill busy
    ≡ some (record busy {
      stack =
          function (
            cons
              (expression_statement (
                infix_of (text "<-") (parameter_call (text "spec") [] (text "s" ∷ text "x" ∷ [])) (
                  infix_of
                    (text "+")
                    (parameter_call (text "spec") [] (text "s" ∷ text "x" ∷ []))
                    (infix_of (text "+") (identifier (in_spec (text "x"))) (integer (pos 2))))))
              no_nodes)
          ∷ string (text "below")
          ∷ [];
    })
unfolding walk atoi make_integer make_param_call make_lr_expr is_expression make_fault_assign
    make_expression_statement make_function make_statement_list is_statement
assigned = refl
