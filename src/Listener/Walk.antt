-- ===== src/Listener/Walk.antt =====
-- The walk of `ParseTreeWalker` over a parse tree, with the `Enter` and `Exit` methods of
-- listener/listener.go on the stack.
use fault.Common.{Option, none, some}
use fault.Common.Text.{text_key, split}
use fault.Common.Fallible.{◌>>=◌}
use fault.Listener.Node.{
  identifier, this, clock, nil, string, unknown, empty_prefix, built_in, block, absent, no_nodes,
}
use fault.Listener.Build.{
  Floats, named, make_param_call, make_instance, make_integer, make_bool, make_float, make_negative,
  make_lr_expr, make_builtin_infix, make_prefix, make_inc_dec, make_fault_assign, make_misc_assign,
  make_access_history, make_natural, make_uncertain, make_unknown, make_statement_list,
  make_function,
}
use fault.Listener.Blocks.{
  make_if, make_if_else, make_parallel, make_expression_statement, make_advance, make_run_init,
  make_run_init_call, make_run_block, make_state_block,
}
use fault.Listener.Declarations.{
  make_prop_var, make_prop_solvable, make_struct_decl, make_global_decl, make_assertion,
  make_counted, make_stage_invariant, make_for, make_init,
}
use fault.Listener.Trees.{
  Tree, op_name, op_param, op_this, op_clock, op_instance, nil_tree, integer_tree, negative_tree,
  float_tree, string_tree, bool_tree, access_history, natural_tree, uncertain_tree, unknown_tree,
  unknown_named, no_prefix, prefix_tree, lr_expr, inc_dec, fault_assign, misc_assign,
  statement_list, empty_block, function_lit, if_stmt, if_else_stmt, step_expr, step_statement,
  run_init, run_init_call, run_block, state_block, stay, advance, builtin_infix, init_decl,
  struct_tree, struct_decl, component_decl, global_decl, assertion_tree, counted_tree,
  stage_invariant, for_tree, Trees, no_trees, tree, Property, prop_value, prop_var, prop_solvable,
  prop_unknown, prop_func, Properties, no_properties, property, count, count_properties,
}
use fault.Listener.Stack.{
  Listener, push, pop_many, exit0, exit1, exit2, exit3, exit_many, exit_pairs, kept, enter_scope,
  leave_scope, enter_struct, with_env, make_struct, make_component_decl, exit_property,
}

module _ {F : Type 0} (go : Floats F) where
  unfoldable mutual
    unfolding exit0 exit1 exit2 exit3 exit_many exit_pairs exit_property push

    pub walk : Tree → Listener F → Option (Listener F)
    walk (op_name t) l = exit0 (λ env. kept env (some (identifier (named env t)))) l
    walk (op_param parts) l = exit0 (λ env. kept env (make_param_call env parts)) l
    walk op_this l = exit0 (λ env. kept env (some (this (split b'.' env.scope)))) l
    walk op_clock l = exit0 (λ env. kept env (some (clock env.scope))) l
    walk (op_instance ids) l = exit0 (λ env. kept env (make_instance env ids)) l
    walk nil_tree l = exit0 (λ env. kept env (some nil)) l
    walk (integer_tree t) l = exit0 (λ env. kept env (make_integer t)) l
    walk (float_tree t) l = exit0 (λ env. kept env (make_float go t)) l
    walk (string_tree t) l = exit0 (λ env. kept env (some (string t))) l
    walk (bool_tree t) l = exit0 (λ env. kept env (make_bool t)) l
    walk unknown_tree l = exit0 (λ env. kept env (some (unknown none))) l
    walk no_prefix l = exit0 (λ env. kept env (some empty_prefix)) l
    walk empty_block l = exit0 (λ env. kept env (some (block no_nodes))) l
    walk (run_init ids) l = exit0 (λ env. kept env (make_run_init env ids)) l
    walk (stay f) l = exit0 (λ env. kept env (some (built_in f absent))) l
    walk (negative_tree t) l = walk t l >>= exit1 (λ env a. kept env (make_negative go a))
    walk (natural_tree t) l = walk t l >>= exit1 (λ env a. kept env (make_natural a))
    walk (unknown_named t) l = walk t l >>= exit1 (λ env a. kept env (make_unknown a))
    walk (prefix_tree op t) l = walk t l >>= exit1 (λ env a. kept env (make_prefix op a))
    walk (inc_dec plus t) l = walk t l >>= exit1 (λ env a. kept env (make_inc_dec plus a))
    walk (function_lit t) l = walk t l >>= exit1 (λ env a. kept env (make_function a))
    walk (step_statement t) l = walk t l >>= exit1 (λ env a. kept env (make_expression_statement a))
    walk (run_init_call name t) l =
        walk t l >>= exit1 (λ env a. kept env (make_run_init_call env name a))
    walk (advance t) l = walk t l >>= exit1 (λ env a. kept env (make_advance a))
    walk (init_decl t) l = walk t l >>= exit1 (λ env a. kept env (make_init a))
    walk (global_decl name t) l =
        walk t l >>= exit1 (λ env a. kept env (make_global_decl name env a))
    walk (assertion_tree assume temporal t) l =
        walk t l >>= exit1 (λ env a. kept env (make_assertion assume temporal a))
    walk (uncertain_tree t u) l =
        walk t l >>= λ l1. walk u l1 >>= exit2 (λ env a b. kept env (make_uncertain go a b))
    walk (lr_expr op t u) l =
        walk t l >>= λ l1. walk u l1 >>= exit2 (λ env a b. kept env (make_lr_expr op a b))
    walk (fault_assign op t u) l =
        walk t l >>= λ l1. walk u l1 >>= exit2 (λ env a b. kept env (make_fault_assign op a b))
    walk (misc_assign op t u) l =
        walk t l >>= λ l1. walk u l1 >>= exit2 (λ env a b. make_misc_assign op env a b)
    walk (if_stmt t u) l =
        walk t l >>= λ l1. walk u l1 >>= exit2 (λ env a b. kept env (make_if a b))
    walk (builtin_infix op t u) l =
        walk t l >>= λ l1. walk u l1 >>= exit2 (λ env a b. kept env (make_builtin_infix op a b))
    walk (counted_tree assume raw t u) l =
        walk t l >>= λ l1. walk u l1 >>= exit2 (λ env a b. kept env (make_counted assume raw a b))
    walk (stage_invariant t u) l =
        walk t l >>= λ l1. walk u l1 >>= exit2 (λ env a b. kept env (make_stage_invariant a b))
    walk (for_tree t u) l =
        walk t l >>= λ l1. walk u l1 >>= exit2 (λ env a b. kept env (make_for a b))
    walk (statement_list ts) l =
        walk_all ts l >>= exit_many (count ts) (λ env ns. kept env (some (make_statement_list ns)))
    walk (step_expr ts) l =
        walk_all ts l >>= exit_many (count ts) (λ env ns. kept env (make_parallel ns))
    walk (run_block ts) l =
        walk_all ts l >>= exit_many (count ts) (λ env ns. kept env (make_run_block ns))
    walk (state_block ts) l =
        walk_all ts l >>= exit_many (count ts) (λ env ns. kept env (make_state_block ns))
    walk (access_history t ts) l = do
      l1 ← walk t l
      l2 ← walk_all ts l1
      (indices, l3) ← pop_many (count ts) l2
      exit1 (λ env a. kept env (make_access_history a indices)) l3
    walk (if_else_stmt t u v) l = do
      l1 ← walk t l
      l2 ← walk u l1
      l3 ← walk v l2
      exit3 (λ env a b c. kept env (make_if_else a b c)) l3
    walk (struct_tree kind ps) l =
        walk_properties ps l >>= exit_pairs (count_properties ps) (make_struct kind)
    walk (struct_decl name t) l =
        walk t (with_env (enter_struct name) l) >>= exit1 (make_struct_decl name)
    walk (component_decl name ps) l =
        walk_properties ps l >>= exit_pairs (count_properties ps) (make_component_decl name)

    pub walk_all : Trees → Listener F → Option (Listener F)
    walk_all no_trees l = some l
    walk_all (tree t ts) l = walk t l >>= walk_all ts

    pub walk_property : Property → Listener F → Option (Listener F)
    walk_property (prop_value name t) l =
        walk t l >>= exit_property name (λ env. env) (λ env n. some n)
    walk_property (prop_var name t) l =
        walk t l >>= exit_property name (λ env. env) (λ env n. make_prop_var name n)
    walk_property (prop_solvable name t) l =
        walk t l
        >>= exit_property name (λ env. env) (λ env n. some (make_prop_solvable (named env name) n))
    walk_property (prop_unknown name) l =
        some (push (unknown (some (named l.env name))) (push (identifier (named l.env name)) l))
    walk_property (prop_func name t) l =
        walk t (with_env (enter_scope name) l) >>= exit_property name leave_scope (λ env n. some n)

    pub walk_properties : Properties → Listener F → Option (Listener F)
    walk_properties no_properties l = some l
    walk_properties (property p ps) l = walk_property p l >>= walk_properties ps
