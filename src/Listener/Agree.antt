-- ===== src/Listener/Agree.antt =====
-- The walk over a parse tree does what the tree stands for: it pushes the node that the tree becomes,
-- and panics where the tree stands for nothing.
use fault.Common.{suc, ap, refl, ◌≡◌, length, [], ◌∷◌, none, some}
use fault.Common.Text.{text_key, split}
use fault.Common.Fallible.{Post-some, Post-bind}
use fault.Listener.Node.{
  identifier, this, clock, nil, string, unknown, empty_prefix, built_in, block, absent, no_nodes,
}
use fault.Listener.Build.{
  Floats, named, make_param_call, make_instance, make_integer, make_bool, make_float, make_negative,
  make_lr_expr, make_builtin_infix, make_prefix, make_inc_dec, make_fault_assign, make_misc_assign,
  make_access_history, make_natural, make_uncertain, make_unknown, make_statement_list,
  make_function,
}
use fault.Listener.Blocks.{
  make_if, make_if_else, make_parallel, make_expression_statement, make_advance, make_run_init,
  make_run_init_call, make_run_block, make_state_block,
}
use fault.Listener.Declarations.{
  make_prop_var, make_prop_solvable, make_struct_decl, make_global_decl, make_assertion,
  make_counted, make_stage_invariant, make_for, make_init,
}
use fault.Listener.Trees.{
  Tree, op_name, op_param, op_this, op_clock, op_instance, nil_tree, integer_tree, negative_tree,
  float_tree, string_tree, bool_tree, access_history, natural_tree, uncertain_tree, unknown_tree,
  unknown_named, no_prefix, prefix_tree, lr_expr, inc_dec, fault_assign, misc_assign,
  statement_list, empty_block, function_lit, if_stmt, if_else_stmt, step_expr, step_statement,
  run_init, run_init_call, run_block, state_block, stay, advance, builtin_infix, init_decl,
  struct_tree, struct_decl, component_decl, global_decl, assertion_tree, counted_tree,
  stage_invariant, for_tree, Trees, no_trees, tree, Property, prop_value, prop_var, prop_solvable,
  prop_unknown, prop_func, Properties, no_properties, property,
}
use fault.Listener.Stack.{
  kept, enter_scope, leave_scope, enter_struct, make_struct, make_component_decl,
}
use fault.Listener.Denote.{denote, denote_all, denote_property, denote_properties}
use fault.Listener.Runs.{
  pushed, pushed_all, pushed_pair, pushed_pairs, Counted, exit0_lem, exit1_lem, exit2_lem,
  exit3_lem, exit_many_lem, exit_pairs_lem,
}
use fault.Listener.Children.{exit_property_lem, access_lem, all_lem, pairs_lem}
use fault.Listener.Trees.{count, count_properties}
use fault.Listener.Stack.{Listener, leave_scope, with_env, push}
use fault.Listener.Walk.{walk, walk_all, walk_property, walk_properties}

module _ {F : Type 0} (go : Floats F) where
  count-denote_all : (ts : Trees) → Counted (count ts) (denote_all go ts)
  unfolding denote_all
  count-denote_all no_trees env = Post-some (λ r. length r.0 ≡ 0) ([], env) refl
  count-denote_all (tree t ts) env = Post-bind (denote go t env) λ r p.
      Post-bind (denote_all go ts r.1) λ s q.
        Post-some (λ r. length r.0 ≡ suc (count ts)) (r.0 ∷ s.0, s.1)
          (ap suc (count-denote_all ts r.1 s q))

  count-denote_properties :
      (ps : Properties) → Counted (count_properties ps) (denote_properties go ps)
  unfolding denote_properties
  count-denote_properties no_properties env = Post-some (λ r. length r.0 ≡ 0) ([], env) refl
  count-denote_properties (property p ps) env = Post-bind (denote_property go p env) λ r e.
      Post-bind (denote_properties go ps r.1) λ s q.
        Post-some (λ r. length r.0 ≡ suc (count_properties ps)) (r.0 ∷ s.0, s.1)
          (ap suc (count-denote_properties ps r.1 s q))

  mutual
    unfolding walk denote walk_all denote_all walk_property denote_property walk_properties
        denote_properties push

    agree : (t : Tree) (l : Listener F) → walk go t l ≡ pushed (denote go t l.env) l.stack
    agree (op_name t) l = exit0_lem (λ env. kept env (some (identifier (named env t)))) l
    agree (op_param parts) l = exit0_lem (λ env. kept env (make_param_call env parts)) l
    agree op_this l = exit0_lem (λ env. kept env (some (this (split b'.' env.scope)))) l
    agree op_clock l = exit0_lem (λ env. kept env (some (clock env.scope))) l
    agree (op_instance ids) l = exit0_lem (λ env. kept env (make_instance env ids)) l
    agree nil_tree l = exit0_lem (λ env. kept env (some nil)) l
    agree (integer_tree t) l = exit0_lem (λ env. kept env (make_integer t)) l
    agree (float_tree t) l = exit0_lem (λ env. kept env (make_float go t)) l
    agree (string_tree t) l = exit0_lem (λ env. kept env (some (string t))) l
    agree (bool_tree t) l = exit0_lem (λ env. kept env (make_bool t)) l
    agree unknown_tree l = exit0_lem (λ env. kept env (some (unknown none))) l
    agree no_prefix l = exit0_lem (λ env. kept env (some empty_prefix)) l
    agree empty_block l = exit0_lem (λ env. kept env (some (block no_nodes))) l
    agree (run_init ids) l = exit0_lem (λ env. kept env (make_run_init env ids)) l
    agree (stay f) l = exit0_lem (λ env. kept env (some (built_in f absent))) l
    agree (negative_tree t) l =
        exit1_lem (λ env a. kept env (make_negative go a)) (walk go t) (denote go t) (agree t) l
    agree (natural_tree t) l =
        exit1_lem (λ env a. kept env (make_natural a)) (walk go t) (denote go t) (agree t) l
    agree (unknown_named t) l =
        exit1_lem (λ env a. kept env (make_unknown a)) (walk go t) (denote go t) (agree t) l
    agree (prefix_tree op t) l =
        exit1_lem (λ env a. kept env (make_prefix op a)) (walk go t) (denote go t) (agree t) l
    agree (inc_dec plus t) l =
        exit1_lem (λ env a. kept env (make_inc_dec plus a)) (walk go t) (denote go t) (agree t) l
    agree (function_lit t) l =
        exit1_lem (λ env a. kept env (make_function a)) (walk go t) (denote go t) (agree t) l
    agree (step_statement t) l =
        exit1_lem (λ env a. kept env (make_expression_statement a)) (walk go t) (denote go t)
          (agree t) l
    agree (run_init_call name t) l =
        exit1_lem (λ env a. kept env (make_run_init_call env name a)) (walk go t) (denote go t)
          (agree t) l
    agree (advance t) l =
        exit1_lem (λ env a. kept env (make_advance a)) (walk go t) (denote go t) (agree t) l
    agree (init_decl t) l =
        exit1_lem (λ env a. kept env (make_init a)) (walk go t) (denote go t) (agree t) l
    agree (global_decl name t) l =
        exit1_lem (λ env a. kept env (make_global_decl name env a)) (walk go t) (denote go t)
          (agree t) l
    agree (assertion_tree assume temporal t) l =
        exit1_lem (λ env a. kept env (make_assertion assume temporal a)) (walk go t) (denote go t)
          (agree t) l
    agree (uncertain_tree t u) l =
        exit2_lem (λ env a b. kept env (make_uncertain go a b)) (walk go t) (walk go u)
          (denote go t) (denote go u) (agree t) (agree u) l
    agree (lr_expr op t u) l =
        exit2_lem (λ env a b. kept env (make_lr_expr op a b)) (walk go t) (walk go u) (denote go t)
          (denote go u) (agree t) (agree u) l
    agree (fault_assign op t u) l =
        exit2_lem (λ env a b. kept env (make_fault_assign op a b)) (walk go t) (walk go u)
          (denote go t) (denote go u) (agree t) (agree u) l
    agree (misc_assign op t u) l =
        exit2_lem (λ env a b. make_misc_assign op env a b) (walk go t) (walk go u) (denote go t)
          (denote go u) (agree t) (agree u) l
    agree (if_stmt t u) l =
        exit2_lem (λ env a b. kept env (make_if a b)) (walk go t) (walk go u) (denote go t)
          (denote go u) (agree t) (agree u) l
    agree (builtin_infix op t u) l =
        exit2_lem (λ env a b. kept env (make_builtin_infix op a b)) (walk go t) (walk go u)
          (denote go t) (denote go u) (agree t) (agree u) l
    agree (counted_tree assume raw t u) l =
        exit2_lem (λ env a b. kept env (make_counted assume raw a b)) (walk go t) (walk go u)
          (denote go t) (denote go u) (agree t) (agree u) l
    agree (stage_invariant t u) l =
        exit2_lem (λ env a b. kept env (make_stage_invariant a b)) (walk go t) (walk go u)
          (denote go t) (denote go u) (agree t) (agree u) l
    agree (for_tree t u) l =
        exit2_lem (λ env a b. kept env (make_for a b)) (walk go t) (walk go u) (denote go t)
          (denote go u) (agree t) (agree u) l
    agree (statement_list ts) l =
        exit_many_lem (count ts) (λ env ns. kept env (some (make_statement_list ns)))
          (walk_all go ts) (denote_all go ts) (agree_all ts) (count-denote_all ts) l
    agree (step_expr ts) l =
        exit_many_lem (count ts) (λ env ns. kept env (make_parallel ns)) (walk_all go ts)
          (denote_all go ts) (agree_all ts) (count-denote_all ts) l
    agree (run_block ts) l =
        exit_many_lem (count ts) (λ env ns. kept env (make_run_block ns)) (walk_all go ts)
          (denote_all go ts) (agree_all ts) (count-denote_all ts) l
    agree (state_block ts) l =
        exit_many_lem (count ts) (λ env ns. kept env (make_state_block ns)) (walk_all go ts)
          (denote_all go ts) (agree_all ts) (count-denote_all ts) l
    agree (access_history t ts) l =
        access_lem (count ts) (λ env a is. kept env (make_access_history a is)) (walk go t)
          (walk_all go ts) (denote go t) (denote_all go ts) (agree t) (agree_all ts)
          (count-denote_all ts) l
    agree (if_else_stmt t u v) l =
        exit3_lem (λ env a b c. kept env (make_if_else a b c)) (walk go t) (walk go u) (walk go v)
          (denote go t) (denote go u) (denote go v) (agree t) (agree u) (agree v) l
    agree (struct_tree kind ps) l =
        exit_pairs_lem (count_properties ps) (make_struct kind) (walk_properties go ps)
          (denote_properties go ps) (agree_properties ps) (count-denote_properties ps) l
    agree (struct_decl name t) l =
        exit1_lem (make_struct_decl name) (λ l. walk go t (with_env (enter_struct name) l))
          (λ env. denote go t (enter_struct name env))
          (λ l. agree t (with_env (enter_struct name) l)) l
    agree (component_decl name ps) l =
        exit_pairs_lem (count_properties ps) (make_component_decl name) (walk_properties go ps)
          (denote_properties go ps) (agree_properties ps) (count-denote_properties ps) l

    agree_all :
        (ts : Trees) (l : Listener F)
        → walk_all go ts l ≡ pushed_all (denote_all go ts l.env) l.stack
    agree_all no_trees l = refl
    agree_all (tree t ts) l =
        all_lem (walk go t) (walk_all go ts) (denote go t) (denote_all go ts) (agree t)
          (agree_all ts) l

    agree_property :
        (p : Property) (l : Listener F)
        → walk_property go p l ≡ pushed_pair (denote_property go p l.env) l.stack
    agree_property (prop_value name t) l =
        exit_property_lem name (λ env. env) (λ env n. some n) (walk go t) (denote go t) (λ env. env)
          (agree t) l
    agree_property (prop_var name t) l =
        exit_property_lem name (λ env. env) (λ env n. make_prop_var name n) (walk go t)
          (denote go t) (λ env. env) (agree t) l
    agree_property (prop_solvable name t) l =
        exit_property_lem name (λ env. env) (λ env n. some (make_prop_solvable (named env name) n))
          (walk go t) (denote go t) (λ env. env) (agree t) l
    agree_property (prop_unknown name) l = refl
    agree_property (prop_func name t) l =
        exit_property_lem name leave_scope (λ env n. some n) (walk go t) (denote go t)
          (enter_scope name) (agree t) l

    agree_properties :
        (ps : Properties) (l : Listener F)
        → walk_properties go ps l ≡ pushed_pairs (denote_properties go ps l.env) l.stack
    agree_properties no_properties l = refl
    agree_properties (property p ps) l =
        pairs_lem (walk_property go p) (walk_properties go ps) (denote_property go p)
          (denote_properties go ps) (agree_property p) (agree_properties ps) l

  -- The walk over a parse tree pushes the node that the tree stands for onto whatever the stack holds,
  -- leaves the fields of the listener as the tree says, and panics exactly if the tree stands for
  -- nothing. Both make each single node by the same builder.
  pub walk-denote : (t : Tree) (l : Listener F) → walk go t l ≡ pushed (denote go t l.env) l.stack
  walk-denote t l = agree t l
