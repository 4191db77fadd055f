-- ===== src/Listener/Denote.antt =====
-- What a parse tree stands for, tree by tree and with no stack: the node that it becomes, and the
-- fields of the listener after it.
use fault.Common.{List, [], ◌∷◌, Option, none, some}
use fault.Common.Text.{Text, text_key, split}
use fault.Common.Fallible.{◌>>=◌}
use fault.Listener.Node.{
  Node, identifier, this, clock, nil, string, unknown, empty_prefix, built_in, block, absent,
  no_nodes,
}
use fault.Listener.Build.{
  Env, Floats, named, make_param_call, make_instance, make_integer, make_bool, make_float,
  make_negative, make_lr_expr, make_builtin_infix, make_prefix, make_inc_dec, make_fault_assign,
  make_misc_assign, make_access_history, make_natural, make_uncertain, make_unknown,
  make_statement_list, make_function,
}
use fault.Listener.Blocks.{
  make_if, make_if_else, make_parallel, make_expression_statement, make_advance, make_run_init,
  make_run_init_call, make_run_block, make_state_block,
}
use fault.Listener.Declarations.{
  make_prop_var, make_prop_solvable, make_struct_decl, make_global_decl, make_assertion,
  make_counted, make_stage_invariant, make_for, make_init,
}
use fault.Listener.Trees.{
  Tree, op_name, op_param, op_this, op_clock, op_instance, nil_tree, integer_tree, negative_tree,
  float_tree, string_tree, bool_tree, access_history, natural_tree, uncertain_tree, unknown_tree,
  unknown_named, no_prefix, prefix_tree, lr_expr, inc_dec, fault_assign, misc_assign,
  statement_list, empty_block, function_lit, if_stmt, if_else_stmt, step_expr, step_statement,
  run_init, run_init_call, run_block, state_block, stay, advance, builtin_infix, init_decl,
  struct_tree, struct_decl, component_decl, global_decl, assertion_tree, counted_tree,
  stage_invariant, for_tree, Trees, no_trees, tree, Property, prop_value, prop_var, prop_solvable,
  prop_unknown, prop_func, Properties, no_properties, property,
}
use fault.Listener.Stack.{
  kept, enter_scope, leave_scope, enter_struct, make_struct, make_component_decl,
}

module _ {F : Type 0} where
  abbrev pub give1 :
      (Env F → Node F → Option (Node F × Env F)) → Node F × Env F → Option (Node F × Env F)
  give1 make r = make r.1 r.0

  abbrev pub give2 :
      (Env F → Node F → Node F → Option (Node F × Env F))
      → Node F
      → Node F × Env F
      → Option (Node F × Env F)
  give2 make a r = make r.1 a r.0

  abbrev pub give_many {ℓ} :
      {A : Type ℓ} → (Env F → A → Option (Node F × Env F)) → A × Env F → Option (Node F × Env F)
  give_many make r = make r.1 r.0

  -- A property is its identifier and its value.
  abbrev pub give_property :
      Text
      → (Env F → Env F)
      → (Env F → Node F → Option (Node F))
      → Node F × Env F
      → Option ((Node F × Node F) × Env F)
  give_property name leave make r =
      make r.1 r.0 >>= λ n. some ((identifier (named r.1 name), n), leave r.1)

module _ {F : Type 0} (go : Floats F) where
  unfoldable mutual
    pub denote : Tree → Env F → Option (Node F × Env F)
    denote (op_name t) env = kept env (some (identifier (named env t)))
    denote (op_param parts) env = kept env (make_param_call env parts)
    denote op_this env = kept env (some (this (split b'.' env.scope)))
    denote op_clock env = kept env (some (clock env.scope))
    denote (op_instance ids) env = kept env (make_instance env ids)
    denote nil_tree env = kept env (some nil)
    denote (integer_tree t) env = kept env (make_integer t)
    denote (float_tree t) env = kept env (make_float go t)
    denote (string_tree t) env = kept env (some (string t))
    denote (bool_tree t) env = kept env (make_bool t)
    denote unknown_tree env = kept env (some (unknown none))
    denote no_prefix env = kept env (some empty_prefix)
    denote empty_block env = kept env (some (block no_nodes))
    denote (run_init ids) env = kept env (make_run_init env ids)
    denote (stay f) env = kept env (some (built_in f absent))
    denote (negative_tree t) env =
        denote t env >>= λ r. give1 (λ env a. kept env (make_negative go a)) r
    denote (natural_tree t) env = denote t env >>= λ r. give1 (λ env a. kept env (make_natural a)) r
    denote (unknown_named t) env =
        denote t env >>= λ r. give1 (λ env a. kept env (make_unknown a)) r
    denote (prefix_tree op t) env =
        denote t env >>= λ r. give1 (λ env a. kept env (make_prefix op a)) r
    denote (inc_dec plus t) env =
        denote t env >>= λ r. give1 (λ env a. kept env (make_inc_dec plus a)) r
    denote (function_lit t) env =
        denote t env >>= λ r. give1 (λ env a. kept env (make_function a)) r
    denote (step_statement t) env =
        denote t env >>= λ r. give1 (λ env a. kept env (make_expression_statement a)) r
    denote (run_init_call name t) env =
        denote t env >>= λ r. give1 (λ env a. kept env (make_run_init_call env name a)) r
    denote (advance t) env = denote t env >>= λ r. give1 (λ env a. kept env (make_advance a)) r
    denote (init_decl t) env = denote t env >>= λ r. give1 (λ env a. kept env (make_init a)) r
    denote (global_decl name t) env =
        denote t env >>= λ r. give1 (λ env a. kept env (make_global_decl name env a)) r
    denote (assertion_tree assume temporal t) env =
        denote t env >>= λ r. give1 (λ env a. kept env (make_assertion assume temporal a)) r
    denote (uncertain_tree t u) env = denote t env >>= λ r.
        denote u r.1 >>= λ s. give2 (λ env a b. kept env (make_uncertain go a b)) r.0 s
    denote (lr_expr op t u) env = denote t env >>= λ r.
        denote u r.1 >>= λ s. give2 (λ env a b. kept env (make_lr_expr op a b)) r.0 s
    denote (fault_assign op t u) env = denote t env >>= λ r.
        denote u r.1 >>= λ s. give2 (λ env a b. kept env (make_fault_assign op a b)) r.0 s
    denote (misc_assign op t u) env = denote t env >>= λ r.
        denote u r.1 >>= λ s. give2 (λ env a b. make_misc_assign op env a b) r.0 s
    denote (if_stmt t u) env =
        denote t env >>= λ r. denote u r.1 >>= λ s. give2 (λ env a b. kept env (make_if a b)) r.0 s
    denote (builtin_infix op t u) env = denote t env >>= λ r.
        denote u r.1 >>= λ s. give2 (λ env a b. kept env (make_builtin_infix op a b)) r.0 s
    denote (counted_tree assume raw t u) env = denote t env >>= λ r.
        denote u r.1 >>= λ s. give2 (λ env a b. kept env (make_counted assume raw a b)) r.0 s
    denote (stage_invariant t u) env = denote t env >>= λ r.
        denote u r.1 >>= λ s. give2 (λ env a b. kept env (make_stage_invariant a b)) r.0 s
    denote (for_tree t u) env =
        denote t env >>= λ r. denote u r.1 >>= λ s. give2 (λ env a b. kept env (make_for a b)) r.0 s
    denote (statement_list ts) env =
        denote_all ts env >>= λ r. give_many (λ env ns. kept env (some (make_statement_list ns))) r
    denote (step_expr ts) env =
        denote_all ts env >>= λ r. give_many (λ env ns. kept env (make_parallel ns)) r
    denote (run_block ts) env =
        denote_all ts env >>= λ r. give_many (λ env ns. kept env (make_run_block ns)) r
    denote (state_block ts) env =
        denote_all ts env >>= λ r. give_many (λ env ns. kept env (make_state_block ns)) r
    denote (access_history t ts) env = do
      r ← denote t env
      s ← denote_all ts r.1
      kept s.1 (make_access_history r.0 s.0)
    denote (if_else_stmt t u v) env = do
      r ← denote t env
      s ← denote u r.1
      w ← denote v s.1
      kept w.1 (make_if_else r.0 s.0 w.0)
    denote (struct_tree kind ps) env =
        denote_properties ps env >>= λ r. give_many (make_struct kind) r
    denote (struct_decl name t) env =
        denote t (enter_struct name env) >>= λ r. give1 (make_struct_decl name) r
    denote (component_decl name ps) env =
        denote_properties ps env >>= λ r. give_many (make_component_decl name) r

    pub denote_all : Trees → Env F → Option (List (Node F) × Env F)
    denote_all no_trees env = some ([], env)
    denote_all (tree t ts) env = do r ← denote t env; s ← denote_all ts r.1; some (r.0 ∷ s.0, s.1)

    pub denote_property : Property → Env F → Option ((Node F × Node F) × Env F)
    denote_property (prop_value name t) env =
        denote t env >>= λ r. give_property name (λ env. env) (λ env n. some n) r
    denote_property (prop_var name t) env =
        denote t env >>= λ r. give_property name (λ env. env) (λ env n. make_prop_var name n) r
    denote_property (prop_solvable name t) env = denote t env >>= λ r.
        give_property name (λ env. env) (λ env n. some (make_prop_solvable (named env name) n)) r
    denote_property (prop_unknown name) env =
        some ((identifier (named env name), unknown (some (named env name))), env)
    denote_property (prop_func name t) env =
        denote t (enter_scope name env) >>= λ r. give_property name leave_scope (λ env n. some n) r

    pub denote_properties : Properties → Env F → Option (List (Node F × Node F) × Env F)
    denote_properties no_properties env = some ([], env)
    denote_properties (property p ps) env = do
      r ← denote_property p env
      s ← denote_properties ps r.1
      some (r.0 ∷ s.0, s.1)
