-- ===== src/Listener/Trees.antt =====
-- The parse trees that the listener of listener/listener.go walks over.
use fault.Common.{ℕ, suc, Bool, List}
use fault.Common.Text.{Text}

pub data StructKind : Type 0 where
  stock_kind : StructKind
  flow_kind : StructKind

-- A parse tree, by the alternatives of grammar/FaultParser.g4 that have an `Exit` method. A chain of
-- alternatives without one is left out, and so are the texts that no method reads. An assignment has
-- one expression on each side, and a conditional no statement before its condition: the methods do not
-- expect more.
mutual
  pub data Tree : Type 0 where
    op_name : Text → Tree
    op_param : (parts : List Text) → Tree
    op_this : Tree
    op_clock : Tree
    op_instance : List Text → Tree
    nil_tree : Tree
    integer_tree : Text → Tree
    negative_tree : Tree → Tree
    float_tree : Text → Tree
    string_tree : Text → Tree
    bool_tree : Text → Tree
    access_history : Tree → Trees → Tree
    natural_tree : Tree → Tree
    uncertain_tree : Tree → Tree → Tree
    unknown_tree : Tree
    unknown_named : Tree → Tree
    no_prefix : Tree
    prefix_tree : Text → Tree → Tree
    lr_expr : Text → Tree → Tree → Tree
    inc_dec : (plus : Bool) → Tree → Tree
    fault_assign : Text → Tree → Tree → Tree
    misc_assign : Text → Tree → Tree → Tree
    statement_list : Trees → Tree
    empty_block : Tree
    function_lit : Tree → Tree
    if_stmt : Tree → Tree → Tree
    if_else_stmt : Tree → Tree → Tree → Tree
    step_expr : Trees → Tree
    step_statement : Tree → Tree
    run_init : List Text → Tree
    run_init_call : Text → Tree → Tree
    run_block : Trees → Tree
    state_block : Trees → Tree
    stay : Text → Tree
    advance : Tree → Tree
    builtin_infix : Text → Tree → Tree → Tree
    init_decl : Tree → Tree
    struct_tree : StructKind → Properties → Tree
    struct_decl : Text → Tree → Tree
    component_decl : Text → Properties → Tree
    global_decl : Text → Tree → Tree
    assertion_tree : (assume : Bool) → Text → Tree → Tree
    counted_tree : (assume : Bool) → Text → Tree → Tree → Tree
    stage_invariant : Tree → Tree → Tree
    for_tree : Tree → Tree → Tree

  pub data Trees : Type 0 where
    no_trees : Trees
    tree : Tree → Trees → Trees

  pub data Property : Type 0 where
    prop_value : Text → Tree → Property
    prop_var : Text → Tree → Property
    prop_solvable : Text → Tree → Property
    prop_unknown : Text → Property
    prop_func : Text → Tree → Property

  pub data Properties : Type 0 where
    no_properties : Properties
    property : Property → Properties → Properties

abbrev pub count : Trees → ℕ
count no_trees = 0
count (tree t ts) = suc (count ts)

abbrev pub count_properties : Properties → ℕ
count_properties no_properties = 0
count_properties (property p ps) = suc (count_properties ps)
