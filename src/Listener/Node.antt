-- ===== src/Listener/Node.antt =====
-- The nodes of ast/ast.go that the listener builds, without tokens and inferred types.
use fault.Common.{Bool, true, false, List, [], ◌∷◌, Option}
use fault.Common.Text.{Text}
use fault.Common.Int.{ℤ}

-- The name of an `Identifier`, its Spec and its Value.
pub record Ident : Type 0 where
  pub spec : Text
  pub value : Text

-- F is float64. The pointers to a node that are nil are of the type `OptNode`.
mutual
  pub data Node (F : Type 0) : Type 0 where
    identifier : Ident → Node F
    parameter_call : (spec scope : Text) (value : List Text) → Node F
    this : List Text → Node F
    clock : Text → Node F
    nil : Node F
    integer : ℤ → Node F
    float : F → Node F
    string : Text → Node F
    boolean : Bool → Node F
    natural : ℤ → Node F
    uncertain : (mean sigma : F) → Node F
    unknown : Option Ident → Node F
    instance_of : Ident → (name : Text) (order : List Text) → Node F
    empty_prefix : Node F
    prefix : (operator : Text) (right : Node F) → Node F
    infix_of : (operator : Text) (left right : Node F) → Node F
    index_of : (left index : Node F) → Node F
    built_in : (function : Text) (to_state : OptNode F) → Node F
    if_of : (condition : Node F) (consequence : Nodes F) (alternative elif : OptNode F) → Node F
    function : (body : Nodes F) → Node F
    block : Nodes F → Node F
    parallel : Nodes F → Node F
    expression_statement : Node F → Node F
    init_of : Node F → Node F
    invariant : (operator : Text) (left right : Node F) → Node F
    assertion :
        (assume : Bool) (constraint : OptNode F) (temporal temporal_filter : Text) (temporal_n : ℤ)
        → Node F
    constant_statement : Ident → Node F → Node F
    definition : Ident → Node F → Node F
    stock : Pairs F → Node F
    flow : Pairs F → Node F
    component : Pairs F → Node F
    for_of : (rounds : ℤ) (body : Nodes F) → Node F

  pub data Nodes (F : Type 0) : Type 0 where
    no_nodes : Nodes F
    cons : Node F → Nodes F → Nodes F

  pub data OptNode (F : Type 0) : Type 0 where
    absent : OptNode F
    present : Node F → OptNode F

  -- The properties of a struct in their order, the list `Order` and the map `Pairs` in one.
  pub data Pairs (F : Type 0) : Type 0 where
    no_pairs : Pairs F
    pair : Ident → Node F → Pairs F → Pairs F

module _ {F : Type 0} where
  abbrev pub nodes : List (Node F) → Nodes F
  nodes [] = no_nodes
  nodes (n ∷ ns) = cons n (nodes ns)

  abbrev pub append : Nodes F → Nodes F → Nodes F
  append no_nodes ms = ms
  append (cons n ns) ms = cons n (append ns ms)

  -- The methods `statementNode`, `expressionNode` and `operandNode`.
  unfoldable pub is_statement : Node F → Bool
  is_statement (block ns) = true
  is_statement (parallel ns) = true
  is_statement (expression_statement n) = true
  is_statement (assertion a c t f k) = true
  is_statement (constant_statement i n) = true
  is_statement (definition i n) = true
  is_statement (for_of r ns) = true
  is_statement _ = false

  unfoldable pub is_expression : Node F → Bool
  is_expression (block ns) = false
  is_expression (parallel ns) = false
  is_expression (expression_statement n) = false
  is_expression (assertion a c t f k) = false
  is_expression (constant_statement i n) = false
  is_expression (definition i n) = false
  is_expression (for_of r ns) = false
  is_expression _ = true

  unfoldable pub is_operand : Node F → Bool
  is_operand (identifier i) = true
  is_operand (parameter_call spec scope value) = true
  is_operand (this value) = true
  is_operand _ = false
