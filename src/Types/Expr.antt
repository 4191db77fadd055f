-- ===== src/Types/Expr.antt =====
-- The nodes of the syntax tree that the type checker reads, with the field `InferredType`.
use fault.Common.{Bool, true, false, Option, none, some, List, []}
use fault.Common.Text.{Text, text, join}
use fault.Types.Ty.{Ty}

pub data StructKind : Type 0 where
  stock_kind : StructKind
  flow_kind : StructKind
  component_kind : StructKind

-- The parts of a node that the checker does not read are left out, such as the value of an integer.
-- F is float64. `missing` is a nil interface. A call and an identifier have the id of `RawId` in front
-- of what the source calls them, and an identifier its spec before that. A built-in has what `String` gives.
mutual
  pub data Expr (F : Type 0) : Type 0 where
    missing : Expr F
    integer : Option Ty → Expr F
    float : Option Ty → F → Expr F
    boolean : Option Ty → Expr F
    string : Option Ty → Expr F
    natural : Option Ty → Expr F
    uncertain : Option Ty → (mean sigma : F) → Expr F
    unknown : Option Ty → Expr F
    nil : Option Ty → Expr F
    this : Option Ty → Expr F
    clock : Option Ty → Expr F
    built_in : Text → Expr F
    identifier : Option Ty → (spec : Text) → (raw_id : List Text) → Text → Expr F
    parameter_call : Option Ty → (raw_id : List Text) → List Text → Expr F
    index_of : Option Ty → Expr F → Expr F
    infix_of : Option Ty → (assign : Bool) → Text → (left right : Expr F) → Expr F
    invariant : Option Ty → Text → (left right : Expr F) → Expr F
    prefix : Option Ty → Text → Expr F → Expr F
    if_of : Option Ty → Expr F → Block F → OptBlock F → OptExpr F → Expr F
    function : Block F → Expr F
    struct_of : StructKind → Option Ty → (id : Text) → (raw_id : List Text) → Pairs F → Expr F

  pub data OptExpr (F : Type 0) : Type 0 where
    no_expr : OptExpr F
    an_expr : Expr F → OptExpr F

  pub data Exprs (F : Type 0) : Type 0 where
    no_exprs : Exprs F
    expr : Expr F → Exprs F → Exprs F

  -- An expression as a statement, functions in parallel, and a statement that the checker passes by.
  pub data Stmt (F : Type 0) : Type 0 where
    expression : Option Ty → Expr F → Stmt F
    parallel : Option Ty → Exprs F → Stmt F
    passed : Stmt F

  pub data Stmts (F : Type 0) : Type 0 where
    no_stmts : Stmts F
    stmt : Stmt F → Stmts F → Stmts F

  pub data Block (F : Type 0) : Type 0 where
    block : Option Ty → Stmts F → Block F

  pub data OptBlock (F : Type 0) : Type 0 where
    no_block : OptBlock F
    a_block : Block F → OptBlock F

  -- In the order of the field `Order`.
  pub data Pairs (F : Type 0) : Type 0 where
    no_pairs : Pairs F
    pair : Text → Expr F → Pairs F → Pairs F

module _ {F : Type 0} where
  -- `typeable` on the nodes above.
  abbrev pub typeable : Expr F → Option Ty
  typeable (integer t) = t
  typeable (float t f) = t
  typeable (boolean t) = t
  typeable (string t) = t
  typeable (natural t) = t
  typeable (uncertain t m s) = t
  typeable (unknown t) = t
  typeable (nil t) = t
  typeable (this t) = t
  typeable (clock t) = t
  typeable (identifier t sp id v) = t
  typeable (parameter_call t id v) = t
  typeable (index_of t e) = t
  typeable (infix_of t a op l r) = t
  typeable (invariant t op l r) = t
  typeable (prefix t op r) = t
  typeable (if_of t c b a e) = t
  typeable (struct_of stock_kind t id raw ps) = t
  typeable (struct_of flow_kind t id raw ps) = t
  typeable _ = none

  -- `isValue`
  abbrev pub is_value : Expr F → Bool
  is_value (integer t) = true
  is_value (boolean t) = true
  is_value (float t f) = true
  is_value (string t) = true
  is_value (identifier t sp id v) = true
  is_value (parameter_call t id v) = true
  is_value (built_in s) = true
  is_value (natural t) = true
  is_value (uncertain t m s) = true
  is_value (unknown t) = true
  is_value (nil t) = true
  is_value (struct_of k t id raw ps) = true
  is_value _ = false

  -- `node.SetType`, where it does not skip.
  abbrev pub set_type : Option Ty → Expr F → Expr F
  set_type t (integer u) = integer t
  set_type t (float u f) = float t f
  set_type t (boolean u) = boolean t
  set_type t (string u) = string t
  set_type t (natural u) = natural t
  set_type t (uncertain u m s) = uncertain t m s
  set_type t (unknown u) = unknown t
  set_type t (nil u) = nil t
  set_type t (this u) = this t
  set_type t (clock u) = clock t
  set_type t (identifier u sp id v) = identifier t sp id v
  set_type t (parameter_call u id v) = parameter_call t id v
  set_type t (infix_of u a op l r) = infix_of t a op l r
  set_type t (prefix u op r) = prefix t op r
  set_type t e = e

  -- `String`, of the nodes that `LookupType` looks up.
  abbrev pub shown : Expr F → Option Text
  shown (identifier t sp id v) = some v
  shown (parameter_call t id v) = some (join b'.' v)
  shown (built_in s) = some s
  shown _ = none

  abbrev pub is_nil : Expr F → Bool
  is_nil (nil t) = true
  is_nil _ = false

  -- `node.(ast.Expression)` of a nil interface is a panic.
  abbrev pub is_missing : Expr F → Bool
  is_missing missing = true
  is_missing _ = false

abbrev pub kind_name : StructKind → Text
kind_name stock_kind = text "STOCK"
kind_name flow_kind = text "FLOW"
kind_name component_kind = text "COMPONENT"

abbrev type_or : Option Ty → Text → Text
type_or (some t) name = t.name
type_or none name = name

module _ {F : Type 0} where
  -- The methods `Type`. `none` is a panic, as of a function without a statement.
  unfoldable mutual
    pub type_name : Expr F → Option Text
    type_name missing = none
    type_name (integer t) = some (type_or t (text "INT"))
    type_name (float t f) = some (type_or t (text "FLOAT"))
    type_name (boolean t) = some (type_or t (text "BOOL"))
    type_name (string t) = some (type_or t (text "STRING"))
    type_name (natural t) = some (type_or t (text "NATURAL"))
    type_name (uncertain t m s) = some (type_or t (text "UNCERTAIN"))
    type_name (unknown t) = some (type_or t (text "UNKNOWN"))
    type_name (nil t) = some (type_or t [])
    type_name (this t) = some (type_or t [])
    type_name (clock t) = some (type_or t [])
    type_name (built_in s) = some (text "BUILTIN")
    type_name (identifier t sp id v) = some (type_or t [])
    type_name (parameter_call t id v) = some (type_or t [])
    type_name (index_of t e) = type_name e
    type_name (infix_of (some t) a op l r) = some t.name
    type_name (infix_of none a op l r) = type_name r
    type_name (invariant t op l r) = type_name r
    type_name (prefix (some t) op r) = some t.name
    type_name (prefix none op r) = type_name r
    type_name (if_of t c b a e) = some []
    type_name (function (block t ss)) = last_type_name ss
    type_name (struct_of k t id raw ps) = some (kind_name k)

    last_type_name : Stmts F → Option Text
    last_type_name no_stmts = none
    last_type_name (stmt s no_stmts) = stmt_type_name s
    last_type_name (stmt s (stmt s' ss)) = last_type_name (stmt s' ss)

    stmt_type_name : Stmt F → Option Text
    stmt_type_name (expression t missing) = some []
    stmt_type_name (expression t e) = type_name e
    stmt_type_name _ = some []
