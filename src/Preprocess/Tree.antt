-- ===== src/Preprocess/Tree.antt =====
-- The nodes that preprocess/preprocess.go walks, with what ast/ast.go does for `RawId`, `SetId` and
-- `String` of them.
use fault.Common.{ℕ, Bool, List, [], ◌∷◌, ◌++◌, Option, none, some, if◌then◌else◌, same}
use fault.Common.Text.{Text, text, text_key, join}
use fault.Record.{Struct}

-- `ast.Instance` but for its id and the walk's part of it.
pub record Instance : Type 0 where
  pub value_id : List Text
  pub value_spec : Text
  pub value : Text
  pub name : Text
  pub order : List Text
  pub complex : Bool
  pub complex_scope : Text

-- `ast.StructInstance` but for its id and its properties.
pub record StructInstance : Type 0 where
  pub spec : Text
  pub name : Text
  pub parent : List Text
  pub order : List Text
  pub complex_scope : Text

pub data StructKind : Type 0 where
  stock_kind : StructKind
  flow_kind : StructKind
  component_kind : StructKind

-- A node with an id has it first. `missing` is a nil interface. `value` stands for the literals, which
-- the walk does not change, with what `String` gives; `plain` for `now` and `nil`, which have no id.
-- `if_at` is a pointer to an if, which the walk shares and writes to. A pair has its name, the spec of
-- the name's identifier, and an id: the identifier's in a literal, the property's in an instance.
mutual
  pub data Node : Type 0 where
    missing : Node
    plain : Text → Node
    value : List Text → Text → Node
    this_of : List Text → List Text → Node
    identifier : List Text → (spec value : Text) → Node
    unknown : List Text → (name : Option Text) → Node
    parameter_call : List Text → List Text → Node
    built_in : List Text → (function from_state : Text) → (to_state : Node) → Node
    infix_of : Text → (left right : Node) → Node
    prefix : List Text → Text → Node → Node
    index_of : List Text → Node → (index : Text) → Node
    invariant : Text → (left right : Node) → Node
    if_at : ℕ → Node
    function : List Text → (body : Nodes) → Node
    block : Nodes → Node
    expression : Node → Node
    parallel : Nodes → Node
    instance_of : List Text → Instance → Node
    struct_instance : List Text → StructInstance → Pairs → Node
    struct_of : StructKind → List Text → (order : List Text) → Pairs → Node
    spec_tree : Nodes → Node
    spec_decl : (name : Text) → Node
    sys_decl : (name : Text) → Node
    import_of : Nodes → Node
    constant_of : List Text → (spec name : Text) → Node → Node
    def_of : (global : Bool) → List Text → (spec name : Text) → Node → Node
    assertion : (constraint : Node) → Node
    for_of : (body : Nodes) → Node
    start : Node

  pub data Nodes : Type 0 where
    no_nodes : Nodes
    node : Node → Nodes → Nodes

  pub data Pairs : Type 0 where
    no_pairs : Pairs
    pair : Text → (spec : Text) → List Text → Node → Pairs → Pairs

-- `ast.IfExpression`; the address of the next if of an `else if`.
pub record IfNode : Type 0 where
  pub condition : Node
  pub consequence : Nodes
  pub alternative : Option Nodes
  pub elif : Option ℕ

-- `n.(ast.Nameable).RawId()`; `none` is the panic on a node that has no id.
unfoldable pub raw_id : Node → Option (List Text)
raw_id (value id s) = some id
raw_id (this_of id v) = some id
raw_id (identifier id sp v) = some id
raw_id (unknown id n) = some id
raw_id (parameter_call id v) = some id
raw_id (built_in id f s t) = some id
raw_id (prefix id op r) = some id
raw_id (index_of id l i) = some id
raw_id (function id b) = some id
raw_id (instance_of id i) = some id
raw_id (struct_instance id s ps) = some id
raw_id (struct_of k id o ps) = some id
raw_id n = none

-- `n.(ast.Nameable).SetId(id)`
unfoldable pub set_id : List Text → Node → Option Node
set_id id (value old s) = some (value id s)
set_id id (this_of old v) = some (this_of id v)
set_id id (identifier old sp v) = some (identifier id sp v)
set_id id (unknown old n) = some (unknown id n)
set_id id (parameter_call old v) = some (parameter_call id v)
set_id id (built_in old f s t) = some (built_in id f s t)
set_id id (prefix old op r) = some (prefix id op r)
set_id id (index_of old l i) = some (index_of id l i)
set_id id (function old b) = some (function id b)
set_id id (instance_of old i) = some (instance_of id i)
set_id id (struct_instance old s ps) = some (struct_instance id s ps)
set_id id (struct_of k old o ps) = some (struct_of k id o ps)
set_id id n = none

shown_name : Option Text → Text
shown_name none = []
shown_name (some n) = n

-- `String` of a node that a condition may be, and nothing of another.
unfoldable pub shown : Node → Text
unfolding shown_name join
shown (plain s) = s
shown (value id s) = s
shown (this_of id v) = join b'.' v
shown (identifier id sp v) = v
shown (unknown id n) = text "unknown(" ++ shown_name n ++ text ")"
shown (parameter_call id v) = join b'.' v
shown (built_in id f s missing) = f ++ text "()"
shown (built_in id f s t) = f ++ text "(" ++ shown t ++ text ")"
shown (infix_of op l r) = text "(" ++ shown l ++ text " " ++ op ++ text " " ++ shown r ++ text ")"
shown (prefix id op r) = op ++ shown r
shown (index_of id l i) = text "(" ++ shown l ++ text "[" ++ i ++ text "])"
shown n = []

-- `util.Preparse`, of names without space around them.
unfoldable pub preparse : Pairs → Struct Node
preparse no_pairs = []
preparse (pair k sp id v ps) = (k, v) ∷ preparse ps

-- `node.Pairs[GetPropertyIdent(k)]`: the spec and the id of the identifier; `none` is a nil one.
unfoldable pub property_ident : Text → Pairs → Option (Text × List Text)
property_ident k no_pairs = none
property_ident k (pair j sp id v ps) = if same j k then some (sp, id) else property_ident k ps

-- `node.Pairs[ident] = v` for the identifier of `k`, with its id.
unfoldable pub put_pair : Text → List Text → Node → Pairs → Pairs
put_pair k id v no_pairs = no_pairs
put_pair k id v (pair j sp old w ps) =
    if same j k then pair j sp id v ps else pair j sp old w (put_pair k id v ps)
