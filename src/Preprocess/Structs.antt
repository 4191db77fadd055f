-- ===== src/Preprocess/Structs.antt =====
-- The cases of `walk` in preprocess/preprocess.go for the literals of stocks, flows and components,
-- and for definitions and constants.
use fault.Common.{Bool, true, false, List, [], ◌∷◌, Option, none, some}
use fault.Common.Text.{Text, text, text_key}
use fault.Common.Dict.{lookup, insert}
use fault.Record.{
  StructType, stock, flow, component, other, SpecRecord, Struct, Result, ok, err, panic,
  underscored, add_stock, add_flow, add_component, add_constant, fetch, fetch_constant, index,
}
use fault.Record.Types.{update_struct}
use fault.Preprocess.Tree.{
  Node, missing, identifier, struct_of, constant_of, def_of, StructKind, stock_kind, flow_kind,
  component_kind, Pairs, raw_id, preparse, property_ident, put_pair,
}
use fault.Preprocess.Processor.{
  Processor, Cmd, panicked, failed, return, ◌>>=◌, ◌>>◌, or_panic, of_record, gets, modify,
  current_spec, spec_named, put_spec, set_scope, set_in_func, set_in_state, set_in_global,
}
use fault.Preprocess.Naming.{build_id_context, name_pairs}

abbrev kind_type : StructKind → StructType
kind_type stock_kind = stock
kind_type flow_kind = flow
kind_type component_kind = component

-- `AddStock`, `AddFlow` or `AddComponent`.
unfoldable pub add_struct : StructType → SpecRecord Node → Text → Struct Node → SpecRecord Node
unfolding add_stock add_flow add_component
add_struct stock r name s = add_stock r name s
add_struct flow r name s = add_flow r name s
add_struct component r name s = add_component r name s
add_struct ty r name s = r

-- `p.structTypes[spec]`; nil where it is missing.
unfoldable pub struct_types_of : Text → Processor → List (Text × StructType)
unfolding lookup
struct_types_of spec p = elim (lookup spec p.struct_types) [ some m ↦ m | none ↦ [] ]

-- `p.structTypes[spec][scope] = ty`, and the map made where it is nil.
set_struct_type : Text → Text → StructType → Cmd (Unit {0})
unfolding struct_types_of insert
set_struct_type spec scope ty = modify λ p. record p {
  struct_types = insert spec (insert scope ty (struct_types_of spec p)) p.struct_types;
}

-- The first pass over a literal; its id and its pairs.
first_pass : StructType → Text → Text → Pairs → Cmd (List Text × Pairs)
unfolding name_pairs add_struct preparse build_id_context index insert lookup
first_pass ty cur scope pairs = do
  named ← name_pairs pairs
  modify λ p. record p {
    local_idents = insert (underscored (cur ∷ scope ∷ [])) named.1 p.local_idents;
  }
  spec ← spec_named cur
  put_spec cur (index (add_struct ty spec scope (preparse named.0)) ty scope)
  pn ← gets (build_id_context spec.spec_name)
  return (pn, named.0)

-- The second pass: the struct must be there.
second_pass : StructType → Text → Text → List Text → Pairs → Cmd (List Text × Pairs)
unfolding fetch lookup
second_pass ty cur scope id pairs = do
  spec ← spec_named cur
  found ← of_record (fetch spec scope ty)
  return (id, pairs)

start_struct : Bool → StructType → Text → Text → List Text → Pairs → Cmd (List Text × Pairs)
unfolding first_pass second_pass
start_struct true ty cur scope id pairs = first_pass ty cur scope pairs
start_struct false ty cur scope id pairs = second_pass ty cur scope id pairs

abbrev or_missing : Option Node → Node
or_missing none = missing
or_missing (some n) = n

-- `properties[k]`; the map is the one in the spec, which a call may write to.
unfoldable pub property_of : StructType → Text → Text → Text → Cmd Node
unfolding fetch lookup
property_of ty cur name k = do
  spec ← spec_named cur
  s ← of_record (fetch spec name ty)
  return (or_missing (lookup k s))

abbrev pub id_of_identifier : Node → Cmd (List Text)
id_of_identifier (identifier id sp v) = return id
id_of_identifier n = λ p. panicked

abbrev not_missing : Node → Cmd (Unit {0})
not_missing missing = λ p. panicked
not_missing n = return tt

-- The identifier of a property of a stock or a flow first gets the id of the value.
name_property : StructKind → (Text × List Text) → Text → Node → Cmd Node
unfolding raw_id
name_property component_kind ident k pro = not_missing pro >> return (identifier ident.1 ident.0 k)
name_property kind ident k pro = or_panic (raw_id pro) >>= λ id. return (identifier id ident.0 k)

module _ (w : Node → Cmd Node) where
  -- One turn of the loop over `node.Order`.
  walk_property : StructKind → Text → Text → Text → Pairs → Cmd Pairs
  unfolding property_of property_ident name_property put_pair
  walk_property kind cur scope k pairs = do
    v ← property_of (kind_type kind) cur scope k
    set_in_func true
    elim kind [ component_kind ↦ set_in_state k | stock_kind ↦ return tt | flow_kind ↦ return tt ]
    pro ← w v
    set_in_func false
    ident ← or_panic (property_ident k pairs)
    node ← name_property kind ident k pro
    pron ← w node
    elim kind [ component_kind ↦ set_in_state [] | stock_kind ↦ return tt | flow_kind ↦ return tt ]
    id ← id_of_identifier pron
    return (put_pair k id pro pairs)

  walk_properties : StructKind → Text → Text → List Text → Pairs → Cmd Pairs
  unfolding walk_property
  walk_properties kind cur scope [] pairs = return pairs
  walk_properties kind cur scope (k ∷ ks) pairs =
      walk_property kind cur scope k pairs >>= λ pairs'. walk_properties kind cur scope ks pairs'

  -- `case *ast.StockLiteral`, `case *ast.FlowLiteral` and `case *ast.ComponentLiteral`
  unfoldable pub walk_struct : StructKind → List Text → List Text → Pairs → Cmd Node
  unfolding set_struct_type start_struct walk_properties preparse update_struct
  walk_struct kind id order pairs = do
    cur ← current_spec
    scope ← gets λ p. p.scope
    set_struct_type cur scope (kind_type kind)
    initial ← gets λ p. p.initial_pass
    started ← start_struct initial (kind_type kind) cur scope id pairs
    walked ← walk_properties kind cur scope order started.1
    spec ← spec_named cur
    name ← gets λ p. p.scope
    spec' ← of_record (update_struct spec (kind_type kind) name (preparse walked))
    put_spec cur spec'
    set_scope []
    return (struct_of kind started.0 order walked)

  -- `case *ast.DefStatement`; what is not global is the scope of its value.
  unfoldable pub walk_def : Bool → List Text → (spec name : Text) → Node → Cmd Node
  walk_def global id sp name v = do
    elim global [ true ↦ set_in_global true | false ↦ set_scope name ]
    pro ← w v
    named ← w (identifier id sp name)
    id' ← id_of_identifier named
    not_missing pro
    elim global [ true ↦ set_in_global false | false ↦ set_scope [] ]
    return (def_of global id' sp name pro)

  -- `if err == nil { return node, fmt.Errorf(…) }`
  refuse_known : Result Node → Cmd (Unit {0})
  refuse_known (ok c) = λ p. failed
  refuse_known err = return tt
  refuse_known panic = λ p. panicked

  -- The first pass of `case *ast.ConstantStatement`. `Index` gets the name as the type.
  define_constant : List Text → (spec name : Text) → Node → Cmd Node
  unfolding refuse_known fetch_constant add_constant index
  define_constant id sp name v = do
    cur ← current_spec
    spec ← spec_named cur
    refuse_known (fetch_constant spec name)
    named ← w (identifier id sp name)
    id' ← id_of_identifier named
    pro ← w v
    not_missing pro
    spec' ← spec_named cur
    put_spec cur (index (add_constant spec' name pro) (other name) (text "CONSTANT"))
    return (constant_of id' sp name pro)

  unfoldable pub walk_constant : Bool → List Text → (spec name : Text) → Node → Cmd Node
  unfolding define_constant
  walk_constant true id sp name v = define_constant id sp name v
  walk_constant false id sp name v = return (constant_of id sp name v)
