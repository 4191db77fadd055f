-- ===== src/Preprocess/Instances.antt =====
-- The cases of `walk` in preprocess/preprocess.go for instances, which put a copy of the struct into
-- the current spec and name its properties, and in them those of the instances that it holds.
use fault.Common.{
  true, false, not, ◌&&◌, List, [], ◌∷◌, ◌++◌, Option, none, some, if◌then◌else◌, take, same,
}
use fault.Common.Text.{Text, text_key}
use fault.Common.Dict.{lookup, insert}
use fault.Record.{StructType, stock, flow, Struct, fetch, index, underscored}
use fault.Record.Types.{update_struct}
use fault.Preprocess.Tree.{
  Node, identifier, instance_of, struct_instance, Instance, StructInstance, Pairs, no_pairs, pair,
  IfNode, set_id,
}
use fault.Preprocess.Processor.{
  Processor, Cmd, failed, panicked, return, ◌>>=◌, ◌>>◌, or_panic, of_record, gets, modify, when,
  current_spec, spec_named, put_spec, ensure_spec, set_scope,
}
use fault.Preprocess.Naming.{build_id_context}
use fault.Preprocess.Structs.{add_struct, struct_types_of, property_of, id_of_identifier}

-- The name of an instance in the record.
instance_key : (complex_scope scope name : Text) → Text
instance_key [] [] name = name
instance_key [] (c ∷ scope) name = underscored ((c ∷ scope) ∷ name ∷ [])
instance_key (c ∷ complex) scope name = underscored ((c ∷ complex) ∷ name ∷ [])

-- `inst.ComplexScope = key` on what is an instance.
with_scope : Text → Node → Node
with_scope key (instance_of id i) = instance_of id (record i { complex_scope = key })
with_scope key (struct_instance id s ps) = struct_instance id (record s { complex_scope = key }) ps
with_scope key n = n

-- `props[k] = property`
put_property : Text → Text → List Text → Node → Pairs → Pairs
put_property k sp id v no_pairs = pair k sp id v no_pairs
put_property k sp id v (pair j sp' id' w ps) =
    if same j k then pair j sp id v ps else pair j sp' id' w (put_property k sp id v ps)

-- `if len(order) == 0 { order = p.StructsPropertyOrder[strkey] }`
order_of : List Text → Text → Text → Processor → List Text
unfolding lookup
order_of (x ∷ order) sp v p = x ∷ order
order_of [] sp v p = elim (lookup (underscored (sp ∷ v ∷ [])) p.structs_property_order) [
  | some ks ↦ ks
  | none ↦ []
]

-- The cases of `switch ty`.
stock_or_flow : Option StructType → Cmd StructType
stock_or_flow (some stock) = return stock
stock_or_flow (some flow) = return flow
stock_or_flow ty = λ p. failed

-- `copy` is `deepcopy.Anything` on a struct and the ifs in it, `none` its error.
module _ (copy : Struct Node → List IfNode → Option (Struct Node × List IfNode)) where
  -- `AddInstance`, and `Index` after it.
  unfoldable pub add_instance : Text → Text → Struct Node → StructType → Cmd (Unit {0})
  unfolding add_struct index insert lookup
  add_instance cur key reference ty = do
    ifs ← gets λ p. p.ifs
    copied ← or_panic (copy reference ifs)
    modify λ p. record p { ifs = copied.1 }
    spec ← spec_named cur
    put_spec cur (index (add_struct ty spec key copied.0) ty key)

  module _ (w : Node → Cmd Node) where
    -- The loop over `order`: the properties of the record, and those of the node.
    walk_order :
        StructType
        → Text
        → Text
        → List Text
        → List Text
        → Struct Node
        → Pairs
        → Cmd (Struct Node × Pairs)
    unfolding property_of set_id with_scope put_property insert
    walk_order ty cur key pn [] props pairs = return (props, pairs)
    walk_order ty cur key pn (id ∷ ids) props pairs = do
      v ← property_of ty cur key id
      pro2 ← w (with_scope key v)
      named ← or_panic (set_id (pn ++ id ∷ []) pro2)
      walk_order ty cur key pn ids (insert id named props)
          (put_property id cur (pn ++ id ∷ []) named pairs)

    -- The instance `key` of a struct of the spec `from`; its id, its order and its properties.
    unfoldable pub expand :
        StructType
        → (from struct key : Text) → (Processor → List Text)
        → Pairs
        → Cmd (List Text × List Text × Pairs)
    unfolding fetch add_instance walk_order build_id_context update_struct lookup insert
    expand ty from struct key order pairs = do
      cur ← current_spec
      import_spec ← spec_named from
      reference ← of_record (fetch import_spec struct ty)
      add_instance cur key reference ty
      old ← gets λ p. p.scope
      set_scope key
      ids ← gets order
      spec ← spec_named cur
      pn ← gets (build_id_context spec.spec_name)
      walked ← walk_order ty cur key pn ids [] pairs
      spec' ← spec_named cur
      spec2 ← of_record (update_struct spec' ty key walked.0)
      put_spec cur spec2
      set_scope old
      return (pn, ids, walked.1)

    -- The first pass over an `ast.Instance` only names it.
    name_instance : Instance → Cmd Node
    unfolding build_id_context insert
    name_instance i = do
      named ← w (identifier i.value_id i.value_spec i.value)
      cur ← current_spec
      pn ← gets (build_id_context cur)
      id ← id_of_identifier named
      global ← gets λ p. p.in_global
      when (not i.complex && global) (
          modify λ p. record p {
            local_idents = insert (underscored (take 2 (pn ++ i.name ∷ []))) i.order p.local_idents;
          })
      return (instance_of (pn ++ i.name ∷ []) (record i { value_id = id }))

    -- The second pass makes an `ast.StructInstance` of it.
    expand_instance : Instance → Cmd Node
    unfolding instance_key struct_types_of stock_or_flow order_of expand lookup
    expand_instance i = do
      cur ← current_spec
      key ← gets λ p. instance_key i.complex_scope p.scope i.name
      types ← gets (struct_types_of i.value_spec)
      ty ← stock_or_flow (lookup i.value types)
      r ← expand ty i.value_spec i.value key (order_of i.order i.value_spec i.value) no_pairs
      return (
          struct_instance r.0
            (record {
              spec = cur;
              name = i.name;
              parent = i.value_spec ∷ i.value ∷ [];
              order = r.1;
              complex_scope = i.complex_scope;
            })
            r.2)

    -- `case *ast.Instance`
    unfoldable pub walk_instance : Instance → Cmd Node
    unfolding name_instance expand_instance ensure_spec
    walk_instance i = do
      cur ← current_spec
      ensure_spec cur
      initial ← gets λ p. p.initial_pass
      elim initial [ true ↦ name_instance i | false ↦ expand_instance i ]

    -- `parent[0]` and `parent[1:]` of no parent are panics.
    expand_parent : StructInstance → List Text → Pairs → Cmd Node
    unfolding instance_key struct_types_of stock_or_flow expand lookup
    expand_parent s [] props = λ p. panicked
    expand_parent s (from ∷ parts) props = do
      key ← gets λ p. instance_key s.complex_scope p.scope s.name
      types ← gets (struct_types_of from)
      ty ← stock_or_flow (lookup (underscored parts) types)
      r ← expand ty s.spec (underscored parts) key (λ p. s.order) props
      return (struct_instance r.0 s r.2)

    -- `case *ast.StructInstance`
    unfoldable pub walk_struct_instance : StructInstance → Pairs → Cmd Node
    unfolding expand_parent ensure_spec
    walk_struct_instance s props = do
      cur ← current_spec
      ensure_spec cur
      expand_parent s s.parent props
