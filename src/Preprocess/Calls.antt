-- ===== src/Preprocess/Calls.antt =====
-- The cases of `walk` in preprocess/preprocess.go for functions, calls and built-ins.
use fault.Common.{
  Bool, true, false, List, [], ◌∷◌, ◌++◌, Option, none, some, ◌-◌, drop, length, get_elem?, same,
}
use fault.Common.Text.{Text, text, text_key}
use fault.Common.Dict.{lookup, insert}
use fault.Record.{
  StructType, component, nil_type, SpecRecord, Result, ok, err, panic, fetch_var, update_var,
}
use fault.Record.Types.{get_struct_type}
use fault.Preprocess.Tree.{Node, this_of, parameter_call, built_in, function, block, Nodes, raw_id}
use fault.Preprocess.Processor.{
  Cmd, panicked, return, ◌>>=◌, ◌>>◌, or_panic, of_record, gets, current_spec, spec_named, put_spec,
  set_scope, set_in_func, set_in_state, set_in_struct,
}
use fault.Preprocess.Naming.{build_id_context}
use fault.Preprocess.Collapse.{a_block, an_expression}

-- `rawid[len(rawid)-2:]`
abbrev last_two : List Text → List Text
last_two xs = drop (length xs - 2) xs

-- The conversion of a call on `this`.
walk_this : List Text → Cmd Node
walk_this v = do
  cur ← current_spec
  scope ← gets λ p. p.scope
  return (this_of (cur ∷ scope ∷ v) (last_two (cur ∷ scope ∷ v)))

-- `append([]string{rawid[0], p.inStruct}, rawid[1:]...)`
in_struct_id : Text → List Text → List Text
in_struct_id s [] = []
in_struct_id s (x ∷ xs) = x ∷ s ∷ xs

-- The id and the type of the struct, looked for again inside the struct of the function.
retry_in : SpecRecord Node → Text → List Text → StructType → Cmd (List Text × StructType)
unfolding get_struct_type in_struct_id
retry_in spec [] rawid nil_type = return (rawid, nil_type)
retry_in spec (c ∷ s) rawid nil_type = do
  found ← of_record (get_struct_type spec (in_struct_id (c ∷ s) rawid))
  return (in_struct_id (c ∷ s) rawid, found.0)
retry_in spec s rawid ty = return (rawid, ty)

find_call : SpecRecord Node → List Text → Cmd (List Text × StructType)
unfolding get_struct_type retry_in
find_call spec rawid = do
  found ← of_record (get_struct_type spec rawid)
  s ← gets λ p. p.in_struct
  retry_in spec s rawid found.0

-- `brName[0] == rawid[0]`; an index into an empty id is a panic.
same_spec : List Text → List Text → Option Bool
same_spec [] ids = none
same_spec (x ∷ xs) [] = none
same_spec (x ∷ xs) (y ∷ ys) = some (same x y)

-- `spec.UpdateVar(rawid, ty, fn)`, whose error is not read.
put_function : Text → SpecRecord Node → Result (SpecRecord Node) → Cmd (Unit {0})
unfolding insert
put_function cur spec (ok r) = put_spec cur r
put_function cur spec err = return tt
put_function cur spec panic = λ p. panicked

a_function : Node → Cmd Node
a_function (function id body) = return (function id body)
a_function n = λ p. panicked

module _ (w : Node → Cmd Node) where
  -- A function of a component is walked in the scope and the state that the call names.
  walk_in_scope : StructType → List Text → Node → Cmd Node
  walk_in_scope component rawid fn = do
    scope ← gets λ p. p.scope
    state ← gets λ p. p.in_state
    s ← or_panic (get_elem? rawid 1)
    t ← or_panic (get_elem? rawid 2)
    set_scope s
    set_in_state t
    pro ← w fn
    set_scope scope
    set_in_state state
    return pro
  walk_in_scope ty rawid fn = w fn

  -- What a call leads to is walked if it is a function.
  walk_callee : Text → List Text → StructType → Node → Cmd (Unit {0})
  unfolding walk_in_scope a_function put_function update_var lookup
  walk_callee cur rawid ty (function id body) = do
    pro ← walk_in_scope ty rawid (function id body)
    fn ← a_function pro
    spec ← spec_named cur
    put_function cur spec (update_var spec rawid ty fn)
  walk_callee cur rawid ty n = return tt

  walk_branch : Text → List Text → StructType → Node → Bool → Cmd (Unit {0})
  unfolding walk_callee
  walk_branch cur rawid ty branch true = return tt
  walk_branch cur rawid ty branch false = walk_callee cur rawid ty branch

  walk_property_call : List Text → Cmd Node
  unfolding find_call fetch_var same_spec walk_branch build_id_context raw_id lookup
  walk_property_call v = do
    cur ← current_spec
    rawid ← gets λ p. build_id_context cur p ++ v
    spec ← spec_named cur
    found ← find_call spec rawid
    branch ← of_record (fetch_var spec found.0 found.1)
    br ← or_panic (raw_id branch)
    named ← or_panic (same_spec br found.0)
    walk_branch cur found.0 found.1 branch named
    return (parameter_call found.0 v)

  named_call : List Text → Cmd Node
  unfolding walk_this walk_property_call
  named_call [] = λ p. panicked
  named_call (x ∷ v) = elim (same x (text "this")) [
    | true ↦ walk_this v
    | false ↦ walk_property_call (x ∷ v)
  ]

  -- `case *ast.ParameterCall`
  unfoldable pub walk_call : List Text → List Text → Cmd Node
  unfolding named_call
  walk_call id v p = elim p.initial_pass [
    | true ↦ return (parameter_call id v) p
    | false ↦ named_call v p
  ]

  advance_to : Text → Node → Cmd Node
  advance_to f t = elim (same f (text "advance")) [
    | true ↦ w t >>= λ pro. an_expression pro
    | false ↦ return t
  ]

  -- The second pass of `case *ast.BuiltIn`.
  name_built_in : Text → Node → Cmd Node
  unfolding advance_to lookup
  name_built_in f t = do
    cur ← current_spec
    spec ← spec_named cur
    scope ← gets λ p. p.scope
    state ← gets λ p. p.in_state
    t' ← advance_to f t
    return (built_in (spec.spec_name ∷ scope ∷ state ∷ f ∷ []) f state t')

  unfoldable pub walk_built_in : List Text → (function from_state : Text) → Node → Cmd Node
  unfolding name_built_in
  walk_built_in id f s t p = elim p.initial_pass [
    | true ↦ return (built_in id f s t) p
    | false ↦ name_built_in f t p
  ]

  -- `case *ast.FunctionLiteral`
  unfoldable pub walk_function : List Text → Nodes → Cmd Node
  walk_function id body = do
    old ← gets λ p. p.in_struct
    s ← or_panic (get_elem? id 1)
    set_in_struct s
    set_in_func true
    pro ← w (block body)
    body' ← a_block pro
    set_in_func false
    set_in_struct old
    return (function id body')
