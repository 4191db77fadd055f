-- ===== src/Preprocess/Naming.antt =====
-- `buildIdContext`, `namePairs`, and the cases of `walk` for identifiers, unknowns and indexes.
pub mod Renaming
use fault.Common.{
  Bool, true, false, List, [], ◌∷◌, ◌++◌, Option, none, some, if◌then◌else◌, has, same,
}
use fault.Common.Text.{Text, text_key, split}
use fault.Common.Dict.{lookup}
use fault.Record.{SpecRecord, Result, ok, err, panic, fetch_constant, underscored}
use fault.Preprocess.Tree.{
  Node, identifier, unknown, index_of, Pairs, no_pairs, pair, raw_id, set_id,
}
use fault.Preprocess.Processor.{
  Processor, Cmd, return, ◌>>=◌, ◌>>◌, or_panic, gets, current_spec, spec_named,
}

abbrev within : Text → List Text → List Text
within spec [] = spec ∷ []
within spec ([] ∷ parts) = spec ∷ []
within spec ((c ∷ s) ∷ parts) = spec ∷ (c ∷ s) ∷ parts

context_of : Text → (in_state scope : Text) → List Text
unfolding split
context_of spec [] scope = within spec (split b'_' scope)
context_of spec (c ∷ s) scope = spec ∷ []

-- `buildIdContext`
unfoldable pub build_id_context : Text → Processor → List Text
unfolding context_of
build_id_context spec p = context_of spec p.in_state p.scope

-- `namePairs`; the names beside the pairs.
unfoldable pub name_pairs : Pairs → Cmd (Pairs × List Text)
unfolding build_id_context set_id
name_pairs no_pairs = return (no_pairs, [])
name_pairs (pair k sp id v ps) = do
  cur ← current_spec
  pn ← gets (build_id_context cur)
  named ← or_panic (set_id (pn ++ k ∷ []) v)
  rest ← name_pairs ps
  return (pair k sp (pn ++ k ∷ []) named rest.0, k ∷ rest.1)

-- A constant of the spec that the identifier names, or else one of the current spec.
unfoldable pub identifier_spec : Result Node → SpecRecord Node → Cmd (SpecRecord Node)
identifier_spec (ok c) im = return im
identifier_spec err im = current_spec >>= λ cur. spec_named cur
identifier_spec panic im = current_spec >>= λ cur. spec_named cur

-- `p.localIdents[local]`; nil where it is missing.
unfoldable pub idents_of : Text → Processor → List Text
unfolding lookup
idents_of local p = elim (lookup local p.local_idents) [ some ids ↦ ids | none ↦ [] ]

first_part : List Text → List Text
first_part [] = []
first_part (x ∷ xs) = x ∷ []

-- The id of an identifier in a context: in a function, what is no property is global.
unfoldable pub identifier_id : List Text → Text → Processor → List Text
unfolding idents_of first_part
identifier_id rawid v p = elim p.in_func [
  | false ↦ rawid ++ v ∷ []
  | true ↦
      if has v (idents_of (underscored rawid) p)
      then rawid ++ v ∷ []
      else first_part rawid ++ v ∷ []
]

-- `case *ast.Identifier`
unfoldable pub walk_identifier : (spec value : Text) → Cmd Node
unfolding build_id_context identifier_id identifier_spec lookup fetch_constant
walk_identifier sp v = do
  im ← spec_named sp
  spec ← identifier_spec (fetch_constant im v) im
  rawid ← gets (build_id_context spec.spec_name)
  id ← gets (identifier_id rawid v)
  return (identifier id sp v)

-- `case *ast.Unknown`
unfoldable pub walk_unknown : List Text → Option Text → Cmd Node
unfolding build_id_context lookup
walk_unknown id name p = elim p.initial_pass [
  | false ↦ return (unknown id name) p
  | true ↦
      (do
        cur ← current_spec
        spec ← spec_named cur
        rawid ← gets (build_id_context spec.spec_name)
        n ← or_panic name
        return (unknown (rawid ++ n ∷ []) name))
        p
]

-- `case *ast.IndexExpression`
unfoldable pub walk_index : (Node → Cmd Node) → Node → Text → Cmd Node
unfolding raw_id
walk_index w left i = do l ← w left; id ← or_panic (raw_id l); return (index_of id l i)
