-- ===== src/Preprocess/Naming/Renaming.antt =====
-- The id that the case of `walk` in preprocess/preprocess.go for an identifier gives it.
use fault.Common.{
  ◌≡◌, refl, Bool, true, false, not, ◌&&◌, List, [], ◌∷◌, ◌++◌, Option, none, some, arith, has,
  last?,
}
use fault.Common.Text.{Text, text_key, split}
use fault.Common.Dict.{lookup, is_some}
use fault.Record.{SpecRecord, or_err, underscored, fetch_constant}
use fault.Preprocess.Tree.{Node, identifier}
use fault.Preprocess.Processor.{Processor, done}
use fault.Preprocess.Naming.{
  walk_identifier, build_id_context, identifier_id, identifier_spec, idents_of, context_of, within,
  first_part,
}

abbrev name_in : Option (SpecRecord Node) → Text
name_in none = []
name_in (some r) = r.spec_name

abbrev defines : Option (SpecRecord Node) → Text → Bool
defines none v = false
defines (some r) v = is_some (lookup v r.constants)

abbrev pub current : Processor → Text
current p = elim (last? p.trail) [ some s ↦ s | none ↦ [] ]

-- The spec that an identifier is put in: the one that it names if it is a constant there, or else
-- the current one.
abbrev pub owner : Processor → (spec value : Text) → Text
owner p sp v = elim (defines (lookup sp p.specs) v) [
  | true ↦ name_in (lookup sp p.specs)
  | false ↦ name_in (lookup (current p) p.specs)
]

-- The parts of the id between the spec and the name: none in a state, and none without a scope.
abbrev scope_parts : (in_state : Text) → (parts : List Text) → List Text
scope_parts (c ∷ s) parts = []
scope_parts [] [] = []
scope_parts [] ([] ∷ parts) = []
scope_parts [] ((c ∷ s) ∷ parts) = (c ∷ s) ∷ parts

-- In a function, a name that is no property of the struct is a global one.
abbrev full_id : Processor → (owner : Text) → List Text → Text → List Text
full_id p o parts v = elim (p.in_func && not (has v (idents_of (underscored (o ∷ parts)) p))) [
  | true ↦ o ∷ v ∷ []
  | false ↦ o ∷ parts ++ v ∷ []
]

unfoldable pub name_of : Processor → (spec value : Text) → List Text
name_of p sp v = full_id p (owner p sp v) (scope_parts p.in_state (split b'_' p.scope)) v

within_lem : (o : Text) (parts : List Text) → within o parts ≡ o ∷ scope_parts [] parts
within_lem o [] = refl
within_lem o ([] ∷ parts) = refl
within_lem o ((c ∷ s) ∷ parts) = refl

context_lem : (o st scope : Text) → context_of o st scope ≡ o ∷ scope_parts st (split b'_' scope)
unfolding context_of
context_lem o [] scope = within_lem o (split b'_' scope)
context_lem o (c ∷ s) scope = refl

full_id_lem :
    (p : Processor) (o v : Text) (parts : List Text)
    → identifier_id (o ∷ parts) v p ≡ full_id p o parts v
unfolding identifier_id first_part
full_id_lem p o v parts = ground arith

-- The spec that the case of an identifier finds.
owner_lem :
    (p : Processor) (sp v cur : Text) (im spec : SpecRecord Node)
    → lookup sp p.specs ≡ some im
    → last? p.trail ≡ some cur
    → lookup cur p.specs ≡ some spec
    → (c : Option Node) → lookup v im.constants ≡ c
    → (s : SpecRecord Node) × (identifier_spec (or_err c) im p ≡ done s p)
      × (s.spec_name ≡ owner p sp v)
unfolding identifier_spec
owner_lem p sp v cur im spec a b c (some n) d = (im, refl, ground (arith, a, d))
owner_lem p sp v cur im spec a b c none d = (spec, rw (b, c), ground (arith, a, b, c, d))

-- The case of an identifier names it, and changes nothing else.
pub walk_identifier_lem :
    (p : Processor) (sp v cur : Text) (im spec : SpecRecord Node)
    → lookup sp p.specs ≡ some im
    → last? p.trail ≡ some cur
    → lookup cur p.specs ≡ some spec
    → walk_identifier sp v p ≡ done (identifier (name_of p sp v) sp v) p
unfolding walk_identifier build_id_context fetch_constant name_of
walk_identifier_lem p sp v cur im spec a b c =
    let (s, e, o) = owner_lem p sp v cur im spec a b c (lookup v im.constants) refl in
    rw (a, e, o, context_lem (owner p sp v) p.in_state p.scope, full_id_lem p (owner p sp v) v)
