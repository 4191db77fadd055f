-- ===== src/Reachability.antt =====
-- reachability/reachability.go: the tracer that looks for states of a component which nothing enters.
-- The syntax tree is that of ast/ast.go, as far as the tracer reads it.
pub mod Trace
pub mod Verdict
mod Tests
use fault.Common.{
  ◌≡◌, Bool, true, false, not, List, [], ◌∷◌, ◌++◌, Option, none, some, if◌then◌else◌, same, has,
  ◌==◌, length,
}
use fault.Common.Dict.{lookup, insert, is_some}
use fault.Common.Text.{Text, text, text_key, join}

-- A `ProcessedName`, which the earlier passes have filled: its first element and the others.
pub record Name : Type 0 where
  pub spec : Text
  pub path : List Text

-- `Id()[1]`
unfoldable pub local_id : Name → Text
local_id n = join b'_' n.path

-- `other` is any node that the tracer passes over. The order of `pairs` and of the parameters of a
-- built-in is the order in which Go visits those maps.
mutual
  pub data Node : Type 0 where
    spec : (statements : Nodes) → Node
    def_statement : (value : Node) → Node
    component_literal : Name → (pairs : Pairs) → Node
    start_statement : (pairs : List (List Text)) → Node
    function_literal : (body : Node) → Node
    block_statement : (statements : Nodes) → Node
    expression_statement : (expression : Node) → Node
    if_expression : (consequence : Node) (elif alternative : OptNode) → Node
    built_in : (parameters : List Name) → Node
    other : Node

  pub data Nodes : Type 0 where
    nil : Nodes
    cons : Node → Nodes → Nodes

  pub data OptNode : Type 0 where
    absent : OptNode
    present : Node → OptNode

  pub data Pairs : Type 0 where
    no_pairs : Pairs
    pair : (key : Name) (value : Node) → Pairs → Pairs

-- `type Tracer struct`, without the field `last`, which nothing reads.
pub record Tracer : Type 0 where
  pub graph : List (Text × Bool)
  pub undefined : List Text

unfoldable pub new_tracer : Tracer
new_tracer = record { graph = []; undefined = [] }

unfoldable pub seen_before : Tracer → Text → Bool
seen_before t id = has id t.undefined

unfoldable pub without : Text → List Text → List Text
without id [] = []
without id (v ∷ vs) = if not (same v id) then v ∷ without id vs else without id vs

unfoldable pub remove_undefined : Tracer → Text → Tracer
unfolding without
remove_undefined t id = record t { undefined = without id t.undefined }

-- The body of the loop over the pairs of a component, at a function.
unfoldable pub define : Tracer → Text → Tracer
unfolding seen_before remove_undefined
define t id =
    let t1 =
      (if is_some (lookup id t.graph) then t else record t { graph = insert id false t.graph }) in
    if seen_before t1 id
    then remove_undefined (record t1 { graph = insert id true t1.graph }) id
    else t1

-- The body of the loops over a start statement and over the parameters of a built-in.
unfoldable pub call : Tracer → Text → Tracer
unfolding remove_undefined
call t id =
    if is_some (lookup id t.graph)
    then remove_undefined (record t { graph = insert id true t.graph }) id
    else record t { undefined = t.undefined ++ id ∷ [] }

unfoldable pub call_all : Tracer → List Text → Tracer
unfolding call
call_all t [] = t
call_all t (id ∷ ids) = call_all (call t id) ids

abbrev pub start_ids : List (List Text) → List Text
start_ids [] = []
start_ids (v ∷ vs) = join b'_' v ∷ start_ids vs

abbrev pub local_ids : List Name → List Text
local_ids [] = []
local_ids (n ∷ ns) = local_id n ∷ local_ids ns

-- `fmt.Sprintf("%s_%s", nid[1], pid[1])`
abbrev pub state_id : Name → Name → Text
state_id component key = local_id component ++ b'_' ∷ local_id key

unfoldable mutual
  unfolding call_all define

  pub walk : Tracer → Node → Tracer
  walk t (spec statements) = walk_all t statements
  walk t (def_statement value) = walk t value
  walk t (component_literal name pairs) = walk_pairs name t pairs
  walk t (start_statement pairs) = call_all t (start_ids pairs)
  walk t (function_literal body) = walk t body
  walk t (block_statement statements) = walk_all t statements
  walk t (expression_statement expression) = walk t expression
  walk t (if_expression consequence elif alternative) =
      walk_opt (walk_opt (walk t consequence) elif) alternative
  walk t (built_in parameters) = call_all t (local_ids parameters)
  walk t other = t

  pub walk_all : Tracer → Nodes → Tracer
  walk_all t nil = t
  walk_all t (cons n ns) = walk_all (walk t n) ns

  pub walk_opt : Tracer → OptNode → Tracer
  walk_opt t absent = t
  walk_opt t (present n) = walk t n

  pub walk_pairs : Name → Tracer → Pairs → Tracer
  walk_pairs name t no_pairs = t
  walk_pairs name t (pair key value rest) =
      walk_pairs name (walk_state (state_id name key) t value) rest

  -- Only a function literal is a state.
  pub walk_state : Text → Tracer → Node → Tracer
  walk_state id t (function_literal body) = walk (define t id) body
  walk_state id t _ = t

-- The states of the graph that nothing has entered.
unfoldable pub unentered : List (Text × Bool) → List Text
unentered [] = []
unentered ((k, v) ∷ m) = if not v then k ∷ unentered m else unentered m

unfoldable pub check : Tracer → Bool × List Text
unfolding unentered
check t =
    let missing = t.undefined ++ unentered t.graph in
    (elim missing [ [] ↦ true | _ ∷ _ ↦ false ], missing)

-- `Scan`: the states with which the program exits, if it does.
unfoldable pub scan : Node → Option (List Text)
unfolding check walk new_tracer
scan n = let (ok, missing) = check (walk new_tracer n) in if ok then none else some missing
