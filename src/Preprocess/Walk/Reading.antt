-- ===== src/Preprocess/Walk/Reading.antt =====
-- What the ifs of preprocess/preprocess.go run.
use fault.Common.{ℕ, zero, suc, Bool, true, false, List, [], ◌∷◌, Option, none, some, get_elem?}
use fault.Common.Text.{text_key}
use fault.Preprocess.Tree.{Node, if_at, expression, Nodes, no_nodes, node, IfNode}
use fault.Preprocess.Processor.{Processor}
use fault.Preprocess.Collapse.{single_if}

-- The block that an if runs where `v` says which conditions hold: an if alone in a block is entered,
-- and an `else` beside an `else if` is the last one. `last` is the `else` from before.
enter_block : (ℕ → Nodes → Option Nodes) → Nodes → Option Nodes
unfolding single_if
enter_block again b = elim (single_if b) [ some c ↦ again c no_nodes | none ↦ some b ]

abbrev else_or : Nodes → Option Nodes → Nodes
else_or last none = last
else_or last (some z) = z

otherwise : (ℕ → Nodes → Option Nodes) → Option ℕ → Nodes → Option Nodes
unfolding enter_block
otherwise again (some e) last = again e last
otherwise again none last = enter_block again last

branch : (ℕ → Nodes → Option Nodes) → Bool → IfNode → Nodes → Option Nodes
unfolding enter_block otherwise
branch again true i last = enter_block again i.consequence
branch again false i last = otherwise again i.elif (else_or last i.alternative)

unfoldable pub runs : ℕ → (v : Node → Bool) → List IfNode → ℕ → (last : Nodes) → Option Nodes
unfolding branch
runs zero v ifs a last = none
runs (suc k) v ifs a last = elim (get_elem? ifs a) [
  | none ↦ none
  | some i ↦ branch (runs k v ifs) (v i.condition) i last
]

abbrev pub if_node : Node → Nodes → Option Nodes → Option ℕ → IfNode
if_node c b o e = record { condition = c; consequence = b; alternative = o; elif = e }

-- `if A { if B { x } else o } else z`, and the ifs that hold it at 0 and 1.
abbrev pub nested : (a b : Node) → (x : Nodes) → (o z : Option Nodes) → List IfNode
nested a b x o z = if_node a (node (expression (if_at 1)) no_nodes) z none ∷ if_node b x o none ∷ []

abbrev pub with_ifs : Processor → List IfNode → Processor
with_ifs q l = record q { ifs = l }
