-- ===== src/Preprocess/Tests.antt =====
-- Runs of the preprocessor of preprocess/preprocess.go on small trees.
use fault.Common.{
  ℕ, zero, suc, arith, same, has, ◌&&◌, get_elem?, ◌≡◌, refl, Bool, true, false, List, [], ◌∷◌,
  Option, none, some,
}
use fault.Common.Text.{Text, text, text_key, split}
use fault.Common.Dict.{lookup}
use fault.Record.{Struct, SpecRecord}
use fault.Preprocess.Tree.{
  Node, value, identifier, infix_of, block, expression, if_at, struct_of, stock_kind, Nodes,
  no_nodes, node, pair, no_pairs, IfNode, spec_tree, spec_decl, def_of, instance_of, for_of,
}
use fault.Preprocess.Processor.{Processor, Outcome, done, spent}
use fault.Preprocess.Collapse.{single_if}
use fault.Preprocess.Walk.Expressions.{rename, walkable, size, walk-rename}
use fault.Preprocess.Walk.Reading.{runs, nested}
use fault.Preprocess.Walk.Collapsed.{Settled, IsPlain}
use fault.Preprocess.Walk.Nested.{IsConj, walk-nested, walk-nested-lost}
use fault.Preprocess.Walk.{walk, run, new_processer}

abbrev no_copy : Struct Node → List IfNode → Option (Struct Node × List IfNode)
no_copy s ifs = some (s, ifs)

abbrev spec_s : SpecRecord Node
spec_s = record {
  spec_name = text "s";
  stocks = [];
  flows = [];
  components = [];
  constants = [];
  order = [];
}

abbrev ready : List IfNode → Processor
ready ifs = record {
  specs = (text "s", spec_s) ∷ [];
  scope = [];
  local_idents = [];
  trail = text "s" ∷ [];
  struct_types = [];
  initial_pass = true;
  in_func = false;
  in_struct = [];
  in_state = [];
  in_global = false;
  structs_property_order = [];
  ifs = ifs;
}

abbrev lit : Text → Node
lit = value []

abbrev does : Text → Nodes
does x = node (expression (lit x)) no_nodes

abbrev holds : ℕ → Nodes
holds a = node (expression (if_at a)) no_nodes

abbrev if_node : Text → Nodes → Option Nodes → Option ℕ → IfNode
if_node c body alt e = record { condition = lit c; consequence = body; alternative = alt; elif = e }

-- `def pot = stock{ hot: 1, }; for 1 run { p = new pot; }`
abbrev pot : Node
pot = spec_tree (
    node (spec_decl (text "s")) (
      node
        (def_of false [] (text "s") (text "pot") (
          struct_of stock_kind [] (text "hot" ∷ [])
            (pair (text "hot") (text "s") [] (lit (text "1")) no_pairs)))
        (node
          (for_of (
            node
              (expression (
                instance_of [] (record {
                  value_id = [];
                  value_spec = text "s";
                  value = text "pot";
                  name = text "p";
                  order = [];
                  complex = false;
                  complex_scope = [];
                })))
              no_nodes))
          no_nodes)))

-- The properties of the stocks of the spec "s" after a run.
stocks_of : Outcome Node → List (Text × Struct Node)
unfolding lookup
stocks_of (done n p) = elim (lookup (text "s") p.specs) [ some r ↦ r.stocks | none ↦ [] ]
stocks_of _ = []

pot-run :
    stocks_of (run no_copy 30 pot (new_processer ((text "s_pot", text "hot" ∷ []) ∷ []) []))
    ≡ (text "pot", (text "hot", value (text "s" ∷ text "pot" ∷ text "hot" ∷ []) (text "1")) ∷ [])
      ∷ (text "p", (text "hot", value (text "s" ∷ text "p" ∷ text "hot" ∷ []) (text "1")) ∷ [])
      ∷ []
unfolding stocks_of run new_processer
pot-run = refl

-- `if A { if B { x } else if C { y } else if D { z } }`: the `else if`s are made into a circle.
circle :
    walk no_copy 40 (if_at 0) (
      ready (
        if_node (text "A") (holds 1) none none
        ∷ if_node (text "B") (does (text "x")) none (some 2)
        ∷ if_node (text "C") (does (text "y")) none (some 3)
        ∷ if_node (text "D") (does (text "z")) none none
        ∷ []))
    ≡ spent
unfolding walk
circle = refl

-- The `else if` of the if that a walk returns.
first_elif : Outcome Node → Option ℕ
unfolding walk
first_elif (done (if_at a) p) = elim (get_elem? p.ifs a) [ some i ↦ i.elif | none ↦ none ]
first_elif _ = none

-- `if A { w } else if B { x } else if C { y } else { if D { z } }`: the second one, C, comes first.
skipped :
    first_elif (
      walk no_copy 40 (if_at 0) (
        ready (
          if_node (text "A") (does (text "w")) (some (holds 3)) (some 1)
          ∷ if_node (text "B") (does (text "x")) none (some 2)
          ∷ if_node (text "C") (does (text "y")) none none
          ∷ if_node (text "D") (does (text "z")) none none
          ∷ [])))
    ≡ some 2
unfolding walk first_elif
skipped = refl

-- "A" and "C" hold, and a conjunction as its sides do.
a_and_c : Node → Bool
a_and_c (infix_of op l r) = a_and_c l && a_and_c r
a_and_c (value id s) = has s (text "A" ∷ text "C" ∷ [])
a_and_c n = false

-- The block that the if of a walk runs where "A" and "C" hold.
runs_after : Outcome Node → Option Nodes
unfolding runs
runs_after (done (if_at a) p) = runs 6 a_and_c p.ifs a no_nodes
runs_after _ = none

abbrev late : List IfNode
late =
    if_node (text "A") (holds 1) none (some 2)
    ∷ if_node (text "B") (does (text "x")) (some (does (text "y"))) none
    ∷ if_node (text "C") (does (text "z")) none none
    ∷ []

-- `if A { if B { x } else { y } } else if C { z }` runs y where A and C hold, and z after the walk.
late_else :
    (runs 6 a_and_c late 0 no_nodes ≡ some (does (text "y")))
    × (runs_after (walk no_copy 40 (if_at 0) (ready late)) ≡ some (does (text "z")))
unfolding runs_after runs walk a_and_c
late_else = (refl, refl)

abbrev a_plus_1 : Node
a_plus_1 = infix_of (text "+") (identifier [] (text "s") (text "a")) (lit (text "1"))

walk-rename_example :
    walk no_copy 4 a_plus_1 (ready []) ≡ done (rename (ready []) a_plus_1) (ready [])
unfolding size walkable lookup
walk-rename_example = walk-rename no_copy (ready []) 4 a_plus_1 (omega arith) refl

renamed :
    rename (ready []) a_plus_1
    ≡ infix_of
        (text "+")
        (identifier (text "s" ∷ text "a" ∷ []) (text "s") (text "a"))
        (lit (text "1"))
unfolding rename lookup split
renamed = refl

Settled-value : (s : Text) → Settled no_copy 3 (lit s)
unfolding walk
Settled-value s zero q l = absurd (omega (arith, l))
Settled-value s (suc k) q l = (refl, refl)

Settled-block : (s : Text) → Settled no_copy 3 (block (does s))
unfolding walk
Settled-block s zero q l = absurd (omega (arith, l))
Settled-block s (suc zero) q l = absurd (omega (arith, l))
Settled-block s (suc (suc zero)) q l = absurd (omega (arith, l))
Settled-block s (suc (suc (suc k))) q l = (refl, refl)

IsPlain-block : (s : Text) → IsPlain no_copy 3 (does s)
unfolding single_if
IsPlain-block s = (refl, Settled-block s)

-- "A" holds, and a conjunction as its sides do.
reading : Node → Bool
reading (infix_of op l r) = reading l && reading r
reading (value id s) = same s (text "A")
reading n = false

reading-IsConj : IsConj no_copy 3 reading
unfolding reading
reading-IsConj l r = refl

walk-nested_example :
    (r : ℕ) × (ifs : List IfNode) × (walk no_copy 7 (if_at 0) (record (ready []) {
      ifs =
          nested
            (lit (text "A"))
            (lit (text "B"))
            (does (text "x"))
            (some (does (text "y")))
            (some (does (text "z")));
    })
      ≡ done (if_at r) (record (ready []) { ifs = ifs }))
    × (runs 4 reading ifs r no_nodes
        ≡ runs 4 reading
            (nested
              (lit (text "A"))
              (lit (text "B"))
              (does (text "x"))
              (some (does (text "y")))
              (some (does (text "z"))))
            0
            no_nodes)
unfolding reading
walk-nested_example =
    walk-nested no_copy 3 3 (ready []) (lit (text "A")) (lit (text "B")) (does (text "x"))
      (some (does (text "y"))) (some (does (text "z"))) reading (omega arith)
      (Settled-value (text "A")) (Settled-value (text "B")) (IsPlain-block (text "x"))
      (IsPlain-block (text "y")) (IsPlain-block (text "z")) reading-IsConj refl

walk-nested-lost_example :
    (r : ℕ) × (ifs : List IfNode) × (walk no_copy 7 (if_at 0) (record (ready []) {
      ifs =
          nested (lit (text "A")) (lit (text "B")) (does (text "x")) none (some (does (text "z")));
    })
      ≡ done (if_at r) (record (ready []) { ifs = ifs }))
    × (runs 4 reading ifs r no_nodes ≡ some (does (text "z")))
    × (runs 4 reading
          (nested (lit (text "A")) (lit (text "B")) (does (text "x")) none (some (does (text "z"))))
          0
          no_nodes
        ≡ some no_nodes)
unfolding reading
walk-nested-lost_example =
    walk-nested-lost no_copy 3 3 (ready []) (lit (text "A")) (lit (text "B")) (does (text "x"))
      (does (text "z")) reading (omega arith) (Settled-value (text "A")) (Settled-value (text "B"))
      (IsPlain-block (text "x")) (IsPlain-block (text "z")) reading-IsConj refl refl
