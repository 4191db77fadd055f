-- ===== src/Preprocess/Walk/Nested.antt =====
-- What the ifs of preprocess/preprocess.go do before and after the walk puts an if that is alone in
-- another one into it.
use fault.Common.{
  ℕ, suc, ◌≤◌, ◌≡◌, Bool, true, false, not, ◌&&◌, List, [], ◌∷◌, Option, none, some, arith,
}
use fault.Common.Text.{text, text_key}
use fault.Common.Dict.{is_some}
use fault.Record.{Struct}
use fault.Preprocess.Tree.{Node, infix_of, if_at, expression, Nodes, no_nodes, node, IfNode}
use fault.Preprocess.Processor.{Processor, done}
use fault.Preprocess.Collapse.{single_if}
use fault.Preprocess.Walk.{walk}
use fault.Preprocess.Walk.Reading.{runs, if_node, nested, with_ifs}
use fault.Preprocess.Walk.Collapsed.{Settled, IsPlain, IsPlainElse, outer_plain, outer_else}

module _ (copy : Struct Node → List IfNode → Option (Struct Node × List IfNode)) (m : ℕ) where
  -- `v` reads "&&" as "and".
  abbrev pub IsConj : (Node → Bool) → Type 0
  IsConj v = (l r : Node) → v (infix_of (text "&&") l r) ≡ (v l && v r)

  plain_runs :
      (v : Node → Bool) (a b : Node) (x : Nodes) (z : Option Nodes)
      → IsConj v
      → single_if x ≡ none
      → IsPlainElse copy m z
      → (is_some z && (v a && not (v b))) ≡ false
      → runs 4 v
          (if_node a (node (expression (if_at 2)) no_nodes) z none
            ∷ if_node b x none none
            ∷ if_node b x none none
            ∷ if_node (infix_of (text "&&") a b) x z none
            ∷ [])
          3
          no_nodes
        ≡ runs 4 v (nested a b x none z) 0 no_nodes
  unfolding runs single_if
  plain_runs v a b x none c sx sz h = ground (arith, c a b, sx)
  plain_runs v a b x (some z) c sx sz h = ground (arith, c a b, sx, sz.0, h)

  else_runs :
      (v : Node → Bool) (a b : Node) (x y : Nodes) (z : Option Nodes)
      → IsConj v
      → single_if x ≡ none
      → single_if y ≡ none
      → IsPlainElse copy m z
      → runs 4 v
          (if_node a (node (expression (if_at 2)) no_nodes) z (some 4)
            ∷ if_node b x (some y) none
            ∷ if_node b x (some y) none
            ∷ if_node (infix_of (text "&&") a b) x z (some 5)
            ∷ if_node a y none none
            ∷ if_node a y none none
            ∷ [])
          3
          no_nodes
        ≡ runs 4 v (nested a b x (some y) z) 0 no_nodes
  unfolding runs single_if
  else_runs v a b x y none c sx sy sz = ground (arith, c a b, sx, sy)
  else_runs v a b x y (some z) c sx sy sz = ground (arith, c a b, sx, sy, sz.0)

  -- A nested if, at 0 in a store that holds no other, is walked to an if that runs what the two ran
  -- together, for every reading of the conditions but for one: where only the outer if has an `else`,
  -- the outer condition holds and the inner one does not. The walk leaves the conditions as they are,
  -- and the blocks, none of which is an if alone, and has four calls beyond what it takes for these.
  pub walk-nested :
      (k : ℕ) (q : Processor) (a b : Node) (x : Nodes) (o z : Option Nodes) (v : Node → Bool)
      → m ≤ k
      → Settled copy m a
      → Settled copy m b
      → IsPlain copy m x
      → IsPlainElse copy m o
      → IsPlainElse copy m z
      → IsConj v
      → (not (is_some o) && (is_some z && (v a && not (v b)))) ≡ false
      → (r : ℕ) × (ifs : List IfNode) × (walk copy
            (suc (suc (suc (suc k))))
            (if_at 0)
            (with_ifs q (nested a b x o z))
          ≡ done (if_at r) (with_ifs q ifs))
        × (runs 4 v ifs r no_nodes ≡ runs 4 v (nested a b x o z) 0 no_nodes)
  walk-nested k q a b x none z v l sa sb sx so sz c h =
      (_, _, outer_plain copy m k q a b x z l sa sb sx sz, plain_runs v a b x z c sx.0 sz h)
  walk-nested k q a b x (some y) z v l sa sb sx so sz c h =
      (_, _, outer_else copy m k q a b x y z l sa sb sx so sz, else_runs v a b x y z c sx.0 so.0 sz)

  -- Where the outer if has an `else` and the inner one has none, the if that the walk returns runs the
  -- outer `else` for a reading in which the outer condition holds and the inner one does not, and the
  -- two ifs run nothing.
  pub walk-nested-lost :
      (k : ℕ) (q : Processor) (a b : Node) (x z : Nodes) (v : Node → Bool)
      → m ≤ k
      → Settled copy m a
      → Settled copy m b
      → IsPlain copy m x
      → IsPlain copy m z
      → IsConj v
      → v a ≡ true
      → v b ≡ false
      → (r : ℕ) × (ifs : List IfNode) × (walk copy
            (suc (suc (suc (suc k))))
            (if_at 0)
            (with_ifs q (nested a b x none (some z)))
          ≡ done (if_at r) (with_ifs q ifs))
        × (runs 4 v ifs r no_nodes ≡ some z)
        × (runs 4 v (nested a b x none (some z)) 0 no_nodes ≡ some no_nodes)
  unfolding runs single_if
  walk-nested-lost k q a b x z v l sa sb sx sz c ha hb = (
    _,
    _,
    outer_plain copy m k q a b x (some z) l sa sb sx sz,
    ground (arith, c a b, ha, hb, sz.0),
    ground (arith, ha, hb),
  )
