-- ===== src/Preprocess/Walk/Collapsed.antt =====
-- The walk of preprocess/preprocess.go over an if that is alone in another one.
use fault.Common.{ℕ, suc, ◌≤◌, ◌≡◌, refl, List, [], ◌∷◌, Option, none, some, arith}
use fault.Common.Text.{text, text_key}
use fault.Record.{Struct}
use fault.Preprocess.Tree.{Node, infix_of, if_at, block, expression, Nodes, no_nodes, node, IfNode}
use fault.Preprocess.Processor.{Processor, done}
use fault.Preprocess.Collapse.{
  an_expression, single_if, in_place, collapse, walk_if, walk_body, walk_elif, walk_else,
}
use fault.Preprocess.Walk.{walk, walk_case, walk_nodes, walk_inside}
use fault.Preprocess.Walk.Reading.{if_node, nested, with_ifs}

module _ (copy : Struct Node → List IfNode → Option (Struct Node × List IfNode)) (m : ℕ) where
  -- `m` fuel is enough for a node that the walk leaves as it is.
  abbrev pub Settled : Node → Type 0
  Settled n =
      (k : ℕ) (q : Processor)
      → m ≤ k
      → (walk copy k n q ≡ done n q) × (an_expression n q ≡ done n q)

  -- A block that is not an if alone.
  abbrev pub IsPlain : Nodes → Type 0
  IsPlain b = (single_if b ≡ none) × Settled (block b)

  abbrev pub IsPlainElse : Option Nodes → Type 0
  IsPlainElse none = Unit {0}
  IsPlainElse (some b) = IsPlain b

  in_place_same : (n : Node) → in_place n n ≡ n
  unfolding in_place
  in_place_same n = ground arith

  -- The if inside, on the way to which the walk has taken three calls.
  inner_if :
      (k : ℕ) (q : Processor) (i : IfNode) (b : Node) (x : Nodes) (o : Option Nodes)
      → m ≤ k
      → Settled b
      → IsPlain x
      → IsPlainElse o
      → walk copy (suc k) (if_at 1) (with_ifs q (i ∷ if_node b x o none ∷ []))
        ≡ done (if_at 2) (with_ifs q (i ∷ if_node b x o none ∷ if_node b x o none ∷ []))
  unfolding walk walk_case walk_if walk_body walk_elif walk_else
  inner_if k q i b x none l sb (sx, sy) so = rw (
    (sb k (with_ifs q (i ∷ if_node b x none none ∷ [])) l).0,
    (sy k (with_ifs q (i ∷ if_node b x none none ∷ [])) l).0,
    sx,
    in_place_same b,
    (sb k (with_ifs q (i ∷ if_node b x none none ∷ [])) l).1,
  )
  inner_if k q i b x (some y) l sb (sx, sy) (ox, oy) = rw (
    (sb k (with_ifs q (i ∷ if_node b x (some y) none ∷ [])) l).0,
    (sy k (with_ifs q (i ∷ if_node b x (some y) none ∷ [])) l).0,
    sx,
    in_place_same b,
    (sb k (with_ifs q (i ∷ if_node b x (some y) none ∷ [])) l).1,
    (oy k (with_ifs q (i ∷ if_node b x (some y) none ∷ if_node b x none none ∷ [])) l).0,
    ox,
  )

  inner_block :
      (k : ℕ) (q : Processor) (i : IfNode) (b : Node) (x : Nodes) (o : Option Nodes)
      → m ≤ k
      → Settled b
      → IsPlain x
      → IsPlainElse o
      → walk copy
          (suc (suc (suc k)))
          (block (node (expression (if_at 1)) no_nodes))
          (with_ifs q (i ∷ if_node b x o none ∷ []))
        ≡ done
            (block (node (expression (if_at 2)) no_nodes))
            (with_ifs q (i ∷ if_node b x o none ∷ if_node b x o none ∷ []))
  unfolding walk walk_case walk_nodes walk_inside
  inner_block k q i b x o l sb sx so = rw (inner_if k q i b x o l sb sx so)

  -- The alternative goes to the new if, which is at 3.
  walk_else_plain :
      (k : ℕ) (q : Processor) (c0 c3 : Node) (b0 b3 : Nodes) (e0 e3 : Option ℕ) (i1 i2 : IfNode)
      (ifs : List IfNode) (z : Option Nodes)
      → m ≤ k
      → IsPlainElse z
      → walk_else
          (walk copy k)
          k
          0
          3
          z
          (with_ifs q (if_node c0 b0 z e0 ∷ i1 ∷ i2 ∷ if_node c3 b3 none e3 ∷ ifs))
        ≡ done tt (with_ifs q (if_node c0 b0 z e0 ∷ i1 ∷ i2 ∷ if_node c3 b3 z e3 ∷ ifs))
  unfolding walk_else
  walk_else_plain k q c0 c3 b0 b3 e0 e3 i1 i2 ifs none l h = refl
  walk_else_plain k q c0 c3 b0 b3 e0 e3 i1 i2 ifs (some z) l (zx, zy) = rw (
    (zy k (with_ifs q (if_node c0 b0 (some z) e0 ∷ i1 ∷ i2 ∷ if_node c3 b3 none e3 ∷ ifs)) l).0,
    zx,
  )

  up1 : (k : ℕ) → m ≤ k → m ≤ suc (suc k)
  up1 k l = omega (arith, l)

  up2 : (k : ℕ) → m ≤ k → m ≤ suc (suc (suc k))
  up2 k l = omega (arith, l)

  -- No `else` inside: the new if takes the one outside.
  pub outer_plain :
      (k : ℕ) (q : Processor) (a b : Node) (x : Nodes) (z : Option Nodes)
      → m ≤ k
      → Settled a
      → Settled b
      → IsPlain x
      → IsPlainElse z
      → walk copy (suc (suc (suc (suc k)))) (if_at 0) (with_ifs q (nested a b x none z))
        ≡ done (if_at 3) (
            with_ifs q (
              if_node a (node (expression (if_at 2)) no_nodes) z none
              ∷ if_node b x none none
              ∷ if_node b x none none
              ∷ if_node (infix_of (text "&&") a b) x z none
              ∷ []))
  unfolding walk walk_case walk_if walk_body walk_elif collapse
  outer_plain k q a b x z l sa sb sx sz =
      let body = node (expression (if_at 2)) no_nodes in
      rw (
        (sa (suc (suc (suc k))) (with_ifs q (nested a b x none z)) (up2 k l)).0,
        inner_block k q (if_node a (node (expression (if_at 1)) no_nodes) z none) b x none l sb sx
            tt,
        in_place_same a,
        walk_else_plain (suc (suc (suc k))) q a (infix_of (text "&&") a b) body x none none
            (if_node b x none none) (if_node b x none none) [] z (up2 k l) sz,
      )

  -- The new `else if`, which is at 4.
  else_if :
      (k : ℕ) (q : Processor) (i0 i1 i2 i3 : IfNode) (a : Node) (y : Nodes)
      → m ≤ k
      → Settled a
      → IsPlain y
      → walk copy (suc k) (if_at 4) (with_ifs q (i0 ∷ i1 ∷ i2 ∷ i3 ∷ if_node a y none none ∷ []))
        ≡ done
            (if_at 5)
            (with_ifs q (i0 ∷ i1 ∷ i2 ∷ i3 ∷ if_node a y none none ∷ if_node a y none none ∷ []))
  unfolding walk walk_case walk_if walk_body walk_elif walk_else
  else_if k q i0 i1 i2 i3 a y l sa (yx, sy) =
      let ifs = i0 ∷ i1 ∷ i2 ∷ i3 ∷ if_node a y none none ∷ [] in
      rw (
        (sa k (with_ifs q ifs) l).0,
        (sy k (with_ifs q ifs) l).0,
        yx,
        in_place_same a,
        (sa k (with_ifs q ifs) l).1,
      )

  -- An `else` inside becomes an `else if` on the outer condition.
  pub outer_else :
      (k : ℕ) (q : Processor) (a b : Node) (x y : Nodes) (z : Option Nodes)
      → m ≤ k
      → Settled a
      → Settled b
      → IsPlain x
      → IsPlain y
      → IsPlainElse z
      → walk copy (suc (suc (suc (suc k)))) (if_at 0) (with_ifs q (nested a b x (some y) z))
        ≡ done (if_at 3) (
            with_ifs q (
              if_node a (node (expression (if_at 2)) no_nodes) z (some 4)
              ∷ if_node b x (some y) none
              ∷ if_node b x (some y) none
              ∷ if_node (infix_of (text "&&") a b) x z (some 5)
              ∷ if_node a y none none
              ∷ if_node a y none none
              ∷ []))
  unfolding walk walk_case walk_if walk_body walk_elif collapse
  outer_else k q a b x y z l sa sb sx sy sz =
      let body = node (expression (if_at 2)) no_nodes in
      let both = infix_of (text "&&") a b in
      rw (
        (sa (suc (suc (suc k))) (with_ifs q (nested a b x (some y) z)) (up2 k l)).0,
        inner_block k q (if_node a (node (expression (if_at 1)) no_nodes) z none) b x (some y) l sb
            sx sy,
        in_place_same a,
        else_if (suc (suc k)) q (if_node a body z (some 4)) (if_node b x (some y) none)
            (if_node b x (some y) none) (if_node both x none (some 0)) a y (up1 k l) sa sy,
        walk_else_plain (suc (suc (suc k))) q a both body x (some 4) (some 5)
            (if_node b x (some y) none) (if_node b x (some y) none)
            (if_node a y none none ∷ if_node a y none none ∷ []) z (up2 k l) sz,
      )
