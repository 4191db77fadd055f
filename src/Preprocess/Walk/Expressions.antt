-- ===== src/Preprocess/Walk/Expressions.antt =====
-- What `walk` of preprocess/preprocess.go makes of expressions and blocks of identifiers, literals,
-- operators and indexes.
use fault.Common.{
  both, ℕ, zero, suc, ◌+◌, ◌<◌, ◌≡◌, refl, sym, ap, Bool, true, false, ◌&&◌, List, [], Option, none,
  some, arith, ◌∙◌, last?,
}
use fault.Common.Text.{Text, text_key}
use fault.Common.Dict.{of_some, lookup, is_some}
use fault.Record.{Struct}
use fault.Preprocess.Tree.{
  Node, value, identifier, infix_of, prefix, index_of, invariant, block, expression, Nodes,
  no_nodes, node, IfNode, raw_id,
}
use fault.Preprocess.Processor.{Processor, Cmd, done, or_panic}
use fault.Preprocess.Naming.{walk_identifier, walk_index}
use fault.Preprocess.Naming.Renaming.{name_of, current, walk_identifier_lem}
use fault.Preprocess.Collapse.{an_expression}
use fault.Preprocess.Walk.{walk, walk_case, walk_nodes, walk_sides, walk_inside}

abbrev id_or_none : Option (List Text) → List Text
id_or_none none = []
id_or_none (some id) = id

-- Every identifier with its name; an index has the id of what it indexes.
unfoldable mutual
  unfolding raw_id name_of

  pub rename : Processor → Node → Node
  rename p (identifier id sp v) = identifier (name_of p sp v) sp v
  rename p (infix_of op l r) = infix_of op (rename p l) (rename p r)
  rename p (invariant op l r) = invariant op (rename p l) (rename p r)
  rename p (prefix id op r) = prefix id op (rename p r)
  rename p (index_of id l i) = index_of (id_or_none (raw_id (rename p l))) (rename p l) i
  rename p (expression e) = expression (rename p e)
  rename p (block ns) = block (rename_all p ns)
  rename p n = n

  pub rename_all : Processor → Nodes → Nodes
  rename_all p no_nodes = no_nodes
  rename_all p (node n ns) = node (rename p n) (rename_all p ns)

-- The trees of literals, identifiers of known specs, operators, indexes of what has an id, and blocks.
unfoldable mutual
  unfolding raw_id lookup

  pub walkable : Processor → Node → Bool
  walkable p (value id s) = true
  walkable p (identifier id sp v) =
      is_some (lookup sp p.specs)
      && (is_some (last? p.trail) && is_some (lookup (current p) p.specs))
  walkable p (infix_of op l r) = walkable p l && walkable p r
  walkable p (invariant op l r) = walkable p l && walkable p r
  walkable p (prefix id op r) = walkable p r
  walkable p (index_of id l i) = walkable p l && is_some (raw_id l)
  walkable p (expression e) = walkable p e
  walkable p (block ns) = all_walkable p ns
  walkable p n = false

  pub all_walkable : Processor → Nodes → Bool
  all_walkable p no_nodes = true
  all_walkable p (node n ns) = walkable p n && all_walkable p ns

-- The number of nodes.
unfoldable mutual
  pub size : Node → ℕ
  size (infix_of op l r) = 1 + (size l + size r)
  size (invariant op l r) = 1 + (size l + size r)
  size (prefix id op r) = 1 + size r
  size (index_of id l i) = 1 + size l
  size (expression e) = 1 + size e
  size (block ns) = 1 + size_all ns
  size n = 1

  pub size_all : Nodes → ℕ
  size_all no_nodes = 0
  size_all (node n ns) = size n + size_all ns

-- A tree that is walked without an error is not nil.
an_expression-rename :
    (p : Processor) (n : Node)
    → walkable p n ≡ true
    → an_expression (rename p n) p ≡ done (rename p n) p
unfolding rename walkable
an_expression-rename p n h = ground arith

raw_id-rename :
    (p : Processor) (n : Node) → is_some (raw_id n) ≡ true → is_some (raw_id (rename p n)) ≡ true
unfolding rename raw_id
raw_id-rename p n h = ground arith

current_lem : (p : Processor) (cur : Text) → last? p.trail ≡ some cur → current p ≡ cur
current_lem p cur b = ground (arith, b)

module _ (copy : Struct Node → List IfNode → Option (Struct Node × List IfNode))
    (p : Processor) where
  -- The calls of a walk on trees of less than `k` nodes rename them.
  abbrev Renames : ℕ → (Node → Cmd Node) → Type 0
  Renames k w = (n : Node) → size n < k → walkable p n ≡ true → w n p ≡ done (rename p n) p

  walk_nodes-rename :
      (k : ℕ) (w : Node → Cmd Node)
      → Renames k w
      → (ns : Nodes) → size_all ns < k
      → all_walkable p ns ≡ true
      → walk_nodes copy k w ns p ≡ done (rename_all p ns) p
  unfolding walk_nodes rename_all all_walkable size_all
  walk_nodes-rename k w ih no_nodes b h = refl
  walk_nodes-rename k w ih (node n ns) b h =
      let (hn, hs) = both (walkable p n) (all_walkable p ns) h in
      rw (
        ih n (omega (arith, b)) hn,
        an_expression-rename p n hn,
        walk_nodes-rename k w ih ns (omega (arith, b)) hs,
      )

  walk_sides-rename :
      (k : ℕ) (w : Node → Cmd Node) (f : Node → Node → Node) (l r : Node)
      → Renames k w
      → size l + size r < k
      → (walkable p l && walkable p r) ≡ true
      → walk_sides copy k w f l r p ≡ done (f (rename p l) (rename p r)) p
  unfolding walk_sides
  walk_sides-rename k w f l r ih b h =
      let (hl, hr) = both (walkable p l) (walkable p r) h in
      rw (
        ih l (omega (arith, b)) hl,
        ih r (omega (arith, b)) hr,
        an_expression-rename p l hl,
        an_expression-rename p r hr,
      )

  walk_inside-rename :
      (k : ℕ) (w : Node → Cmd Node) (f : Node → Node) (n : Node)
      → Renames k w
      → size n < k
      → walkable p n ≡ true
      → walk_inside copy k w f n p ≡ done (f (rename p n)) p
  unfolding walk_inside
  walk_inside-rename k w f n ih b h = rw (ih n b h, an_expression-rename p n h)

  or_panic_id : (o : Option (List Text)) → is_some o ≡ true → or_panic o p ≡ done (id_or_none o) p
  or_panic_id none h = cc
  or_panic_id (some id) h = refl

  walk_index-rename :
      (k : ℕ) (w : Node → Cmd Node) (id : List Text) (n : Node) (i : Text)
      → Renames k w
      → size n < k
      → (walkable p n && is_some (raw_id n)) ≡ true
      → walk_index w n i p ≡ done (rename p (index_of id n i)) p
  unfolding walk_index rename
  walk_index-rename k w id n i ih b h =
      let (hn, hi) = both (walkable p n) (is_some (raw_id n)) h in
      rw (ih n b hn, or_panic_id (raw_id (rename p n)) (raw_id-rename p n hi))

  identifier-rename :
      (id : List Text) (sp v : Text)
      → walkable p (identifier id sp v) ≡ true
      → walk_identifier sp v p ≡ done (rename p (identifier id sp v)) p
  unfolding walkable rename
  identifier-rename id sp v h =
      let (h1, h2) =
        both (is_some (lookup sp p.specs))
          (is_some (last? p.trail) && is_some (lookup (current p) p.specs)) h in
      let (h3, h4) = both (is_some (last? p.trail)) (is_some (lookup (current p) p.specs)) h2 in
      let (im, a) = of_some (lookup sp p.specs) h1 in
      let (cur, b) = of_some (last? p.trail) h3 in
      let (spec, c) = of_some (lookup (current p) p.specs) h4 in
      walk_identifier_lem p sp v cur im spec a b
        (ap (λ s. lookup s p.specs) (sym (current_lem p cur b)) ∙ c)

  walk_case-rename :
      (k : ℕ) (w : Node → Cmd Node) → Renames k w → Renames (suc k) (walk_case copy k w)
  unfolding walk_case size rename walkable walk_inside
  walk_case-rename k w ih (value id s) b h = refl
  walk_case-rename k w ih (identifier id sp v) b h = identifier-rename id sp v h
  walk_case-rename k w ih (infix_of op l r) b h =
      walk_sides-rename k w (infix_of op) l r ih (omega (arith, b)) h
  walk_case-rename k w ih (invariant op l r) b h =
      walk_sides-rename k w (invariant op) l r ih (omega (arith, b)) h
  walk_case-rename k w ih (prefix id op r) b h =
      walk_inside-rename k w (prefix id op) r ih (omega (arith, b)) h
  walk_case-rename k w ih (expression e) b h =
      walk_inside-rename k w expression e ih (omega (arith, b)) h
  walk_case-rename k w ih (index_of id l i) b h =
      walk_index-rename k w id l i ih (omega (arith, b)) h
  walk_case-rename k w ih (block ns) b h = rw (walk_nodes-rename k w ih ns (omega (arith, b)) h)
  walk_case-rename k w ih n b h = cc

  -- On more fuel than it has nodes, the walk over a tree of literals, identifiers of known specs,
  -- operators, indexes of what has an id, and blocks returns: it gives every identifier the name that
  -- its place asks for and every index the id of what it indexes, and changes nothing else.
  pub walk-rename :
      (fuel : ℕ) (n : Node)
      → size n < fuel
      → walkable p n ≡ true
      → walk copy fuel n p ≡ done (rename p n) p
  unfolding walk
  walk-rename zero n b h = absurd (omega (arith, b))
  walk-rename (suc k) n b h = walk_case-rename k (walk copy k) (walk-rename k) n b h
