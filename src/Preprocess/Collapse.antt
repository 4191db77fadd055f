-- ===== src/Preprocess/Collapse.antt =====
-- `collapsibleIf`, `collapse`, `attachElif` and the case of `walk` for an if, on the ifs that pointers
-- lead to. The chain of an if's `else if` may be a circle, so both run on fuel.
use fault.Common.{ℕ, zero, suc, true, false, Option, none, some, same}
use fault.Common.Text.{text, text_key}
use fault.Preprocess.Tree.{
  Node, missing, parameter_call, this_of, infix_of, if_at, block, expression, instance_of,
  struct_instance, Nodes, no_nodes, node, IfNode, shown,
}
use fault.Preprocess.Processor.{
  Cmd, panicked, spent, return, ◌>>=◌, ◌>>◌, load_if, store_if, new_if,
}

-- The if that is the only statement of a block: `collapsibleIf`, and the access that follows it.
unfoldable pub single_if : Nodes → Option ℕ
single_if (node (expression (if_at a)) no_nodes) = some a
single_if ns = none

abbrev set_elif : ℕ → ℕ → Cmd (Unit {0})
set_elif a e = load_if a >>= λ i. store_if a (record i { elif = some e })

-- What `attachElif` does behind `n`, whose `else if` is given; `again` is its call of itself.
attach_behind : (again : ℕ → Cmd ℕ) → ℕ → IfNode → ℕ → Option ℕ → Cmd ℕ
unfolding shown
attach_behind again n i el none = store_if n (record i { elif = some el }) >> return n
attach_behind again n i el (some e) = do
  old ← load_if e
  new ← load_if el
  elim (same (shown old.condition) (shown new.condition)) [ true ↦ return n | false ↦ again e ]

unfoldable pub attach_elif : ℕ → (n el : ℕ) → Cmd ℕ
unfolding attach_behind
attach_elif zero n el = λ p. spent
attach_elif (suc k) n el = load_if n >>= λ i. attach_behind (λ e. attach_elif k e el) n i el i.elif

-- `if child.Alternative != nil { … }` of `collapse`, for the new if at `a`.
collapse_alternative : ℕ → ℕ → ℕ → Node → Option Nodes → Cmd (Unit {0})
unfolding attach_elif
collapse_alternative k parent a cond none = return tt
collapse_alternative k parent a cond (some alt) = do
  el ← new_if (record { condition = cond; consequence = alt; alternative = none; elif = none })
  t ← attach_elif k parent el
  set_elif a t

-- `if child.Elif != nil { … }` of `collapse`; `again` is its call of itself.
collapse_elif : (again : ℕ → Cmd ℕ) → ℕ → ℕ → ℕ → Option ℕ → Cmd (Unit {0})
unfolding attach_elif
collapse_elif again k parent a none = return tt
collapse_elif again k parent a (some e) = do el ← again e; t ← attach_elif k parent el; set_elif a t

unfoldable pub collapse : ℕ → (parent child : ℕ) → Cmd ℕ
unfolding collapse_elif collapse_alternative
collapse zero parent child = λ p. spent
collapse (suc k) parent child = do
  i ← load_if parent
  c ← load_if child
  a ← new_if (record {
    condition = infix_of (text "&&") i.condition c.condition;
    consequence = c.consequence;
    alternative = none;
    elif = none;
  })
  collapse_elif (λ e. collapse k parent e) k parent a c.elif
  collapse_alternative k parent a i.condition c.alternative
  return a

-- The node that a pointer to `n` leads to after a walk that returned `r`: most are written in place.
unfoldable pub in_place : Node → Node → Node
in_place (parameter_call id v) (this_of id' v') = parameter_call id v
in_place (instance_of id i) (struct_instance id' s ps) = instance_of id i
in_place (if_at a) (if_at b) = if_at a
in_place n r = r

abbrev pub an_expression : Node → Cmd Node
an_expression missing = λ p. panicked
an_expression n = return n

-- `n.(*ast.BlockStatement)` and `n.(*ast.IfExpression)`
abbrev pub a_block : Node → Cmd Nodes
a_block (block ns) = return ns
a_block n = λ p. panicked

abbrev an_if : Node → Cmd ℕ
an_if (if_at a) = return a
an_if n = λ p. panicked

unfoldable pub walk_body : ℕ → ℕ → Node → Nodes → Option ℕ → Cmd ℕ
unfolding collapse
walk_body k a cond body (some child) = collapse k a child
walk_body k a cond body none = do
  e ← an_expression cond
  new_if (record { condition = e; consequence = body; alternative = none; elif = none })

unfoldable pub walk_elif : (Node → Cmd Node) → ℕ → Option ℕ → Cmd (Unit {0})
walk_elif w pro none = return tt
walk_elif w pro (some e) = do r ← w (if_at e); e' ← an_if r; set_elif pro e'

-- An alternative that is an if becomes an `else if`.
flatten_else : ℕ → ℕ → ℕ → Option ℕ → Cmd (Unit {0})
unfolding attach_elif
flatten_else k pro el none = set_elif pro el
flatten_else k pro el (some e) = attach_elif k e el >>= λ t. set_elif pro t

finish_else : ℕ → ℕ → ℕ → Nodes → Option ℕ → Cmd (Unit {0})
unfolding flatten_else
finish_else k a pro body none =
    load_if pro >>= λ i. store_if pro (record i { alternative = some body })
finish_else k a pro body (some el) = do i ← load_if a; flatten_else k pro el i.elif

unfoldable pub walk_else : (Node → Cmd Node) → ℕ → ℕ → ℕ → Option Nodes → Cmd (Unit {0})
unfolding finish_else single_if
walk_else w k a pro none = return tt
walk_else w k a pro (some alt) = do
  r ← w (block alt)
  body ← a_block r
  i ← load_if a
  store_if a (record i { alternative = some body })
  finish_else k a pro body (single_if body)

-- `case *ast.IfExpression`
unfoldable pub walk_if : (Node → Cmd Node) → ℕ → ℕ → Cmd Node
unfolding in_place walk_body walk_elif walk_else single_if
walk_if w k a = do
  i ← load_if a
  cond ← w i.condition
  conseq ← w (block i.consequence)
  body ← a_block conseq
  j ← load_if a
  store_if a (record j { condition = in_place i.condition cond; consequence = body })
  pro ← walk_body k a cond body (single_if body)
  m ← load_if a
  walk_elif w pro m.elif
  walk_else w k a pro m.alternative
  return (if_at pro)
