-- ===== src/Listener/Stack.antt =====
-- The stack and the scopes of listener/listener.go, and what an `Exit` method does with them.
use fault.Common.{ℕ, zero, suc, List, [], ◌∷◌, ◌++◌, Option, none, some, init}
use fault.Common.Text.{Text, text_key, join, split}
use fault.Common.Fallible.{◌>>=◌}
use fault.Listener.Node.{Node, identifier, definition, component, stock, flow}
use fault.Listener.Build.{Env, named}
use fault.Listener.Declarations.{get_pairs, component_pairs}
use fault.Listener.Trees.{StructKind, stock_kind, flow_kind}

-- The stack has its top in front.
pub record Listener (F : Type 0) : Type 0 where
  pub stack : List (Node F)
  pub env : Env F

module _ {F : Type 0} where
  unfoldable pub push : Node F → Listener F → Listener F
  push n l = record l { stack = n ∷ l.stack }

  abbrev pop_stack : List (Node F) → Option (Node F × List (Node F))
  pop_stack [] = none
  pop_stack (n ∷ s) = some (n, s)

  -- `none` is the panic on an empty stack.
  unfoldable pub pop : Listener F → Option (Node F × Listener F)
  pop l = pop_stack l.stack >>= λ p. some (p.0, record l { stack = p.1 })

  -- `k` nodes in the order in which they were pushed.
  unfoldable pub pop_many : ℕ → Listener F → Option (List (Node F) × Listener F)
  unfolding pop
  pop_many zero l = some ([], l)
  pop_many (suc k) l = do (n, l1) ← pop l; (ns, l2) ← pop_many k l1; some (ns ++ n ∷ [], l2)

  -- `k` pairs of nodes, the one below first.
  unfoldable pub pop_pairs : ℕ → Listener F → Option (List (Node F × Node F) × Listener F)
  unfolding pop
  pop_pairs zero l = some ([], l)
  pop_pairs (suc k) l = do
    (right, l1) ← pop l
    (left, l2) ← pop l1
    (ps, l3) ← pop_pairs k l2
    some (ps ++ (left, right) ∷ [], l3)

  -- An `Exit` method that pops no node, one, two or three, the one pushed first in front, and pushes
  -- what it makes of them.
  unfoldable pub exit0 : (Env F → Option (Node F × Env F)) → Listener F → Option (Listener F)
  exit0 make l = make l.env >>= λ r. some (record { stack = r.0 ∷ l.stack; env = r.1 })

  unfoldable pub exit1 :
      (Env F → Node F → Option (Node F × Env F)) → Listener F → Option (Listener F)
  unfolding pop exit0
  exit1 make l = pop l >>= λ p. exit0 (λ env. make env p.0) p.1

  unfoldable pub exit2 :
      (Env F → Node F → Node F → Option (Node F × Env F)) → Listener F → Option (Listener F)
  unfolding pop exit1
  exit2 make l = pop l >>= λ p. exit1 (λ env a. make env a p.0) p.1

  unfoldable pub exit3 :
      (Env F → Node F → Node F → Node F → Option (Node F × Env F))
      → Listener F
      → Option (Listener F)
  unfolding pop exit2
  exit3 make l = pop l >>= λ p. exit2 (λ env a b. make env a b p.0) p.1

  unfoldable pub exit_many :
      ℕ → (Env F → List (Node F) → Option (Node F × Env F)) → Listener F → Option (Listener F)
  unfolding pop_many exit0
  exit_many k make l = pop_many k l >>= λ p. exit0 (λ env. make env p.0) p.1

  unfoldable pub exit_pairs :
      ℕ
      → (Env F → List (Node F × Node F) → Option (Node F × Env F))
      → Listener F
      → Option (Listener F)
  unfolding pop_pairs exit0
  exit_pairs k make l = pop_pairs k l >>= λ p. exit0 (λ env. make env p.0) p.1

  -- A method that leaves the other fields alone.
  abbrev pub kept : Env F → Option (Node F) → Option (Node F × Env F)
  kept env m = m >>= λ n. some (n, env)

  -- `EnterPropFunc` and `EnterStateFunc`; their `Exit` methods put the scope back.
  abbrev pub enter_scope : Text → Env F → Env F
  enter_scope name env = record env { scope = env.scope ++ b'.' ∷ name }

  abbrev pub leave_scope : Env F → Env F
  leave_scope env = record env { scope = join b'.' (init (split b'.' env.scope)) }

  -- `EnterStructDecl`
  abbrev pub enter_struct : Text → Env F → Env F
  enter_struct name env = record env { scope = name; structscope = name }

  abbrev pub with_env : (Env F → Env F) → Listener F → Listener F
  with_env f l = record l { env = f l.env }

  -- `ExitStock` and `ExitFlow`, behind `getPairs`.
  unfoldable pub make_struct : StructKind → Env F → List (Node F × Node F) → Option (Node F × Env F)
  make_struct stock_kind env ps = get_pairs env ps >>= λ r. some (stock r.0, r.1)
  make_struct flow_kind env ps = get_pairs env ps >>= λ r. some (flow r.0, r.1)

  -- `ExitComponentDecl`
  unfoldable pub make_component_decl :
      Text → Env F → List (Node F × Node F) → Option (Node F × Env F)
  make_component_decl name env ps = do
    (pairs, env') ← get_pairs env ps
    guarded ← component_pairs pairs
    some (definition (named env' name) (component guarded), env')

  -- The methods of a property push its identifier below its value.
  unfoldable pub exit_property :
      Text → (Env F → Env F) → (Env F → Node F → Option (Node F)) → Listener F → Option (Listener F)
  unfolding pop
  exit_property name leave make l = do
    (val, l1) ← pop l
    n ← make l1.env val
    some (record { stack = n ∷ identifier (named l1.env name) ∷ l1.stack; env = leave l1.env })
