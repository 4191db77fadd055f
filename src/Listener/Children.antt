-- ===== src/Listener/Children.antt =====
-- The methods of properties and of several children, on a stack that the walk of the children has left.
use fault.Common.{ℕ, ◌≡◌, refl, ◌∙◌, ap, List, ◌∷◌, Option, none, some, length}
use fault.Common.Text.{Text}
use fault.Common.Fallible.{◌>>=◌, Post}
use fault.Listener.Node.{Node, identifier}
use fault.Listener.Build.{Env}
use fault.Listener.Stack.{Listener, pop_many, exit1, exit_property, with_env}
use fault.Listener.Denote.{give_property}
use fault.Listener.Build.{named}
use fault.Listener.Pops.{with_stack, pop_many-eq}
use fault.Listener.Runs.{
  pushed, pushed_all, pushed_pair, pushed_pairs, Runs, RunsAll, RunsPairs, Counted,
}

module _ {F : Type 0} where
  exit_property_on :
      (name : Text) (leave : Env F → Env F) (make : Env F → Node F → Option (Node F))
      (r : Node F × Env F) (s : List (Node F)) (m : Option (Node F))
      → (m >>= λ n. some (with_stack (n ∷ identifier (named r.1 name) ∷ s) (leave r.1)))
        ≡ pushed_pair (m >>= λ n. some ((identifier (named r.1 name), n), leave r.1)) s
  exit_property_on name leave make r s none = refl
  exit_property_on name leave make r s (some n) = refl

  exit_property_run :
      (name : Text) (leave : Env F → Env F) (make : Env F → Node F → Option (Node F))
      (m : Option (Node F × Env F)) (s : List (Node F))
      → (pushed m s >>= exit_property name leave make)
        ≡ pushed_pair (m >>= λ r. give_property name leave make r) s
  unfolding exit_property
  exit_property_run name leave make none s = refl
  exit_property_run name leave make (some r) s = exit_property_on name leave make r s (make r.1 r.0)

  pub exit_property_lem :
      (name : Text) (leave : Env F → Env F) (make : Env F → Node F → Option (Node F))
      (w : Listener F → Option (Listener F)) (d : Env F → Option (Node F × Env F))
      (g : Env F → Env F)
      → Runs w d
      → (l : Listener F)
      → (w (with_env g l) >>= exit_property name leave make)
        ≡ pushed_pair (d (g l.env) >>= λ r. give_property name leave make r) l.stack
  exit_property_lem name leave make w d g h l =
      ap (λ m. m >>= exit_property name leave make) (h (with_env g l))
      ∙ exit_property_run name leave make (d (g l.env)) l.stack

  access_on :
      (k : ℕ) (make : Env F → Node F → List (Node F) → Option (Node F × Env F))
      (m : Option (List (Node F) × Env F)) (a : Node F) (s : List (Node F))
      → Post m (λ r. length r.0 ≡ k)
      → (pushed_all m (a ∷ s) >>= λ l. pop_many k l >>= λ p. exit1 (λ env a. make env a p.0) p.1)
        ≡ pushed (m >>= λ r. make r.1 a r.0) s
  unfolding exit1
  access_on k make none a s h = refl
  access_on k make (some r) a s h =
      ap (λ m. m >>= λ p. exit1 (λ env a. make env a p.0) p.1)
        (pop_many-eq k r.0 (a ∷ s) r.1 (h r refl))

  access_first :
      (k : ℕ) (make : Env F → Node F → List (Node F) → Option (Node F × Env F))
      (w : Listener F → Option (Listener F)) (d : Env F → Option (List (Node F) × Env F))
      → RunsAll w d
      → Counted k d
      → (m : Option (Node F × Env F)) (s : List (Node F))
      → (pushed m s >>= λ l.
          w l >>= λ l2. pop_many k l2 >>= λ p. exit1 (λ env a. make env a p.0) p.1)
        ≡ pushed (m >>= λ r. d r.1 >>= λ q. make q.1 r.0 q.0) s
  access_first k make w d h c none s = refl
  access_first k make w d h c (some r) s =
      ap (λ m. m >>= λ l2. pop_many k l2 >>= λ p. exit1 (λ env a. make env a p.0) p.1)
        (h (with_stack (r.0 ∷ s) r.1))
      ∙ access_on k make (d r.1) r.0 s (c r.1)

  pub access_lem :
      (k : ℕ) (make : Env F → Node F → List (Node F) → Option (Node F × Env F))
      (w u : Listener F → Option (Listener F)) (d : Env F → Option (Node F × Env F))
      (e : Env F → Option (List (Node F) × Env F))
      → Runs w d
      → RunsAll u e
      → Counted k e
      → (l : Listener F)
      → (w l >>= λ l1. u l1 >>= λ l2. pop_many k l2 >>= λ p. exit1 (λ env a. make env a p.0) p.1)
        ≡ pushed (d l.env >>= λ r. e r.1 >>= λ q. make q.1 r.0 q.0) l.stack
  access_lem k make w u d e h i c l =
      ap
        (λ m. m >>= λ l1. u l1 >>= λ l2. pop_many k l2 >>= λ p. exit1 (λ env a. make env a p.0) p.1)
        (h l)
      ∙ access_first k make u e i c (d l.env) l.stack

  all_rest :
      (m : Option (List (Node F) × Env F)) (a : Node F) (s : List (Node F))
      → pushed_all m (a ∷ s) ≡ pushed_all (m >>= λ q. some (a ∷ q.0, q.1)) s
  all_rest none a s = refl
  all_rest (some r) a s = refl

  all_first :
      (w : Listener F → Option (Listener F)) (d : Env F → Option (List (Node F) × Env F))
      → RunsAll w d
      → (m : Option (Node F × Env F)) (s : List (Node F))
      → (pushed m s >>= w) ≡ pushed_all (m >>= λ r. d r.1 >>= λ q. some (r.0 ∷ q.0, q.1)) s
  all_first w d h none s = refl
  all_first w d h (some r) s = h (with_stack (r.0 ∷ s) r.1) ∙ all_rest (d r.1) r.0 s

  pub all_lem :
      (w u : Listener F → Option (Listener F)) (d : Env F → Option (Node F × Env F))
      (e : Env F → Option (List (Node F) × Env F))
      → Runs w d
      → RunsAll u e
      → (l : Listener F)
      → (w l >>= u) ≡ pushed_all (d l.env >>= λ r. e r.1 >>= λ q. some (r.0 ∷ q.0, q.1)) l.stack
  all_lem w u d e h k l = ap (λ m. m >>= u) (h l) ∙ all_first u e k (d l.env) l.stack

  abbrev pub RunsPair :
      (Listener F → Option (Listener F)) → (Env F → Option ((Node F × Node F) × Env F)) → Type 0
  RunsPair w d = (l : Listener F) → w l ≡ pushed_pair (d l.env) l.stack

  pairs_rest :
      (m : Option (List (Node F × Node F) × Env F)) (p : Node F × Node F) (s : List (Node F))
      → pushed_pairs m (p.1 ∷ p.0 ∷ s) ≡ pushed_pairs (m >>= λ q. some (p ∷ q.0, q.1)) s
  pairs_rest none p s = refl
  pairs_rest (some r) p s = refl

  pairs_first :
      (w : Listener F → Option (Listener F)) (d : Env F → Option (List (Node F × Node F) × Env F))
      → RunsPairs w d
      → (m : Option ((Node F × Node F) × Env F)) (s : List (Node F))
      → (pushed_pair m s >>= w) ≡ pushed_pairs (m >>= λ r. d r.1 >>= λ q. some (r.0 ∷ q.0, q.1)) s
  pairs_first w d h none s = refl
  pairs_first w d h (some r) s = h (with_stack (r.0.1 ∷ r.0.0 ∷ s) r.1) ∙ pairs_rest (d r.1) r.0 s

  pub pairs_lem :
      (w u : Listener F → Option (Listener F)) (d : Env F → Option ((Node F × Node F) × Env F))
      (e : Env F → Option (List (Node F × Node F) × Env F))
      → RunsPair w d
      → RunsPairs u e
      → (l : Listener F)
      → (w l >>= u) ≡ pushed_pairs (d l.env >>= λ r. e r.1 >>= λ q. some (r.0 ∷ q.0, q.1)) l.stack
  pairs_lem w u d e h k l = ap (λ m. m >>= u) (h l) ∙ pairs_first u e k (d l.env) l.stack
