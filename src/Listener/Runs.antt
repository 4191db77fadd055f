-- ===== src/Listener/Runs.antt =====
-- The `Exit` methods on a stack that the walk of their children has left.
use fault.Common.{ℕ, ◌≡◌, refl, ◌∙◌, ap, List, ◌∷◌, Option, none, some, length}
use fault.Common.Fallible.{◌>>=◌, Post}
use fault.Listener.Node.{Node}
use fault.Listener.Build.{Env}
use fault.Listener.Stack.{Listener, exit0, exit1, exit2, exit3, exit_many, exit_pairs}
use fault.Listener.Denote.{give1, give2, give_many}
use fault.Listener.Pops.{stacked, stacked_pairs, with_stack, pop_many-eq, pop_pairs-eq}

module _ {F : Type 0} where
  -- The listener with one node more, with some, and with some pairs.
  abbrev pub pushed : Option (Node F × Env F) → List (Node F) → Option (Listener F)
  pushed m s = m >>= λ r. some (with_stack (r.0 ∷ s) r.1)

  abbrev pub pushed_all : Option (List (Node F) × Env F) → List (Node F) → Option (Listener F)
  pushed_all m s = m >>= λ r. some (with_stack (stacked r.0 s) r.1)

  abbrev pub pushed_pair : Option ((Node F × Node F) × Env F) → List (Node F) → Option (Listener F)
  pushed_pair m s = m >>= λ r. some (with_stack (r.0.1 ∷ r.0.0 ∷ s) r.1)

  abbrev pub pushed_pairs :
      Option (List (Node F × Node F) × Env F) → List (Node F) → Option (Listener F)
  pushed_pairs m s = m >>= λ r. some (with_stack (stacked_pairs r.0 s) r.1)

  pub exit0_lem :
      (make : Env F → Option (Node F × Env F)) (l : Listener F)
      → exit0 make l ≡ pushed (make l.env) l.stack
  unfolding exit0
  exit0_lem make l = refl

  exit1_on :
      (make : Env F → Node F → Option (Node F × Env F)) (m : Option (Node F × Env F))
      (s : List (Node F))
      → (pushed m s >>= exit1 make) ≡ pushed (m >>= λ r. give1 make r) s
  unfolding exit1
  exit1_on make none s = refl
  exit1_on make (some r) s = refl

  exit2_on :
      (make : Env F → Node F → Node F → Option (Node F × Env F)) (m : Option (Node F × Env F))
      (a : Node F) (s : List (Node F))
      → (pushed m (a ∷ s) >>= exit2 make) ≡ pushed (m >>= λ r. give2 make a r) s
  unfolding exit2
  exit2_on make none a s = refl
  exit2_on make (some r) a s = refl

  exit3_on :
      (make : Env F → Node F → Node F → Node F → Option (Node F × Env F))
      (m : Option (Node F × Env F)) (a b : Node F) (s : List (Node F))
      → (pushed m (b ∷ a ∷ s) >>= exit3 make) ≡ pushed (m >>= λ r. make r.1 a b r.0) s
  unfolding exit3
  exit3_on make none a b s = refl
  exit3_on make (some r) a b s = refl

  abbrev pub Runs : (Listener F → Option (Listener F)) → (Env F → Option (Node F × Env F)) → Type 0
  Runs w d = (l : Listener F) → w l ≡ pushed (d l.env) l.stack

  abbrev pub RunsAll :
      (Listener F → Option (Listener F)) → (Env F → Option (List (Node F) × Env F)) → Type 0
  RunsAll w d = (l : Listener F) → w l ≡ pushed_all (d l.env) l.stack

  abbrev pub RunsPairs :
      (Listener F → Option (Listener F))
      → (Env F → Option (List (Node F × Node F) × Env F))
      → Type 0
  RunsPairs w d = (l : Listener F) → w l ≡ pushed_pairs (d l.env) l.stack

  -- The computation gives `k` nodes or pairs, if any.
  abbrev pub Counted {ℓ} : {A : Type ℓ} → ℕ → (Env F → Option (List A × Env F)) → Type ℓ
  Counted k d = (env : Env F) → Post (d env) (λ r. length r.0 ≡ k)

  exit_many_on :
      (k : ℕ) (make : Env F → List (Node F) → Option (Node F × Env F))
      (m : Option (List (Node F) × Env F)) (s : List (Node F))
      → Post m (λ r. length r.0 ≡ k)
      → (pushed_all m s >>= exit_many k make) ≡ pushed (m >>= λ r. give_many make r) s
  unfolding exit_many
  exit_many_on k make none s h = refl
  exit_many_on k make (some r) s h =
      ap (λ m. m >>= λ p. exit0 (λ env. make env p.0) p.1) (pop_many-eq k r.0 s r.1 (h r refl))
      ∙ exit0_lem (λ env. make env r.0) (with_stack s r.1)

  exit_pairs_on :
      (k : ℕ) (make : Env F → List (Node F × Node F) → Option (Node F × Env F))
      (m : Option (List (Node F × Node F) × Env F)) (s : List (Node F))
      → Post m (λ r. length r.0 ≡ k)
      → (pushed_pairs m s >>= exit_pairs k make) ≡ pushed (m >>= λ r. give_many make r) s
  unfolding exit_pairs
  exit_pairs_on k make none s h = refl
  exit_pairs_on k make (some r) s h =
      ap (λ m. m >>= λ p. exit0 (λ env. make env p.0) p.1) (pop_pairs-eq k r.0 s r.1 (h r refl))
      ∙ exit0_lem (λ env. make env r.0) (with_stack s r.1)

  -- The methods, on what the walks of the children give.
  pub exit1_lem :
      (make : Env F → Node F → Option (Node F × Env F)) (w : Listener F → Option (Listener F))
      (d : Env F → Option (Node F × Env F))
      → Runs w d
      → (l : Listener F) → (w l >>= exit1 make) ≡ pushed (d l.env >>= λ r. give1 make r) l.stack
  exit1_lem make w d h l = ap (λ m. m >>= exit1 make) (h l) ∙ exit1_on make (d l.env) l.stack

  exit2_first :
      (make : Env F → Node F → Node F → Option (Node F × Env F))
      (w : Listener F → Option (Listener F)) (d : Env F → Option (Node F × Env F))
      → Runs w d
      → (m : Option (Node F × Env F)) (s : List (Node F))
      → (pushed m s >>= λ l. w l >>= exit2 make)
        ≡ pushed (m >>= λ r. d r.1 >>= λ q. give2 make r.0 q) s
  exit2_first make w d h none s = refl
  exit2_first make w d h (some r) s =
      ap (λ m. m >>= exit2 make) (h (with_stack (r.0 ∷ s) r.1)) ∙ exit2_on make (d r.1) r.0 s

  pub exit2_lem :
      (make : Env F → Node F → Node F → Option (Node F × Env F))
      (w u : Listener F → Option (Listener F)) (d e : Env F → Option (Node F × Env F))
      → Runs w d
      → Runs u e
      → (l : Listener F)
      → (w l >>= λ l1. u l1 >>= exit2 make)
        ≡ pushed (d l.env >>= λ r. e r.1 >>= λ q. give2 make r.0 q) l.stack
  exit2_lem make w u d e h k l =
      ap (λ m. m >>= λ l1. u l1 >>= exit2 make) (h l) ∙ exit2_first make u e k (d l.env) l.stack

  exit3_second :
      (make : Env F → Node F → Node F → Node F → Option (Node F × Env F))
      (w : Listener F → Option (Listener F)) (d : Env F → Option (Node F × Env F))
      → Runs w d
      → (m : Option (Node F × Env F)) (a : Node F) (s : List (Node F))
      → (pushed m (a ∷ s) >>= λ l. w l >>= exit3 make)
        ≡ pushed (m >>= λ r. d r.1 >>= λ q. make q.1 a r.0 q.0) s
  exit3_second make w d h none a s = refl
  exit3_second make w d h (some r) a s =
      ap (λ m. m >>= exit3 make) (h (with_stack (r.0 ∷ a ∷ s) r.1)) ∙ exit3_on make (d r.1) a r.0 s

  exit3_first :
      (make : Env F → Node F → Node F → Node F → Option (Node F × Env F))
      (u v : Listener F → Option (Listener F)) (e f : Env F → Option (Node F × Env F))
      → Runs u e
      → Runs v f
      → (m : Option (Node F × Env F)) (s : List (Node F))
      → (pushed m s >>= λ l. u l >>= λ l2. v l2 >>= exit3 make)
        ≡ pushed (m >>= λ r. e r.1 >>= λ p. f p.1 >>= λ q. make q.1 r.0 p.0 q.0) s
  exit3_first make u v e f h k none s = refl
  exit3_first make u v e f h k (some r) s =
      ap (λ m. m >>= λ l2. v l2 >>= exit3 make) (h (with_stack (r.0 ∷ s) r.1))
      ∙ exit3_second make v f k (e r.1) r.0 s

  pub exit3_lem :
      (make : Env F → Node F → Node F → Node F → Option (Node F × Env F))
      (w u v : Listener F → Option (Listener F)) (d e f : Env F → Option (Node F × Env F))
      → Runs w d
      → Runs u e
      → Runs v f
      → (l : Listener F)
      → (w l >>= λ l1. u l1 >>= λ l2. v l2 >>= exit3 make)
        ≡ pushed (d l.env >>= λ r. e r.1 >>= λ p. f p.1 >>= λ q. make q.1 r.0 p.0 q.0) l.stack
  exit3_lem make w u v d e f h k i l =
      ap (λ m. m >>= λ l1. u l1 >>= λ l2. v l2 >>= exit3 make) (h l)
      ∙ exit3_first make u v e f k i (d l.env) l.stack

  pub exit_many_lem :
      (k : ℕ) (make : Env F → List (Node F) → Option (Node F × Env F))
      (w : Listener F → Option (Listener F)) (d : Env F → Option (List (Node F) × Env F))
      → RunsAll w d
      → Counted k d
      → (l : Listener F)
      → (w l >>= exit_many k make) ≡ pushed (d l.env >>= λ r. give_many make r) l.stack
  exit_many_lem k make w d h c l =
      ap (λ m. m >>= exit_many k make) (h l) ∙ exit_many_on k make (d l.env) l.stack (c l.env)

  pub exit_pairs_lem :
      (k : ℕ) (make : Env F → List (Node F × Node F) → Option (Node F × Env F))
      (w : Listener F → Option (Listener F)) (d : Env F → Option (List (Node F × Node F) × Env F))
      → RunsPairs w d
      → Counted k d
      → (l : Listener F)
      → (w l >>= exit_pairs k make) ≡ pushed (d l.env >>= λ r. give_many make r) l.stack
  exit_pairs_lem k make w d h c l =
      ap (λ m. m >>= exit_pairs k make) (h l) ∙ exit_pairs_on k make (d l.env) l.stack (c l.env)
