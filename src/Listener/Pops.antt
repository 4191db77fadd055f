-- ===== src/Listener/Pops.antt =====
-- What the pops of a listener method take off the stack.
use fault.Common.{
  ℕ, zero, suc, ◌≡◌, refl, sym, ◌∙◌, ap, List, [], ◌∷◌, ◌++◌, Option, none, some, length,
}
use fault.Common.Fallible.{◌>>=◌}
use fault.Listener.Node.{Node}
use fault.Listener.Build.{Env}
use fault.Listener.Stack.{Listener, pop, pop_many, pop_pairs}

module _ {F : Type 0} where
  abbrev pub stacked : List (Node F) → List (Node F) → List (Node F)
  stacked [] s = s
  stacked (n ∷ ns) s = stacked ns (n ∷ s)

  abbrev pub stacked_pairs : List (Node F × Node F) → List (Node F) → List (Node F)
  stacked_pairs [] s = s
  stacked_pairs ((i, n) ∷ ps) s = stacked_pairs ps (n ∷ i ∷ s)

  abbrev pub with_stack : List (Node F) → Env F → Listener F
  with_stack s env = record { stack = s; env = env }

  abbrev behind {ℓ} : {A : Type ℓ} → A → List A × Listener F → Option (List A × Listener F)
  behind n y = some (y.0 ++ n ∷ [], y.1)

  abbrev pop_front : List (Node F) × Listener F → Option (List (Node F) × Listener F)
  pop_front p = pop p.1 >>= λ q. some (q.0 ∷ p.0, q.1)

  abbrev pop_front_pair :
      List (Node F × Node F) × Listener F → Option (List (Node F × Node F) × Listener F)
  pop_front_pair p = pop p.1 >>= λ q. pop q.1 >>= λ r. some ((r.0, q.0) ∷ p.0, r.1)

  pop_front-behind_on :
      (m : Option (Node F × Listener F)) (ns : List (Node F)) (n : Node F)
      → ((m >>= λ q. some (q.0 ∷ ns, q.1)) >>= behind n)
        ≡ (m >>= λ q. some (q.0 ∷ ns ++ n ∷ [], q.1))
  pop_front-behind_on none ns n = refl
  pop_front-behind_on (some q) ns n = refl

  pop_front-behind :
      (m : Option (List (Node F) × Listener F)) (n : Node F)
      → ((m >>= pop_front) >>= behind n) ≡ ((m >>= behind n) >>= pop_front)
  pop_front-behind none n = refl
  pop_front-behind (some p) n = pop_front-behind_on (pop p.1) p.0 n

  abbrev pair_over :
      List (Node F × Node F)
      → Node F
      → Node F × Listener F
      → Option (List (Node F × Node F) × Listener F)
  pair_over ps q r = some ((r.0, q) ∷ ps, r.1)

  pop_front_pair-behind_below :
      (m : Option (Node F × Listener F)) (q : Node F) (ps : List (Node F × Node F))
      (n : Node F × Node F)
      → ((m >>= pair_over ps q) >>= behind n) ≡ (m >>= pair_over (ps ++ n ∷ []) q)
  pop_front_pair-behind_below none q ps n = refl
  pop_front_pair-behind_below (some r) q ps n = refl

  pop_front_pair-behind_on :
      (m : Option (Node F × Listener F)) (ps : List (Node F × Node F)) (n : Node F × Node F)
      → ((m >>= λ q. pop q.1 >>= pair_over ps q.0) >>= behind n)
        ≡ (m >>= λ q. pop q.1 >>= pair_over (ps ++ n ∷ []) q.0)
  pop_front_pair-behind_on none ps n = refl
  pop_front_pair-behind_on (some q) ps n = pop_front_pair-behind_below (pop q.1) q.0 ps n

  pop_front_pair-behind :
      (m : Option (List (Node F × Node F) × Listener F)) (n : Node F × Node F)
      → ((m >>= pop_front_pair) >>= behind n) ≡ ((m >>= behind n) >>= pop_front_pair)
  pop_front_pair-behind none n = refl
  pop_front_pair-behind (some p) n = pop_front_pair-behind_on (pop p.1) p.0 n

  pop_pairs_first_below :
      (m : Option (Node F × Listener F)) (q : Node F)
      → (m >>= λ y. some ([], y.1) >>= behind (y.0, q)) ≡ (m >>= pair_over [] q)
  pop_pairs_first_below none q = refl
  pop_pairs_first_below (some r) q = refl

  pop_pairs_first :
      (m : Option (Node F × Listener F))
      → (m >>= λ x. pop x.1 >>= λ y. some ([], y.1) >>= behind (y.0, x.0))
        ≡ (m >>= λ q. pop q.1 >>= pair_over [] q.0)
  pop_pairs_first none = refl
  pop_pairs_first (some q) = pop_pairs_first_below (pop q.1) q.0

  pop_many_last_from :
      (k : ℕ)
      → ((l : Listener F) → pop_many (suc k) l ≡ (pop_many k l >>= pop_front))
      → (m : Option (Node F × Listener F))
      → (m >>= λ x. pop_many (suc k) x.1 >>= behind x.0)
        ≡ ((m >>= λ x. pop_many k x.1 >>= behind x.0) >>= pop_front)
  pop_many_last_from k h none = refl
  pop_many_last_from k h (some x) =
      ap (λ m. m >>= behind x.0) (h x.1) ∙ pop_front-behind (pop_many k x.1) x.0

  -- The last node pushed is popped first; all but it, and then it, makes no difference.
  pop_many_last : (k : ℕ) (l : Listener F) → pop_many (suc k) l ≡ (pop_many k l >>= pop_front)
  unfolding pop_many
  pop_many_last zero l = refl
  pop_many_last (suc k) l = pop_many_last_from k (pop_many_last k) (pop l)

  module _ (k : ℕ)
      (h : (l : Listener F) → pop_pairs (suc k) l ≡ (pop_pairs k l >>= pop_front_pair)) where
    pop_pairs_last_below :
        (n : Node F) (m : Option (Node F × Listener F))
        → (m >>= λ y. pop_pairs (suc k) y.1 >>= behind (y.0, n))
          ≡ ((m >>= λ y. pop_pairs k y.1 >>= behind (y.0, n)) >>= pop_front_pair)
    pop_pairs_last_below n none = refl
    pop_pairs_last_below n (some y) =
        ap (λ m. m >>= behind (y.0, n)) (h y.1) ∙ pop_front_pair-behind (pop_pairs k y.1) (y.0, n)

    pop_pairs_last_from :
        (m : Option (Node F × Listener F))
        → (m >>= λ x. pop x.1 >>= λ y. pop_pairs (suc k) y.1 >>= behind (y.0, x.0))
          ≡ ((m >>= λ x. pop x.1 >>= λ y. pop_pairs k y.1 >>= behind (y.0, x.0)) >>= pop_front_pair)
    pop_pairs_last_from none = refl
    pop_pairs_last_from (some x) = pop_pairs_last_below x.0 (pop x.1)

  pop_pairs_last :
      (k : ℕ) (l : Listener F) → pop_pairs (suc k) l ≡ (pop_pairs k l >>= pop_front_pair)
  unfolding pop_pairs
  pop_pairs_last zero l = pop_pairs_first (pop l)
  pop_pairs_last (suc k) l = pop_pairs_last_from k (pop_pairs_last k) (pop l)

  pub pop_many-stacked :
      (ns s : List (Node F)) (env : Env F)
      → pop_many (length ns) (with_stack (stacked ns s) env) ≡ some (ns, with_stack s env)
  unfolding pop_many
  pop_many-stacked [] s env = refl
  pop_many-stacked (n ∷ ns) s env =
      pop_many_last (length ns) (with_stack (stacked ns (n ∷ s)) env)
      ∙ ap (λ m. m >>= pop_front) (pop_many-stacked ns (n ∷ s) env)

  pub pop_pairs-stacked_pairs :
      (ps : List (Node F × Node F)) (s : List (Node F)) (env : Env F)
      → pop_pairs (length ps) (with_stack (stacked_pairs ps s) env) ≡ some (ps, with_stack s env)
  unfolding pop_pairs
  pop_pairs-stacked_pairs [] s env = refl
  pop_pairs-stacked_pairs ((i, n) ∷ ps) s env =
      pop_pairs_last (length ps) (with_stack (stacked_pairs ps (n ∷ i ∷ s)) env)
      ∙ ap (λ m. m >>= pop_front_pair) (pop_pairs-stacked_pairs ps (n ∷ i ∷ s) env)

  pub pop_many-eq :
      (k : ℕ) (ns s : List (Node F)) (env : Env F)
      → length ns ≡ k
      → pop_many k (with_stack (stacked ns s) env) ≡ some (ns, with_stack s env)
  pop_many-eq k ns s env p =
      ap (λ i. pop_many i (with_stack (stacked ns s) env)) (sym p) ∙ pop_many-stacked ns s env

  pub pop_pairs-eq :
      (k : ℕ) (ps : List (Node F × Node F)) (s : List (Node F)) (env : Env F)
      → length ps ≡ k
      → pop_pairs k (with_stack (stacked_pairs ps s) env) ≡ some (ps, with_stack s env)
  pop_pairs-eq k ps s env p =
      ap (λ i. pop_pairs i (with_stack (stacked_pairs ps s) env)) (sym p)
      ∙ pop_pairs-stacked_pairs ps s env
