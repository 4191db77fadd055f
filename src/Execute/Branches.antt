-- ===== src/Execute/Branches.antt =====
-- `deadBranches` of execute/format.go: the values of the branches that the solver did not take, and
-- the phis, are removed.
use fault.Common.{
  Option-cases, inl, inr, ◌≡◌, refl, Bool, true, false, not, ◌&&◌, ◌||◌, List, [], ◌∷◌, none, some,
  arith, if◌then◌else◌,
}
use fault.Common.Dict.{is_some, keys}
use fault.Common.Fallible.{◌>>=◌}
use fault.Common.Int.{ℤ, int_key}
use fault.Execute.{
  Branch, Trace, end, index, in_trail, prune, prune_all, dead_branches, remove_trail, remove_phis,
}
use fault.Execute.Traces.{is_phi, index-remove_trail_all, index-remove_phis}

-- The end and the phi of `c` are not in the trail of `b`.
abbrev pub spares : Branch → Branch → Bool
spares b c = elim (end c) [ some e ↦ not (in_trail b e) && not (in_trail b c.phi) | none ↦ false ]

abbrev pub spares_all : Branch → List Branch → Bool
spares_all b [] = true
spares_all b (c ∷ cs) = spares b c && spares_all b cs

-- No branch's trail has the end or the phi of a later one: the versions in a trail are its own.
abbrev pub separate : List Branch → Bool
separate [] = true
separate (b ∷ bs) = spares_all b bs && separate bs

module _ {V W : Type 0} (differ : V → V → Bool) where
  -- The trace has the end and the phi of the branch.
  abbrev pub present : Trace V W → Branch → Bool
  present t b = elim (end b) [
    | some e ↦ is_some (index t e) && is_some (index t b.phi)
    | none ↦ false
  ]

  abbrev pub present_all : Trace V W → List Branch → Bool
  present_all t [] = true
  present_all t (b ∷ bs) = present t b && present_all t bs

  -- The branch ends in another value than its phi: the solver did not take it.
  abbrev pub dead : Trace V W → Branch → Bool
  dead t b = elim (end b >>= λ e. index t e) [
    | some x ↦ elim (index t b.phi) [ some y ↦ differ x y | none ↦ false ]
    | none ↦ false
  ]

  -- `i` is in the trail of a branch that the solver did not take.
  abbrev pub in_dead : Trace V W → List Branch → ℤ → Bool
  in_dead t [] i = false
  in_dead t (b ∷ bs) i = dead t b && in_trail b i || in_dead t bs i

  prune_lem :
      (b : Branch) (t : Trace V W)
      → present t b ≡ true
      → (t' : Trace V W) × (prune differ b t ≡ some t')
        × ((i : ℤ) → index t' i ≡ (if dead t b && in_trail b i then none else index t i))
  unfolding prune
  prune_lem b t h = (
    if dead t b then remove_trail differ b (keys t.results) t else t,
    ground arith,
    λ i. ground (arith, index-remove_trail_all differ b t i),
  )

  -- A branch's own trail decides nothing about the branches that it spares.
  module _ (t t' : Trace V W) (b : Branch) where
    present_kept :
        (bs : List Branch)
        → ((i : ℤ) → index t' i ≡ (if dead t b && in_trail b i then none else index t i))
        → spares_all b bs ≡ true
        → present_all t bs ≡ true
        → present_all t' bs ≡ true
    present_kept [] h s p = refl
    present_kept (c ∷ cs) h s p = elim (Option-cases (end c)) [
      | inl n ↦ ground arith
      | inr (e, q) ↦ ground (arith, h e, h c.phi, present_kept cs h)
    ]

    in_dead_kept :
        (bs : List Branch) (i : ℤ)
        → ((i : ℤ) → index t' i ≡ (if dead t b && in_trail b i then none else index t i))
        → spares_all b bs ≡ true
        → in_dead t' bs i ≡ in_dead t bs i
    in_dead_kept [] i h s = refl
    in_dead_kept (c ∷ cs) i h s = elim (Option-cases (end c)) [
      | inl n ↦ ground arith
      | inr (e, q) ↦ ground (arith, h e, h c.phi, in_dead_kept cs i h)
    ]

  prune_all_lem :
      (bs : List Branch) (t : Trace V W)
      → separate bs ≡ true
      → present_all t bs ≡ true
      → (t' : Trace V W) × (prune_all differ bs t ≡ some t')
        × ((i : ℤ) → index t' i ≡ (if in_dead t bs i then none else index t i))
  unfolding prune_all
  prune_all_lem [] t s p = (t, refl, λ i. refl)
  prune_all_lem (b ∷ bs) t s p =
      let (t1, e1, h1) = prune_lem b t (ground arith) in
      let (t2, e2, h2) =
        prune_all_lem bs t1 (ground arith)
          (present_kept t t1 b bs h1 (ground arith) (ground arith)) in
      (t2, rw e1 e2, λ i. ground (arith, h1 i, h2 i, in_dead_kept t t1 b bs i h1 (ground arith)))

  -- If every branch has its end and its phi in the trace, and no trail has the end or the phi of a
  -- later branch, `deadBranches` does not panic, and what it leaves of the trace are the values that
  -- are neither a phi nor in the trail of a branch that the solver did not take.
  pub dead_branches-index :
      (bs : List Branch) (t : Trace V W)
      → separate bs ≡ true
      → present_all t bs ≡ true
      → (t' : Trace V W) × (dead_branches differ bs t ≡ some t')
        × ((i : ℤ) → index t' i ≡ (if is_phi bs i || in_dead t bs i then none else index t i))
  unfolding dead_branches
  dead_branches-index bs t s p =
      let (t1, e1, h1) = prune_all_lem bs t s p in
      (
        remove_phis differ bs t1,
        rw e1 refl,
        λ i. ground (arith, h1 i, index-remove_phis differ bs t1 i),
      )
