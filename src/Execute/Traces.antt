-- ===== src/Execute/Traces.antt =====
-- The traces of execute/history.go as maps.
use fault.Common.{
  ◌≡◌, refl, Bool, false, ◌&&◌, ◌||◌, List, [], ◌∷◌, none, some, arith, if◌then◌else◌, same,
  same_iff, has,
}
use fault.Common.Dict.{keys, lookup-insert, lookup-erase, has-keys}
use fault.Common.Int.{ℤ, int_key}
use fault.Execute.{Branch, Trace, index, add, remove, in_trail, remove_trail, remove_phis}

-- Some branch has the phi `i`.
abbrev pub is_phi : List Branch → ℤ → Bool
is_phi [] i = false
is_phi (b ∷ bs) i = same b.phi i || is_phi bs i

module _ {V W : Type 0} where
  pub index-add :
      (t : Trace V W) (i j : ℤ) (v : V)
      → index (add t i v) j ≡ (if same i j then some v else index t j)
  unfolding index add
  index-add t i j v = lookup-insert i j v t.results

  pub index-remove :
      (t : Trace V W) (i j : ℤ) → index (remove t i) j ≡ (if same i j then none else index t j)
  unfolding index remove
  index-remove t i j = lookup-erase i j t.results

module _ {V W : Type 0} (differ : V → V → Bool) where
  index-remove_trail :
      (b : Branch) (ks : List ℤ) (t : Trace V W) (i : ℤ)
      → index (remove_trail differ b ks t) i
        ≡ (if has i ks && in_trail b i then none else index t i)
  unfolding remove_trail
  index-remove_trail b [] t i = refl
  index-remove_trail b (k ∷ ks) t i = ground (
    arith,
    index-remove_trail b ks (if in_trail b k then remove t k else t) i,
    same_iff k i,
    index-remove t k i,
  )

  -- The loop over the results removes the trail of a branch.
  pub index-remove_trail_all :
      (b : Branch) (t : Trace V W) (i : ℤ)
      → index (remove_trail differ b (keys t.results) t) i
        ≡ (if in_trail b i then none else index t i)
  unfolding index
  index-remove_trail_all b t i =
      ground (arith, index-remove_trail b (keys t.results) t i, has-keys i t.results)

  pub index-remove_phis :
      (bs : List Branch) (t : Trace V W) (i : ℤ)
      → index (remove_phis differ bs t) i ≡ (if is_phi bs i then none else index t i)
  unfolding remove_phis
  index-remove_phis [] t i = refl
  index-remove_phis (b ∷ bs) t i =
      ground (arith, index-remove_phis bs (remove t b.phi) i, index-remove t b.phi i)
