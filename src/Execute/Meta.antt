-- ===== src/Execute/Meta.antt =====
-- `LoadMeta` of execute/execute.go: the branches of a conditional and the version that merges them.
use fault.Common.{
  ◌≡◌, refl, Bool, true, false, ◌&&◌, List, [], ◌∷◌, ◌++◌, some, arith, if◌then◌else◌, same_iff,
  has, last?,
}
use fault.Common.Text.{Text, text_key}
use fault.Common.Dict.{lookup, insert, lookup-insert}
use fault.Common.Int.{ℤ, pos, negsuc, ltb_ℤ, suc_ℤ, int16, int_key}
use fault.Forks.{Choice, get_fork_end_points}
use fault.Forks.Choices.{
  leb_ℤ, leb_ℤ_trans, leb_ℤ_total, leb_ℤ_refl, ceiling, ascending, last?-ascending,
}
use fault.Execute.{
  Branch, max_from, max_int16, to_branches, or_empty, load_fork, load_forks, load_meta,
}

-- The values are below the highest `int16`.
abbrev pub below_top : List ℤ → Bool
below_top [] = true
below_top (v ∷ vs) = ltb_ℤ v (pos 32767) && below_top vs

-- There is a value, they are in ascending order, and below the highest `int16`.
abbrev pub usable_values : List ℤ → Bool
usable_values [] = false
usable_values (v ∷ vs) = ascending (v ∷ vs) && below_top (v ∷ vs)

abbrev pub usable_all : List Choice → Bool
usable_all [] = true
usable_all (c ∷ cs) = usable_values c.values && usable_all cs

abbrev pub usable_fork : List (Text × List Choice) → Bool
usable_fork [] = true
usable_fork ((k, c) ∷ f) = usable_all c && usable_fork f

abbrev pub usable_forks : List (List (Text × List Choice)) → Bool
usable_forks [] = true
usable_forks (f ∷ frks) = usable_fork f && usable_forks frks

-- Every version in the trail of a branch is below its phi.
abbrev all_below : ℤ → List ℤ → Bool
all_below p [] = true
all_below p (v ∷ vs) = ltb_ℤ v p && all_below p vs

abbrev pub outranked : List Branch → Bool
outranked [] = true
outranked (b ∷ bs) = all_below b.phi b.trail && outranked bs

max_from_ge : (temp : ℤ) (nums : List ℤ) → leb_ℤ temp (max_from temp nums) ≡ true
unfolding max_from
max_from_ge temp [] = leb_ℤ_refl temp
max_from_ge temp (i ∷ nums) = ground (
  arith,
  max_from_ge (if ltb_ℤ temp i then i else temp) nums,
  leb_ℤ_total temp i,
  leb_ℤ_trans temp i (max_from i nums),
)

ceiling-max_from : (temp : ℤ) (nums : List ℤ) → ceiling (max_from temp nums) nums ≡ true
unfolding max_from
ceiling-max_from temp [] = refl
ceiling-max_from temp (i ∷ nums) = ground (
  arith,
  ceiling-max_from (if ltb_ℤ temp i then i else temp) nums,
  max_from_ge (if ltb_ℤ temp i then i else temp) nums,
  leb_ℤ_trans i temp (max_from temp nums),
)

max_from-below_top :
    (temp : ℤ) (nums : List ℤ)
    → ltb_ℤ temp (pos 32767) ≡ true
    → below_top nums ≡ true
    → ltb_ℤ (max_from temp nums) (pos 32767) ≡ true
unfolding max_from
max_from-below_top temp [] h k = h
max_from-below_top temp (i ∷ nums) h k =
    ground (arith, max_from-below_top (if ltb_ℤ temp i then i else temp) nums)

-- No `int16` overflow: the phi is above the maximum.
int16-suc :
    (m v : ℤ)
    → leb_ℤ (pos 0) m ≡ true
    → ltb_ℤ m (pos 32767) ≡ true
    → leb_ℤ v m ≡ true
    → ltb_ℤ v (int16 (suc_ℤ m)) ≡ true
int16-suc (pos m) (pos v) z t h = ground arith
int16-suc (pos m) (negsuc v) z t h = ground arith
int16-suc (negsuc m) v z t h = ground arith

all_below-ceiling :
    (m e : ℤ) (vs : List ℤ)
    → leb_ℤ (pos 0) m ≡ true
    → ltb_ℤ m (pos 32767) ≡ true
    → leb_ℤ e m ≡ true
    → ceiling e vs ≡ true
    → all_below (int16 (suc_ℤ m)) vs ≡ true
all_below-ceiling m e [] z t h c = refl
all_below-ceiling m e (v ∷ vs) z t h c =
    ground (arith, int16-suc m v, leb_ℤ_trans v e m, all_below-ceiling m e vs)

-- The ends of usable choices: each bounds the versions of its choice.
abbrev bounds : List ℤ → List Choice → Bool
bounds [] [] = true
bounds (e ∷ es) (c ∷ cs) = ceiling e c.values && bounds es cs
bounds _ _ = false

below_top-has :
    (e : ℤ) (vs : List ℤ) → below_top vs ≡ true → has e vs ≡ true → ltb_ℤ e (pos 32767) ≡ true
below_top-has e [] h k = ground arith
below_top-has e (v ∷ vs) h k = ground (arith, same_iff v e, below_top-has e vs)

end_point :
    (vs : List ℤ)
    → usable_values vs ≡ true
    → (e : ℤ) × (last? vs ≡ some e) × (ceiling e vs ≡ true) × (ltb_ℤ e (pos 32767) ≡ true)
end_point [] u = ground arith
end_point (v ∷ vs) u =
    let (e, l, m, c) = last?-ascending v vs (ground arith) in
    (e, l, c, below_top-has e (v ∷ vs) (ground arith) m)

end_points :
    (cs : List Choice)
    → usable_all cs ≡ true
    → (es : List ℤ) × (get_fork_end_points cs ≡ some es)
      × (bounds es cs ≡ true)
      × (below_top es ≡ true)
unfolding get_fork_end_points
end_points [] u = ([], refl, refl, refl)
end_points (c ∷ cs) u =
    let (e, l, b, t) = end_point c.values (ground arith) in
    let (es, l', b', t') = end_points cs (ground arith) in
    (e ∷ es, rw l (rw l' refl), ground (arith, b, b'), ground (arith, t, t'))

outranked-to_branches :
    (k : Text) (m : ℤ) (es : List ℤ) (cs : List Choice)
    → leb_ℤ (pos 0) m ≡ true
    → ltb_ℤ m (pos 32767) ≡ true
    → ceiling m es ≡ true
    → bounds es cs ≡ true
    → outranked (to_branches k m cs) ≡ true
unfolding to_branches
outranked-to_branches k m es [] z t h b = refl
outranked-to_branches k m [] (c ∷ cs) z t h b = ground arith
outranked-to_branches k m (e ∷ es) (c ∷ cs) z t h b =
    ground (arith, all_below-ceiling m e c.values z t, outranked-to_branches k m es cs z t)

-- The tree has outranked branches under every key.
abbrev Outranked : List (Text × List Branch) → Type 0
Outranked tree = (k : Text) → outranked (or_empty (lookup k tree)) ≡ true

outranked-append :
    (bs cs : List Branch) → outranked bs ≡ true → outranked cs ≡ true → outranked (bs ++ cs) ≡ true
outranked-append [] cs h k = k
outranked-append (b ∷ bs) cs h k = ground (arith, outranked-append bs cs)

-- The phi is `MaxInt16` of the ends and one.
outranked-merged :
    (k : Text) (es : List ℤ) (cs : List Choice)
    → bounds es cs ≡ true
    → below_top es ≡ true
    → outranked (to_branches k (max_int16 es) cs) ≡ true
unfolding max_int16
outranked-merged k es cs b t =
    outranked-to_branches k (max_from (pos 0) es) es cs (max_from_ge (pos 0) es)
      (max_from-below_top (pos 0) es (ground arith) t) (ceiling-max_from (pos 0) es) b

insert-Outranked :
    (k : Text) (bs : List Branch) (tree : List (Text × List Branch))
    → Outranked tree
    → outranked bs ≡ true
    → Outranked (insert k (or_empty (lookup k tree) ++ bs) tree)
insert-Outranked k bs tree o h j = ground (
  arith,
  o j,
  lookup-insert k j (or_empty (lookup k tree) ++ bs) tree,
  outranked-append (or_empty (lookup k tree)) bs (o k) h,
)

load_fork-Outranked :
    (f : List (Text × List Choice)) (tree : List (Text × List Branch))
    → usable_fork f ≡ true
    → Outranked tree
    → (tree' : List (Text × List Branch)) × (load_fork f tree ≡ some tree') × Outranked tree'
unfolding load_fork
load_fork-Outranked [] tree u o = (tree, refl, o)
load_fork-Outranked ((k, c) ∷ f) tree u o =
    let (es, e1, b, t) = end_points c (ground arith) in
    let (tree', e2, o') =
      load_fork-Outranked f
        (insert k (or_empty (lookup k tree) ++ to_branches k (max_int16 es) c) tree) (ground arith)
        (insert-Outranked k _ tree o (outranked-merged k es c b t)) in
    (tree', rw e1 e2, o')

load_forks-Outranked :
    (frks : List (List (Text × List Choice))) (tree : List (Text × List Branch))
    → usable_forks frks ≡ true
    → Outranked tree
    → (tree' : List (Text × List Branch)) × (load_forks frks tree ≡ some tree') × Outranked tree'
unfolding load_forks
load_forks-Outranked [] tree u o = (tree, refl, o)
load_forks-Outranked (f ∷ frks) tree u o =
    let (t1, e1, o1) = load_fork-Outranked f tree (ground arith) o in
    let (t2, e2, o2) = load_forks-Outranked frks t1 (ground arith) o1 in (t2, rw e1 e2, o2)

-- If every choice has a version, its versions are in ascending order and below 32767, `LoadMeta` does
-- not panic, and in every branch that it makes, the phi is above all versions of the trail.
pub load_meta-outranked :
    (frks : List (List (Text × List Choice)))
    → usable_forks frks ≡ true
    → (tree : List (Text × List Branch)) × (load_meta frks ≡ some tree)
      × ((k : Text) → outranked (or_empty (lookup k tree)) ≡ true)
unfolding load_meta lookup
load_meta-outranked frks u = load_forks-Outranked frks [] u (λ k. refl)
