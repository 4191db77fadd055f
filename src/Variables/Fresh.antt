-- ===== src/Variables/Fresh.antt =====
-- Names that `AdvanceSSA` (smt/variables/variables.go) has given out are not given out again, as long
-- as an `int16` can count the assignments.
use fault.Common.{
  ℕ, suc, ◌+◌, ◌≤◌, ◌<◌, ◌≡◌, refl, ap, true, false, List, [], ◌∷◌, Option, none, some, arith, same,
  same_iff, same_refl, has, distinct, distinct-cons, length, if◌then◌else◌, Bool-cases, inl, inr,
}
use fault.Common.Dict.{lookup}
use fault.Common.Int.{ℤ, pos, negsuc}
use fault.Common.Text.{Text, text_key}
use fault.Variables.{VarData, ssa_name, advance_ssa, new_variables}
use fault.Variables.Names.{ssa_name_injective, next, advance_ssa_name, advance_ssa_at}

-- The names of the assignments to the variables `ids`, in this order.
unfoldable pub advance_all : {V : Type 0} → VarData V → List Text → List Text
advance_all vd [] = []
advance_all vd (id ∷ ids) = let (name, vd') = advance_ssa vd id in name ∷ advance_all vd' ids

-- The number of assignments that a variable has had.
abbrev rank : Option ℤ → ℕ
rank none = 0
rank (some (pos n)) = suc n
rank (some (negsuc n)) = 0

abbrev counts : {V : Type 0} → VarData V → Text → ℕ
counts vd id = rank (lookup id vd.ssa)

-- The counter of a variable with at most `n` assignments, which has not wrapped.
abbrev CountedBelow : ℕ → Option ℤ → Type 0
CountedBelow n none = Unit
CountedBelow n (some (pos k)) = k < n
CountedBelow n (some (negsuc k)) = ⊥

abbrev Within : {V : Type 0} → ℕ → VarData V → Type 0
Within n vd = (id : Text) → CountedBelow n (lookup id vd.ssa)

rank-le : (n : ℕ) (o : Option ℤ) → CountedBelow n o → rank o ≤ n
rank-le n none h = omega arith
rank-le n (some (pos k)) h = h
rank-le n (some (negsuc k)) h = absurd h

CountedBelow-suc : (n : ℕ) (o : Option ℤ) → CountedBelow n o → CountedBelow (suc n) o
CountedBelow-suc n none h = tt
CountedBelow-suc n (some (pos k)) h = omega arith
CountedBelow-suc n (some (negsuc k)) h = h

next-rank : (n : ℕ) (o : Option ℤ) → CountedBelow n o → n < 32768 → next o ≡ pos (rank o)
unfolding next
next-rank n none h k = refl
next-rank n (some (pos m)) h k = ground arith
next-rank n (some (negsuc m)) h k = absurd h

module _ {V : Type 0} (n : ℕ) (vd : VarData V) (y : Text) (h : Within n vd)
    (small : n < 32768) where
  advance_at :
      (x : Text)
      → lookup x (advance_ssa vd y).1.ssa
        ≡ (if same y x then some (pos (counts vd y)) else lookup x vd.ssa)
  advance_at x = rw (← next-rank n (lookup y vd.ssa) (h y) small) (advance_ssa_at vd y x)

  advance-name : (advance_ssa vd y).0 ≡ ssa_name y (pos (counts vd y))
  advance-name = rw (← next-rank n (lookup y vd.ssa) (h y) small) (advance_ssa_name vd y)

  advance-Within : Within (suc n) (advance_ssa vd y).1
  advance-Within x = elim (Bool-cases (same y x)) [
    | inl e ↦ rw (advance_at x, e) (omega (arith, rank-le n (lookup y vd.ssa) (h y)))
    | inr e ↦ rw (advance_at x, e) (CountedBelow-suc n (lookup x vd.ssa) (h x))
  ]

  counts-advance_mono : (x : Text) → counts vd x ≤ counts (advance_ssa vd y).1 x
  counts-advance_mono x = elim (Bool-cases (same y x)) [
    | inl e ↦ rw (advance_at x, e, (same_iff y x).0 e) (omega arith)
    | inr e ↦ rw (advance_at x, e) (omega arith)
  ]

  counts-advance_self : counts vd y < counts (advance_ssa vd y).1 y
  counts-advance_self = rw (advance_at y, same_refl y) (omega arith)

  same-advance_name :
      (x : Text) (j : ℕ)
      → j < counts vd x
      → same (ssa_name y (pos (counts vd y))) (ssa_name x (pos j)) ≡ false
  same-advance_name x j below =
      elim (Bool-cases (same (ssa_name y (pos (counts vd y))) (ssa_name x (pos j)))) [
        | inl e ↦
            let (var, num) =
              ssa_name_injective y x (pos (counts vd y)) (pos j)
                (omega (arith, rank-le n (lookup y vd.ssa) (h y)))
                (omega (arith, rank-le n (lookup x vd.ssa) (h x))) ((same_iff _ _).0 e) in
            absurd (omega (arith, ap (counts vd) var, ap (λ i. rank (some i)) num))
        | inr e ↦ e
      ]

-- A name with a number below the counter of its variable does not come again.
issued :
    {V : Type 0} (ids : List Text) (n : ℕ) (vd : VarData V) (x : Text) (j : ℕ)
    → Within n vd
    → n + length ids ≤ 32768
    → j < counts vd x
    → has (ssa_name x (pos j)) (advance_all vd ids) ≡ false
unfolding advance_all
issued [] n vd x j h small below = refl
issued (y ∷ ids) n vd x j h small below = rw (advance-name n vd y h (omega arith)) (
    rw (same-advance_name n vd y h (omega arith) x j below) (
      issued ids (suc n) (advance_ssa vd y).1 x j (advance-Within n vd y h (omega arith))
        (omega arith) (omega (arith, counts-advance_mono n vd y h (omega arith) x))))

distinct_from :
    {V : Type 0} (ids : List Text) (n : ℕ) (vd : VarData V)
    → Within n vd
    → n + length ids ≤ 32768
    → distinct (advance_all vd ids) ≡ true
unfolding advance_all
distinct_from [] n vd h small = refl
distinct_from (y ∷ ids) n vd h small = rw (advance-name n vd y h (omega arith)) (
    distinct-cons (ssa_name y (pos (counts vd y))) (advance_all (advance_ssa vd y).1 ids)
      (issued ids (suc n) (advance_ssa vd y).1 y (counts vd y)
        (advance-Within n vd y h (omega arith)) (omega arith)
        (counts-advance_self n vd y h (omega arith)))
      (distinct_from ids (suc n) (advance_ssa vd y).1 (advance-Within n vd y h (omega arith))
        (omega arith)))

-- Starting from no variables, 32,768 assignments or fewer, in any order and to any variables, all
-- get different names.
pub advance_all-distinct :
    (V : Type 0) (ids : List Text)
    → length ids ≤ 32768
    → distinct (advance_all (new_variables {V = V}) ids) ≡ true
unfolding new_variables lookup
advance_all-distinct V ids small = distinct_from ids 0 new_variables (λ id. tt) (omega arith)
