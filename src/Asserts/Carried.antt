-- ===== src/Asserts/Carried.antt =====
-- `mergeByRound` of smt/asserts.go on two different variables: a round in which one of them has no
-- state carries its last one on.
use fault.Common.{
  ℕ, zero, suc, ◌+◌, ◌≡◌, ◌≢◌, refl, sym, ap, ◌∙◌, Bool, true, false, not, ◌&&◌, List, [], ◌∷◌,
  ◌++◌, Option, none, some, if◌then◌else◌, same, leb, ltb, last?, last?-cons, nat_key, ◌==◌, All,
  arith,
}
use fault.Common.Text.{Text, text, text_key}
use fault.Common.Dict.{lookup, insert, lookup-insert}
use fault.Common.Fallible.{◌>>=◌}
use fault.Util.{pair_combinations}
use fault.Util.Pairs.{IsPair, pair_combinations-IsPair}
use fault.Asserts.{package_state_graph, package_row}
use fault.Asserts.Merge.{
  Rounds, States, invalid_base, chosen, states_in, mixed_rounds, merge_by_round, merged_states,
}

abbrev last_of : List Text → List Text
last_of l = elim (last? l) [ some x ↦ x ∷ [] | none ↦ [] ]

abbrev or_else : Option (List Text) → List Text → List Text
or_else (some l) d = l
or_else none d = d

-- The states of a variable in a round: its own, or the last state of the latest round before that has
-- one, or its first version.
unfoldable pub latest : States → ℕ → List Text
unfolding lookup
latest s zero = or_else (lookup 0 s.states) ((s.base ++ text "_0") ∷ [])
latest s (suc i) = or_else (lookup (suc i) s.states) (last_of (latest s i))

-- A variable has a name, and no round of it is empty.
abbrev pub IsSound : States → Type 0
IsSound s = (invalid_base s.base ≡ false) × All (λ p. p.1 ≢ []) s.states

some-inj : {x y : List Text} → some x ≡ some y → x ≡ y
some-inj e = cc

own_or_rest :
    (b : Bool) (v : List Text) (o : Option (List Text)) {l : List Text}
    → v ≢ []
    → (o ≡ some l → l ≢ [])
    → (if b then some v else o) ≡ some l
    → l ≢ []
own_or_rest true v o h k e z = h (some-inj e ∙ z)
own_or_rest false v o h k e z = k e z

lookup-nonempty :
    (m : Rounds) (i : ℕ) → All (λ p. p.1 ≢ []) m → (l : List Text) → lookup i m ≡ some l → l ≢ []
unfolding lookup
lookup-nonempty [] i h l e = cc
lookup-nonempty ((j, v) ∷ m) i h l e =
    own_or_rest (same j i) v (lookup i m) h.0 (lookup-nonempty m i h.1 l) e

abbrev before : States → ℕ → Option (List Text)
before s zero = none
before s (suc i) = some (last_of (latest s i))

package_row-pair : (a b op : Text) → (s : Text) × (package_row op (a ∷ b ∷ []) ≡ some s)
unfolding package_row
package_row-pair a b op = (_, refl)

row_then :
    (m : Option Text) (n : Option (List Text)) {s : Text} {fs : List Text}
    → m ≡ some s
    → n ≡ some fs
    → (m >>= λ s. n >>= λ fs. some (s ∷ fs)) ≡ some (s ∷ fs)
row_then m n p q = rw p rw q refl

package_state_graph-pairs :
    (x : List (List Text)) (op : Text)
    → All IsPair x
    → (fs : List Text) × (package_state_graph x op ≡ some fs)
unfolding package_state_graph
package_state_graph-pairs [] op h = ([], refl)
package_state_graph-pairs (row ∷ x) op h =
    let (fs, e) = package_state_graph-pairs x op h.1 in
    let (a, b, p) = h.0 in
    let (s, q) = package_row-pair a b op in
    (
      s ∷ fs,
      ap (λ t. package_state_graph (t ∷ x) op) p
          ∙ row_then (package_row op (a ∷ b ∷ [])) (package_state_graph x op) q e,
    )

chosen_first :
    (o : Option (List Text)) (base : Text)
    → invalid_base base ≡ false
    → chosen o none base ≡ some (or_else o ((base ++ text "_0") ∷ []))
chosen_first (some l) base h = refl
chosen_first none base h = rw h refl

chosen_later :
    (o : Option (List Text)) (l : List Text) (base : Text)
    → chosen o (some l) base ≡ some (or_else o l)
chosen_later (some l') l base = refl
chosen_later none l base = refl

last?-nonempty : (l : List Text) → l ≢ [] → (x : Text) × (last? l ≡ some x)
last?-nonempty [] h = absurd (h refl)
last?-nonempty (y ∷ ys) h = last?-cons y ys

last?-or_else :
    (o : Option (List Text)) (d : List Text)
    → ((l : List Text) → o ≡ some l → l ≢ [])
    → (x : Text) × (last? d ≡ some x)
    → (x : Text) × (last? (or_else o d) ≡ some x)
last?-or_else (some l) d h e = last?-nonempty l (h l refl)
last?-or_else none d h e = e

last_of_lem : (l : List Text) (x : Text) → last? l ≡ some x → last_of l ≡ x ∷ []
last_of_lem l x e = rw (e, last_of) refl

module _ (s : States) (sound : IsSound s) where
  states_in-latest : (i : ℕ) → states_in s i (before s i) ≡ some (latest s i)
  unfolding states_in latest
  states_in-latest zero = chosen_first (lookup 0 s.states) s.base sound.0
  states_in-latest (suc i) = chosen_later (lookup (suc i) s.states) (last_of (latest s i)) s.base

  latest-last? : (i : ℕ) → (x : Text) × (last? (latest s i) ≡ some x)
  unfolding latest
  latest-last? zero =
      last?-or_else (lookup 0 s.states) ((s.base ++ text "_0") ∷ [])
        (lookup-nonempty s.states 0 sound.1) (_, refl)
  latest-last? (suc i) =
      let (x, e) = latest-last? i in
      last?-or_else (lookup (suc i) s.states) (last_of (latest s i))
        (lookup-nonempty s.states (suc i) sound.1) (x, ap last? (last_of_lem (latest s i) x e))

abbrev formulas : States → States → Text → ℕ → Option (List Text)
formulas left right op i =
    package_state_graph (pair_combinations (latest left i) (latest right i)) op

round_case :
    (k i j : ℕ) (x y o : Option (List Text))
    → (i ≡ j → x ≡ y)
    → (if leb (suc i) j && ltb j (k + suc i) then x else if i == j then y else o)
      ≡ (if leb i j && ltb j (suc k + i) then x else o)
round_case k i j x y o h = ground (arith, h)

module _ (left right : States) (op : Text) (l : IsSound left) (r : IsSound right) where
  one_round :
      (k i : ℕ) (st : Rounds) (fs : List Text)
      → formulas left right op i ≡ some fs
      → mixed_rounds (suc k) i left right (before left i) (before right i) op st
        ≡ mixed_rounds k
            (suc i)
            left
            right
            (before left (suc i))
            (before right (suc i))
            op
            (insert i fs st)
  unfolding mixed_rounds
  one_round k i st fs e =
      let (x, p) = latest-last? left l i in
      let (y, q) = latest-last? right r i in
      rw (last_of_lem (latest left i) x p) rw (last_of_lem (latest right i) y q) rw
        (states_in-latest left l i, mixed_rounds) rw (states_in-latest right r i) rw e rw p rw q
        refl

  rounds_merged :
      (k i : ℕ) (st : Rounds)
      → (m : Rounds) × (mixed_rounds k i left right (before left i) (before right i) op st ≡ some m)
        × ((j : ℕ)
            → lookup j m
              ≡ (if leb i j && ltb j (k + i) then formulas left right op j else lookup j st))
  unfolding mixed_rounds
  rounds_merged zero i st = (st, refl, λ j. ground arith)
  rounds_merged (suc k) i st =
      let (fs, e) =
        package_state_graph-pairs (pair_combinations (latest left i) (latest right i)) op
          (pair_combinations-IsPair (latest left i) (latest right i)) in
      let (m, p, h) = rounds_merged k (suc i) (insert i fs st) in
      (
        m,
        one_round k i st fs e ∙ p,
        λ j.
            h j
            ∙ ap (λ o. if leb (suc i) j && ltb j (k + suc i) then formulas left right op j else o)
                (lookup-insert i j fs st)
            ∙ round_case k i j (formulas left right op j) (some fs) (lookup j st)
                (λ a. ap (formulas left right op) (sym a) ∙ e),
      )

otherwise :
    {a b c d e : Bool} (u v w x y z : Option States)
    → a ≡ false
    → b ≡ false
    → c ≡ false
    → d ≡ false
    → e ≡ false
    → (if a then u else if b then v else if c then w else if d then x else if e then y else z) ≡ z
otherwise u v w x y z p q r s t = rw p rw q rw r rw s rw t refl

up_to_last :
    (n j : ℕ) (x : Option (List Text))
    → (if leb 0 j && ltb j (suc n + 0) then x else lookup j []) ≡ (if leb j n then x else none)
unfolding lookup
up_to_last n j x = ground arith

-- On two different variables that are no constants, not both plain variables, each with a name and no
-- empty round, `mergeByRound` does not panic: each round up to the last has the formulas of all
-- pairs of the states that the two variables have there, where a variable with no state in a round
-- keeps the last one before; no other round has any.
pub merge_by_round-latest :
    (rounds : ℕ) (round_vars : List (List (List Text))) (left right : States) (op : Text)
    → IsSound left
    → IsSound right
    → left.constant ≡ false
    → right.constant ≡ false
    → same left.base right.base ≡ false
    → (left.terminal && right.terminal) ≡ false
    → (m : States) × (merge_by_round rounds round_vars left right op ≡ some m)
      × ((j : ℕ)
          → lookup j m.states ≡ (
              if leb j rounds
              then package_state_graph (pair_combinations (latest left j) (latest right j)) op
              else none))
unfolding merge_by_round
merge_by_round-latest rounds round_vars left right op l r c d b t =
    let (m, p, h) = rounds_merged left right op l r (suc rounds) 0 [] in
    (
      merged_states [] m,
      otherwise _ _ _ _ _ _ (ap (λ x. x && right.constant) c)
            (ap (λ x. x && not (same left.base [])) b) c d t
          ∙ ap (λ o. o >>= λ st. some (merged_states [] st)) p,
      λ j. h j ∙ up_to_last rounds j (formulas left right op j),
    )
