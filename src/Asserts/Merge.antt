-- ===== src/Asserts/Merge.antt =====
-- smt/asserts.go: the states of the two sides of an operator, joined round by round.
use fault.Common.{
  ℕ, zero, suc, Bool, true, false, not, ◌&&◌, List, [], ◌∷◌, ◌++◌, Option, none, some,
  if◌then◌else◌, length, same, has, leb, last?, get_elem?, nat_key,
}
use fault.Common.Text.{Text, text, text_key, join}
use fault.Common.Dict.{lookup, insert}
use fault.Common.Fallible.{◌>>=◌}
use fault.Util.{pair_combinations}
use fault.Asserts.{package_state_graph, write_assertless_rule, parens}

-- The formulas of each round.
abbrev pub Rounds : Type 0
Rounds = List (ℕ × List Text)

-- `rules.States`
pub record States : Type 0 where
  pub terminal : Bool
  pub base : Text
  pub states : Rounds
  pub constant : Bool

unfoldable pub invalid_base : Text → Bool
invalid_base base =
    has base (text "__string" ∷ text "__bool" ∷ text "__float" ∷ text "__int" ∷ text "" ∷ [])

unfoldable pub merge_pairs : Text → Text → (left_lead : Bool) → List Text
merge_pairs l r left_lead = if left_lead then l ∷ r ∷ [] else r ∷ l ∷ []

-- What the longer side is paired with at `idx`: the same state, or the last one. With no states in the
-- round `slast` is nil, and its last element a panic, as that of an empty slice.
unfoldable pub partner : Option (List Text) → ℕ → Option Text
partner none idx = none
partner (some sstates) idx = elim (get_elem? sstates idx) [ some s ↦ some s | none ↦ last? sstates ]

-- The pairs of one round, from the index on.
unfoldable pub pair_round :
    (long : List Text) → Option (List Text) → ℕ → Bool → Option (List (List Text))
unfolding partner merge_pairs
pair_round [] short idx left_lead = some []
pair_round (s ∷ ss) short idx left_lead = do
  r ← partner short idx
  pairs ← pair_round ss short (suc idx) left_lead
  some (merge_pairs s r left_lead ∷ pairs)

-- `m[i]` of a map of slices.
abbrev pub at_round : ℕ → Rounds → List Text
at_round i m = elim (lookup i m) [ some l ↦ l | none ↦ [] ]

-- `k` rounds from `i` on, on states of one base.
unfoldable pub same_base_rounds :
    ℕ → ℕ → (long short : Rounds) → Bool → Text → Rounds → Option Rounds
unfolding lookup insert package_state_graph pair_round
same_base_rounds zero i long short lead op st = some st
same_base_rounds (suc k) i long short lead op st = do
  pairs ← pair_round (at_round i long) (lookup i short) 0 lead
  s ← package_state_graph pairs op
  same_base_rounds k (suc i) long short lead op (insert i s st)

-- `balance`, `k` rounds from `i` on: a constant with each round that the variable has.
unfoldable pub balance : ℕ → ℕ → (vr con : Rounds) → Text → Rounds → Option Rounds
unfolding lookup insert package_state_graph pair_combinations
balance zero i vr con op ret = some ret
balance (suc k) i vr con op ret = elim (lookup i vr) [
  | some v ↦ package_state_graph (pair_combinations v (at_round 0 con)) op >>= λ s.
      balance k (suc i) vr con op (insert i s ret)
  | none ↦ balance k (suc i) vr con op ret
]

-- The last names of both sides, and the pairs found, of `termCombos`. `vr[0]` of nothing is a panic.
pub record Combos : Type 0 where
  pub llast : Text
  pub rlast : Text
  pub found : List (List Text)

abbrev pub add_combo : Bool → Combos → Combos
add_combo b c = if b then record c { found = c.found ++ (c.llast ∷ c.rlast ∷ []) ∷ [] } else c

unfoldable pub term_combo : (lbase rbase : Text) → List Text → Combos → Option Combos
term_combo lbase rbase [] c = none
term_combo lbase rbase (v ∷ vr) c =
    let name = join b'_' (v ∷ vr) in
    let c1 : Combos = if same v lbase then record c { llast = name } else c in
    let c2 = add_combo (same v lbase && not (same c1.rlast [])) c1 in
    let c3 : Combos = if same v rbase then record c2 { rlast = name } else c2 in
    some (add_combo (same v rbase && not (same c3.llast [])) c3)

unfoldable pub term_round : (lbase rbase : Text) → List (List Text) → Combos → Option Combos
unfolding term_combo
term_round lbase rbase [] c = some c
term_round lbase rbase (vr ∷ rounds) c =
    term_combo lbase rbase vr c >>= term_round lbase rbase rounds

-- The combinations of each round packed as they come.
unfoldable pub terminal_rounds :
    (lbase rbase : Text) → ℕ → List (List (List Text)) → Combos → Text → Rounds → Option Rounds
unfolding term_round insert package_state_graph
terminal_rounds lbase rbase i [] c op st = some st
terminal_rounds lbase rbase i (rounds ∷ rest) c op st = do
  c1 ← term_round lbase rbase rounds (record c { found = [] })
  s ← package_state_graph c1.found op
  terminal_rounds lbase rbase (suc i) rest c1 op (insert i s st)

-- The states of a side in a round: its own, or the last of the rounds before, or the first version.
abbrev pub chosen : (own last : Option (List Text)) → Text → Option (List Text)
chosen (some l) last base = some l
chosen none (some l) base = some l
chosen none none base = if invalid_base base then none else some ((base ++ text "_0") ∷ [])

unfoldable pub states_in : States → ℕ → Option (List Text) → Option (List Text)
unfolding lookup invalid_base
states_in s i last = chosen (lookup i s.states) last s.base

-- `k` rounds from `i` on, on two sides with different bases. `l[len(l)-1:]` panics on no states.
unfoldable pub mixed_rounds :
    ℕ
    → ℕ
    → (left right : States) → (llast rlast : Option (List Text)) → Text
    → Rounds
    → Option Rounds
unfolding insert package_state_graph pair_combinations states_in
mixed_rounds zero i left right llast rlast op st = some st
mixed_rounds (suc k) i left right llast rlast op st = do
  l ← states_in left i llast
  r ← states_in right i rlast
  s ← package_state_graph (pair_combinations l r) op
  l' ← last? l
  r' ← last? r
  mixed_rounds k (suc i) left right (some (l' ∷ [])) (some (r' ∷ [])) op (insert i s st)

abbrev pub merged_states : Text → Rounds → States
merged_states base st = record { terminal = false; base = base; states = st; constant = false }

-- `mergeByRound` with the rounds and the variables of each round of the generator.
unfoldable pub merge_by_round :
    (rounds : ℕ)
    → (round_vars : List (List (List Text))) → (left right : States) → Text
    → Option States
unfolding insert package_state_graph pair_combinations same_base_rounds balance terminal_rounds
    mixed_rounds
merge_by_round rounds round_vars left right op =
    if left.constant && right.constant
    then (package_state_graph (pair_combinations (at_round 0 left.states) (at_round 0 right.states))
          op
        >>= λ s. some (merged_states [] (insert 0 s [])))
    else if same left.base right.base && not (same left.base [])
    then ((if leb (length right.states) (length left.states)
          then same_base_rounds (suc rounds) 0 left.states right.states true op []
          else same_base_rounds (suc rounds) 0 right.states left.states false op [])
        >>= λ st. some (merged_states left.base st))
    else if left.constant
    then (balance (suc rounds) 0 right.states left.states op [] >>= λ st.
        some (merged_states right.base st))
    else if right.constant
    then (balance (suc rounds) 0 left.states right.states op [] >>= λ st.
        some (merged_states left.base st))
    else if left.terminal && right.terminal
    then (terminal_rounds left.base right.base 0 round_vars
          (record { llast = []; rlast = []; found = [] }) op []
        >>= λ st. some (merged_states [] st))
    else (mixed_rounds (suc rounds) 0 left right none none op [] >>= λ st.
        some (merged_states [] st))

-- `mergeInvariantInfix`: each state of the left side with each of the right one.
unfoldable pub merge_with :
    ℕ → List (List (List Text)) → States → List States → Text → Option (List States)
unfolding merge_by_round
merge_with rounds round_vars l [] op = some []
merge_with rounds round_vars l (r ∷ rs) op = do
  state ← merge_by_round rounds round_vars l r op
  rest ← merge_with rounds round_vars l rs op
  some (state ∷ rest)

unfoldable pub merge_invariant_infix :
    ℕ → List (List (List Text)) → (left right : List States) → Text → Option (List States)
unfolding merge_with
merge_invariant_infix rounds round_vars [] right op = some []
merge_invariant_infix rounds round_vars (l ∷ left) right op = do
  states ← merge_with rounds round_vars l right op
  rest ← merge_invariant_infix rounds round_vars left right op
  some (states ++ rest)

-- `flattenStates`: the formulas of all wraps, by wrap and by round.
abbrev wrap_rounds : ℕ → ℕ → Rounds → List Text
wrap_rounds zero i m = []
wrap_rounds (suc k) i m = at_round i m ++ wrap_rounds k (suc i) m

unfoldable pub flatten_states : ℕ → List States → List Text
unfolding lookup
flatten_states rounds [] = []
flatten_states rounds (w ∷ ws) = wrap_rounds (suc rounds) 0 w.states ++ flatten_states rounds ws

unfoldable pub join_states : ℕ → List States → Text → Text
unfolding flatten_states write_assertless_rule
join_states rounds ws op = elim (flatten_states rounds ws) [
  | a ∷ [] ↦ a
  | asserts ↦ write_assertless_rule op (join b' ' asserts) (text "")
]

-- `mergeInvariantPrefix`: what `%s` prints of a slice stands in brackets.
abbrev prefixed : ℕ → ℕ → Rounds → Text → Rounds → Rounds
prefixed zero i m op st = st
prefixed (suc k) i m op st = elim (lookup i m) [
  | some s ↦
      prefixed k (suc i) m op (insert i (parens op (b'[' ∷ join b' ' s ++ b']' ∷ []) ∷ []) st)
  | none ↦ prefixed k (suc i) m op st
]

unfoldable pub merge_invariant_prefix : ℕ → List States → Text → List States
unfolding lookup insert
merge_invariant_prefix rounds [] op = []
merge_invariant_prefix rounds (r ∷ right) op =
    record r { states = prefixed (suc rounds) 0 r.states op [] }
    ∷ merge_invariant_prefix rounds right op
