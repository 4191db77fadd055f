-- ===== src/Asserts/Gaps.antt =====
-- `mergeByRound` of smt/asserts.go on one variable, with a round that the shorter side lacks.
use fault.Common.{
  ℕ, zero, suc, ◌+◌, ◌≤◌, ◌<◌, ◌≡◌, refl, ap, ◌∙◌, Bool, true, false, not, ◌&&◌, List, [], ◌∷◌,
  Option, none, some, if◌then◌else◌, length, same, leb, nat_key, arith, Bool-cases, ==_iff, ◌==◌,
  ◌⊎◌, inl, inr,
}
use fault.Common.Text.{Text, text_key}
use fault.Common.Dict.{lookup, insert}
use fault.Common.Fallible.{◌>>=◌}
use fault.Asserts.{package_state_graph}
use fault.Asserts.Merge.{Rounds, States, at_round, pair_round, same_base_rounds, merge_by_round}

pair_round-missing :
    (long : List Text) {s : Text} {ss : List Text} (idx : ℕ) (lead : Bool)
    → long ≡ s ∷ ss
    → pair_round long none idx lead ≡ none
unfolding pair_round
pair_round-missing [] idx lead h = cc
pair_round-missing (s ∷ ss) idx lead h = refl

bind_none :
    {A B : Type 0} (m : Option A) (f : A → Option B) → ((a : A) → f a ≡ none) → (m >>= f) ≡ none
bind_none none f h = refl
bind_none (some a) f h = h a

module _ (long short : Rounds) (j : ℕ) {s : Text} {ss : List Text} (h : at_round j long ≡ s ∷ ss)
    (n : lookup j short ≡ none) where
  gap_here :
      (i : ℕ) (lead : Bool) → i ≡ j → pair_round (at_round i long) (lookup i short) 0 lead ≡ none
  gap_here i lead e =
      ap (λ i. pair_round (at_round i long) (lookup i short) 0 lead) e
      ∙ ap (λ o. pair_round (at_round j long) o 0 lead) n
      ∙ pair_round-missing (at_round j long) 0 lead h

  -- The loop reaches the round, if it does not panic before.
  gap_reached :
      (k i : ℕ) (lead : Bool) (op : Text) (st : Rounds)
      → i ≤ j
      → j < i + k
      → same_base_rounds k i long short lead op st ≡ none
  unfolding same_base_rounds
  gap_reached zero i lead op st a b = absurd (omega (arith, a, b))
  gap_reached (suc k) i lead op st a b = elim (Bool-cases (i == j)) [
    | inl e ↦
        ap
          (λ o. o >>= λ pairs. package_state_graph pairs op >>= λ s.
            same_base_rounds k (suc i) long short lead op (insert i s st))
          (gap_here i lead ((==_iff i j).0 e))
    | inr e ↦ bind_none (pair_round (at_round i long) (lookup i short) 0 lead) _ λ pairs.
        bind_none (package_state_graph pairs op) _ λ s.
          gap_reached k (suc i) lead op (insert i s st) (ground (arith, a, e)) (omega (arith, b))
  ]

named_base : {a b : Bool} → a ≡ true → b ≡ false → (a && not b) ≡ true
named_base p q = rw p rw q refl

first_taken : {x : Bool} (u v : Option Rounds) → x ≡ true → u ≡ none → (if x then u else v) ≡ none
first_taken u v p q = rw p q

second_taken : {x : Bool} (u v : Option Rounds) → x ≡ false → v ≡ none → (if x then u else v) ≡ none
second_taken u v p q = rw p q

second_fails :
    {a b : Bool} (u w : Option States) (v : Option Rounds) (f : Rounds → Option States)
    → a ≡ false
    → b ≡ true
    → v ≡ none
    → (if a then u else if b then (v >>= f) else w) ≡ none
second_fails u w v f p q r = rw p rw q rw r refl

-- On two sides of one named variable that are not both constant, where the one with fewer rounds has
-- no entry for a round, up to the last, in which the other has a state, `mergeByRound` panics.
pub merge_by_round-gap :
    (rounds : ℕ) (round_vars : List (List (List Text))) (left right : States) (op : Text) (j : ℕ)
    (s : Text) (ss : List Text)
    → (left.constant && right.constant) ≡ false
    → same left.base right.base ≡ true
    → same left.base [] ≡ false
    → j ≤ rounds
    → (length right.states ≤ length left.states
        × (at_round j left.states ≡ s ∷ ss)
        × (lookup j right.states ≡ none))
      ⊎ (length left.states < length right.states
          × (at_round j right.states ≡ s ∷ ss)
          × (lookup j left.states ≡ none))
    → merge_by_round rounds round_vars left right op ≡ none
unfolding merge_by_round
merge_by_round-gap rounds round_vars left right op j s ss c b e h (inl (l, p, q)) =
    second_fails _ _ _ _ c (named_base b e) (
      first_taken {x = leb (length right.states) (length left.states)} _ _ (ground (arith, l)) (
        gap_reached left.states right.states j p q (suc rounds) 0 true op [] (omega arith)
          (omega (arith, h))))
merge_by_round-gap rounds round_vars left right op j s ss c b e h (inr (l, p, q)) =
    second_fails _ _ _ _ c (named_base b e) (
      second_taken {x = leb (length right.states) (length left.states)} _ _ (ground (arith, l)) (
        gap_reached right.states left.states j p q (suc rounds) 0 false op [] (omega arith)
          (omega (arith, h))))
