-- ===== src/Asserts/Formulas.antt =====
-- SMT formulas over states: their text, and their truth where each state has a truth value.
use fault.Common.{◌≡◌, refl, ap, Bool, true, false, not, ◌&&◌, ◌||◌, List, [], ◌∷◌, arith}
use fault.Common.Text.{Text, text, text_key, join}
use fault.Asserts.{parens}

mutual
  pub data Formula : Type 0 where
    state : Text → Formula
    all_of : Formulas → Formula
    any_of : Formulas → Formula

  pub data Formulas : Type 0 where
    nil : Formulas
    cons : Formula → Formulas → Formulas

unfoldable mutual
  pub print : Formula → Text
  print (state s) = s
  print (all_of fs) = parens (text "and") (join b' ' (print_all fs))
  print (any_of fs) = parens (text "or") (join b' ' (print_all fs))

  pub print_all : Formulas → List Text
  print_all nil = []
  print_all (cons f fs) = print f ∷ print_all fs

-- `holds states f`: the formula is true where exactly the states that `states` accepts are.
unfoldable mutual
  pub holds : (Text → Bool) → Formula → Bool
  holds states (state s) = states s
  holds states (all_of fs) = holds_all states fs
  holds states (any_of fs) = holds_any states fs

  pub holds_all : (Text → Bool) → Formulas → Bool
  holds_all states nil = true
  holds_all states (cons f fs) = holds states f && holds_all states fs

  pub holds_any : (Text → Bool) → Formulas → Bool
  holds_any states nil = false
  holds_any states (cons f fs) = holds states f || holds_any states fs

unfoldable pub of_states : List Text → Formulas
of_states [] = nil
of_states (s ∷ ss) = cons (state s) (of_states ss)

-- Some state is accepted; all are; the last one is.
unfoldable pub any : (Text → Bool) → List Text → Bool
any states [] = false
any states (s ∷ ss) = states s || any states ss

unfoldable pub every : (Text → Bool) → List Text → Bool
every states [] = true
every states (s ∷ ss) = states s && every states ss

unfoldable pub ultimate : (Text → Bool) → List Text → Bool
ultimate states [] = false
ultimate states (s ∷ []) = states s
ultimate states (s ∷ t ∷ ss) = ultimate states (t ∷ ss)

pub print_all-of_states : (ss : List Text) → print_all (of_states ss) ≡ ss
unfolding print print_all of_states
print_all-of_states [] = refl
print_all-of_states (s ∷ ss) = ap (λ l. s ∷ l) (print_all-of_states ss)

pub holds_all-of_states :
    (states : Text → Bool) (ss : List Text) → holds_all states (of_states ss) ≡ every states ss
unfolding holds holds_all of_states every
holds_all-of_states states [] = refl
holds_all-of_states states (s ∷ ss) = ap (λ b. states s && b) (holds_all-of_states states ss)

pub holds_any-of_states :
    (states : Text → Bool) (ss : List Text) → holds_any states (of_states ss) ≡ any states ss
unfolding holds holds_any of_states any
holds_any-of_states states [] = refl
holds_any-of_states states (s ∷ ss) = ap (λ b. states s || b) (holds_any-of_states states ss)

pub any-not :
    (states : Text → Bool) (ss : List Text) → any (λ s. not (states s)) ss ≡ not (every states ss)
unfolding any every
any-not states [] = refl
any-not states (s ∷ ss) = ground (arith, any-not states ss)

pub every-not :
    (states : Text → Bool) (ss : List Text) → every (λ s. not (states s)) ss ≡ not (any states ss)
unfolding any every
every-not states [] = refl
every-not states (s ∷ ss) = ground (arith, every-not states ss)

pub ultimate-not :
    (states : Text → Bool) (s : Text) (ss : List Text)
    → ultimate (λ s. not (states s)) (s ∷ ss) ≡ not (ultimate states (s ∷ ss))
unfolding ultimate
ultimate-not states s [] = refl
ultimate-not states s (t ∷ ss) = ultimate-not states t ss

every-ultimate :
    (states : Text → Bool) (s : Text) (ss : List Text)
    → every states (s ∷ ss) ≡ true
    → ultimate states (s ∷ ss) ≡ true
unfolding every ultimate
every-ultimate states s [] h = ground arith
every-ultimate states s (t ∷ ss) h = ground (arith, every-ultimate states t ss)

-- All states hold from some point on exactly if the last one does: a run is finite.
pub from_some_point :
    (states : Text → Bool) (s t : Text) (ss : List Text)
    → (every states (s ∷ t ∷ ss) || ultimate states (t ∷ ss)) ≡ ultimate states (s ∷ t ∷ ss)
unfolding ultimate
from_some_point states s t ss = ground (arith, every-ultimate states s (t ∷ ss))
