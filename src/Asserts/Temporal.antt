-- ===== src/Asserts/Temporal.antt =====
-- What the temporal formulas of `applyTemporalLogic` and `eventuallyAlways` (smt/generator.go) mean,
-- for assumptions and, negated, for assertions (`parseAssert`, smt/asserts.go).
use fault.Common.{
  ◌≡◌, refl, ◌∙◌, Bool, true, false, not, List, [], ◌∷◌, Option, some, arith, if◌then◌else◌, same,
}
use fault.Common.Text.{Text, text, text_key, join}
use fault.Asserts.{parens, on_off, progression, eventually_always, one_or, apply_temporal_logic}
use fault.Asserts.Formulas.{
  Formula, Formulas, state, all_of, any_of, nil, cons, print, print_all, holds, holds_all,
  holds_any, of_states, any, every, ultimate, print_all-of_states, holds_all-of_states,
  holds_any-of_states, any-not, every-not, ultimate-not, from_some_point,
}

-- The text is that of a formula with the truth value `b`.
abbrev pub Writes : (Text → Bool) → Option Text → Bool → Type 0
Writes states o b = (f : Formula) × (o ≡ some (print f)) × (holds states f ≡ b)

-- What the specification says of the states of a run, from the first to the last.
abbrev pub meaning : Text → Text → (Text → Bool) → List Text → Bool
meaning temp temporal_filter states ir =
    if same temp (text "eventually")
    then any states ir
    else if same temp (text "always")
    then every states ir
    else if same temp (text "eventually-always")
    then ultimate states ir
    else if same temporal_filter (text "nft")
    then any states ir
    else if same temporal_filter (text "nmt")
    then any states ir
    else every states ir

Writes-if :
    (states : Text → Bool) {o o' : Option Text} {b b' : Bool} (c : Bool)
    → Writes states o b
    → Writes states o' b'
    → Writes states (if c then o else o') (if c then b else b')
Writes-if states true h h' = h
Writes-if states false h h' = h'

suffixes : List Text → Formulas
suffixes [] = nil
suffixes (s ∷ ir) = cons (all_of (of_states (s ∷ ir))) (suffixes ir)

print_all-suffixes : (ir : List Text) → print_all (suffixes ir) ≡ progression ir
unfolding print print_all progression suffixes
print_all-suffixes [] = refl
print_all-suffixes (s ∷ ir) = rw (print_all-of_states (s ∷ ir), print_all-suffixes ir)

holds_any-suffixes :
    (states : Text → Bool) (s : Text) (ir : List Text)
    → holds_any states (suffixes (s ∷ ir)) ≡ ultimate states (s ∷ ir)
unfolding holds holds_any suffixes
holds_any-suffixes states s [] = unfold ultimate holds_all of_states in ground arith
holds_any-suffixes states s (t ∷ ir) =
    rw (holds_all-of_states states (s ∷ t ∷ ir), holds_any-suffixes states t ir)
      (from_some_point states s t ir)

-- Three ways to write the states of a run, and what each means.
Writes-every :
    (states : Text → Bool) (s : Text) (ir : List Text)
    → Writes states
        (one_or (λ l. parens (text "and") (join b' ' l)) (s ∷ ir))
        (every states (s ∷ ir))
unfolding one_or print
Writes-every states s [] = (state s, refl, unfold holds every in ground arith)
Writes-every states s (t ∷ ir) = (
  all_of (of_states (s ∷ t ∷ ir)),
  rw (print_all-of_states (s ∷ t ∷ ir)),
  unfold holds in holds_all-of_states states (s ∷ t ∷ ir),
)

Writes-any :
    (states : Text → Bool) (s : Text) (ir : List Text)
    → Writes states (one_or (λ l. parens (text "or") (join b' ' l)) (s ∷ ir)) (any states (s ∷ ir))
unfolding one_or print
Writes-any states s [] = (state s, refl, unfold holds any in ground arith)
Writes-any states s (t ∷ ir) = (
  any_of (of_states (s ∷ t ∷ ir)),
  rw (print_all-of_states (s ∷ t ∷ ir)),
  unfold holds in holds_any-of_states states (s ∷ t ∷ ir),
)

Writes-ultimate :
    (states : Text → Bool) (s : Text) (ir : List Text)
    → Writes states (one_or eventually_always (s ∷ ir)) (ultimate states (s ∷ ir))
unfolding one_or print eventually_always
Writes-ultimate states s [] = (state s, refl, unfold holds ultimate in refl)
Writes-ultimate states s (t ∷ ir) = (
  any_of (suffixes (s ∷ t ∷ ir)),
  rw (print_all-suffixes (s ∷ t ∷ ir)),
  unfold holds in holds_any-suffixes states s (t ∷ ir),
)

Writes-filter :
    (nft nmt : Bool) (states : Text → Bool) (s : Text) (ir : List Text)
    → Writes states
        (one_or
          (λ l.
            parens (if nft then text "or" else if nmt then text "or" else text "and") (join b' ' l))
          (s ∷ ir))
        (if nft
          then any states (s ∷ ir)
          else if nmt
          then any states (s ∷ ir)
          else every states (s ∷ ir))
Writes-filter true nmt states s ir = Writes-any states s ir
Writes-filter false true states s ir = Writes-any states s ir
Writes-filter false false states s ir = Writes-every states s ir

Writes-no_filter :
    (nft nmt : Bool) (states : Text → Bool) (s : Text) (ir : List Text)
    → Writes states
        (one_or
          (λ l.
            parens (if nft then text "or" else if nmt then text "or" else text "or") (join b' ' l))
          (s ∷ ir))
        (any states (s ∷ ir))
Writes-no_filter true nmt states s ir = Writes-any states s ir
Writes-no_filter false true states s ir = Writes-any states s ir
Writes-no_filter false false states s ir = Writes-any states s ir

Writes-cast :
    (states : Text → Bool) {o : Option Text} {b b' : Bool}
    → b ≡ b'
    → Writes states o b
    → Writes states o b'
Writes-cast states e (f, printed, meant) = (f, printed, meant ∙ e)

-- For an assumption over at least one state, `applyTemporalLogic` returns a formula that is true
-- exactly where the states are as its temporal word says: some state for "eventually", every state
-- for "always", the last state for "eventually-always", and with no such word some state where a
-- filter counts states and every state otherwise.
pub apply_temporal_logic-assume :
    (temp temporal_filter : Text) (states : Text → Bool) (s : Text) (ir : List Text)
    → Writes states
        (apply_temporal_logic temp (s ∷ ir) temporal_filter (on_off true).0 (on_off true).1)
        (meaning temp temporal_filter states (s ∷ ir))
unfolding apply_temporal_logic on_off
apply_temporal_logic-assume temp temporal_filter states s ir =
    Writes-if states (same temp (text "eventually")) (Writes-any states s ir) (
      Writes-if states (same temp (text "always")) (Writes-every states s ir) (
        Writes-if states (same temp (text "eventually-always")) (Writes-ultimate states s ir) (
          Writes-filter (same temporal_filter (text "nft")) (same temporal_filter (text "nmt"))
            states s ir)))

-- For an assertion, which looks for a run that breaks the specification, the formula over the same
-- states is true exactly where the specification fails of the negated states. This holds for every
-- temporal word, if there is no filter that counts states.
pub apply_temporal_logic-assert :
    (temp temporal_filter : Text) (states : Text → Bool) (s : Text) (ir : List Text)
    → same temporal_filter (text "nft") ≡ false
    → same temporal_filter (text "nmt") ≡ false
    → Writes states
        (apply_temporal_logic temp (s ∷ ir) temporal_filter (on_off false).0 (on_off false).1)
        (not (meaning temp temporal_filter (λ t. not (states t)) (s ∷ ir)))
unfolding apply_temporal_logic on_off
apply_temporal_logic-assert temp temporal_filter states s ir no_nft no_nmt =
    Writes-cast states
      (ground (
        arith,
        no_nft,
        no_nmt,
        any-not states (s ∷ ir),
        every-not states (s ∷ ir),
        ultimate-not states s ir,
      ))
      (Writes-if states (same temp (text "eventually")) (Writes-every states s ir) (
        Writes-if states (same temp (text "always")) (Writes-any states s ir) (
          Writes-if states (same temp (text "eventually-always")) (Writes-ultimate states s ir) (
            Writes-no_filter (same temporal_filter (text "nft")) (same temporal_filter (text "nmt"))
              states s ir))))
