-- ===== src/Generator/Rounds/Grouped.antt =====
-- What `varRounds` of smt/generator.go gives after any rounds.
use fault.Common.{
  ℕ, ◌+◌, ◌-◌, ◌&&◌, ◌≡◌, refl, sym, ap, ◌∙◌, Bool, true, false, List, [], ◌∷◌, ◌++◌, arith, some,
  get_elem?, length, same, ◌==◌, if◌then◌else◌, append_assoc, append-nil, nat_key,
}
use fault.Common.Text.{Text, text_key, itoa}
use fault.Common.Int.{ℤ}
use fault.Common.Dict.{lookup}
use fault.Variables.{ssa_name}
use fault.Generator.Rounds.{
  Rounds, new_round, append_last, or_nil, add_var_to_round, add_var_to_round_lookup, var_rounds,
  lookup_var_rounds,
}
use fault.Generator.Rounds.Places.{
  Step, begin, make, run, no_rounds, names_of, round_at, added, get-snoc, round-append_last,
  chosen_names, collect-at_round, Agrees, run-Agrees,
}

-- The names of the versions of `base` that the steps make in round `r`, where `n` rounds have been
-- begun before; a version made before any round begins round 0.
unfoldable pub made : Text → ℕ → ℕ → List Step → List Text
unfolding ssa_name
made base r n [] = []
made base r n (begin ∷ steps) = made base r (n + 1) steps
made base r n (make b num ∷ steps) =
    let here = if n == 0 then 1 else n in
    (if same b base && (here - 1 == r) then ssa_name base num ∷ [] else [])
    ++ made base r here steps

length-snoc : (rv : List (List (Text × Text))) → length (rv ++ [] ∷ []) ≡ length rv + 1
length-snoc [] = refl
length-snoc (x ∷ rv) = omega (arith, length-snoc rv)

count-append_last :
    (rv : List (List (Text × Text))) (e : Text × Text)
    → length (append_last rv e) ≡ (if length rv == 0 then 1 else length rv)
unfolding append_last
count-append_last [] e = refl
count-append_last (x ∷ []) e = refl
count-append_last (x ∷ y ∷ rv) e = ground (arith, count-append_last (y ∷ rv) e)

-- What a new version adds to the names in a round, by the rounds before it.
names_of-append_last :
    (base b : Text) (num : ℤ) (r : ℕ) (rv : List (List (Text × Text)))
    → names_of base (or_nil (get_elem? (append_last rv (b, itoa num)) r))
      ≡ names_of base (or_nil (get_elem? rv r))
        ++ added
            (same b base && ((if length rv == 0 then 1 else length rv) - 1 == r))
            (ssa_name base num)
names_of-append_last base b num r rv =
    ap (λ es. names_of base es) (round-append_last r rv (b, itoa num))
    ∙ chosen_names base b num (length (append_last rv (b, itoa num)) - 1 == r)
        (or_nil (get_elem? rv r))
    ∙ ap
        (λ n.
          names_of base (or_nil (get_elem? rv r))
          ++ added (same b base && (n - 1 == r)) (ssa_name base num))
        (count-append_last rv (b, itoa num))

added_if : (t : Bool) (name : Text) → added t name ≡ (if t then name ∷ [] else [])
unfolding added
added_if true name = refl
added_if false name = refl

-- The rounds hold what the steps made, each version in the round in which it was made.
names_of-run :
    (steps : List Step) (base : Text) (r : ℕ) (g : Rounds)
    → names_of base (round_at r (run g steps))
      ≡ names_of base (round_at r g) ++ made base r (length g.round_vars) steps
unfolding run made round_at new_round add_var_to_round add_var_to_round_lookup
names_of-run [] base r g = sym (append-nil (names_of base (or_nil (get_elem? g.round_vars r))))
names_of-run (begin ∷ steps) base r g =
    names_of-run steps base r (new_round g) ∙ rw (get-snoc g.round_vars r, length-snoc g.round_vars)
names_of-run (make b num ∷ steps) base r g =
    names_of-run steps base r (add_var_to_round g b num)
    ∙ rw
        (
          names_of-append_last base b num r g.round_vars,
          count-append_last g.round_vars (b, itoa num),
          added_if,
        )
        (append_assoc (names_of base (or_nil (get_elem? g.round_vars r))) _ _)

-- After any sequence of new rounds and new versions, varRounds of a variable, with no number, does not
-- panic, and gives for each round the names of the versions of that variable that the steps make in it,
-- in their order, where a version that is made before any round begins the first one.
pub run-var_rounds :
    (steps : List Step) (base : Text) (r : ℕ)
    → (ir : List (ℕ × List Text)) × (var_rounds (run no_rounds steps) base [] ≡ some ir)
      × (or_nil (lookup r ir) ≡ made base r 0 steps)
unfolding var_rounds lookup_var_rounds Agrees no_rounds lookup round_at names_of
run-var_rounds steps base r =
    let g = run no_rounds steps in
    (
      _,
      refl,
      collect-at_round base r (or_nil (lookup base g.rvar_lookup)) []
          ∙ run-Agrees no_rounds steps (λ b i. refl) base r
          ∙ names_of-run steps base r no_rounds,
    )
