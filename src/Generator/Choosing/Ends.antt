-- ===== src/Generator/Choosing/Ends.antt =====
-- The choices that `buildForkChoice` of smt/generator.go makes for a branch.
use fault.Common.{
  ◌≡◌, refl, sym, ap, subst, ◌∙◌, Bool, true, false, List, [], ◌∷◌, ◌++◌, Option, none, some, arith,
  if◌then◌else◌, same, same_iff, has, last?-append, init-append, All,
}
use fault.Common.Text.{Text, text_key}
use fault.Common.Int.{ℤ, IsInt16, int16_of_IsInt16, int_key, eqb_ℤ_iff}
use fault.Common.Dict.{lookup, insert, lookup-insert}
use fault.Rules.{Rules}
use fault.Variables.{ssa_name}
use fault.Variables.Names.{get_var_base-ssa_name}
use fault.Forks.{Choice, add_choice_value, get_end}
use fault.Forks.Choices.{ascending, ceiling, highest, sort-ascending, get_end-add_choice_value}
use fault.Generator.Rounds.{or_nil}
use fault.Generator.Choosing.{
  Fork, new_choice, add_to_last, extend, extend_or_new, choose_version, choose_all,
  build_fork_choice, all_state_changes_in_rules,
}

-- One choice of the branch `b`, behind those from before, has exactly the values that are done.
Chosen : Text → Option (List Choice) → Option (List Choice) → Option Bool → List ℤ → Type 0
Chosen b before now seen [] = (now ≡ before) × (seen ≡ none)
Chosen b before now seen (n ∷ ns) =
    (c : Choice) × (now ≡ some (or_nil before ++ c ∷ []))
    × (seen ≡ some true)
    × (c.branch ≡ b)
    × (ascending c.values ≡ true)
    × ((v : ℤ) → has v c.values ≡ has v (n ∷ ns))

add_to_last_same :
    (base : Text) (n : ℤ) (b : Text) (cs : List Choice) (c : Choice)
    → c.branch ≡ b
    → add_to_last base n b (cs ++ c ∷ []) c ≡ cs ++ add_choice_value c n ∷ []
unfolding add_to_last
add_to_last_same base n b cs c br =
    rw ((same_iff c.branch b).1 br) (ap (λ ds. ds ++ add_choice_value c n ∷ []) (init-append cs c))

add_has :
    (c : Choice) (n v : ℤ) (ns : List ℤ)
    → has v c.values ≡ has v ns
    → has v (add_choice_value c n).values ≡ has v (n ∷ ns)
add_has c n v ns h = (get_end-add_choice_value c n).2 v ∙ ground (arith, h)

-- A turn for the variable itself returns, and its choice gets the value.
extend-Chosen :
    (b base : Text) (n : ℤ) (before now : Option (List Choice)) (seen : Option Bool) (ns : List ℤ)
    → Chosen b before now seen ns
    → (cs : List Choice) × (extend_or_new base n b seen now ≡ some cs)
      × Chosen b before (some cs) (some true) (n ∷ ns)
unfolding Chosen extend_or_new extend new_choice add_choice_value
extend-Chosen b base n none now seen [] (h, k) =
    (new_choice base n b ∷ [], rw (h), (new_choice base n b, refl, refl, refl, refl, λ v. refl))
extend-Chosen b base n (some cs) now seen [] (h, k) = (
  cs ++ new_choice base n b ∷ [],
  rw (h, k),
  (new_choice base n b, refl, refl, refl, refl, λ v. refl),
)
extend-Chosen b base n before now seen (m ∷ ns) (c, h, k, br, asc, vs) = (
  or_nil before ++ add_choice_value c n ∷ [],
  rw (h, k, last?-append (or_nil before) c, add_to_last_same base n b (or_nil before) c br),
  (
    add_choice_value c n,
    refl,
    refl,
    br,
    sort-ascending (c.values ++ n ∷ []),
    λ v. add_has c n v (m ∷ ns) (vs v),
  ),
)

-- The values of one variable, the last one first, behind those of earlier turns.
unfoldable pub values_of : Text → List (Text × ℤ) → List ℤ → List ℤ
values_of base [] ns = ns
values_of base ((j, n) ∷ vs) ns = values_of base vs (if same j base then n ∷ ns else ns)

-- Where the loop is: `ns` are the values of each variable so far.
Turn : Text → Fork → Fork × List (Text × Bool) → (Text → List ℤ) → Type 0
unfolding Chosen
Turn b start st ns =
    (base : Text) → Chosen b (lookup base start) (lookup base st.0) (lookup base st.1) (ns base)

one_Turn :
    (b : Text) (start : Fork) (st : Fork × List (Text × Bool)) (ns : Text → List ℤ) (base : Text)
    (n : ℤ) (cs : List Choice) (j : Text) (t : Bool)
    → (t ≡ true → base ≡ j)
    → Chosen b (lookup base start) (some cs) (some true) (n ∷ ns base)
    → Chosen b (lookup j start) (lookup j st.0) (lookup j st.1) (ns j)
    → Chosen b
        (lookup j start)
        (if t then some cs else lookup j st.0)
        (if t then some true else lookup j st.1)
        (if t then n ∷ ns j else ns j)
one_Turn b start st ns base n cs j true e d u =
    subst (λ k. Chosen b (lookup k start) (some cs) (some true) (n ∷ ns k)) (e refl) d
one_Turn b start st ns base n cs j false e d u = u

-- The SSA names of versions.
unfoldable pub versions : List (Text × ℤ) → List Text
unfolding ssa_name
versions [] = []
versions ((base, n) ∷ vs) = ssa_name base n ∷ versions vs

first_has : (n : ℤ) (ns : List ℤ) → has n (n ∷ ns) ≡ true
first_has n ns = ground (arith, eqb_ℤ_iff n n)

choose_version-Turn :
    (b : Text) (start : Fork) (st : Fork × List (Text × Bool)) (ns : Text → List ℤ) (base : Text)
    (n : ℤ)
    → IsInt16 n
    → Turn b start st ns
    → (st' : Fork × List (Text × Bool)) × (choose_version b (base, n) st ≡ some st')
      × Turn b start st' (λ j. if same base j then n ∷ ns j else ns j)
unfolding choose_version Turn
choose_version-Turn b start st ns base n i t =
    let (cs, e, d) =
      extend-Chosen b base n (lookup base start) (lookup base st.0) (lookup base st.1) (ns base)
        (t base) in
    (
      (insert base cs st.0, insert base true st.1),
      rw (int16_of_IsInt16 n i, e),
      λ j.
          rw (lookup-insert base j cs st.0, lookup-insert base j true st.1)
            (one_Turn b start st ns base n cs j (same base j) (λ h. (same_iff base j).0 h) d (t j)),
    )

choose_all-Turn :
    (b : Text) (start : Fork) (vs : List (Text × ℤ)) (st : Fork × List (Text × Bool))
    (ns : Text → List ℤ)
    → All (λ v. IsInt16 v.1) vs
    → Turn b start st ns
    → (st' : Fork × List (Text × Bool)) × (choose_all b (versions vs) st ≡ some st')
      × Turn b start st' (λ base. values_of base vs (ns base))
unfolding choose_all versions values_of
choose_all-Turn b start [] st ns i t = (st, refl, t)
choose_all-Turn b start ((base, n) ∷ vs) st ns i t =
    let (st1, e, t1) = choose_version-Turn b start st ns base n i.0 t in
    let (st2, f, t2) =
      choose_all-Turn b start vs st1 (λ j. if same base j then n ∷ ns j else ns j) i.1 t1 in
    (st2, rw (get_var_base-ssa_name base n i.0, e, f), t2)

-- The choices of a variable after the branch `b`, where `ns` are its versions in the branch.
abbrev pub Ends : Text → (before now : Option (List Choice)) → List ℤ → Type 0
Ends b before now [] = now ≡ before
Ends b before now (n ∷ ns) =
    (c : Choice) × (e : ℤ) × (now ≡ some (or_nil before ++ c ∷ []))
    × (c.branch ≡ b)
    × (get_end c ≡ some e)
    × (has e (n ∷ ns) ≡ true)
    × (ceiling e c.values ≡ true)
    × ((v : ℤ) → has v c.values ≡ has v (n ∷ ns))

Chosen-Ends :
    (b : Text) (before now : Option (List Choice)) (seen : Option Bool) (ns : List ℤ)
    → Chosen b before now seen ns
    → Ends b before now ns
unfolding Chosen get_end
Chosen-Ends b before now seen [] (h, k) = h
Chosen-Ends b before now seen (n ∷ ns) (c, h, k, br, asc, vs) =
    let (e, l, m, u) = highest n c.values asc (vs n ∙ first_has n ns) in
    (c, e, h, br, l, sym (vs e) ∙ m, u, vs)

-- For rules whose names of changed variables are SSA names, buildForkChoice does not panic: it leaves
-- the choices of a variable that the rules do not name, and gives any other one new choice of the
-- branch, behind those from before, whose values are the versions that the rules name, and whose end
-- is the highest of them.
pub build_fork_choice-Ends :
    {V : Type 0} (parse_float : Text → Bool) (rs : Rules V) (b : Text) (fork : Fork)
    (vs : List (Text × ℤ)) (base : Text)
    → all_state_changes_in_rules parse_float rs ≡ versions vs
    → All (λ v. IsInt16 v.1) vs
    → (fork' : Fork) × (build_fork_choice parse_float rs b fork ≡ some fork')
      × Ends b (lookup base fork) (lookup base fork') (values_of base vs [])
unfolding build_fork_choice Turn lookup Chosen
build_fork_choice-Ends parse_float rs b fork vs base h i =
    let (st, e, t) = choose_all-Turn b fork vs (fork, []) (λ j. []) i (λ j. (refl, refl)) in
    (
      st.0,
      rw (h, e),
      Chosen-Ends b (lookup base fork) (lookup base st.0) (lookup base st.1) (values_of base vs [])
          (t base),
    )
