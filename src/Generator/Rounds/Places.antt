-- ===== src/Generator/Rounds/Places.antt =====
-- What `varRounds` of smt/generator.go reads: the places of a variable are its names in the rounds.
use fault.Common.{
  ℕ, zero, suc, ◌-◌, ◌&&◌, ◌<◌, ◌≡◌, refl, sym, ap, ◌∙◌, Bool, true, false, List, [], ◌∷◌, ◌++◌,
  Option, some, arith, get_elem?, length, same, same_iff, ◌==◌, ==_iff, if◌then◌else◌, append_assoc,
  append-nil, nat_key,
}
use fault.Common.Text.{Text, text_key, itoa}
use fault.Common.Int.{ℤ}
use fault.Common.Dict.{lookup, insert, lookup-insert}
use fault.Variables.{ssa_name}
use fault.Generator.Rounds.{
  Place, Rounds, new_round, append_last, or_nil, add_var_to_round, add_var_to_round_lookup,
  last_place, collect,
}

-- A round is begun, or a version of a variable is made in the current one.
pub data Step : Type 0 where
  begin : Step
  make : Text → ℤ → Step

unfoldable pub run : Rounds → List Step → Rounds
unfolding new_round add_var_to_round
run g [] = g
run g (begin ∷ steps) = run (new_round g) steps
run g (make base num ∷ steps) = run (add_var_to_round g base num) steps

unfoldable pub no_rounds : Rounds
no_rounds = record { round_vars = []; rvar_lookup = [] }

-- The names of one variable among the entries of a round.
unfoldable pub names_of : Text → List (Text × Text) → List Text
names_of base [] = []
names_of base ((b, n) ∷ es) =
    if same b base then (base ++ b'_' ∷ n) ∷ names_of base es else names_of base es

unfoldable pub round_at : ℕ → Rounds → List (Text × Text)
round_at r g = or_nil (get_elem? g.round_vars r)

-- The names of the places in a round.
unfoldable pub at_round : Text → ℕ → List Place → List Text
unfolding ssa_name
at_round base r [] = []
at_round base r (p ∷ ps) =
    if p.idx == r then ssa_name base p.num ∷ at_round base r ps else at_round base r ps

at_round-append :
    (base : Text) (r : ℕ) (ps qs : List Place)
    → at_round base r (ps ++ qs) ≡ at_round base r ps ++ at_round base r qs
unfolding at_round
at_round-append base r [] qs = refl
at_round-append base r (p ∷ ps) qs = ground (arith, at_round-append base r ps qs)

names_of-append :
    (base : Text) (es fs : List (Text × Text))
    → names_of base (es ++ fs) ≡ names_of base es ++ names_of base fs
unfolding names_of
names_of-append base [] fs = refl
names_of-append base ((b, n) ∷ es) fs = ground (arith, names_of-append base es fs)

written-at_round :
    (base : Text) (r : ℕ) (p : Place) (ps : List Place) (ir : List (ℕ × List Text))
    → or_nil (lookup r (insert p.idx (or_nil (lookup p.idx ir) ++ ssa_name base p.num ∷ []) ir))
        ++ at_round base r ps
      ≡ or_nil (lookup r ir) ++ at_round base r (p ∷ ps)
unfolding at_round
written-at_round base r p ps ir = ground (
  arith,
  lookup-insert p.idx r (or_nil (lookup p.idx ir) ++ ssa_name base p.num ∷ []) ir,
  ==_iff p.idx r,
  append_assoc (or_nil (lookup p.idx ir)) (ssa_name base p.num ∷ []) (at_round base r ps),
)

pub collect-at_round :
    (base : Text) (r : ℕ) (ps : List Place) (ir : List (ℕ × List Text))
    → or_nil (lookup r (collect base ps ir)) ≡ or_nil (lookup r ir) ++ at_round base r ps
unfolding collect at_round
collect-at_round base r [] ir = sym (append-nil (or_nil (lookup r ir)))
collect-at_round base r (p ∷ ps) ir =
    collect-at_round base r ps
      (insert p.idx (or_nil (lookup p.idx ir) ++ ssa_name base p.num ∷ []) ir)
    ∙ written-at_round base r p ps ir

length-append_last :
    (rv : List (List (Text × Text))) (e : Text × Text) → 0 < length (append_last rv e)
unfolding append_last
length-append_last [] e = omega arith
length-append_last (x ∷ []) e = omega arith
length-append_last (x ∷ y ∷ rv) e = omega arith

pub get-snoc :
    (rv : List (List (Text × Text))) (r : ℕ)
    → or_nil (get_elem? (rv ++ [] ∷ []) r) ≡ or_nil (get_elem? rv r)
get-snoc [] zero = refl
get-snoc [] (suc r) = refl
get-snoc (x ∷ rv) zero = refl
get-snoc (x ∷ rv) (suc r) = get-snoc rv r

pub round-append_last :
    (r : ℕ) (rv : List (List (Text × Text))) (e : Text × Text)
    → or_nil (get_elem? (append_last rv e) r) ≡ (
        if length (append_last rv e) - 1 == r
        then or_nil (get_elem? rv r) ++ e ∷ []
        else or_nil (get_elem? rv r))
unfolding append_last
round-append_last zero [] e = refl
round-append_last (suc r) [] e = ground arith
round-append_last zero (x ∷ []) e = refl
round-append_last (suc r) (x ∷ []) e = ground arith
round-append_last zero (x ∷ y ∷ rv) e = ground (arith, length-append_last (y ∷ rv) e)
round-append_last (suc r) (x ∷ y ∷ rv) e =
    ground (arith, length-append_last (y ∷ rv) e, round-append_last r (y ∷ rv) e)

-- The places of a variable in a round are its names there.
unfoldable pub Agrees : Rounds → Type 0
unfolding at_round names_of round_at
Agrees g =
    (base : Text) (r : ℕ)
    → at_round base r (or_nil (lookup base g.rvar_lookup)) ≡ names_of base (round_at r g)

new_round-Agrees : (g : Rounds) → Agrees g → Agrees (new_round g)
unfolding Agrees new_round round_at
new_round-Agrees g h base r = h base r ∙ ap (λ es. names_of base es) (sym (get-snoc g.round_vars r))

-- What a new version adds to the names of a variable in a round.
unfoldable pub added : Bool → Text → List Text
added true name = name ∷ []
added false name = []

chosen :
    (base : Text) (r : ℕ) (t : Bool) (ps : List Place) (place : Place) (o : Option (List Place))
    → (t ≡ true → or_nil o ≡ ps)
    → at_round base r (or_nil (if t then some (ps ++ place ∷ []) else o))
      ≡ at_round base r (or_nil o) ++ added (t && (place.idx == r)) (ssa_name base place.num)
unfolding added at_round
chosen base r false ps place o h = sym (append-nil (at_round base r (or_nil o)))
chosen base r true ps place o h =
    at_round-append base r ps (place ∷ [])
    ∙ ap (λ qs. at_round base r qs ++ at_round base r (place ∷ [])) (sym (h refl))
    ∙ ap (λ ns. at_round base r (or_nil o) ++ ns) (ground arith)

added_place :
    (m : List (Text × List Place)) (b base : Text) (r : ℕ) (place : Place)
    → at_round base r (or_nil (lookup base (insert b (or_nil (lookup b m) ++ place ∷ []) m)))
      ≡ at_round base r (or_nil (lookup base m))
        ++ added (same b base && (place.idx == r)) (ssa_name base place.num)
added_place m b base r place =
    ap (λ o. at_round base r (or_nil o))
      (lookup-insert b base (or_nil (lookup b m) ++ place ∷ []) m)
    ∙ chosen base r (same b base) (or_nil (lookup b m)) place (lookup base m)
        (λ e. ap (λ c. or_nil (lookup c m)) (sym ((same_iff b base).0 e)))

pub chosen_names :
    (base b : Text) (num : ℤ) (t : Bool) (es : List (Text × Text))
    → names_of base (if t then es ++ (b, itoa num) ∷ [] else es)
      ≡ names_of base es ++ added (same b base && t) (ssa_name base num)
unfolding added names_of ssa_name
chosen_names base b num false es = ground (arith, append-nil (names_of base es))
chosen_names base b num true es =
    names_of-append base es ((b, itoa num) ∷ []) ∙ ap (λ ns. names_of base es ++ ns) (ground arith)

add_var_to_round-Agrees :
    (g : Rounds) (base : Text) (num : ℤ) → Agrees g → Agrees (add_var_to_round g base num)
unfolding Agrees add_var_to_round add_var_to_round_lookup round_at
add_var_to_round-Agrees g b num h base r =
    let at = length (append_last g.round_vars (b, itoa num)) - 1 in
    let place : Place = record {
      num = num;
      idx = at;
      idx2 = last_place (append_last g.round_vars (b, itoa num));
    } in
    added_place g.rvar_lookup b base r place
    ∙ ap (λ ns. ns ++ added (same b base && (at == r)) (ssa_name base num)) (h base r)
    ∙ sym (chosen_names base b num (at == r) (or_nil (get_elem? g.round_vars r)))
    ∙ ap (λ es. names_of base es) (sym (round-append_last r g.round_vars (b, itoa num)))

pub run-Agrees : (g : Rounds) (steps : List Step) → Agrees g → Agrees (run g steps)
unfolding run
run-Agrees g [] h = h
run-Agrees g (begin ∷ steps) h = run-Agrees (new_round g) steps (new_round-Agrees g h)
run-Agrees g (make b n ∷ steps) h =
    run-Agrees (add_var_to_round g b n) steps (add_var_to_round-Agrees g b n h)
