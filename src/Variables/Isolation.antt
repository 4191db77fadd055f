-- ===== src/Variables/Isolation.antt =====
-- What a conditional does to the branch stacks (smt/variables/variables.go): `InitPhis` opens a branch
-- for every variable, stores go to that branch, and `PopPhis` gives the stacks back.
use fault.Common.{
  ◌≡◌, refl, ◌∙◌, true, List, [], ◌∷◌, ◌++◌, Option, none, some, arith, if◌then◌else◌, same,
  same_iff, same_refl, has, distinct, last?, init, init-append, last?-append, Bool-cases, inl, inr,
  Option-cases,
}
use fault.Common.Dict.{lookup, insert, keys, keys-insert, lookup-insert, is_some, has-keys}
use fault.Common.Int.{ℤ, pos, negsuc}
use fault.Common.Text.{Text, text_key}
use fault.Common.Fallible.{◌>>=◌}
use fault.Variables.Phis.{
  Phis, new_phi, pop_phi, store_last_state, each, init_phis, pop_phis, append_state,
}

abbrev on_some : (List (List ℤ) → List (List ℤ)) → Option (List (List ℤ)) → Option (List (List ℤ))
on_some g none = none
on_some g (some p) = some (g p)

-- A loop over distinct keys whose body turns the stack of its key into `g` of it, and touches no
-- other stack, does so for each of the keys.
module _ (f : Phis → Text → Option Phis) (g : List (List ℤ) → List (List ℤ))
    (Ready : List (List ℤ) → Type 0)
    (step : (vd : Phis) (k : Text) (p : List (List ℤ))
      → lookup k vd ≡ some p
      → Ready p
      → (vd' : Phis) × (f vd k ≡ some vd')
        × (keys vd' ≡ keys vd)
        × ((j : Text) → lookup j vd' ≡ (if same k j then some (g p) else lookup j vd))) where
  each_lem :
      (ks : List Text) (vd : Phis)
      → distinct ks ≡ true
      → ((k : Text) → has k ks ≡ true → (p : List (List ℤ)) × (lookup k vd ≡ some p) × Ready p)
      → (vd' : Phis) × (each f ks vd ≡ some vd')
        × (keys vd' ≡ keys vd)
        × ((j : Text) → lookup j vd' ≡ (if has j ks then on_some g (lookup j vd) else lookup j vd))
  unfolding each
  each_lem [] vd d ready = (vd, refl, refl, λ j. refl)
  each_lem (k ∷ ks) vd d ready =
      let (p, found, r) = ready k (ground (arith, same_refl k)) in
      let (vd1, e1, k1, at1) = step vd k p found r in
      let (vd2, e2, k2, at2) = each_lem ks vd1 (ground arith) (λ k' later.
        let (p', found', r') = ready k' (ground (arith)) in
        (p', ground (arith, at1 k', same_iff k k'), r')) in
      (vd2, rw e1 e2, (rw k2 k1), λ j. ground (arith, at1 j, at2 j, same_iff k j))

-- The number that a variable had last, in a stack with an open branch that is not empty.
abbrev IsOpen : List (List ℤ) → ℤ → Type 0
IsOpen p v = (b : List ℤ) × (last? p ≡ some b) × (last? b ≡ some v)

-- Every stack has a branch, and the last branch of every stack has a number.
pub record IsStacks (vd : Phis) : Type 0 where
  pub keys_distinct : distinct (keys vd) ≡ true
  pub is_open :
      (k : Text)
      → has k (keys vd) ≡ true
      → (p : List (List ℤ)) × (lookup k vd ≡ some p) × ((v : ℤ) × IsOpen p v)

or_zero : Option ℤ → ℤ
or_zero none = pos 0
or_zero (some v) = v

last_number : List (List ℤ) → ℤ
unfolding or_zero
last_number p = or_zero (last? p >>= λ b. last? b)

grow : List (List ℤ) → List (List ℤ)
unfolding last_number
grow p = p ++ (last_number p ∷ []) ∷ []

new_phi-open :
    (vd : Phis) (k : Text) (p : List (List ℤ))
    → lookup k vd ≡ some p
    → (v : ℤ) × IsOpen p v
    → (vd' : Phis) × (new_phi vd k (negsuc 0) ≡ some vd')
      × (keys vd' ≡ keys vd)
      × ((j : Text) → lookup j vd' ≡ (if same k j then some (grow p) else lookup j vd))
unfolding new_phi grow
new_phi-open vd k p found (v, open_branch) = (
  insert k (grow p) vd,
  ground (arith, found, open_branch),
  keys-insert k (grow p) vd (rw found),
  λ j. lookup-insert k j (grow p) vd,
)

abbrev IsPushed : List (List ℤ) → Type 0
IsPushed p = (q : List (List ℤ)) × (b : List ℤ) × (p ≡ q ++ b ∷ [])

nil-ne-snoc : (q : List (List ℤ)) (b : List ℤ) → ¬ ([] ≡ q ++ b ∷ [])
nil-ne-snoc [] b e = cc
nil-ne-snoc (c ∷ q) b e = cc

pop_phi-pushed :
    (vd : Phis) (k : Text) (p : List (List ℤ))
    → lookup k vd ≡ some p
    → IsPushed p
    → (vd' : Phis) × (pop_phi vd k ≡ some vd')
      × (keys vd' ≡ keys vd)
      × ((j : Text) → lookup j vd' ≡ (if same k j then some (init p) else lookup j vd))
unfolding pop_phi
pop_phi-pushed vd k [] found (q, b, e) = absurd (nil-ne-snoc q b e)
pop_phi-pushed vd k (c ∷ p) found _ = (
  insert k (init (c ∷ p)) vd,
  ground (arith, found),
  keys-insert k (init (c ∷ p)) vd (rw found),
  λ j. lookup-insert k j (init (c ∷ p)) vd,
)

-- `vd1` has on each stack of `vd` one branch more, and no other stack.
abbrev AboveAt : Option (List (List ℤ)) → Option (List (List ℤ)) → Type 0
AboveAt none o = o ≡ none
AboveAt (some p) o = (b : List ℤ) × (o ≡ some (p ++ b ∷ []))

record Above (vd vd1 : Phis) : Type 0 where
  same_keys : keys vd1 ≡ keys vd
  at : (j : Text) → AboveAt (lookup j vd) (lookup j vd1)

AboveAt-grow :
    (o o1 : Option (List (List ℤ))) → o1 ≡ (if is_some o then on_some grow o else o) → AboveAt o o1
unfolding grow
AboveAt-grow none o1 e = e
AboveAt-grow (some p) o1 e = (last_number p ∷ [], e)

AboveAt-some :
    {o o1 : Option (List (List ℤ))} (p : List (List ℤ)) (b : List ℤ)
    → o ≡ some p
    → o1 ≡ some (p ++ b ∷ [])
    → AboveAt o o1
AboveAt-some p b e e1 = rw e (b, e1)

AboveAt-init :
    (o o1 : Option (List (List ℤ))) {o2 : Option (List (List ℤ))}
    → AboveAt o o1
    → o2 ≡ (if is_some o1 then on_some init o1 else o1)
    → o2 ≡ o
AboveAt-init none o1 a e = ground (arith, a, e)
AboveAt-init (some p) o1 (b, a) e = ground (arith, a, e, init-append p b)

known-some :
    (k : Text) (vd : Phis) → has k (keys vd) ≡ true → (p : List (List ℤ)) × (lookup k vd ≡ some p)
known-some k vd h = elim (Option-cases (lookup k vd)) [
  | inl e ↦ ground (arith, has-keys k vd)
  | inr found ↦ found
]

init_phis-Above :
    (vd : Phis) → IsStacks vd → (vd1 : Phis) × (init_phis vd ≡ some vd1) × Above vd vd1
unfolding init_phis
init_phis-Above vd h =
    let (vd1, e, ks, at) =
      each_lem (λ vd k. new_phi vd k (negsuc 0)) grow (λ p. (v : ℤ) × IsOpen p v) new_phi-open
        (keys vd) vd h.keys_distinct h.is_open in
    (
      vd1,
      e,
      record {
        same_keys = ks;
        at = λ j. AboveAt-grow (lookup j vd) (lookup j vd1) (rw (has-keys j vd) at (at j));
      },
    )

module _ {vd vd1 : Phis} (above : Above vd vd1) where
  above_at :
      (k : Text)
      → has k (keys vd) ≡ true
      → (p : List (List ℤ)) × (b : List ℤ) × (lookup k vd ≡ some p)
        × (lookup k vd1 ≡ some (p ++ b ∷ []))
  above_at k known =
      let (p, found) = known-some k vd known in
      let (b, e) : AboveAt (some p) (lookup k vd1) = rw found at (above.at k) in (p, b, found, e)

  store-Above :
      (k : Text) (n : ℤ)
      → has k (keys vd) ≡ true
      → (vd2 : Phis) × (store_last_state vd1 k n ≡ some vd2) × Above vd vd2
  unfolding store_last_state
  store-Above k n known =
      let (p, b, found, e) = above_at k known in
      let stack : List (List ℤ) = p ++ (b ++ n ∷ []) ∷ [] in
      (
        insert k stack vd1,
        ground (arith, e, last?-append p b, init-append p b),
        record {
          same_keys = keys-insert k stack vd1 (rw e) ∙ above.same_keys;
          at = λ j. elim (Bool-cases (same k j)) [
            | inl s ↦
                AboveAt-some p (b ++ n ∷ []) (rw (← (same_iff k j).0 s) found)
                  (rw (lookup-insert k j stack vd1, s))
            | inr s ↦ rw (lookup-insert k j stack vd1, s) (above.at j)
          ];
        },
      )

  pop_phis-Above :
      IsStacks vd
      → (vd2 : Phis) × (pop_phis vd1 ≡ some vd2) × ((j : Text) → lookup j vd2 ≡ lookup j vd)
  unfolding pop_phis
  pop_phis-Above h =
      let (vd2, e, _, at) =
        each_lem pop_phi init IsPushed pop_phi-pushed (keys vd1) vd1
          (rw above.same_keys h.keys_distinct) pushed in
      (
        vd2,
        e,
        λ j. AboveAt-init (lookup j vd) (lookup j vd1) (above.at j) (rw (has-keys j vd1) at (at j)),
      )
    where
      pushed :
          (k : Text)
          → has k (keys vd1) ≡ true
          → (p : List (List ℤ)) × (lookup k vd1 ≡ some p) × IsPushed p
      pushed k known =
          let (p, b, _, found) = above_at k (rw above.same_keys at known) in
          (p ++ b ∷ [], found, (p, b, refl))

-- Every entry is of a variable with a stack.
abbrev pub Known : Phis → List (Text × ℤ) → Type 0
Known vd [] = Unit
Known vd ((k, n) ∷ state) = (has k (keys vd) ≡ true) × Known vd state

append_state-Above :
    {vd : Phis} (state : List (Text × ℤ)) {vd1 : Phis}
    → Above vd vd1
    → Known vd state
    → (vd2 : Phis) × (append_state vd1 state ≡ some vd2) × Above vd vd2
unfolding append_state
append_state-Above [] {vd1} above known = (vd1, refl, above)
append_state-Above ((k, n) ∷ state) above known =
    let (vd2, e2, above2) = store-Above above k n known.0 in
    let (vd3, e3, above3) = append_state-Above state above2 known.1 in (vd3, rw e2 e3, above3)

-- From stacks that all have a number in their last branch, `InitPhis`, any stores to variables that
-- have a stack, and `PopPhis` run without a panic, and leave every stack as it was.
pub branch-isolated :
    (vd : Phis) (stores : List (Text × ℤ))
    → IsStacks vd
    → Known vd stores
    → (vd' : Phis) × ((init_phis vd >>= λ vd1. append_state vd1 stores >>= pop_phis) ≡ some vd')
      × ((id : Text) → lookup id vd' ≡ lookup id vd)
branch-isolated vd stores h known =
    let (vd1, e1, above1) = init_phis-Above vd h in
    let (vd2, e2, above2) = append_state-Above stores above1 known in
    let (vd3, e3, at) = pop_phis-Above above2 h in (vd3, rw (e1, e2) e3, at)
