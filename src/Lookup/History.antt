-- ===== src/Lookup/History.antt =====
-- The lookup table of a spec holds the history of the definitions: `DefineSpecVar`, `GetSpecVar` and
-- `GetSpecVarState`.
use fault.Common.{
  ℕ, suc, ◌≡◌, refl, sym, ◌∙◌, ap, List, [], ◌∷◌, ◌++◌, Option, none, some, arith, if◌then◌else◌,
  last?, length, length-append, last?-cons, append-nil, append_assoc, same, same_iff,
}
use fault.Common.Text.{Text, text_key}
use fault.Common.Dict.{lookup, is_some, lookup-insert}
use fault.Common.Int.{ℤ, pos, suc_ℤ, int16}
use fault.Lookup.{
  CompiledSpec, or_nil, or_zero, ident, new_table, add, update, get, get_state, new_compiled_spec,
  get_spec_var, define_spec_var, get_spec_var_state,
}

-- The values that a list of definitions gives to a name, in their order.
abbrev pub history {ℓ} : {V : Type ℓ} → Text → List (List Text × V) → List V
history name [] = []
history name ((id, val) ∷ ds) =
    if same (ident id) name then val ∷ history name ds else history name ds

-- The state of a variable that has had these values: their number less one, as an int16.
abbrev pub state_of {ℓ} : {V : Type ℓ} → List V → Option ℤ
state_of [] = none
state_of (v ∷ vs) = some (int16 (pos (length vs)))

int16-suc : (n : ℕ) → int16 (suc_ℤ (int16 (pos n))) ≡ int16 (pos (suc n))
int16-suc n = ground arith

state_of-append {ℓ} :
    {V : Type ℓ} (v : V) (vs : List V) (w : V)
    → state_of ((v ∷ vs) ++ w ∷ []) ≡ some (int16 (suc_ℤ (or_zero (state_of (v ∷ vs)))))
state_of-append v vs w =
    ap (λ n. some (int16 (pos n))) (length-append vs (w ∷ []) ∙ omega arith)
    ∙ ap some (sym (int16-suc (length vs)))

-- `Update` where the variable has had values, `Add` where it has not.
state_after {ℓ} :
    {V : Type ℓ} (xs : List V) (val : V)
    → some (if is_some (last? xs) then int16 (suc_ℤ (or_zero (state_of xs))) else pos 0)
      ≡ state_of (xs ++ val ∷ [])
state_after [] val = refl
state_after (v ∷ vs) val =
    let (y, e) = last?-cons v vs in ground (arith, e, state_of-append v vs val)

-- The values of a history and of the definitions after it.
abbrev pub append_history {ℓ} :
    {V : Type ℓ} → (Text → List V) → List (List Text × V) → Text → List V
append_history h ds name = h name ++ history name ds

module _ {V P T : Type 0} where
  -- The table has these values and no others.
  abbrev Holds : CompiledSpec V P T → (Text → List V) → Type 0
  Holds s h =
      (name : Text)
      → (or_nil (lookup name s.vars.values) ≡ h name)
        × (lookup name s.vars.state ≡ state_of (h name))

  define_spec_var-Holds :
      (s : CompiledSpec V P T) (h : Text → List V) (id : List Text) (val : V)
      → Holds s h
      → Holds
          (define_spec_var s id val)
          (λ name. if same (ident id) name then h name ++ val ∷ [] else h name)
  unfolding define_spec_var get_spec_var get update add
  define_spec_var-Holds s h id val holds name = (
    ground (
      arith,
      (holds name).0,
      (holds (ident id)).0,
      same_iff (ident id) name,
      lookup-insert (ident id) name (or_nil (lookup (ident id) s.vars.values) ++ val ∷ [])
          s.vars.values,
    ),
    ground (
      arith,
      (holds name).1,
      (holds (ident id)).0,
      (holds (ident id)).1,
      same_iff (ident id) name,
      state_after (h (ident id)) val,
      lookup-insert (ident id) name (pos 0) s.vars.state,
      lookup-insert (ident id) name (int16 (suc_ℤ (or_zero (lookup (ident id) s.vars.state))))
          s.vars.state,
    ),
  )

  unfoldable pub define_all : CompiledSpec V P T → List (List Text × V) → CompiledSpec V P T
  unfolding define_spec_var
  define_all s [] = s
  define_all s ((id, val) ∷ ds) = define_all (define_spec_var s id val) ds

  define_all-Holds :
      (ds : List (List Text × V)) (s : CompiledSpec V P T) (h : Text → List V)
      → Holds s h
      → Holds (define_all s ds) (append_history h ds)
  unfolding define_all
  define_all-Holds [] s h holds name =
      ground (arith, (holds name).0, (holds name).1, append-nil (h name))
  define_all-Holds ((id, val) ∷ ds) s h holds name =
      let (v, t) =
        define_all-Holds ds (define_spec_var s id val)
          (λ name. if same (ident id) name then h name ++ val ∷ [] else h name)
          (define_spec_var-Holds s h id val holds) name in
      (
        ground (arith, v, append_assoc (h name) (val ∷ []) (history name ds)),
        ground (arith, t, append_assoc (h name) (val ∷ []) (history name ds)),
      )

-- After any definitions in a new spec, `GetSpecVar` gives the last value of a variable, or nil if it
-- has none, and `GetSpecVarState` the number of its values less one, as an int16, or a panic if it
-- has none.
pub define_all-history :
    (V P T : Type 0) (name : Text) (ds : List (List Text × V)) (id : List Text)
    → (get_spec_var (define_all (new_compiled_spec {V = V} {P = P} {T = T} name) ds) id
        ≡ last? (history (ident id) ds))
      × (get_spec_var_state (define_all (new_compiled_spec {V = V} {P = P} {T = T} name) ds) id
          ≡ state_of (history (ident id) ds))
unfolding get_spec_var get_spec_var_state get get_state
define_all-history V P T name ds id =
    let (v, t) =
      define_all-Holds ds (new_compiled_spec name) (λ name. []) (new_spec_empty name) (ident id) in
    (ap last? v, t)
  where
    new_spec_empty :
        (name : Text) → Holds (new_compiled_spec {V = V} {P = P} {T = T} name) (λ name. [])
    new_spec_empty name k = unfold new_compiled_spec new_table lookup in (refl, refl)
