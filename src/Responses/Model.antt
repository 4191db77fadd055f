-- ===== src/Responses/Model.antt =====
-- `ExitFunction_def` of execute/responses.go: a value of the solver's model goes into the trace of its
-- variable.
use fault.Common.{
  ◌≡◌, refl, Bool, true, false, ◌&&◌, List, Option, none, some, arith, if◌then◌else◌, same,
  same_iff,
}
use fault.Common.Text.{Text, text_key}
use fault.Common.Dict.{lookup, insert, lookup-insert}
use fault.Common.Fallible.{◌>>=◌}
use fault.Common.Int.{ℤ, int_key, IsInt16}
use fault.Variables.{ssa_name}
use fault.Execute.{Trace, new_trace, add, index}
use fault.Execute.Traces.{index-add}
use fault.Responses.{symbol_of}
use fault.Responses.Idents.{symbol_of-ssa_name}

-- What `convertTerm` returns: a float64, a bool, an int64, or the text of another sort.
pub data Value (F : Type 0) : Type 0 where
  real : F → Value F
  boolean : Bool → Value F
  integer : ℤ → Value F
  word : Text → Value F

-- The traces that the interface `Scenario` holds.
pub data Scenario (F W : Type 0) : Type 0 where
  float_trace : Trace F W → Scenario F W
  bool_trace : Trace Bool W → Scenario F W
  int_trace : Trace ℤ W → Scenario F W

index-new_trace : (V W : Type 0) (j : ℤ) → index (new_trace {V = V} {W = W}) j ≡ none
unfolding index new_trace lookup
index-new_trace V W j = refl

unfit {ℓ} : {A : Type ℓ} → false ≡ true → A
unfit e = cc

module _ {F W : Type 0} where
  -- `l.Results[id].(*FloatTrace).Add(k, v)`, on a new trace where there is none. A trace of another
  -- type is a panic. A text is dropped.
  unfoldable pub add_value : Option (Scenario F W) → ℤ → Value F → Option (Option (Scenario F W))
  unfolding new_trace add
  add_value none k (real v) = some (some (float_trace (add new_trace k v)))
  add_value (some (float_trace t)) k (real v) = some (some (float_trace (add t k v)))
  add_value none k (boolean v) = some (some (bool_trace (add new_trace k v)))
  add_value (some (bool_trace t)) k (boolean v) = some (some (bool_trace (add t k v)))
  add_value none k (integer v) = some (some (int_trace (add new_trace k v)))
  add_value (some (int_trace t)) k (integer v) = some (some (int_trace (add t k v)))
  add_value old k (word v) = some old
  add_value _ k _ = none

  abbrev stored :
      List (Text × Scenario F W) → Text → Option (Scenario F W) → List (Text × Scenario F W)
  stored results id none = results
  stored results id (some s) = insert id s results

  -- `ExitFunction_def` behind the stack: the symbol and its value.
  unfoldable pub exit_function_def :
      List (Text × Scenario F W) → Text → Value F → Option (List (Text × Scenario F W))
  unfolding symbol_of add_value
  exit_function_def results sym value = do
    (id, k) ← symbol_of sym
    s ← add_value (lookup id results) k value
    some (stored results id s)

  -- The trace of the variable, if there is one, has the type of the value.
  abbrev pub fits : Option (Scenario F W) → Value F → Bool
  fits none (real v) = true
  fits (some (float_trace t)) (real v) = true
  fits none (boolean v) = true
  fits (some (bool_trace t)) (boolean v) = true
  fits none (integer v) = true
  fits (some (int_trace t)) (integer v) = true
  fits _ _ = false

  -- The value of a trace at an index.
  abbrev pub at_index : Option (Scenario F W) → ℤ → Option (Value F)
  at_index none k = none
  at_index (some (float_trace t)) k = index t k >>= λ v. some (real v)
  at_index (some (bool_trace t)) k = index t k >>= λ v. some (boolean v)
  at_index (some (int_trace t)) k = index t k >>= λ v. some (integer v)

  add_value-fits :
      (old : Option (Scenario F W)) (k : ℤ) (value : Value F)
      → fits old value ≡ true
      → (s : Scenario F W) × (add_value old k value ≡ some (some s))
        × ((j : ℤ) → at_index (some s) j ≡ (if same k j then some value else at_index old j))
  unfolding add_value
  add_value-fits none k (real v) h = (
    float_trace (add new_trace k v),
    refl,
    λ j. ground (arith, index-add {W = W} new_trace k j v, index-new_trace F W j),
  )
  add_value-fits (some (float_trace t)) k (real v) h =
      (float_trace (add t k v), refl, λ j. ground (arith, index-add t k j v))
  add_value-fits (some (float_trace t)) k (boolean v) h = unfit h
  add_value-fits (some (float_trace t)) k (integer v) h = unfit h
  add_value-fits (some (float_trace t)) k (word v) h = unfit h
  add_value-fits none k (boolean v) h = (
    bool_trace (add new_trace k v),
    refl,
    λ j. ground (arith, index-add {W = W} new_trace k j v, index-new_trace Bool W j),
  )
  add_value-fits (some (bool_trace t)) k (boolean v) h =
      (bool_trace (add t k v), refl, λ j. ground (arith, index-add t k j v))
  add_value-fits (some (bool_trace t)) k (real v) h = unfit h
  add_value-fits (some (bool_trace t)) k (integer v) h = unfit h
  add_value-fits (some (bool_trace t)) k (word v) h = unfit h
  add_value-fits none k (integer v) h = (
    int_trace (add new_trace k v),
    refl,
    λ j. ground (arith, index-add {W = W} new_trace k j v, index-new_trace ℤ W j),
  )
  add_value-fits (some (int_trace t)) k (integer v) h =
      (int_trace (add t k v), refl, λ j. ground (arith, index-add t k j v))
  add_value-fits (some (int_trace t)) k (real v) h = unfit h
  add_value-fits (some (int_trace t)) k (boolean v) h = unfit h
  add_value-fits (some (int_trace t)) k (word v) h = unfit h
  add_value-fits none k (word v) h = unfit h

  -- The listener does not panic on a value whose sort fits the trace that the variable has, if any.
  -- Then the trace of the variable holds the value at the version that `AdvanceSSA` gave its name, and
  -- every other version of it, and every other variable, has the value that it had.
  pub exit_function_def-ssa_name :
      (results : List (Text × Scenario F W)) (id : Text) (n : ℤ) (value : Value F)
      → IsInt16 n
      → fits (lookup id results) value ≡ true
      → (results' : List (Text × Scenario F W)) × (exit_function_def results (ssa_name id n) value
          ≡ some results')
        × ((id' : Text) (j : ℤ)
            → at_index (lookup id' results') j
              ≡ (if same id id' && same n j then some value else at_index (lookup id' results) j))
  unfolding exit_function_def
  exit_function_def-ssa_name results id n value h fit =
      let (s, e, at) = add_value-fits (lookup id results) n value fit in
      (
        insert id s results,
        rw (symbol_of-ssa_name id n h) (rw e refl),
        λ id' j. ground (arith, at j, lookup-insert id id' s results, same_iff id id'),
      )
