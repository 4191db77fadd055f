-- ===== src/Types/Checker.antt =====
-- The state of the checker of types/types.go, and what its methods return.
use fault.Common.{
  ◌+◌, ℕ, zero, suc, Bool, true, false, List, [], ◌∷◌, Option, none, some, if◌then◌else◌, get_elem?,
  length, ◌==◌, ◌^◌, leb,
}
use fault.Common.Text.{Text, text_key, split}
use fault.Common.Dict.{lookup, insert}
use fault.Common.Int.{ℤ, pos}
use fault.Record.{
  StructType, stock, flow, component, SpecRecord, Result, ok, err, panic, fetch_var, update_var,
}
use fault.Record.Types.{get_struct_type}
use fault.Types.Ty.{Ty}
use fault.Types.Expr.{Expr, missing, StructKind, stock_kind, flow_kind, component_kind}

-- A temporary may have no type. `next` is an address that no type has.
pub record Checker (F : Type 0) : Type 0 where
  pub specs : List (Text × SpecRecord (Expr F))
  pub in_stock : Text
  pub temps : List (Text × Option Ty)
  pub next : ℕ

-- A value, a value beside an error, a panic, or no fuel left.
pub data Outcome {ℓ} (F : Type 0) (A : Type ℓ) : Type ℓ where
  done : A → Checker F → Outcome F A
  failed : A → Checker F → Outcome F A
  panicked : Outcome F A
  spent : Outcome F A

module _ {F : Type 0} where
  -- `a, err := m; if err != nil { return d, err }`
  abbrev pub and_then {ℓ κ} :
      {A : Type ℓ} {B : Type κ} → B → Outcome F A → (A → Checker F → Outcome F B) → Outcome F B
  and_then d (done a c) f = f a c
  and_then d (failed a c) f = failed d c
  and_then d panicked f = panicked
  and_then d spent f = spent

  -- `a, err := m` with the error read later: the flag says that there is one.
  abbrev pub with_err {ℓ κ} :
      {A : Type ℓ} {B : Type κ} → Outcome F A → (A → Bool → Checker F → Outcome F B) → Outcome F B
  with_err (done a c) f = f a false c
  with_err (failed a c) f = f a true c
  with_err panicked f = panicked
  with_err spent f = spent

  -- `return a, err`
  abbrev pub return {ℓ} : {A : Type ℓ} → A → Bool → Checker F → Outcome F A
  return a false c = done a c
  return a true c = failed a c

  -- A call of a spec record, whose error is given with `d`.
  abbrev pub of_record {ℓ κ} :
      {A : Type ℓ} {B : Type κ} → B → Result A → Checker F → (A → Outcome F B) → Outcome F B
  of_record d (ok a) c f = f a
  of_record d err c f = failed d c
  of_record d panic c f = panicked

  abbrev pub or_panic {ℓ κ} : {A : Type ℓ} {B : Type κ} → Option A → (A → Outcome F B) → Outcome F B
  or_panic none f = panicked
  or_panic (some a) f = f a

  -- `&ast.Type{…}` in the field of a node.
  abbrev pub fresh {ℓ} :
      {A : Type ℓ} → Text → ℤ → List (Text × ℤ) → (Option Ty → A) → Checker F → Outcome F A
  fresh name scope params node c =
      done (node (some (record { address = c.next; name = name; scope = scope; params = params })))
        (record c { next = c.next + 1 })

  -- `c.SpecStructs[rawid[0]]`, where a method of it is called.
  abbrev pub spec_of : Checker F → List Text → Option (SpecRecord (Expr F))
  spec_of c [] = none
  spec_of c (spec ∷ ids) = lookup spec c.specs

  abbrev kept_record : Checker F → Text → Result (SpecRecord (Expr F)) → Outcome F Bool
  kept_record c spec (ok r) = done true (record c { specs = insert spec r c.specs })
  kept_record c spec err = done false c
  kept_record c spec panic = panicked

  -- `spec.UpdateVar(rawid, ty, v)`, whose error is not read.
  unfoldable pub put_var : List Text → StructType → Expr F → Checker F → Outcome F Bool
  unfolding lookup insert update_var
  put_var [] ty v c = panicked
  put_var (spec ∷ ids) ty v c =
      or_panic (lookup spec c.specs) (λ r. kept_record c spec (update_var r (spec ∷ ids) ty v))

  -- `GetStructType` of the one id and `FetchVar` of the other; the type of the struct beside the node.
  unfoldable pub find_var :
      (struct_id raw_id : List Text) → Checker F → Outcome F (StructType × Expr F)
  unfolding get_struct_type fetch_var lookup
  find_var struct_id raw_id c = or_panic (spec_of c raw_id) λ spec.
      of_record (StructType.nil_type, missing) (get_struct_type spec struct_id) c
        λ found.
          of_record (StructType.nil_type, missing) (fetch_var spec raw_id found.0) c
            λ v. done (found.0, v) c

abbrev pub kind_type : StructKind → StructType
kind_type stock_kind = stock
kind_type flow_kind = flow
kind_type component_kind = component

-- What comes from outside: `fmt.Sprintf("%f", …)`, and `int32(math.Pow10(n))` from ten digits on, where
-- an int32 does not hold the power and Go leaves the result to the implementation.
pub record Floats (F : Type 0) : Type 0 where
  pub sprintf : F → Text
  pub int32_wide : ℕ → ℤ

-- `int32(math.Pow10(n))`: 10 ^ 9 is the last power below 2 ^ 31.
abbrev pub int32_pow10 : (ℕ → ℤ) → ℕ → ℤ
int32_pow10 wide n = if leb n 9 then pos (10 ^ n) else wide n

-- The loop of `calculateBase` from index `i`, down.
unfoldable pub base_from : (ℕ → ℤ) → ℕ → Text → ℤ
base_from wide zero s = pos 1
base_from wide (suc i) s = elim (get_elem? s i) [
  | some r ↦ if r == b'0' then base_from wide i s else int32_pow10 wide (suc i)
  | none ↦ base_from wide i s
]

unfoldable pub calculate_base : (ℕ → ℤ) → Text → ℤ
unfolding base_from
calculate_base wide s = base_from wide (length s) s

module _ {F : Type 0} (floats : Floats F) where
  -- `inferScope`; `none` is the panic where `%f` prints no dot.
  unfoldable pub infer_scope : F → Option ℤ
  unfolding calculate_base split
  infer_scope fl = elim (get_elem? (split b'.' (floats.sprintf fl)) 1) [
    | some s ↦ some (calculate_base floats.int32_wide s)
    | none ↦ none
  ]
