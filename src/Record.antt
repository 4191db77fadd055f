-- ===== src/Record.antt =====
-- preprocess/record.go: the variables and structs of one spec.
pub mod Vars
pub mod Types
pub mod Longest
mod Tests
use fault.Common.{
  ℕ, zero, suc, ◌≡◌, Bool, true, false, List, [], ◌∷◌, ◌++◌, Option, none, some, if◌then◌else◌,
  length, last?, init, ◌==◌, ltb, same,
}
use fault.Common.Text.{Text, text, text_key, join}
use fault.Common.Dict.{lookup, insert}

-- The strings that the callers pass for the type of a struct, and any other.
pub data StructType : Type 0 where
  stock : StructType
  flow : StructType
  component : StructType
  constant : StructType
  nil_type : StructType
  other : Text → StructType

-- A value, an error, or a panic.
pub data Result {ℓ} (A : Type ℓ) : Type ℓ where
  ok : A → Result A
  err : Result A
  panic : Result A

-- `x, err := m; if err != nil { return nil, err }`
infixl 5 ◌>>=◌
abbrev pub ◌>>=◌ {ℓ κ} : {A : Type ℓ} {B : Type κ} → Result A → (A → Result B) → Result B
ok a >>= f = f a
err >>= f = err
panic >>= f = panic

abbrev pub Struct : Type 0 → Type 0
Struct N = List (Text × N)

-- N is `ast.Node`. No map and no node in the record is nil.
pub record SpecRecord (N : Type 0) : Type 0 where
  pub spec_name : Text
  pub stocks : List (Text × Struct N)
  pub flows : List (Text × Struct N)
  pub components : List (Text × Struct N)
  pub constants : Struct N
  pub order : List (StructType × Text)

-- `if m[name] != nil { return m[name], nil }`, and the error where it is missing.
abbrev pub or_err {ℓ} : {A : Type ℓ} → Option A → Result A
or_err none = err
or_err (some a) = ok a

-- `strings.Join(ss, "_")`
abbrev pub underscored : List Text → Text
underscored ss = join 95 ss

module _ {N : Type 0} where
  unfoldable pub new_spec_record : SpecRecord N
  new_spec_record = record {
    spec_name = [];
    stocks = [];
    flows = [];
    components = [];
    constants = [];
    order = [];
  }

  unfoldable pub add_stock : SpecRecord N → Text → Struct N → SpecRecord N
  add_stock sr name v = record sr { stocks = insert name v sr.stocks }

  unfoldable pub add_flow : SpecRecord N → Text → Struct N → SpecRecord N
  add_flow sr name v = record sr { flows = insert name v sr.flows }

  unfoldable pub add_component : SpecRecord N → Text → Struct N → SpecRecord N
  add_component sr name v = record sr { components = insert name v sr.components }

  unfoldable pub add_constant : SpecRecord N → Text → N → SpecRecord N
  add_constant sr name v = record sr { constants = insert name v sr.constants }

  unfoldable pub fetch_stock : SpecRecord N → Text → Result (Struct N)
  fetch_stock sr name = or_err (lookup name sr.stocks)

  unfoldable pub fetch_flow : SpecRecord N → Text → Result (Struct N)
  fetch_flow sr name = or_err (lookup name sr.flows)

  unfoldable pub fetch_component : SpecRecord N → Text → Result (Struct N)
  fetch_component sr name = or_err (lookup name sr.components)

  unfoldable pub fetch_constant : SpecRecord N → Text → Result N
  fetch_constant sr name = or_err (lookup name sr.constants)

  unfoldable pub fetch : SpecRecord N → Text → StructType → Result (Struct N)
  unfolding fetch_stock fetch_flow fetch_component fetch_constant
  fetch sr name stock = fetch_stock sr name
  fetch sr name flow = fetch_flow sr name
  fetch sr name component = fetch_component sr name
  fetch sr name constant = fetch_constant sr name >>= λ ret. ok ((name, ret) ∷ [])
  fetch sr name _ = err

  -- `FetchVar` behind the computation of the names, `str` of the struct and `br` of the property.
  unfoldable pub fetch_property : SpecRecord N → Text → Text → StructType → Result N
  unfolding fetch_stock fetch_flow fetch_component fetch_constant
  fetch_property sr str br stock = fetch_stock sr str >>= λ s. or_err (lookup br s)
  fetch_property sr str br flow = fetch_flow sr str >>= λ f. or_err (lookup br f)
  fetch_property sr str br component = fetch_component sr str >>= λ c. or_err (lookup br c)
  fetch_property sr str br constant = fetch_constant sr str
  fetch_property sr str br _ = err

  -- An id of one part, or of none, has no `rawid[1]`.
  unfoldable pub fetch_var : SpecRecord N → List Text → StructType → Result N
  unfolding fetch_property
  fetch_var sr [] ty = panic
  fetch_var sr (spec ∷ []) ty = panic
  fetch_var sr (spec ∷ str ∷ []) ty = fetch_property sr str str ty
  fetch_var sr (spec ∷ str ∷ br ∷ []) ty = fetch_property sr str br ty
  fetch_var sr (spec ∷ a ∷ b ∷ c ∷ ids) ty = elim (last? (c ∷ ids)) [
    | some br ↦ fetch_property sr (underscored (init (a ∷ b ∷ c ∷ ids))) br ty
    | none ↦ panic
  ]

  -- `m[name][pr] = val`: a write into the nil map of a missing struct is a panic.
  unfoldable pub write_property :
      List (Text × Struct N) → Text → Text → N → Result (List (Text × Struct N))
  write_property m name pr val = elim (lookup name m) [
    | some s ↦ ok (insert name (insert pr val s) m)
    | none ↦ panic
  ]

  unfoldable pub write_var :
      SpecRecord N → Text → Text → Text → StructType → N → Result (SpecRecord N)
  unfolding write_property
  write_var sr name pr whole stock val =
      write_property sr.stocks name pr val >>= λ m. ok (record sr { stocks = m })
  write_var sr name pr whole flow val =
      write_property sr.flows name pr val >>= λ m. ok (record sr { flows = m })
  write_var sr name pr whole component val =
      write_property sr.components name pr val >>= λ m. ok (record sr { components = m })
  write_var sr name pr whole constant val =
      ok (record sr { constants = insert whole val sr.constants })
  write_var sr name pr whole nil_type val = err
  write_var sr name pr whole (other t) val = ok sr

  -- `rawid[1:len(rawid)-1]` is a panic on less than two parts.
  unfoldable pub update_var : SpecRecord N → List Text → StructType → N → Result (SpecRecord N)
  unfolding write_var
  update_var sr [] ty val = panic
  update_var sr (spec ∷ []) ty val = panic
  update_var sr (spec ∷ a ∷ ids) ty val = elim (last? (a ∷ ids)) [
    | some pr ↦ write_var sr (underscored (init (a ∷ ids))) pr (underscored (a ∷ ids)) ty val
    | none ↦ panic
  ]

  unfoldable pub index : SpecRecord N → StructType → Text → SpecRecord N
  index sr ty name = record sr { order = sr.order ++ (ty, name) ∷ [] }
