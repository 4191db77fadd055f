-- ===== src/Record/Types.antt =====
-- `GetStructType` and `Update` of preprocess/record.go.
use fault.Common.{
  ℕ, zero, suc, Bool, false, List, [], ◌∷◌, Option, none, some, if◌then◌else◌, length, init, ltb,
  same,
}
use fault.Common.Text.{Text, text_key}
use fault.Common.Dict.{lookup, insert, is_some}
use fault.Record.{
  StructType, stock, flow, component, constant, nil_type, other, Result, ok, err, panic, ◌>>=◌,
  Struct, SpecRecord, underscored,
}

-- The loop over `sr.Order`.
find_order : List (StructType × Text) → Text → Option StructType
find_order [] id = none
find_order ((ty, name) ∷ order) id = if same name id then some ty else find_order order id

abbrev tail : List Text → List Text
tail [] = []
tail (x ∷ xs) = xs

module _ {N : Type 0} where
  -- `len(rawid) == 2` and the constant is there; without the spec in front.
  is_constant : SpecRecord N → List Text → Bool
  is_constant sr (a ∷ []) = is_some (lookup a sr.constants)
  is_constant sr _ = false

  -- What `GetStructType` finds for an id before it makes the id shorter.
  unfoldable pub named : SpecRecord N → List Text → Option StructType
  unfolding is_constant find_order
  named sr ids = if is_constant sr ids then some constant else find_order sr.order (underscored ids)

  -- `rawid[1:]` of an empty id is a panic. The length of the id is fuel enough.
  unfoldable pub struct_type_loop : ℕ → SpecRecord N → List Text → Result (StructType × List Text)
  unfolding named
  struct_type_loop n sr [] = panic
  struct_type_loop zero sr (spec ∷ ids) = ok (nil_type, spec ∷ ids)
  struct_type_loop (suc n) sr (spec ∷ ids) =
      let rest = struct_type_loop n sr (init (spec ∷ ids)) in
      elim (named sr ids) [
        | some ty ↦ ok (ty, spec ∷ ids)
        | none ↦ if ltb 1 (length (init (spec ∷ ids))) then rest else ok (nil_type, spec ∷ ids)
      ]

  unfoldable pub get_struct_type : SpecRecord N → List Text → Result (StructType × List Text)
  unfolding struct_type_loop
  get_struct_type sr rawid = struct_type_loop (length rawid) sr rawid

  unfoldable pub update_stock : SpecRecord N → Text → Struct N → Result (SpecRecord N)
  update_stock sr name val =
      if is_some (lookup name sr.stocks)
      then ok (record sr { stocks = insert name val sr.stocks })
      else err

  unfoldable pub update_flow : SpecRecord N → Text → Struct N → Result (SpecRecord N)
  update_flow sr name val =
      if is_some (lookup name sr.flows)
      then ok (record sr { flows = insert name val sr.flows })
      else err

  unfoldable pub update_component : SpecRecord N → Text → Struct N → Result (SpecRecord N)
  update_component sr name val =
      if is_some (lookup name sr.components)
      then ok (record sr { components = insert name val sr.components })
      else err

  -- A call whose error is not read.
  abbrev ignored : SpecRecord N → Result (SpecRecord N) → Result (SpecRecord N)
  ignored sr (ok sr') = ok sr'
  ignored sr err = ok sr
  ignored sr panic = panic

  -- The switch of `Update`.
  unfoldable pub update_struct : SpecRecord N → StructType → Text → Struct N → Result (SpecRecord N)
  unfolding update_stock update_flow update_component
  update_struct sr stock name val = ignored sr (update_stock sr name val)
  update_struct sr flow name val = ignored sr (update_flow sr name val)
  update_struct sr component name val = ignored sr (update_component sr name val)
  update_struct sr constant name val = ok sr
  update_struct sr nil_type name val = err
  update_struct sr (other t) name val = ok sr

  unfoldable pub update : SpecRecord N → List Text → Struct N → Result (SpecRecord N)
  unfolding get_struct_type update_struct
  update sr rawid val = get_struct_type sr rawid >>= λ found.
      let (ty, rawid2) = found in update_struct sr ty (underscored (tail rawid2)) val
