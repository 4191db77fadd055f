-- ===== src/Record/Vars.antt =====
-- `UpdateVar` and `FetchVar` of preprocess/record.go.
use fault.Common.{
  ◌≡◌, refl, Bool, true, false, ◌&&◌, List, [], ◌∷◌, some, arith, if◌then◌else◌, last?, init, same,
  same_iff,
}
use fault.Common.Text.{Text, text_key, join}
use fault.Common.Dict.{lookup, insert, lookup-insert}
use fault.Record.{
  StructType, stock, flow, component, constant, nil_type, other, ok, ◌>>=◌, Struct, SpecRecord,
  or_err, underscored, fetch_property, fetch_var, write_property, write_var, update_var,
  fetch_stock, fetch_flow, fetch_component, fetch_constant,
}

-- A type whose values have properties.
abbrev pub is_struct : StructType → Bool
is_struct stock = true
is_struct flow = true
is_struct component = true
is_struct _ = false

abbrev pub same_type : StructType → StructType → Bool
same_type stock stock = true
same_type flow flow = true
same_type component component = true
same_type _ _ = false

module _ {N : Type 0} where
  -- The structs of a type.
  abbrev pub structs : SpecRecord N → StructType → List (Text × Struct N)
  structs sr stock = sr.stocks
  structs sr flow = sr.flows
  structs sr component = sr.components
  structs sr _ = []

  -- What `m[name'][pr']` reads after the write of a property.
  read_written :
      (m : List (Text × Struct N)) (s : Struct N) (name pr name' pr' : Text) (val : N)
      → lookup name m ≡ some s
      → (or_err (lookup name' (insert name (insert pr val s) m)) >>= λ s'. or_err (lookup pr' s'))
        ≡ (if same name name' && same pr pr'
            then ok val
            else or_err (lookup name' m) >>= λ s'. or_err (lookup pr' s'))
  read_written m s name pr name' pr' val e = ground (
    arith,
    e,
    lookup-insert name name' (insert pr val s) m,
    lookup-insert pr pr' val s,
    same_iff name name',
  )

  not_empty {ℓ} : {A : Type ℓ} (name : Text) (s : Struct N) → lookup name [] ≡ some s → A
  unfolding lookup
  not_empty name s e = cc

  -- The record after the write of a property of a struct that exists reads as it did, but for that
  -- property.
  abbrev Written : SpecRecord N → StructType → Text → Text → N → SpecRecord N → Type 0
  Written sr ty name pr val sr' =
      (n p : Text) (ty' : StructType)
      → fetch_property sr' n p ty' ≡ (
          if same_type ty ty' && (same name n && same pr p)
          then ok val
          else fetch_property sr n p ty')

  write_var-Written :
      (sr : SpecRecord N) (ty : StructType) (name pr whole : Text) (val : N) (s : Struct N)
      → lookup name (structs sr ty) ≡ some s
      → (sr' : SpecRecord N) × (write_var sr name pr whole ty val ≡ ok sr')
        × Written sr ty name pr val sr'
  unfolding write_var write_property fetch_property fetch_stock fetch_flow fetch_component
      fetch_constant
  write_var-Written sr stock name pr whole val s e = (
    record sr { stocks = insert name (insert pr val s) sr.stocks },
    rw (write_var, write_property, e) refl,
    λ n p. elim [
      | stock ↦ read_written sr.stocks s name pr n p val e
      | flow ↦ refl
      | component ↦ refl
      | constant ↦ refl
      | nil_type ↦ refl
      | other t ↦ refl
    ],
  )
  write_var-Written sr flow name pr whole val s e = (
    record sr { flows = insert name (insert pr val s) sr.flows },
    rw (write_var, write_property, e) refl,
    λ n p. elim [
      | stock ↦ refl
      | flow ↦ read_written sr.flows s name pr n p val e
      | component ↦ refl
      | constant ↦ refl
      | nil_type ↦ refl
      | other t ↦ refl
    ],
  )
  write_var-Written sr component name pr whole val s e = (
    record sr { components = insert name (insert pr val s) sr.components },
    rw (write_var, write_property, e) refl,
    λ n p. elim [
      | stock ↦ refl
      | flow ↦ refl
      | component ↦ read_written sr.components s name pr n p val e
      | constant ↦ refl
      | nil_type ↦ refl
      | other t ↦ refl
    ],
  )
  write_var-Written sr constant name pr whole val s e = not_empty name s e
  write_var-Written sr nil_type name pr whole val s e = not_empty name s e
  write_var-Written sr (other t) name pr whole val s e = not_empty name s e

-- The struct and the property that an id of at least three parts names, without the spec in front.
abbrev pub struct_of : List Text → Text
struct_of ids = underscored (init ids)

abbrev pub property_of : List Text → Text
property_of [] = []
property_of (a ∷ []) = a
property_of (a ∷ b ∷ ids) = property_of (b ∷ ids)

last?-property_of : (a : Text) (ids : List Text) → last? (a ∷ ids) ≡ some (property_of (a ∷ ids))
last?-property_of a [] = refl
last?-property_of a (b ∷ ids) = last?-property_of b ids

module _ {N : Type 0} where
  fetch_var-property :
      (sr : SpecRecord N) (spec a b : Text) (ids : List Text) (ty : StructType)
      → fetch_var sr (spec ∷ a ∷ b ∷ ids) ty
        ≡ fetch_property sr (struct_of (a ∷ b ∷ ids)) (property_of (a ∷ b ∷ ids)) ty
  unfolding fetch_var join
  fetch_var-property sr spec a b [] ty = refl
  fetch_var-property sr spec a b (c ∷ ids) ty = rw (fetch_var, last?-property_of c ids) refl

  -- `UpdateVar` of a property of a struct that exists returns no error and does not panic. Then
  -- `FetchVar` reads the new value for each id that names that property, and for every other id of at
  -- least three parts, and every other type, what it read before.
  pub update_var-fetch_var :
      (sr : SpecRecord N) (spec a b : Text) (ids : List Text) (ty : StructType) (val : N)
      (s : Struct N)
      → lookup (struct_of (a ∷ b ∷ ids)) (structs sr ty) ≡ some s
      → (sr' : SpecRecord N) × (update_var sr (spec ∷ a ∷ b ∷ ids) ty val ≡ ok sr')
        × ((spec' a' b' : Text) (ids' : List Text) (ty' : StructType)
            → fetch_var sr' (spec' ∷ a' ∷ b' ∷ ids') ty' ≡ (
                if same_type ty ty'
                  && (same (struct_of (a ∷ b ∷ ids)) (struct_of (a' ∷ b' ∷ ids'))
                      && same (property_of (a ∷ b ∷ ids)) (property_of (a' ∷ b' ∷ ids')))
                then ok val
                else fetch_var sr (spec' ∷ a' ∷ b' ∷ ids') ty'))
  unfolding update_var
  update_var-fetch_var sr spec a b ids ty val s e =
      let (sr', u, w) =
        write_var-Written sr ty (struct_of (a ∷ b ∷ ids)) (property_of (a ∷ b ∷ ids))
          (underscored (a ∷ b ∷ ids)) val s e in
      (
        sr',
        rw (update_var, last?-property_of b ids) u,
        λ spec' a' b' ids' ty'.
            rw
              (
                fetch_var-property sr' spec' a' b' ids' ty',
                fetch_var-property sr spec' a' b' ids' ty',
              )
              (w (struct_of (a' ∷ b' ∷ ids')) (property_of (a' ∷ b' ∷ ids')) ty'),
      )
