-- ===== src/Record/Tests.antt =====
-- preprocess/record.go on a spec with the stock s, whose nodes are numbers.
use fault.Common.{ℕ, ◌≡◌, refl, ◌&&◌, List, [], ◌∷◌, if◌then◌else◌, same}
use fault.Common.Text.{Text, text, text_key, join}
use fault.Common.Dict.{lookup, insert}
use fault.Record.{
  StructType, stock, constant, Result, ok, err, panic, SpecRecord, new_spec_record, add_stock,
  fetch_var, update_var,
}
use fault.Common.{take}
use fault.Record.{fetch_stock, underscored, index}
use fault.Record.Types.{named, get_struct_type, update}
use fault.Record.Longest.{IsLongest, get_struct_type-IsLongest, update_stock_lem}
use fault.Common.Dict.{is_some}
use fault.Record.Vars.{struct_of, property_of, same_type, update_var-fetch_var}

abbrev with_stock : SpecRecord ℕ
with_stock = add_stock new_spec_record (text "s") ((text "a", 1) ∷ (text "b", 2) ∷ [])

update_var-fetch_var_example :
    (sr' : SpecRecord ℕ) × (update_var with_stock (text "spec" ∷ text "s" ∷ text "a" ∷ []) stock 7
      ≡ ok sr')
    × ((spec' a' b' : Text) (ids' : List Text) (ty' : StructType)
        → fetch_var sr' (spec' ∷ a' ∷ b' ∷ ids') ty' ≡ (
            if same_type stock ty'
              && (same (struct_of (text "s" ∷ text "a" ∷ [])) (struct_of (a' ∷ b' ∷ ids'))
                  && same (property_of (text "s" ∷ text "a" ∷ [])) (property_of (a' ∷ b' ∷ ids')))
            then ok 7
            else fetch_var with_stock (spec' ∷ a' ∷ b' ∷ ids') ty'))
unfolding lookup join new_spec_record add_stock insert
update_var-fetch_var_example =
    update_var-fetch_var with_stock (text "spec") (text "s") (text "a") [] stock 7
      ((text "a", 1) ∷ (text "b", 2) ∷ []) refl

abbrev spec_k_x : List Text
spec_k_x = text "spec" ∷ text "k" ∷ text "x" ∷ []

abbrev read_back : Result (SpecRecord ℕ) → Result ℕ
read_back (ok sr) = fetch_var sr spec_k_x constant
read_back err = err
read_back panic = panic

-- A constant with an id of three parts is written under `k_x` and read under `k`.
constant_lost : read_back (update_var with_stock spec_k_x constant 7) ≡ err
unfolding update_var fetch_var new_spec_record add_stock lookup join insert
constant_lost = refl

-- The stock s stands in the order.
abbrev ordered : SpecRecord ℕ
ordered = index with_stock stock (text "s")

get_struct_type-IsLongest_example :
    (ty : StructType) × (k : ℕ) × (get_struct_type ordered (text "spec" ∷ text "s" ∷ text "a" ∷ [])
      ≡ ok (ty, text "spec" ∷ take k (text "s" ∷ text "a" ∷ [])))
    × IsLongest ordered (text "s" ∷ text "a" ∷ []) ty k
get_struct_type-IsLongest_example =
    get_struct_type-IsLongest ordered (text "spec") (text "s") (text "a" ∷ [])

type_of_property :
    get_struct_type ordered (text "spec" ∷ text "s" ∷ text "a" ∷ [])
    ≡ ok (stock, text "spec" ∷ text "s" ∷ [])
unfolding get_struct_type index new_spec_record add_stock lookup join insert
type_of_property = refl

update_stock_lem_example :
    (sr' : SpecRecord ℕ) × (update ordered (text "spec" ∷ text "s" ∷ []) [] ≡ ok sr')
    × ((name : Text)
        → fetch_stock sr' name ≡ (
            if same (underscored (text "s" ∷ [])) name
              && is_some (lookup (underscored (text "s" ∷ [])) ordered.stocks)
            then ok []
            else fetch_stock ordered name))
unfolding named index new_spec_record add_stock lookup join insert
update_stock_lem_example = update_stock_lem ordered (text "spec") (text "s") [] [] refl
