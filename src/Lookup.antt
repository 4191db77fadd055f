-- ===== src/Lookup.antt =====
-- llvm/variables/lookup.go, llvm/variables/pointers.go and llvm/spec.go: the values that the variables
-- of a spec have had.
pub mod History
mod Tests
use fault.Common.{
  ℕ, zero, suc, ◌≡◌, Bool, true, false, List, [], ◌∷◌, ◌++◌, Option, none, some, if◌then◌else◌,
  last?,
}
use fault.Common.Text.{Text, text, text_key, join}
use fault.Common.Dict.{lookup, insert, keys, is_some}
use fault.Common.Fallible.{◌>>=◌}
use fault.Common.Int.{ℤ, pos, negsuc, suc_ℤ, int16}

-- V, P and T are `value.Value`, `*ir.InstAlloca` and `irtypes.Type` of the LLVM library, none of them
-- nil.
pub record LookupTable (V P T : Type 0) : Type 0 where
  pub state : List (Text × ℤ)
  pub pointers : List (Text × P)
  pub values : List (Text × List V)
  pub params : List (Text × List V)
  pub types : List (Text × T)

-- `m[k]` of a map of slices, and of a map of numbers.
abbrev pub or_nil {ℓ} : {A : Type ℓ} → Option (List A) → List A
or_nil none = []
or_nil (some xs) = xs

abbrev pub or_zero : Option ℤ → ℤ
or_zero none = pos 0
or_zero (some n) = n

-- `strings.Join(id, "_")`
abbrev pub ident : List Text → Text
ident id = join b'_' id

-- `id[1]`
abbrev second : List Text → Option Text
second (a ∷ b ∷ id) = some b
second _ = none

module _ {V P T : Type 0} where
  unfoldable pub new_table : LookupTable V P T
  new_table = record { state = []; pointers = []; values = []; params = []; types = [] }

  unfoldable pub list : LookupTable V P T → List Text
  list l = keys l.values

  unfoldable pub add : LookupTable V P T → List Text → V → LookupTable V P T
  add l id val = record l {
    values = insert (ident id) (or_nil (lookup (ident id) l.values) ++ val ∷ []) l.values;
    state = insert (ident id) (pos 0) l.state;
  }

  unfoldable pub add_params : LookupTable V P T → List Text → List V → Option (LookupTable V P T)
  add_params l id p = second id >>= λ s.
      some (record l { params = insert s (or_nil (lookup s l.params) ++ p) l.params })

  unfoldable pub add_param : LookupTable V P T → List Text → V → Option (LookupTable V P T)
  unfolding add_params
  add_param l id p = add_params l id (p ∷ [])

  unfoldable pub store : LookupTable V P T → List Text → Text → P → Option (LookupTable V P T)
  store l id name point =
      if is_some (lookup (ident id) l.values)
      then some (record l { pointers = insert name point l.pointers })
      else none

  -- `none` is the nil value.
  unfoldable pub get : LookupTable V P T → List Text → Option V
  get l id = last? (or_nil (lookup (ident id) l.values))

  -- `none` is the panic.
  unfoldable pub get_state : LookupTable V P T → List Text → Option ℤ
  get_state l id = lookup (ident id) l.state

  unfoldable pub incr_state : LookupTable V P T → List Text → LookupTable V P T
  incr_state l id = record l {
    state = insert (ident id) (int16 (suc_ℤ (or_zero (lookup (ident id) l.state)))) l.state;
  }

  unfoldable pub reset_state : LookupTable V P T → Text → LookupTable V P T
  reset_state l name = record l { state = insert name (pos 0) l.state }

  unfoldable pub get_pointer : LookupTable V P T → Text → Option P
  get_pointer l name = lookup name l.pointers

  unfoldable pub get_params : LookupTable V P T → List Text → Option (List V)
  get_params l id = second id >>= λ s. some (or_nil (lookup s l.params))

  unfoldable pub update : LookupTable V P T → List Text → V → LookupTable V P T
  update l id val = record l {
    values = insert (ident id) (or_nil (lookup (ident id) l.values) ++ val ∷ []) l.values;
    state = insert (ident id) (int16 (suc_ℤ (or_zero (lookup (ident id) l.state)))) l.state;
  }

  unfoldable pub set_type : LookupTable V P T → List Text → T → LookupTable V P T
  set_type l id ty = record l { types = insert (ident id) ty l.types }

  unfoldable pub get_type : LookupTable V P T → Text → Option T
  get_type l name = lookup name l.types

-- `DoubleP` and `I1P` of llvm/compiler.go.
pub data PointerType : Type 0 where
  double_p : PointerType
  i1_p : PointerType

-- `spec`, the representation of a spec.
pub record CompiledSpec (V P T : Type 0) : Type 0 where
  pub name : Text
  pub vars : LookupTable V P T

module _ {V P T : Type 0} where
  unfoldable pub new_compiled_spec : Text → CompiledSpec V P T
  unfolding new_table
  new_compiled_spec name = record { name = name; vars = new_table }

  unfoldable pub get_spec_var : CompiledSpec V P T → List Text → Option V
  unfolding get
  get_spec_var s rawid = get s.vars rawid

  unfoldable pub define_spec_var : CompiledSpec V P T → List Text → V → CompiledSpec V P T
  unfolding get_spec_var update add
  define_spec_var s rawid val = record s {
    vars = if is_some (get_spec_var s rawid) then update s.vars rawid val else add s.vars rawid val;
  }

  unfoldable pub get_spec_var_state : CompiledSpec V P T → List Text → Option ℤ
  unfolding get_state
  get_spec_var_state s rawid = get_state s.vars rawid

  unfoldable pub get_spec_var_pointer : CompiledSpec V P T → List Text → Option P
  unfolding get_pointer
  get_spec_var_pointer s rawid = get_pointer s.vars (ident rawid)

  -- `double` and `i1` are the two types of the library that have a pointer type here, and `same_type`
  -- is its `==`. `none` is the panic.
  unfoldable pub get_pointer_type :
      (T → T → Bool) → T → T → CompiledSpec V P T → Text → Option PointerType
  unfolding get_type
  get_pointer_type same_type double i1 s name = elim (get_type s.vars name) [
    | some ty ↦
        if same_type ty double then some double_p else if same_type ty i1 then some i1_p else none
    | none ↦ some double_p
  ]
