-- ===== src/Variables/Names.antt =====
-- The names of assignments: `AdvanceSSA`, `GetSSA` and `GetVarBase` (smt/variables/variables.go).
use fault.Common.{
  ◌≡◌, ap, Option, none, some, arith, same, last?-append, init-append, if◌then◌else◌,
}
use fault.Common.Dict.{lookup, lookup-insert}
use fault.Common.Int.{ℤ, pos, IsInt16, int16, suc_ℤ}
use fault.Common.Text.{Text, text_key, split, itoa, split-append, join-split, atoi-itoa, has-itoa}
use fault.Variables.{VarData, ssa_name, get_var_base, advance_ssa}

-- `GetVarBase` takes a name apart into what it was made of, also where the variable's own name holds
-- underscores or digits.
pub get_var_base-ssa_name :
    (id : Text) (n : ℤ) → IsInt16 n → get_var_base (ssa_name id n) ≡ some (id, n)
unfolding get_var_base ssa_name
get_var_base-ssa_name id n h = rw (split-append b'_' id (itoa n) (has-itoa n)) (
    rw (last?-append (split b'_' id) (itoa n), init-append (split b'_' id) (itoa n))
      (rw (atoi-itoa n h) (rw (join-split b'_' id))))

pub ssa_name_injective :
    (a b : Text) (i j : ℤ) → IsInt16 i → IsInt16 j → ssa_name a i ≡ ssa_name b j → (a ≡ b) × (i ≡ j)
ssa_name_injective a b i j hi hj e =
    ground (arith, get_var_base-ssa_name a i hi, get_var_base-ssa_name b j hj, ap get_var_base e)

-- The number that `AdvanceSSA` gives the next assignment.
unfoldable pub next : Option ℤ → ℤ
next none = pos 0
next (some i) = int16 (suc_ℤ i)

module _ {V : Type 0} (vd : VarData V) (id : Text) where
  pub advance_ssa_name : (advance_ssa vd id).0 ≡ ssa_name id (next (lookup id vd.ssa))
  unfolding advance_ssa ssa_name next itoa
  advance_ssa_name = ground arith

  pub advance_ssa_at :
      (j : Text)
      → lookup j (advance_ssa vd id).1.ssa
        ≡ (if same id j then some (next (lookup id vd.ssa)) else lookup j vd.ssa)
  unfolding advance_ssa next
  advance_ssa_at j = ground (
    arith,
    lookup-insert id j (pos 0) vd.ssa,
    lookup-insert id j (next (lookup id vd.ssa)) vd.ssa,
  )
