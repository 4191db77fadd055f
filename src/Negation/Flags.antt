-- ===== src/Negation/Flags.antt =====
-- Assertions that compare a Boolean variable with a truth value, under `compileAssert`
-- (llvm/compiler.go).
use mathlib.Core.Bool.{xor}
use fault.Common.{◌≡◌, refl, Bool, false, not, some, arith, if◌then◌else◌, same, ◌⊎◌, inl, inr}
use fault.Common.Int.{ℤ}
use fault.Common.Text.{Text, text, text_key}
use fault.Common.Dict.{lookup}
use fault.Negation.{node, boolean, Arithmetic, Assertion, compile_assert}

abbrev pub flag_assertion : {F : Type 0} → Text → Text → Bool → ℤ → Assertion F
flag_assertion x op b n = record {
  left = node x;
  operator = op;
  right = boolean b;
  temporal_filter = text "";
  temporal_n = n;
}

-- The truth of the comparison where the variable is `v`.
abbrev pub flag_holds : Text → Bool → Bool → Bool
flag_holds op b v =
    if same op (text "==") then not (xor v b) else if same op (text "!=") then xor v b else false

flags_equal :
    {F : Type 0} (go : Arithmetic F) (x : Text) (b : Bool) (n : ℤ)
    → compile_assert go (flag_assertion x (text "==") b n)
      ≡ some (flag_assertion x (text "!=") (not b) n)
unfolding compile_assert lookup
flags_equal go x b n = refl

flags_differ :
    {F : Type 0} (go : Arithmetic F) (x : Text) (b : Bool) (n : ℤ)
    → compile_assert go (flag_assertion x (text "!=") b n)
      ≡ some (flag_assertion x (text "==") (not b) n)
unfolding compile_assert lookup
flags_differ go x b n = refl

-- An assertion with no temporal filter that a Boolean variable is equal, or unequal, to a truth value
-- is compiled to one with the same meaning, and not to its negation: both the operator and the truth
-- value are turned round.
pub compile_assert-flag_assertion :
    {F : Type 0} (go : Arithmetic F) (x op : Text) (b : Bool) (n : ℤ)
    → (op ≡ text "==") ⊎ (op ≡ text "!=")
    → (op' : Text) × (b' : Bool) × (compile_assert go (flag_assertion x op b n)
        ≡ some (flag_assertion x op' b' n))
      × ((v : Bool) → flag_holds op' b' v ≡ flag_holds op b v)
unfolding xor
compile_assert-flag_assertion go x op b n (inl e) =
    (text "!=", not b, rw e (flags_equal go x b n), λ v. rw e (ground arith))
compile_assert-flag_assertion go x op b n (inr e) =
    (text "==", not b, rw e (flags_differ go x b n), λ v. rw e (ground arith))
