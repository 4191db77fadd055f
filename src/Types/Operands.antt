-- ===== src/Types/Operands.antt =====
-- The types of two operands of an arithmetic operator, by their kinds.
use fault.Common.{
  ℕ, ◌≡◌, ◌≢◌, refl, ap, ◌∙◌, Bool, ◌&&◌, ◌||◌, some, if◌then◌else◌, same, ltb, ◌==◌, arith,
}
use fault.Common.Text.{Text, text, text_key}
use fault.Record.{ok, err}
use fault.Types.Ty.{Ty, rank, is_compare_op, lower, adjust, type_adju}

pub data Kind : Type 0 where
  string_kind : Kind
  bool_kind : Kind
  natural_kind : Kind
  float_kind : Kind
  int_kind : Kind
  uncertain_kind : Kind
  unknown_kind : Kind

abbrev pub kind_text : Kind → Text
kind_text string_kind = text "STRING"
kind_text bool_kind = text "BOOL"
kind_text natural_kind = text "NATURAL"
kind_text float_kind = text "FLOAT"
kind_text int_kind = text "INT"
kind_text uncertain_kind = text "UNCERTAIN"
kind_text unknown_kind = text "UNKNOWN"

abbrev pub weight : Kind → ℕ
weight string_kind = 0
weight bool_kind = 1
weight natural_kind = 2
weight float_kind = 3
weight int_kind = 4
weight uncertain_kind = 5
weight unknown_kind = 6

-- Neither a string nor a Boolean.
abbrev pub numeric : Kind → Bool
numeric k = ltb 1 (weight k)

abbrev pub lower_kind : Kind → Kind → Kind
lower_kind a b = if ltb (weight b) (weight a) then b else a

pub data Arithmetic : Type 0 where
  power : Arithmetic
  times : Arithmetic
  over : Arithmetic
  modulo : Arithmetic
  plus : Arithmetic
  minus : Arithmetic

abbrev pub op_text : Arithmetic → Text
op_text power = text "**"
op_text times = text "*"
op_text over = text "/"
op_text modulo = text "%"
op_text plus = text "+"
op_text minus = text "-"

rank-kind_text : (k : Kind) → rank (kind_text k) ≡ weight k
unfolding rank
rank-kind_text string_kind = refl
rank-kind_text bool_kind = refl
rank-kind_text natural_kind = refl
rank-kind_text float_kind = refl
rank-kind_text int_kind = refl
rank-kind_text uncertain_kind = refl
rank-kind_text unknown_kind = refl

is_bool-kind_text : (k : Kind) → same (kind_text k) (text "BOOL") ≡ (weight k == 1)
is_bool-kind_text string_kind = refl
is_bool-kind_text bool_kind = refl
is_bool-kind_text natural_kind = refl
is_bool-kind_text float_kind = refl
is_bool-kind_text int_kind = refl
is_bool-kind_text uncertain_kind = refl
is_bool-kind_text unknown_kind = refl

type_adju-op_text :
    (next : ℕ) (l r : Ty) (op : Arithmetic)
    → type_adju next (some l) (some r) (op_text op)
      ≡ (if same l.name (text "BOOL") || same r.name (text "BOOL") then err else lower l r)
unfolding type_adju adjust is_compare_op
type_adju-op_text next l r power = refl
type_adju-op_text next l r times = refl
type_adju-op_text next l r over = refl
type_adju-op_text next l r modulo = refl
type_adju-op_text next l r plus = refl
type_adju-op_text next l r minus = refl

choice :
    {A : Type 0} (w v i j : ℕ) (x y e : A)
    → i ≢ j
    → (if w == 1 || v == 1
        then e
        else if i == j
        then x
        else if w == 0 || v == 0
        then e
        else if ltb v w
        then y
        else x)
      ≡ (if ltb 1 w && ltb 1 v then (if ltb v w then y else x) else e)
choice w v i j x y e d = ground arith

-- Two types that are not one give the one of lower rank, or an error unless both are numeric.
pub type_adju-kinds :
    (next : ℕ) (l r : Ty) (op : Arithmetic) (a b : Kind)
    → l.name ≡ kind_text a
    → r.name ≡ kind_text b
    → l.address ≢ r.address
    → type_adju next (some l) (some r) (op_text op) ≡ (
        if numeric a && numeric b
        then (if ltb (weight b) (weight a) then ok (some r) else ok (some l))
        else err)
unfolding lower
type_adju-kinds next l r op a b p q d =
    type_adju-op_text next l r op
    ∙ rw (ap rank p ∙ rank-kind_text a) rw (ap rank q ∙ rank-kind_text b) rw
        (ap (λ n. same n (text "BOOL")) p ∙ is_bool-kind_text a) rw
        (ap (λ n. same n (text "BOOL")) q ∙ is_bool-kind_text b)
        (choice (weight a) (weight b) l.address r.address (ok (some l)) (ok (some r)) err d)
