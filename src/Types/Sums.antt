-- ===== src/Types/Sums.antt =====
-- Arithmetic over literals as the parser builds it, and the types that it may get.
use fault.Common.{
  Bool-cases, inl, inr, All, has, has-append, same_refl, ◌++◌, nat_key, ℕ, ◌+◌, ◌≤◌, ◌<◌, ◌≡◌, refl,
  sym, ◌∙◌, Bool, true, false, ◌&&◌, List, [], ◌∷◌, some, none, if◌then◌else◌, same, ltb, leb,
  arith,
}
use fault.Common.Text.{text, text_key}
use fault.Types.Ty.{Ty, is_compare_op}
use fault.Types.Expr.{
  Expr, integer, float, boolean, string, natural, uncertain, unknown, infix_of, typeable, is_nil,
  is_missing,
}
use fault.Types.Checker.{Checker, Outcome, done}
use fault.Types.Operands.{
  Kind, string_kind, bool_kind, natural_kind, float_kind, int_kind, uncertain_kind, unknown_kind,
  kind_text, numeric, lower_kind, weight, Arithmetic, power, times, over, modulo, plus, minus,
  op_text,
}

pub data Literal (F : Type 0) : Type 0 where
  an_integer : Literal F
  a_float : F → Literal F
  a_boolean : Literal F
  a_string : Literal F
  a_natural : Literal F
  an_uncertain : (mean sigma : F) → Literal F
  an_unknown : Literal F

pub data Sum (F : Type 0) : Type 0 where
  leaf : Literal F → Sum F
  sum : Arithmetic → Sum F → Sum F → Sum F

abbrev max : ℕ → ℕ → ℕ
max a b = if leb a b then b else a

pub is_compare_op-op_text : (op : Arithmetic) → is_compare_op (op_text op) ≡ false
unfolding is_compare_op
is_compare_op-op_text power = refl
is_compare_op-op_text times = refl
is_compare_op-op_text over = refl
is_compare_op-op_text modulo = refl
is_compare_op-op_text plus = refl
is_compare_op-op_text minus = refl

pub flows-op_text : (op : Arithmetic) → same (op_text op) (text "<-") ≡ false
flows-op_text power = refl
flows-op_text times = refl
flows-op_text over = refl
flows-op_text modulo = refl
flows-op_text plus = refl
flows-op_text minus = refl

numeric-lower_kind :
    (a b : Kind) → numeric a ≡ true → numeric b ≡ true → numeric (lower_kind a b) ≡ true
numeric-lower_kind a b p q = elim (Bool-cases (ltb (weight b) (weight a))) [
  | inl e ↦ rw e q
  | inr e ↦ rw e p
]

All-append : (P : ℕ → Type 0) (xs ys : List ℕ) → All P xs → All P ys → All P (xs ++ ys)
All-append P [] ys p q = q
All-append P (x ∷ xs) ys p q = (p.0, All-append P xs ys p.1 q)

All_below : {n m : ℕ} (xs : List ℕ) → n ≤ m → All (λ x. m ≤ x) xs → All (λ x. n ≤ x) xs
All_below [] h p = tt
All_below (x ∷ xs) h p = (omega (arith, h, p.0), All_below xs h p.1)

lower_kind-left : (a b : Kind) → weight (lower_kind a b) ≤ weight a
lower_kind-left a b = elim (Bool-cases (ltb (weight b) (weight a))) [
  | inl e ↦ rw e (ground (arith, e))
  | inr e ↦ rw e (omega arith)
]

lower_kind-right : (a b : Kind) → weight (lower_kind a b) ≤ weight b
lower_kind-right a b = elim (Bool-cases (ltb (weight b) (weight a))) [
  | inl e ↦ rw e (omega arith)
  | inr e ↦ rw e (ground (arith, e))
]

module _ {F : Type 0} where
  abbrev pub leaf_kind : Literal F → Kind
  leaf_kind an_integer = int_kind
  leaf_kind (a_float f) = float_kind
  leaf_kind a_boolean = bool_kind
  leaf_kind a_string = string_kind
  leaf_kind a_natural = natural_kind
  leaf_kind (an_uncertain m s) = uncertain_kind
  leaf_kind an_unknown = unknown_kind

  abbrev pub leaf_expr : Literal F → Expr F
  leaf_expr an_integer = integer none
  leaf_expr (a_float f) = float none f
  leaf_expr a_boolean = boolean none
  leaf_expr a_string = string none
  leaf_expr a_natural = natural none
  leaf_expr (an_uncertain m s) = uncertain none m s
  leaf_expr an_unknown = unknown none

  -- The nodes that the parser builds, without types.
  abbrev pub untyped : Sum F → Expr F
  untyped (leaf x) = leaf_expr x
  untyped (sum op a b) = infix_of none false (op_text op) (untyped a) (untyped b)

  abbrev pub all_numeric : Sum F → Bool
  all_numeric (leaf x) = numeric (leaf_kind x)
  all_numeric (sum op a b) = all_numeric a && all_numeric b

  -- A literal on its own has a type whatever it is.
  abbrev pub accepted : Sum F → Bool
  accepted (leaf x) = true
  accepted (sum op a b) = all_numeric a && all_numeric b

  abbrev pub least : Sum F → Kind
  least (leaf x) = leaf_kind x
  least (sum op a b) = lower_kind (least a) (least b)

  abbrev pub depth : Sum F → ℕ
  depth (leaf x) = 2
  depth (sum op a b) = 2 + max (depth a) (depth b)

  abbrev pub size : Sum F → ℕ
  size (leaf x) = 1
  size (sum op a b) = size b + size a + 1

  abbrev pub moved : ℕ → Checker F → Checker F
  moved n c = record c { next = c.next + n }

  all_numeric-accepted : (t : Sum F) → all_numeric t ≡ true → accepted t ≡ true
  all_numeric-accepted (leaf x) h = refl
  all_numeric-accepted (sum op a b) h = h

  pub all_numeric-refused : (t : Sum F) → accepted t ≡ false → all_numeric t ≡ false
  all_numeric-refused (leaf x) h = cc
  all_numeric-refused (sum op a b) h = h

  numeric-least : (t : Sum F) → accepted t ≡ true → numeric (least t) ≡ all_numeric t
  numeric-least (leaf x) h = refl
  numeric-least (sum op a b) h =
      numeric-lower_kind (least a) (least b)
        (numeric-least a (all_numeric-accepted a (ground arith)) ∙ ground arith)
        (numeric-least b (all_numeric-accepted b (ground arith)) ∙ ground arith)
      ∙ sym h

  pub both-numeric :
      (a b : Sum F)
      → accepted a ≡ true
      → accepted b ≡ true
      → (numeric (least a) && numeric (least b)) ≡ (all_numeric a && all_numeric b)
  both-numeric a b p q = rw (numeric-least a p) rw (numeric-least b q) refl

  pub depth_positive : (t : Sum F) → 2 ≤ depth t
  depth_positive (leaf x) = omega arith
  depth_positive (sum op a b) = ground arith

  -- The ranks of the types of the operands.
  abbrev pub weights : Sum F → List ℕ
  weights (leaf x) = weight (leaf_kind x) ∷ []
  weights (sum op a b) = weights a ++ weights b

  -- `least` is the type of an operand, and no operand has one of lower rank.
  pub least-below : (t : Sum F) → All (λ w. weight (least t) ≤ w) (weights t)
  least-below (leaf x) = (omega arith, tt)
  least-below (sum op a b) =
      All-append (λ w. weight (least (sum op a b)) ≤ w) (weights a) (weights b)
        (All_below (weights a) (lower_kind-left (least a) (least b)) (least-below a))
        (All_below (weights b) (lower_kind-right (least a) (least b)) (least-below b))

  pub least-among : (t : Sum F) → has (weight (least t)) (weights t) ≡ true
  least-among (leaf x) = ground (arith, same_refl (weight (leaf_kind x)))
  least-among (sum op a b) =
      has-append (weight (least (sum op a b))) (weights a) (weights b)
      ∙ elim (Bool-cases (ltb (weight (least b)) (weight (least a)))) [
        | inl e ↦ rw e (ground (arith, least-among b))
        | inr e ↦ rw e (ground (arith, least-among a))
      ]

  -- The outcome is a node with a type of the kind, and `cost` addresses are used, its own among them.
  pub record Inferred (o : Outcome F (Expr F)) (c : Checker F) (k : Kind) (cost : ℕ) : Type 0 where
    pub node : Expr F
    pub type : Ty
    pub returned : o ≡ done node (moved cost c)
    pub typed : typeable node ≡ some type
    pub has_name : type.name ≡ kind_text k
    pub from_next : c.next ≤ type.address
    pub below_next : type.address < c.next + cost
    pub not_nil : is_nil node ≡ false
    pub not_missing : is_missing node ≡ false
