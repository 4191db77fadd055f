-- ===== src/Rules.antt =====
-- smt/rules/rules.go: the rules that the SMT generator collects, their text, and their branch tags.
pub mod Tagging
mod Tests
use fault.Common.{ℕ, ◌≡◌, Bool, true, false, List, [], ◌∷◌, ◌++◌, Option, none, some}
use fault.Common.Int.{ℤ}
use fault.Common.Text.{Text, text, itoa, join}
use fault.Common.Fallible.{◌>>=◌, ◌>>◌}

-- `type branch struct`; a `tag` field is a pointer to one, `none` where it is nil.
pub record Branch : Type 0 where
  pub branch : Text
  pub block : Text

abbrev pub Tag : Type 0
Tag = Option Branch

pub record Wrap : Type 0 where
  pub value : Text
  pub state : Text
  pub all : Bool
  pub constant : Bool
  pub tag : Tag

-- The map from a round to its states is an association list.
pub record States : Type 0 where
  pub terminal : Bool
  pub base : Text
  pub states : List (ℤ × List Text)
  pub constant : Bool
  pub tag : Tag

-- `V` is `value.Value` of the LLVM library. `nil_rule` is the nil interface: a condition that was not
-- found, or the left side of a prefix.
mutual
  pub data Rule (V : Type 0) : Type 0 where
    nil_rule : Rule V
    ands : Rules V → Tag → Rule V
    states : States → Rule V
    assrt :
        (variable : Wrap) (conjunction : Text) (assertion : Rule V) (temporal_filter : Text)
        (temporal_n : ℤ)
        → Tag
        → Rule V
    choices : AndsList V → (op : Text) → Tag → Rule V
    infix_rule : (x y : Rule V) (ty op : Text) → Tag → Rule V
    ite_rule : (cond : Rule V) (t f : Rules V) → Tag → Rule V
    invariant : (left : Rule V) (operator : Text) (right : Rule V) → Tag → Rule V
    phi : (base_var : Text) (nums : List ℤ) (end_state : Text) → Tag → Rule V
    state_change : (ands ors : List V) → Tag → Rule V
    wrap : Wrap → Rule V
    state_group : (bases : List Text) (wraps : List States) → Tag → Rule V
    wrap_group : List Wrap → Tag → Rule V
    vwrap : V → Tag → Rule V

  -- `[]Rule`
  pub data Rules (V : Type 0) : Type 0 where
    nil : Rules V
    cons : Rule V → Rules V → Rules V

  -- `[]*Ands`
  pub data AndsList (V : Type 0) : Type 0 where
    no_ands : AndsList V
    more_ands : Rules V → Tag → AndsList V → AndsList V

unfoldable mutual
  pub tag_rule : {V : Type 0} → Text → Text → Rule V → Option (Rule V)
  tag_rule k1 k2 (infix_rule x y ty op tag) = do
    x' ← tag_rule k1 k2 x
    y' ← tag_rule k1 k2 y
    some (infix_rule x' y' ty op (some (record { branch = k1; block = k2 })))
  tag_rule k1 k2 (ite_rule cond t f tag) = do
    cond' ← tag_rule k1 k2 cond
    t' ← tag_rules k1 k2 t
    f' ← tag_rules k1 k2 f
    some (ite_rule cond' t' f' (some (record { branch = k1; block = k2 })))
  tag_rule k1 k2 (wrap w) =
      some (wrap (record w { tag = some (record { branch = k1; block = k2 }) }))
  tag_rule k1 k2 (vwrap v tag) = some (vwrap v (some (record { branch = k1; block = k2 })))
  tag_rule k1 k2 (phi base nums end tag) =
      some (phi base nums end (some (record { branch = k1; block = k2 })))
  tag_rule k1 k2 (ands xs tag) = do
    xs' ← tag_rules k1 k2 xs
    some (ands xs' (some (record { branch = k1; block = k2 })))
  tag_rule k1 k2 (choices xs op tag) = do
    xs' ← tag_ands k1 k2 xs
    some (choices xs' op (some (record { branch = k1; block = k2 })))
  tag_rule k1 k2 _ = none

  pub tag_rules : {V : Type 0} → Text → Text → Rules V → Option (Rules V)
  tag_rules k1 k2 nil = some nil
  tag_rules k1 k2 (cons r rs) = do
    r' ← tag_rule k1 k2 r
    rs' ← tag_rules k1 k2 rs
    some (cons r' rs')

  -- `TagRule` at each `*Ands` of a choice.
  pub tag_ands : {V : Type 0} → Text → Text → AndsList V → Option (AndsList V)
  tag_ands k1 k2 no_ands = some no_ands
  tag_ands k1 k2 (more_ands xs tag rest) = do
    xs' ← tag_rules k1 k2 xs
    rest' ← tag_ands k1 k2 rest
    some (more_ands xs' (some (record { branch = k1; block = k2 })) rest')
