-- ===== src/Generator/Writes.antt =====
-- The writing of rules in smt/generator.go: the text of a rule, and the declarations that the writing
-- adds.
pub mod Terms
pub mod Declared
use fault.Common.{
  ℕ, Bool, true, false, not, ◌&&◌, List, [], ◌∷◌, ◌++◌, Option, none, some, if◌then◌else◌, same,
}
use fault.Common.Text.{Text, text, text_key, join, itoa}
use fault.Common.Int.{ℤ}
use fault.Common.Dict.{lookup}
use fault.Common.Fallible.{◌>>=◌, ◌>>◌}
use fault.Rules.{
  Rule, Rules, AndsList, Wrap, nil, cons, no_ands, more_ands, infix_rule, ite_rule, wrap, ands,
  choices, phi,
}
use fault.Variables.{VarData, ssa_name}
use fault.Asserts.{write_assertless_rule, write_assert}

-- `LookupType` where no value is given, but for its cache. `type_of` tells whether the type of a value
-- is a pointer to a double or to a bit, which is "Real" or "Bool".
unfoldable pub lookup_type : {V : Type 0} → (V → Option Text) → VarData V → Text → Option Text
lookup_type type_of vd id = elim (lookup id vd.types) [
  | some t ↦ some t
  | none ↦ (lookup id vd.loads >>= λ v. type_of v)
]

unfoldable pub declaration : (id t : Text) → Text
declaration id t = text "(declare-fun " ++ id ++ text " () " ++ t ++ text ")"

-- `declareVar`, to the declarations so far.
unfoldable pub declare_var : Text → Text → List Text → List Text
unfolding declaration
declare_var id t inits = inits ++ declaration id t ∷ []

unfoldable pub write_init_rule : (id t val : Text) → List Text → Text × List Text
unfolding declare_var
write_init_rule id t val inits =
    (text "(assert (= " ++ id ++ text " " ++ val ++ text "))", declare_var id t inits)

-- `writeBranch`
unfoldable pub write_ite : (cond t f : Text) → Text
write_ite cond t f = text "(ite " ++ cond ++ text " " ++ t ++ text " " ++ f ++ text ")"

format_end : Text → Text → ℤ → Text
unfolding write_assertless_rule ssa_name
format_end k id n = write_assertless_rule (text "=") id (ssa_name k n)

end_texts : Text → List ℤ → Text → List Text
unfolding format_end
end_texts k [] id = []
end_texts k (n ∷ nums) id = format_end k id n ∷ end_texts k nums id

unfoldable pub format_ends : Text → List ℤ → Text → Text
unfolding end_texts join
format_ends k nums id = join b' ' (end_texts k nums id)

-- The value that stands for an uncertain or unknown one.
abbrev pub unset : Text
unset = text "0x3DA3CA8CB153A753"

-- An assignment, whose left side is declared, is a rule with this operator.
abbrev pub assigns : Text → Bool
assigns [] = true
assigns op = same op (text "=")

-- The tests at the end of the case of an infix rule, in their order: no value, "or", an assignment.
finish_by : (no_value or assigning : Bool) → (op ty x y : Text) → List Text → Text × List Text
unfolding declare_var write_init_rule write_assert write_assertless_rule
finish_by true o a op ty x y inits = ([], declare_var x ty inits)
finish_by false true a op ty x y inits = (write_assert (text "or") (x ++ y), inits)
finish_by false false true op ty x y inits = write_init_rule x ty y inits
finish_by false false false op ty x y inits = (write_assertless_rule op x y, inits)

unfoldable pub finish_infix : (op ty x y : Text) → List Text → Text × List Text
unfolding finish_by
finish_infix op ty x y inits =
    finish_by (same y unset) (same op (text "or")) (assigns op) op ty x y inits

-- `unpackRule` takes these; `none` is its panic on another.
unfoldable pub unpackable : {V : Type 0} → Rule V → Bool
unpackable (wrap w) = true
unpackable (infix_rule x y ty op tag) = true
unpackable (ands xs tag) = true
unpackable (choices xs op tag) = true
unpackable r = false

unfoldable pub unpacked : {V A : Type 0} → Rule V → Option A → Option A
unfolding unpackable
unpacked r m = elim (unpackable r) [ true ↦ m | false ↦ none ]

infix_only : {V A : Type 0} → Rule V → Option A → Option A
infix_only (infix_rule x y ty op tag) m = m
infix_only r m = none

unfoldable pub unpack_cond_rule : {V : Type 0} → Rule V → Option Text
unfolding write_assertless_rule
unpack_cond_rule (wrap w) = some w.value
unpack_cond_rule (infix_rule x y ty op tag) = do
  s ← unpack_cond_rule x
  t ← unpack_cond_rule y
  some (write_assertless_rule op s t)
unpack_cond_rule r = none

-- `writeCond`, of an infix rule.
unfoldable pub write_cond : {V : Type 0} → Rule V → Option Text
unfolding unpack_cond_rule infix_only
write_cond r = infix_only r (unpack_cond_rule r)

-- The branch of a conditional from the ends in it.
branch_text : List Text → Text
unfolding write_assertless_rule join
branch_text [] = []
branch_text (t ∷ []) = t
branch_text (t ∷ u ∷ ts) = write_assertless_rule (text "and") (join b' ' (t ∷ u ∷ ts)) []

-- The text of `writeBranchRule`.
branch_rule_text : (op x y : Text) → Text
branch_rule_text op x y = text "(" ++ op ++ text " " ++ x ++ text " " ++ y ++ text ")"

choice_text : (op ands : Text) → Text
unfolding write_assert
choice_text op s = if same op (text "or") then write_assert op s else write_assert [] s

module _ {V : Type 0} (type_of : V → Option Text) (vd : VarData V) where
  unfoldable mutual
    unfolding finish_infix unpacked infix_only write_cond write_ite branch_text choice_text
        branch_rule_text lookup_type format_ends write_assertless_rule write_assert declare_var

    -- `writeRule`, on the declarations so far.
    pub write_rule : Rule V → List Text → Option (Text × List Text)
    write_rule (infix_rule x y ty op tag) inits = do
      t ← unpacked y (write_rule y inits)
      s ← unpacked x (write_rule x t.1)
      some (finish_infix op ty s.0 t.0 s.1)
    write_rule (ite_rule cond t f tag) inits = do
      c ← write_cond cond
      ts ← write_ends t inits
      fs ← write_ends f ts.1
      some (write_assert [] (write_ite c (branch_text ts.0) (branch_text fs.0)), fs.1)
    write_rule (wrap w) inits = some (w.value, inits)
    write_rule (phi base nums end tag) inits = do
      ty ← lookup_type type_of vd base
      some (write_assert (text "or") (format_ends base nums end), declare_var end ty inits)
    write_rule (ands xs tag) inits = do
      s ← write_parts xs inits
      some (write_assertless_rule (text "and") s.0 [], s.1)
    write_rule (choices xs op tag) inits = do
      s ← write_ands xs inits
      some (choice_text op s.0, s.1)
    write_rule r inits = none

    -- The parts of an `Ands`, one text behind the other.
    pub write_parts : Rules V → List Text → Option (Text × List Text)
    write_parts nil inits = some ([], inits)
    write_parts (cons (infix_rule x y ty op tag) rs) inits = do
      t ← unpacked y (write_rule y inits)
      s ← unpacked x (write_rule x t.1)
      ts ← write_parts rs s.1
      some (branch_rule_text op s.0 t.0 ++ ts.0, ts.1)
    write_parts (cons r rs) inits = do
      t ← write_rule r inits
      ts ← write_parts rs t.1
      some (t.0 ++ ts.0, ts.1)

    -- The ends in one branch of a conditional, all infix rules.
    pub write_ends : Rules V → List Text → Option (List Text × List Text)
    write_ends nil inits = some ([], inits)
    write_ends (cons (infix_rule x y ty op tag) rs) inits = do
      t ← unpacked y (write_rule y inits)
      s ← unpacked x (write_rule x t.1)
      ts ← write_ends rs s.1
      some (branch_rule_text op s.0 t.0 ∷ ts.0, ts.1)
    write_ends (cons r rs) inits = none

    pub write_ands : AndsList V → List Text → Option (Text × List Text)
    write_ands no_ands inits = some ([], inits)
    write_ands (more_ands xs tag rest) inits = do
      t ← write_parts xs inits
      ts ← write_ands rest t.1
      some (write_assertless_rule (text "and") t.0 [] ++ ts.0, ts.1)

  -- `generateRules`, on the rules of all rounds one behind the other.
  unfoldable pub generate_rules : List (Rule V) → List Text → Option (List Text × List Text)
  unfolding write_rule
  generate_rules [] inits = some ([], inits)
  generate_rules (r ∷ rs) inits = do
    t ← write_rule r inits
    ts ← generate_rules rs t.1
    some (t.0 ∷ ts.0, ts.1)

-- `SMT`
unfoldable pub smt : (inits constants rules asserts : List Text) → Text
unfolding join
smt inits constants rules asserts =
    text "(set-logic QF_NRA)"
    ++ join 10 inits
    ++ join 10 constants
    ++ join 10 rules
    ++ join 10 asserts
