-- ===== src/Generator/Writes/Terms.antt =====
-- The writing of rules that stand in other ones, in smt/generator.go.
use fault.Common.{
  both, not-true, ◌≡◌, refl, Bool, true, false, not, ◌&&◌, List, [], ◌∷◌, ◌++◌, Option, some, arith,
  if◌then◌else◌, same,
}
use fault.Common.Text.{Text, text, text_key}
use fault.Rules.{
  Rule, Rules, AndsList, nil, cons, no_ands, more_ands, infix_rule, wrap, ands, choices,
}
use fault.Variables.{VarData}
use fault.Asserts.{write_assertless_rule, write_assert, parens}
use fault.Generator.Writes.{
  unset, assigns, finish_infix, unpackable, unpacked, write_rule, write_parts, write_ands,
  finish_by, choice_text, branch_rule_text,
}

-- A rule that stands in another one: it declares nothing.
unfoldable mutual
  pub term : {V : Type 0} → Rule V → Bool
  term (wrap w) = not (same w.value unset)
  term (infix_rule x y ty op tag) = not (assigns op) && (term x && term y)
  term (ands xs tag) = parts xs
  term (choices xs op tag) = all_parts xs
  term r = false

  pub parts : {V : Type 0} → Rules V → Bool
  parts nil = true
  parts (cons (infix_rule x y ty op tag) rs) = (term x && term y) && parts rs
  parts (cons r rs) = term r && parts rs

  pub all_parts : {V : Type 0} → AndsList V → Bool
  all_parts no_ands = true
  all_parts (more_ands xs tag rest) = parts xs && all_parts rest

pub unpackable-term : {V : Type 0} (r : Rule V) → term r ≡ true → unpackable r ≡ true
unfolding term unpackable
unpackable-term r h = ground arith

-- A text in brackets is not the value that stands for none.
assertless_lem : (op x y : Text) → same (write_assertless_rule op x y) unset ≡ false
unfolding write_assertless_rule
assertless_lem op x y = go (same y (text ""))
  where
    go : (t : Bool) → same (if t then parens op x else parens op (x ++ b' ' ∷ y)) unset ≡ false
    go true = refl
    go false = refl

-- A text that is written in place, with no declaration.
Plain : (Text × List Text) → List Text → Type 0
Plain r inits = (s : Text) × (r ≡ (s, inits)) × (same s unset ≡ false)

finish_lem :
    (op ty x y : Text) (inits : List Text)
    → same y unset ≡ false
    → assigns op ≡ false
    → Plain (finish_infix op ty x y inits) inits
unfolding finish_infix finish_by write_assert Plain
finish_lem op ty x y inits h k = rw (h, k) (go (same op (text "or")))
  where
    go : (t : Bool) → Plain (finish_by false t false op ty x y inits) inits
    go true = (_, refl, refl)
    go false = (_, refl, assertless_lem op x y)

write_assert_lem : (op s : Text) → same (write_assert op s) unset ≡ false
unfolding write_assert
write_assert_lem op s = go (same op (text ""))
  where
    go :
        (t : Bool)
        → same (if t then parens (text "assert") s else parens (text "assert") (parens op s)) unset
          ≡ false
    go true = refl
    go false = refl

choice_lem : (op s : Text) → same (choice_text op s) unset ≡ false
unfolding choice_text
choice_lem op s = go (same op (text "or"))
  where
    go : (t : Bool) → same (if t then write_assert op s else write_assert [] s) unset ≡ false
    go true = write_assert_lem op s
    go false = write_assert_lem [] s

module _ {V : Type 0} (type_of : V → Option Text) (vd : VarData V) where
  -- The writing returns, and declares nothing.
  unfoldable pub Writes : Rule V → Type 0
  Writes r =
      (inits : List Text)
      → (s : Text) × (unpacked r (write_rule type_of vd r inits) ≡ some (s, inits))
        × (same s unset ≡ false)

  WritesParts : (List Text → Option (Text × List Text)) → Type 0
  WritesParts w = (inits : List Text) → (s : Text) × (w inits ≡ some (s, inits))

  Writes-infix :
      (x y : Rule V) (ty op : Text) (tag : Option _)
      → assigns op ≡ false
      → Writes x
      → Writes y
      → Writes (infix_rule x y ty op tag)
  unfolding Writes write_rule unpacked unpackable Plain
  Writes-infix x y ty op tag k wx wy inits =
      let (t, ey, hy) = wy inits in
      let (s, ex, hx) = wx inits in
      let (u, e, h) = finish_lem op ty s t inits hy k in (u, rw (ey, ex, e), h)

  mutual
    unfolding term parts all_parts Writes WritesParts write_rule write_parts write_ands unpacked
        unpackable

    pub term-Writes : (r : Rule V) → term r ≡ true → Writes r
    term-Writes (wrap w) h inits = (w.value, refl, not-true (same w.value unset) h)
    term-Writes (infix_rule x y ty op tag) h inits =
        let (k, xy) = both (not (assigns op)) (term x && term y) h in
        let (hx, hy) = both (term x) (term y) xy in
        Writes-infix x y ty op tag (not-true (assigns op) k) (term-Writes x hx) (term-Writes y hy)
          inits
    term-Writes (ands xs tag) h inits =
        let (s, e) = parts-Writes xs h inits in
        (write_assertless_rule (text "and") s [], rw (e), refl)
    term-Writes (choices xs op tag) h inits =
        let (s, e) = ands-Writes xs h inits in (choice_text op s, rw (e), choice_lem op s)
    term-Writes r h inits = cc

    parts-Writes : (rs : Rules V) → parts rs ≡ true → WritesParts (write_parts type_of vd rs)
    parts-Writes nil h inits = ([], refl)
    parts-Writes (cons (infix_rule x y ty op tag) rs) h inits =
        let (xy, hs) = both (term x && term y) (parts rs) h in
        let (hx, hy) = both (term x) (term y) xy in
        let (t, ey, _) = term-Writes y hy inits in
        let (s, ex, _) = term-Writes x hx inits in
        let (ts, es) = parts-Writes rs hs inits in (branch_rule_text op s t ++ ts, rw (ey, ex, es))
    parts-Writes (cons (wrap w) rs) h inits =
        let (hw, hs) = both (not (same w.value unset)) (parts rs) h in
        let (ts, es) = parts-Writes rs hs inits in (w.value ++ ts, rw (es))
    parts-Writes (cons (ands xs tag) rs) h inits =
        let (hx, hs) = both (parts xs) (parts rs) h in
        let (s, e) = parts-Writes xs hx inits in
        let (ts, es) = parts-Writes rs hs inits in
        (write_assertless_rule (text "and") s [] ++ ts, rw (e, es))
    parts-Writes (cons (choices xs op tag) rs) h inits =
        let (hx, hs) = both (all_parts xs) (parts rs) h in
        let (s, e) = ands-Writes xs hx inits in
        let (ts, es) = parts-Writes rs hs inits in (choice_text op s ++ ts, rw (e, es))
    parts-Writes (cons r rs) h inits = cc

    ands-Writes : (xs : AndsList V) → all_parts xs ≡ true → WritesParts (write_ands type_of vd xs)
    ands-Writes no_ands h inits = ([], refl)
    ands-Writes (more_ands xs tag rest) h inits =
        let (hx, hr) = both (parts xs) (all_parts rest) h in
        let (s, e) = parts-Writes xs hx inits in
        let (ts, es) = ands-Writes rest hr inits in
        (write_assertless_rule (text "and") s [] ++ ts, rw (e, es))

-- The ends of a branch of a conditional: equations of terms.
unfoldable pub all_ends : {V : Type 0} → Rules V → Bool
unfolding term
all_ends nil = true
all_ends (cons (infix_rule x y ty op tag) rs) = (term x && term y) && all_ends rs
all_ends (cons r rs) = false
