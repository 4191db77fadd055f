-- ===== src/Rules/Tagging.antt =====
-- What `TagRule` and `TagRules` (smt/rules/rules.go) do to a rule: which rules they refuse, and what
-- they leave of it.
use fault.Common.{◌≡◌, refl, Bool, true, false, ◌&&◌, some, none}
use fault.Common.Text.{Text}
use fault.Common.Dict.{is_some}
use fault.Common.Fallible.{Post, Post-bind, Post-some, is_some-bind, is_some-map}
use fault.Rules.{
  Tag, Rule, Rules, AndsList, ands, choices, infix_rule, ite_rule, phi, wrap, vwrap, nil, cons,
  no_ands, more_ands, tag_rule, tag_rules, tag_ands,
}

-- The kinds of rule that a branch may hold, all the way down.
unfoldable mutual
  pub taggable : {V : Type 0} → Rule V → Bool
  taggable (infix_rule x y ty op tag) = taggable x && taggable y
  taggable (ite_rule cond t f tag) = taggable cond && (taggables t && taggables f)
  taggable (wrap w) = true
  taggable (vwrap v tag) = true
  taggable (phi base nums end tag) = true
  taggable (ands xs tag) = taggables xs
  taggable (choices xs op tag) = taggable_ands xs
  taggable _ = false

  pub taggables : {V : Type 0} → Rules V → Bool
  taggables nil = true
  taggables (cons r rs) = taggable r && taggables rs

  pub taggable_ands : {V : Type 0} → AndsList V → Bool
  taggable_ands no_ands = true
  taggable_ands (more_ands xs tag rest) = taggables xs && taggable_ands rest

mutual
  unfolding tag_rule tag_rules tag_ands taggable taggables taggable_ands

  accepts : {V : Type 0} (k1 k2 : Text) (r : Rule V) → is_some (tag_rule k1 k2 r) ≡ taggable r
  accepts k1 k2 (infix_rule x y ty op tag) =
      is_some-bind _ _ (accepts k1 k2 x) λ x'. is_some-map _ _ (accepts k1 k2 y)
  accepts k1 k2 (ite_rule cond t f tag) =
      is_some-bind _ _ (accepts k1 k2 cond)
        λ cond'. is_some-bind _ _ (accepts_all k1 k2 t) λ t'. is_some-map _ _ (accepts_all k1 k2 f)
  accepts k1 k2 (ands xs tag) = is_some-map _ _ (accepts_all k1 k2 xs)
  accepts k1 k2 (choices xs op tag) = is_some-map _ _ (accepts_ands k1 k2 xs)
  accepts k1 k2 _ = refl

  accepts_all :
      {V : Type 0} (k1 k2 : Text) (rs : Rules V) → is_some (tag_rules k1 k2 rs) ≡ taggables rs
  accepts_all k1 k2 nil = refl
  accepts_all k1 k2 (cons r rs) =
      is_some-bind _ _ (accepts k1 k2 r) λ r'. is_some-map _ _ (accepts_all k1 k2 rs)

  accepts_ands :
      {V : Type 0} (k1 k2 : Text) (xs : AndsList V) → is_some (tag_ands k1 k2 xs) ≡ taggable_ands xs
  accepts_ands k1 k2 no_ands = refl
  accepts_ands k1 k2 (more_ands xs tag rest) =
      is_some-bind _ _ (accepts_all k1 k2 xs) λ xs'. is_some-map _ _ (accepts_ands k1 k2 rest)

-- `TagRule` returns, and does not panic, exactly at the rules that are made of infixes, conditionals,
-- wraps, phis, conjunctions and choices only, at every depth.
pub tag_rule-taggable :
    {V : Type 0} (k1 k2 : Text) (r : Rule V) → is_some (tag_rule k1 k2 r) ≡ taggable r
tag_rule-taggable k1 k2 r = accepts k1 k2 r

-- Every tag in the rule is `t`, all the way down.
unfoldable mutual
  pub Tagged : {V : Type 0} → Tag → Rule V → Type 0
  Tagged t (infix_rule x y ty op tag) = (tag ≡ t) × Tagged t x × Tagged t y
  Tagged t (ite_rule cond yes_rules no_rules tag) =
      (tag ≡ t) × Tagged t cond × AllTagged t yes_rules × AllTagged t no_rules
  Tagged t (wrap w) = w.tag ≡ t
  Tagged t (vwrap v tag) = tag ≡ t
  Tagged t (phi base nums end tag) = tag ≡ t
  Tagged t (ands xs tag) = (tag ≡ t) × AllTagged t xs
  Tagged t (choices xs op tag) = (tag ≡ t) × AndsTagged t xs
  Tagged t _ = ⊥

  pub AllTagged : {V : Type 0} → Tag → Rules V → Type 0
  AllTagged t nil = Unit {0}
  AllTagged t (cons r rs) = Tagged t r × AllTagged t rs

  pub AndsTagged : {V : Type 0} → Tag → AndsList V → Type 0
  AndsTagged t no_ands = Unit {0}
  AndsTagged t (more_ands xs tag rest) = (tag ≡ t) × AllTagged t xs × AndsTagged t rest

-- The rule without its tags.
unfoldable mutual
  pub untag : {V : Type 0} → Rule V → Rule V
  untag (infix_rule x y ty op tag) = infix_rule (untag x) (untag y) ty op none
  untag (ite_rule cond t f tag) = ite_rule (untag cond) (untag_all t) (untag_all f) none
  untag (wrap w) = wrap (record w { tag = none })
  untag (vwrap v tag) = vwrap v none
  untag (phi base nums end tag) = phi base nums end none
  untag (ands xs tag) = ands (untag_all xs) none
  untag (choices xs op tag) = choices (untag_ands xs) op none
  untag r = r

  pub untag_all : {V : Type 0} → Rules V → Rules V
  untag_all nil = nil
  untag_all (cons r rs) = cons (untag r) (untag_all rs)

  pub untag_ands : {V : Type 0} → AndsList V → AndsList V
  untag_ands no_ands = no_ands
  untag_ands (more_ands xs tag rest) = more_ands (untag_all xs) none (untag_ands rest)

module _ (k1 k2 : Text) where
  abbrev mark : Tag
  mark = some (record { branch = k1; block = k2 })

  -- All tags are the mark, and nothing else has changed.
  abbrev Marked : {V : Type 0} → Rule V → Rule V → Type 0
  Marked r r' = Tagged mark r' × (untag r' ≡ untag r)

  abbrev AllMarked : {V : Type 0} → Rules V → Rules V → Type 0
  AllMarked rs rs' = AllTagged mark rs' × (untag_all rs' ≡ untag_all rs)

  abbrev AndsMarked : {V : Type 0} → AndsList V → AndsList V → Type 0
  AndsMarked xs xs' = AndsTagged mark xs' × (untag_ands xs' ≡ untag_ands xs)

  mutual
    unfolding tag_rule tag_rules tag_ands Tagged AllTagged AndsTagged untag untag_all untag_ands

    marks : {V : Type 0} (r : Rule V) → Post (tag_rule k1 k2 r) (Marked r)
    marks (infix_rule x y ty op tag) = Post-bind _ λ x' ex. Post-bind _ λ y' ey.
        let mx = marks x x' ex in
        let my = marks y y' ey in
        Post-some (Marked (infix_rule x y ty op tag)) (infix_rule x' y' ty op mark)
          ((refl, mx.0, my.0), cc (mx.1, my.1))
    marks (ite_rule cond t f tag) = Post-bind _ λ c' ec. Post-bind _ λ t' et. Post-bind _ λ f' ef.
        let mc = marks cond c' ec in
        let mt = marks_all t t' et in
        let mf = marks_all f f' ef in
        Post-some (Marked (ite_rule cond t f tag)) (ite_rule c' t' f' mark)
          ((refl, mc.0, mt.0, mf.0), cc (mc.1, mt.1, mf.1))
    marks (wrap w) = Post-some (Marked (wrap w)) _ (refl, refl)
    marks (vwrap v tag) = Post-some (Marked (vwrap v tag)) _ (refl, refl)
    marks (phi base nums end tag) = Post-some (Marked (phi base nums end tag)) _ (refl, refl)
    marks (ands xs tag) = Post-bind _ λ xs' e.
        let m = marks_all xs xs' e in
        Post-some (Marked (ands xs tag)) (ands xs' mark) ((refl, m.0), cc (m.1))
    marks (choices xs op tag) = Post-bind _ λ xs' e.
        let m = marks_ands xs xs' e in
        Post-some (Marked (choices xs op tag)) (choices xs' op mark) ((refl, m.0), cc (m.1))
    marks _ = λ r' e. cc

    marks_all : {V : Type 0} (rs : Rules V) → Post (tag_rules k1 k2 rs) (AllMarked rs)
    marks_all nil = Post-some (AllMarked nil) _ (tt, refl)
    marks_all (cons r rs) = Post-bind _ λ r' e. Post-bind _ λ rs' es.
        let m = marks r r' e in
        let ms = marks_all rs rs' es in
        Post-some (AllMarked (cons r rs)) (cons r' rs') ((m.0, ms.0), cc (m.1, ms.1))

    marks_ands : {V : Type 0} (xs : AndsList V) → Post (tag_ands k1 k2 xs) (AndsMarked xs)
    marks_ands no_ands = Post-some (AndsMarked no_ands) _ (tt, refl)
    marks_ands (more_ands xs tag rest) = Post-bind _ λ xs' e. Post-bind _ λ rest' er.
        let m = marks_all xs xs' e in
        let mr = marks_ands rest rest' er in
        Post-some (AndsMarked (more_ands xs tag rest)) (more_ands xs' mark rest')
          ((refl, m.0, mr.0), cc (m.1, mr.1))

-- In the rule that `TagRule` returns, every tag, at every depth, is the branch and the block that were
-- given, whatever tags the rule had; without the tags it is the same rule as before.
pub tag_rule-Tagged :
    {V : Type 0} (branch block : Text) (r r' : Rule V)
    → tag_rule branch block r ≡ some r'
    → Tagged (some (record { branch = branch; block = block })) r' × (untag r' ≡ untag r)
tag_rule-Tagged k1 k2 r r' e = marks k1 k2 r r' e
