-- ===== src/Generator/Writes/Declared.antt =====
-- Which variables the writing of rules in smt/generator.go declares.
use fault.Common.{
  both, right_of, ◌≡◌, refl, sym, ap, subst, ◌∙◌, Bool, true, false, not, ◌&&◌, ◌||◌, List, [], ◌∷◌,
  ◌++◌, Option, none, some, arith, if◌then◌else◌, same, same_iff, Bool-cases, inl, inr, append-nil,
  append_assoc,
}
use fault.Common.Text.{Text, text, text_key}
use fault.Common.Dict.{of_some, is_some}
use fault.Common.Fallible.{◌>>=◌, >>=-eq-some}
use fault.Rules.{Rule, Rules, Wrap, nil, cons, infix_rule, ite_rule, wrap, phi}
use fault.Variables.{VarData}
use fault.Asserts.{write_assert}
use fault.Generator.Writes.{
  declaration, unset, assigns, finish_infix, unpackable, unpacked, write_cond, write_rule,
  write_ends, generate_rules, declare_var, lookup_type, finish_by, write_init_rule,
  branch_rule_text, write_ite, branch_text, format_ends,
}
use fault.Generator.Writes.Terms.{term-Writes, term, unpackable-term, Writes, all_ends}

is_unset : {V : Type 0} → Rule V → Bool
is_unset (wrap w) = same w.value unset
is_unset r = false

-- An operator with a variable on its left: what it declares.
infix_declares :
    {V : Type 0} → (assigning : Bool) → Text → Text → Rule V → Option (List (Text × Text))
unfolding term is_unset
infix_declares true id ty y = if term y || is_unset y then some ((id, ty) ∷ []) else none
infix_declares false id ty y = if not (same id unset) && term y then some [] else none

phi_declares : Text → Option Text → Option (List (Text × Text))
phi_declares end none = none
phi_declares end (some ty) = some ((end, ty) ∷ [])

-- What a rule that stands by itself declares, the name and the type: an assignment its left side, and
-- a phi its end. `none` is a rule that the generator does not make, with an assignment inside.
unfoldable pub declares :
    {V : Type 0} → (V → Option Text) → VarData V → Rule V → Option (List (Text × Text))
unfolding infix_declares phi_declares term all_ends write_cond lookup_type
declares type_of vd (infix_rule (wrap w) y ty op tag) = infix_declares (assigns op) w.value ty y
declares type_of vd (ite_rule cond t f tag) =
    if is_some (write_cond cond) && (all_ends t && all_ends f) then some [] else none
declares type_of vd (phi base nums end tag) = phi_declares end (lookup_type type_of vd base)
declares type_of vd r = if term r then some [] else none

unfoldable pub declarations : List (Text × Text) → List Text
unfolding declaration
declarations [] = []
declarations ((id, t) ∷ ds) = declaration id t ∷ declarations ds

declarations-append :
    (ds es : List (Text × Text)) → declarations (ds ++ es) ≡ declarations ds ++ declarations es
unfolding declarations
declarations-append [] es = refl
declarations-append ((id, t) ∷ ds) es = ap (λ i. declaration id t ∷ i) (declarations-append ds es)

of_same : {A : Type 0} {a b : A} → some a ≡ some b → a ≡ b
of_same h = cc

unpacked_lem : {V A : Type 0} (r : Rule V) (m : Option A) → unpackable r ≡ true → unpacked r m ≡ m
unfolding unpacked unpackable
unpacked_lem r m h = ground (arith, h)

assigns_or : (op : Text) → assigns op ≡ true → same op (text "or") ≡ false
assigns_or [] h = refl
assigns_or (c ∷ op) h = ap (λ o. same o (text "or")) ((same_iff (c ∷ op) (text "=")).0 h)

if_some {ℓ} :
    {A : Type ℓ} (t : Bool) (a b : A) → (if t then some a else none) ≡ some b → (t ≡ true) × (a ≡ b)
if_some true a b h = (refl, cc)
if_some false a b h = cc

module _ {V : Type 0} (type_of : V → Option Text) (vd : VarData V) where
  ends-Writes :
      (rs : Rules V)
      → all_ends rs ≡ true
      → (inits : List Text) → (ts : List Text) × (write_ends type_of vd rs inits ≡ some (ts, inits))
  unfolding all_ends write_rule Writes
  ends-Writes nil h inits = ([], refl)
  ends-Writes (cons (infix_rule x y ty op tag) rs) h inits =
      let (xy, hs) = both (term x && term y) (all_ends rs) h in
      let (hx, hy) = both (term x) (term y) xy in
      let (t, ey, _) = term-Writes type_of vd y hy inits in
      let (s, ex, _) = term-Writes type_of vd x hx inits in
      let (ts, es) = ends-Writes rs hs inits in (branch_rule_text op s t ∷ ts, rw (ey, ex, es))
  ends-Writes (cons r rs) h inits = cc

  -- The writing of a rule returns, and adds what the rule declares.
  Declares : Rule V → List (Text × Text) → Type 0
  unfolding declarations
  Declares r ds =
      (inits : List Text)
      → (s : Text) × (write_rule type_of vd r inits ≡ some (s, inits ++ declarations ds))

  term-Declares : (r : Rule V) → term r ≡ true → Declares r []
  unfolding Declares declarations Writes unpacked
  term-Declares r h inits =
      let (s, e, _) = term-Writes type_of vd r h inits in
      (
        s,
        sym (unpacked_lem r (write_rule type_of vd r inits) (unpackable-term r h))
            ∙ e
            ∙ ap (λ i. some (s, i)) (sym (append-nil inits)),
      )

  unset_text :
      (y : Rule V)
      → is_unset y ≡ true
      → (inits : List Text)
      → (t : Text) × (unpacked y (write_rule type_of vd y inits) ≡ some (t, inits))
        × (same t unset ≡ true)
  unfolding is_unset unpacked unpackable write_rule
  unset_text (wrap v) h inits = (v.value, refl, h)
  unset_text y h inits = cc

  assign-Declares :
      (w : Wrap) (y : Rule V) (ty op : Text) (tag : Option _)
      → assigns op ≡ true
      → (term y || is_unset y) ≡ true
      → Declares (infix_rule (wrap w) y ty op tag) ((w.value, ty) ∷ [])
  unfolding Declares declarations write_rule unpacked unpackable finish_infix finish_by
      write_init_rule declare_var Writes
  assign-Declares w y ty op tag k h inits = elim (Bool-cases (term y)) [
    | inl e ↦
        let (t, ey, ht) = term-Writes type_of vd y e inits in
        ((write_init_rule w.value ty t inits).0, rw (ey, ht, assigns_or op k, k))
    | inr e ↦
        let (t, ey, ht) = unset_text y (right_of (term y) (is_unset y) e h) inits in
        ([], rw (ey, ht))
  ]

  infix-Declares :
      (w : Wrap) (y : Rule V) (ty op : Text) (tag : Option _) (ds : List (Text × Text)) (a : Bool)
      → assigns op ≡ a
      → infix_declares a w.value ty y ≡ some ds
      → Declares (infix_rule (wrap w) y ty op tag) ds
  unfolding infix_declares term
  infix-Declares w y ty op tag ds true k h =
      let (t, e) = if_some (term y || is_unset y) ((w.value, ty) ∷ []) ds h in
      subst (Declares (infix_rule (wrap w) y ty op tag)) e (assign-Declares w y ty op tag k t)
  infix-Declares w y ty op tag ds false k h =
      let (t, e) = if_some (not (same w.value unset) && term y) [] ds h in
      subst (Declares (infix_rule (wrap w) y ty op tag)) e
        (term-Declares (infix_rule (wrap w) y ty op tag) (rw (k) t))

  ite-Declares :
      (cond : Rule V) (t f : Rules V) (tag : Option _)
      → (is_some (write_cond cond) && (all_ends t && all_ends f)) ≡ true
      → Declares (ite_rule cond t f tag) []
  unfolding Declares declarations write_rule
  ite-Declares cond t f tag h inits =
      let (hc, he) = both (is_some (write_cond cond)) (all_ends t && all_ends f) h in
      let (ht, hf) = both (all_ends t) (all_ends f) he in
      let (c, ec) = of_some (write_cond cond) hc in
      let (ts, et) = ends-Writes t ht inits in
      let (fs, ef) = ends-Writes f hf inits in
      (
        write_assert [] (write_ite c (branch_text ts) (branch_text fs)),
        rw (ec, et, ef, append-nil inits),
      )

  phi-Declares :
      (base : Text) (nums : List _) (end : Text) (tag : Option _) (ds : List (Text × Text))
      (o : Option Text)
      → lookup_type type_of vd base ≡ o
      → phi_declares end o ≡ some ds
      → Declares (phi base nums end tag) ds
  unfolding Declares declarations write_rule phi_declares declare_var
  phi-Declares base nums end tag ds none e h inits = cc
  phi-Declares base nums end tag ds (some ty) e h inits = (
    write_assert (text "or") (format_ends base nums end),
    rw (e) (
        ap
          (λ es.
            some (write_assert (text "or") (format_ends base nums end), inits ++ declarations es))
          (of_same h)),
  )

  declares_lem :
      (r : Rule V) (ds : List (Text × Text)) → declares type_of vd r ≡ some ds → Declares r ds
  unfolding declares
  declares_lem (infix_rule (wrap w) y ty op tag) ds h =
      infix-Declares w y ty op tag ds (assigns op) refl h
  declares_lem (ite_rule cond t f tag) ds h =
      let (u, e) = if_some (is_some (write_cond cond) && (all_ends t && all_ends f)) [] ds h in
      subst (Declares (ite_rule cond t f tag)) e (ite-Declares cond t f tag u)
  declares_lem (phi base nums end tag) ds h =
      phi-Declares base nums end tag ds (lookup_type type_of vd base) refl h
  declares_lem r ds h =
      let (u, e) = if_some (term r) [] ds h in subst (Declares r) e (term-Declares r u)

  -- What rules declare, one behind the other.
  unfoldable pub all_declares : List (Rule V) → Option (List (Text × Text))
  unfolding declares
  all_declares [] = some []
  all_declares (r ∷ rs) = declares type_of vd r >>= λ ds. all_declares rs >>= λ es. some (ds ++ es)

  -- For rules that stand by themselves, with no assignment inside another rule, generateRules does not
  -- panic, and adds to the declarations so far exactly those of the rules, in their order: the left
  -- side of each assignment and the end of each phi.
  pub generate_rules-declares :
      (rs : List (Rule V)) (ds : List (Text × Text)) (inits : List Text)
      → all_declares rs ≡ some ds
      → (ts : List Text) × (generate_rules type_of vd rs inits
          ≡ some (ts, inits ++ declarations ds))
  unfolding generate_rules all_declares declarations Declares
  generate_rules-declares [] ds inits h = (
    [],
    ap (λ i. some ([], i))
        (sym (append-nil inits) ∙ ap (λ es. inits ++ declarations es) (of_same h)),
  )
  generate_rules-declares (r ∷ rs) ds inits h =
      let (d, e, h1) = >>=-eq-some (declares type_of vd r) _ h in
      let (es, f, h2) = >>=-eq-some (all_declares rs) _ h1 in
      let (s, g) = declares_lem r d e inits in
      let (ts, k) = generate_rules-declares rs es (inits ++ declarations d) f in
      (
        s ∷ ts,
        rw (g, k)
            (ap (λ i. some (s ∷ ts, i))
              (append_assoc inits (declarations d) (declarations es)
                ∙ ap (λ i. inits ++ i) (sym (declarations-append d es))
                ∙ ap (λ i. inits ++ declarations i) (of_same h2))),
      )
