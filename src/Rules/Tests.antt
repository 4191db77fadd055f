-- ===== src/Rules/Tests.antt =====
-- Rules of smt/rules/rules.go at concrete inputs.
use fault.Common.{◌≡◌, refl, true, false, none, some, ℕ, []}
use fault.Common.Text.{text}
use fault.Common.Dict.{is_some}
use fault.Rules.{Tag, Rule, ands, infix_rule, wrap, wrap_group, nil, cons, tag_rule}
use fault.Rules.Tagging.{taggable, tag_rule-taggable, Tagged, untag, tag_rule-Tagged}

abbrev named : Rule ℕ
named =
    wrap (record { value = text "x_1"; state = text ""; all = false; constant = false; tag = none })

abbrev assignment : Rule ℕ
assignment = infix_rule named named (text "Real") (text "=") none

tag_rule-taggable_example :
    is_some (tag_rule (text "branch_1") (text "true") (ands (cons assignment nil) none)) ≡ true
unfolding taggable
tag_rule-taggable_example =
    tag_rule-taggable (text "branch_1") (text "true") (ands (cons assignment nil) none)

abbrev group : Rule ℕ
group = wrap_group [] none

group_refused : tag_rule (text "branch_1") (text "true") group ≡ none
unfolding tag_rule
group_refused = refl

abbrev inner_tag : Tag
inner_tag = some (record { branch = text "branch_2"; block = text "false" })

abbrev outer_tag : Tag
outer_tag = some (record { branch = text "branch_1"; block = text "true" })

-- `x_1 = x_1` under one tag, in a conjunction.
abbrev named_by : Tag → Rule ℕ
named_by t =
    wrap (record { value = text "x_1"; state = text ""; all = false; constant = false; tag = t })

abbrev tagged_by : Tag → Rule ℕ
tagged_by t = ands (cons (infix_rule (named_by t) (named_by t) (text "Real") (text "=") t) nil) t

tag_rule-Tagged_example :
    Tagged outer_tag (tagged_by outer_tag)
    × (untag (tagged_by outer_tag) ≡ untag (tagged_by inner_tag))
unfolding tag_rule
tag_rule-Tagged_example =
    tag_rule-Tagged (text "branch_1") (text "true") (tagged_by inner_tag) (tagged_by outer_tag) refl
