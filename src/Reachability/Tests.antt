-- ===== src/Reachability/Tests.antt =====
-- The systems of reachability/reachability_test.go, and one that the test does not have.
use mathlib.Core.Bool.{xor}
use fault.Common.{◌≡◌, refl, true, none, some, List, [], ◌∷◌, has, ◌↔◌}
use fault.Common.Dict.{lookup, insert}
use fault.Common.Text.{Text, text, text_key, join}
use fault.Reachability.{
  Name, Node, spec, def_statement, component_literal, start_statement, function_literal,
  block_statement, expression_statement, built_in, nil, cons, no_pairs, pair, local_id, scan,
}
use fault.Reachability.Trace.{defined, entered}
use fault.Reachability.Verdict.{reported, reported-scan, scan-eq-none}

abbrev foo : Name
foo = record { spec = text "test"; path = text "foo" ∷ [] }

abbrev advance : Name → Node
advance n = function_literal (block_statement (cons (expression_statement (built_in (n ∷ []))) nil))

abbrev stay : Node
stay = function_literal (block_statement (cons (expression_statement (built_in [])) nil))

abbrev initial : Name
initial = record { spec = text "test"; path = text "initial" ∷ [] }

abbrev close : Name
close = record { spec = text "test"; path = text "close" ∷ [] }

abbrev foo_close : Name
foo_close = record { spec = text "test"; path = text "foo" ∷ text "close" ∷ [] }

abbrev foo_initial : Name
foo_initial = record { spec = text "test"; path = text "foo" ∷ text "initial" ∷ [] }

-- A component with two states, and the start statement of the system.
abbrev system : Node → Node → List (List Text) → Node
system first second starts = spec (
    cons (def_statement (component_literal foo (pair initial first (pair close second no_pairs))))
      (cons (start_statement starts) nil))

abbrev correct : Node
correct = system (advance foo_close) stay ((text "foo" ∷ text "initial" ∷ []) ∷ [])

-- The second state is never entered.
abbrev incorrect : Node
incorrect = system stay stay ((text "foo" ∷ text "initial" ∷ []) ∷ [])

-- Two states that enter each other only, and no start at all.
abbrev island : Node
island = system (advance foo_close) (advance foo_initial) []

incorrect_reported : scan incorrect ≡ some (text "foo_close" ∷ [])
unfolding scan local_id lookup insert join
incorrect_reported = refl

correct_accepted : scan correct ≡ none
unfolding scan local_id lookup insert join
correct_accepted = refl

island_accepted : scan island ≡ none
unfolding scan local_id lookup insert join
island_accepted = refl

reported-scan_example : has (text "foo_close") (reported (scan incorrect)) ≡ true
unfolding xor defined entered local_id join
reported-scan_example = reported-scan incorrect (text "foo_close")

scan-eq-none_example :
    (scan island ≡ none) ↔ ((id : Text) → has id (defined island) ≡ has id (entered island))
scan-eq-none_example = scan-eq-none island
