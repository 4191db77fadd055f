-- ===== src/Asserts.antt =====
-- smt/asserts.go and the temporal logic of smt/generator.go: from the states of an assertion to the
-- text of its SMT formula.
pub mod Formulas
pub mod Temporal
pub mod Merge
pub mod Carried
pub mod Gaps
mod Tests
mod Examples
use fault.Common.{
  ℕ, zero, suc, ◌+◌, ◌≡◌, Bool, true, false, List, [], ◌∷◌, ◌++◌, Option, none, some, if◌then◌else◌,
  length, same, ◌==◌,
}
use fault.Common.Text.{Text, text, text_key, join}
use fault.Common.Fallible.{◌>>=◌}
use fault.Util.{pair_combinations, cartesian}

unfoldable pub smtlib_operators : Text → Text
smtlib_operators op =
    if same op (text "==")
    then text "="
    else if same op (text "!=")
    then text "not"
    else if same op (text "||")
    then text "or"
    else if same op (text "&&")
    then text "and"
    else op

-- `fmt.Sprintf("(%s %s)", op, x)`
abbrev pub parens : Text → Text → Text
parens op x = b'(' ∷ op ++ b' ' ∷ x ++ b')' ∷ []

unfoldable pub write_assertless_rule : Text → Text → Text → Text
write_assertless_rule op x y = if same y (text "") then parens op x else parens op (x ++ b' ' ∷ y)

unfoldable pub write_assert : Text → Text → Text
write_assert op stmt =
    if same op (text "")
    then parens (text "assert") stmt
    else parens (text "assert") (parens op stmt)

-- The text of one pair. `a[0]` and `a[1]` panic on an empty row; further elements are not read.
package_row : Text → List Text → Option Text
package_row op [] = none
package_row op (a ∷ []) = some a
package_row op (a ∷ b ∷ _) = some (
    if same op (text "not")
    then (if same a (text "false")
        then parens op b
        else if same b (text "false")
        then parens op a
        else parens op (parens (text "=") (a ++ b' ' ∷ b)))
    else parens op (a ++ b' ' ∷ b))

unfoldable pub package_state_graph : List (List Text) → Text → Option (List Text)
unfolding package_row
package_state_graph [] op = some []
package_state_graph (a ∷ x) op =
    package_row op a >>= λ s. package_state_graph x op >>= λ product. some (s ∷ product)

-- The operators of a temporal assertion in `parseAssert`: `on` joins states of which the
-- specification asks one, `off` those of which it asks all. An assertion is negated before, so there
-- the two change places.
unfoldable pub on_off : Bool → Text × Text
on_off assume = if assume then (text "or", text "and") else (text "and", text "or")

-- `fmt.Sprintf("(and %s)", strings.Join(ir[i:], " "))` for each index.
progression : List Text → List Text
progression [] = []
progression (x ∷ ir) = parens (text "and") (join b' ' (x ∷ ir)) ∷ progression ir

unfoldable pub eventually_always : List Text → Text
unfolding progression
eventually_always ir = parens (text "or") (join b' ' (progression ir))

-- `if len(ir) > 1 { … }; return ir[0]`, where the index panics on an empty slice.
one_or : (List Text → Text) → List Text → Option Text
one_or write [] = none
one_or write (x ∷ []) = some x
one_or write (x ∷ y ∷ ir) = some (write (x ∷ y ∷ ir))

-- The operator of an assertion with no temporal word.
abbrev pub filter_op : Text → Text → Text
filter_op temporal_filter off =
    if same temporal_filter (text "nft")
    then text "or"
    else if same temporal_filter (text "nmt")
    then text "or"
    else off

unfoldable pub apply_temporal_logic : Text → List Text → Text → Text → Text → Option Text
unfolding eventually_always one_or
apply_temporal_logic temp ir temporal_filter on off =
    if same temp (text "eventually")
    then one_or (λ l. parens on (join b' ' l)) ir
    else if same temp (text "always")
    then one_or (λ l. parens off (join b' ' l)) ir
    else if same temp (text "eventually-always")
    then one_or eventually_always ir
    else one_or (λ l. parens (filter_op temporal_filter off) (join b' ' l)) ir
