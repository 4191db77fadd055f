-- ===== src/Asserts/Tests.antt =====
-- smt/asserts.go and the temporal logic of smt/generator.go at concrete inputs.
use fault.Common.{◌≡◌, refl, Bool, true, false, some, [], ◌∷◌, same, not}
use fault.Common.Text.{Text, text, text_key, join}
use fault.Asserts.{on_off, apply_temporal_logic, package_state_graph}
use fault.Asserts.Temporal.{
  Writes, meaning, apply_temporal_logic-assume, apply_temporal_logic-assert,
}

abbrev at_x1 : Text → Bool
at_x1 s = same s (text "x_1")

apply_temporal_logic-assume_example :
    Writes at_x1
      (apply_temporal_logic
        (text "eventually")
        (text "x_0" ∷ text "x_1" ∷ [])
        (text "")
        (on_off true).0
        (on_off true).1)
      (meaning (text "eventually") (text "") at_x1 (text "x_0" ∷ text "x_1" ∷ []))
apply_temporal_logic-assume_example =
    apply_temporal_logic-assume (text "eventually") (text "") at_x1 (text "x_0") (text "x_1" ∷ [])

apply_temporal_logic-assert_example :
    Writes at_x1
      (apply_temporal_logic
        (text "always")
        (text "x_0" ∷ text "x_1" ∷ [])
        (text "")
        (on_off false).0
        (on_off false).1)
      (not (meaning (text "always") (text "") (λ t. not (at_x1 t)) (text "x_0" ∷ text "x_1" ∷ [])))
apply_temporal_logic-assert_example =
    apply_temporal_logic-assert (text "always") (text "") at_x1 (text "x_0") (text "x_1" ∷ []) refl
      refl

stays :
    apply_temporal_logic
      (text "eventually-always")
      (text "a" ∷ text "b" ∷ [])
      (text "")
      (text "or")
      (text "and")
    ≡ some (text "(or (and a b) (and b))")
unfolding apply_temporal_logic join
stays = refl

pairs :
    package_state_graph ((text "x_1" ∷ text "y_0" ∷ []) ∷ (text "z" ∷ []) ∷ []) (text "not")
    ≡ some (text "(not (= x_1 y_0))" ∷ text "z" ∷ [])
unfolding package_state_graph
pairs = refl
