-- ===== src/Lookup/Tests.antt =====
-- llvm/spec.go on a spec whose variable x has two values.
use fault.Common.{ℕ, ◌≡◌, List, [], ◌∷◌, some}
use fault.Common.Text.{Text, text, text_key, join}
use fault.Common.Int.{pos}
use fault.Lookup.{new_compiled_spec, get_spec_var, get_spec_var_state}
use fault.Lookup.History.{define_all, define_all-history}

abbrev spec_x : List Text
spec_x = text "spec" ∷ text "x" ∷ []

abbrev spec_y : List Text
spec_y = text "spec" ∷ text "y" ∷ []

abbrev definitions : List (List Text × ℕ)
definitions = (spec_x, 3) ∷ (spec_y, 8) ∷ (spec_x, 5) ∷ []

define_all-history_example :
    (get_spec_var
        (define_all (new_compiled_spec {V = ℕ} {P = ℕ} {T = ℕ} (text "spec")) definitions)
        spec_x
      ≡ some 5)
    × (get_spec_var_state
          (define_all (new_compiled_spec {V = ℕ} {P = ℕ} {T = ℕ} (text "spec")) definitions)
          spec_x
        ≡ some (pos 1))
unfolding join
define_all-history_example = define_all-history ℕ ℕ ℕ (text "spec") definitions spec_x
