-- ===== src/Forks/Tests.antt =====
-- smt/forks/forks.go on a choice with the versions 2 and 10.
use fault.Common.{◌≡◌, refl, true, false, ◌||◌, [], ◌∷◌, some, same, has}
use fault.Common.Text.{text}
use fault.Common.Int.{ℤ, pos, int_key}
use fault.Forks.{Choice, add_choice_value, get_end, new_phi_state, enter, leave, check}
use fault.Forks.Choices.{ceiling, get_end-add_choice_value}

abbrev two_versions : Choice
two_versions = record { base = text "x"; branch = text "true"; values = pos 10 ∷ pos 2 ∷ [] }

get_end-add_choice_value_example :
    (e : ℤ) × (get_end (add_choice_value two_versions (pos 5)) ≡ some e)
    × ((v : ℤ)
        → has v (add_choice_value two_versions (pos 5)).values
          ≡ (has v two_versions.values || same (pos 5) v))
    × (has e (add_choice_value two_versions (pos 5)).values ≡ true)
    × (ceiling e (add_choice_value two_versions (pos 5)).values ≡ true)
get_end-add_choice_value_example = get_end-add_choice_value two_versions (pos 5)

in_order : (add_choice_value two_versions (pos 5)).values ≡ pos 2 ∷ pos 5 ∷ pos 10 ∷ []
unfolding add_choice_value
in_order = refl

-- `Out` below the outermost level stays there.
left_twice : check (leave (leave (enter new_phi_state))) ≡ false
unfolding check leave enter new_phi_state
left_twice = refl
