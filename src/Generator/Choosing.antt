-- ===== src/Generator/Choosing.antt =====
-- `allStateChangesInRule`, `buildForkChoice`, `newChoice` and the forks of smt/generator.go: the
-- versions of each variable in the branches of a conditional.
pub mod Ends
use fault.Common.{
  Bool, true, false, ◌&&◌, ◌||◌, List, [], ◌∷◌, ◌++◌, Option, none, some, if◌then◌else◌, same,
  last?, init,
}
use fault.Common.Text.{Text, text_key, atoi}
use fault.Common.Int.{ℤ, int16}
use fault.Common.Dict.{lookup, insert, is_some}
use fault.Common.Fallible.{◌>>=◌}
use fault.Rules.{
  Rule, Rules, AndsList, Wrap, nil, cons, no_ands, more_ands, infix_rule, ite_rule, wrap,
  wrap_group, ands, choices,
}
use fault.Variables.{is_boolean, get_var_base}
use fault.Forks.{Choice, PhiState, check, add_choice_value}

-- `forks.Fork`: the choices of each variable.
abbrev pub Fork : Type 0
Fork = List (Text × List Choice)

-- A new fork takes the place of the last one inside a conditional.
unfoldable pub new_fork : PhiState → List Fork → List Fork
unfolding check
new_fork phi [] = [] ∷ []
new_fork phi (f ∷ fs) = if check phi then init (f ∷ fs) ++ [] ∷ [] else (f ∷ fs) ++ [] ∷ []

-- `parse_float` tells whether `strconv.ParseFloat` takes a text.
module _ (parse_float : Text → Bool) where
  -- `IsNumeric` or `IsBoolean`: a static value.
  is_static : Text → Bool
  unfolding is_boolean atoi
  is_static v = (parse_float v || is_some (atoi v)) || is_boolean v

  changes_of_wrap : Wrap → List Text
  unfolding is_static
  changes_of_wrap w = if is_static w.value then [] else w.value ∷ []

  changes_of_wraps : List Wrap → List Text
  unfolding changes_of_wrap
  changes_of_wraps [] = []
  changes_of_wraps (w ∷ ws) = changes_of_wrap w ++ changes_of_wraps ws

module _ {V : Type 0} (parse_float : Text → Bool) where
  unfoldable mutual
    unfolding changes_of_wrap changes_of_wraps

    pub all_state_changes_in_rule : Rule V → List Text
    all_state_changes_in_rule (infix_rule x y ty op tag) =
        all_state_changes_in_rule x ++ all_state_changes_in_rule y
    all_state_changes_in_rule (ite_rule cond t f tag) =
        all_state_changes_in_rules t ++ all_state_changes_in_rules f
    all_state_changes_in_rule (wrap_group ws tag) = changes_of_wraps parse_float ws
    all_state_changes_in_rule (wrap w) = changes_of_wrap parse_float w
    all_state_changes_in_rule (ands xs tag) = all_state_changes_in_rules xs
    all_state_changes_in_rule (choices xs op tag) = all_state_changes_in_ands xs
    all_state_changes_in_rule r = []

    pub all_state_changes_in_rules : Rules V → List Text
    all_state_changes_in_rules nil = []
    all_state_changes_in_rules (cons r rs) =
        all_state_changes_in_rule r ++ all_state_changes_in_rules rs

    pub all_state_changes_in_ands : AndsList V → List Text
    all_state_changes_in_ands no_ands = []
    all_state_changes_in_ands (more_ands xs tag rest) =
        all_state_changes_in_rules xs ++ all_state_changes_in_ands rest

unfoldable pub new_choice : Text → ℤ → Text → Choice
new_choice base n b = record { base = base; branch = b; values = n ∷ [] }

-- The last choice of a variable gets the value if it is of this branch, and else there is a new one.
add_to_last : Text → ℤ → Text → List Choice → Choice → List Choice
unfolding new_choice add_choice_value
add_to_last base n b cs c =
    if same c.branch b then init cs ++ add_choice_value c n ∷ [] else cs ++ new_choice base n b ∷ []

-- The choices of a variable that has some; `none` is the panic of the index -1.
extend : Text → ℤ → Text → Option Bool → List Choice → Option (List Choice)
unfolding add_to_last new_choice
extend base n b (some true) cs = last? cs >>= λ c. some (add_to_last base n b cs c)
extend base n b seen cs = some (cs ++ new_choice base n b ∷ [])

extend_or_new : Text → ℤ → Text → Option Bool → Option (List Choice) → Option (List Choice)
unfolding extend new_choice
extend_or_new base n b seen none = some (new_choice base n b ∷ [])
extend_or_new base n b seen (some cs) = extend base n b seen cs

-- A turn of the loop over the names, with the variables seen so far.
choose_version : Text → Text × ℤ → Fork × List (Text × Bool) → Option (Fork × List (Text × Bool))
unfolding extend_or_new
choose_version b (base, i) (fork, seen) =
    extend_or_new base (int16 i) b (lookup base seen) (lookup base fork) >>= λ cs.
    some (insert base cs fork, insert base true seen)

choose_all : Text → List Text → Fork × List (Text × Bool) → Option (Fork × List (Text × Bool))
unfolding choose_version get_var_base
choose_all b [] st = some st
choose_all b (s ∷ ss) st =
    get_var_base s >>= λ v. choose_version b v st >>= λ st'. choose_all b ss st'

unfoldable pub build_fork_choice :
    {V : Type 0} → (Text → Bool) → Rules V → Text → Fork → Option Fork
unfolding all_state_changes_in_rules choose_all
build_fork_choice parse_float rs b fork =
    choose_all b (all_state_changes_in_rules parse_float rs) (fork, []) >>= λ st. some st.0
