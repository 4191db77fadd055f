-- ===== src/Responses.antt =====
-- What the model checker reads of the solver's output: `Check` and `cleanExtraOutputs` of
-- execute/execute.go, `splitIdent` of execute/responses.go, `FromEnd` of util/util.go.
pub mod Output
pub mod Idents
pub mod Model
mod Tests
use fault.Common.{
  ℕ, zero, suc, ◌-◌, ◌≡◌, Bool, true, false, List, [], ◌∷◌, Option, none, some, if◌then◌else◌,
  length, drop, ltb, same, ◌==◌, last?, init,
}
use fault.Common.Text.{Text, text, text_key, split, join, atoi}
use fault.Common.Fallible.{◌>>=◌}
use fault.Common.Int.{ℤ, pos, negsuc, ltb_ℤ}

unfoldable pub from_end : Text → ℕ → Text
from_end str offset = if ltb (length str) offset then str else drop (length str - offset) str

-- The results of `Check`: false, true, and the output as an error.
pub data Answer : Type 0 where
  unsatisfiable : Answer
  satisfiable : Answer
  failed : Text → Answer

-- `Check` behind the run of the solver.
unfoldable pub check_answer : Text → Answer
unfolding from_end
check_answer results =
    if same (from_end results 5) (text "unsat")
    then unsatisfiable
    else if same (from_end results 3) (text "sat")
    then satisfiable
    else failed results

-- The loop of `cleanExtraOutputs` ends with a text, panics on an empty text, or goes on for ever: with
-- no newline left, `results[newline+1:]` is `results`.
pub data Cleaned : Type 0 where
  cleaned : Text → Cleaned
  panics : Cleaned
  goes_on : Cleaned

-- The loop, character by character; `start` tells whether the last pass of it ended here.
unfoldable pub clean_from : (start : Bool) → Text → Cleaned
clean_from true [] = panics
clean_from false [] = goes_on
clean_from start (c ∷ results) =
    let next = clean_from true results in
    let line = clean_from false results in
    if (if start then c == b'(' else false)
    then cleaned (c ∷ results)
    else if c == 10
    then next
    else line

unfoldable pub clean_extra_outputs : Text → Cleaned
unfolding clean_from
clean_extra_outputs results = clean_from true results

-- `splitIdent`: the number and the variable. `strings.Split` is never empty.
abbrev or_blank : Option Text → Text
or_blank none = []
or_blank (some s) = s

unfoldable pub split_ident : Text → Text × Text
split_ident ident = let s = split b'_' ident in (or_blank (last? s), join b'_' (init s))

-- `strconv.ParseInt(key, 10, 16)`, with the range of an int16; `none` is the panic.
abbrev in_int16 : ℤ → Bool
in_int16 (pos n) = ltb n 32768
in_int16 (negsuc n) = ltb n 32768

abbrev pub read_key : Text × Text → Option (Text × ℤ)
read_key (key, id) = atoi key >>= λ i. if in_int16 i then some (id, i) else none

unfoldable pub symbol_of : Text → Option (Text × ℤ)
unfolding split_ident
symbol_of sym = read_key (split_ident sym)
