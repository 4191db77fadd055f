-- ===== src/Responses/Output.antt =====
-- `Check` and `cleanExtraOutputs` of execute/execute.go on the output of a solver.
use fault.Common.{
  ℕ, ◌+◌, ◌-◌, ◌≡◌, refl, ◌∙◌, ap, true, false, [], ◌∷◌, ◌++◌, arith, length, length-append, drop,
  same_refl, has, nat_key, ◌==◌, append_assoc,
}
use fault.Common.Text.{Text, text, text_key}
use fault.Responses.{
  from_end, unsatisfiable, satisfiable, check_answer, cleaned, goes_on, clean_from,
  clean_extra_outputs,
}

drop-append : (p s : Text) → drop (length p) (p ++ s) ≡ s
drop-append [] s = refl
drop-append (c ∷ p) s = drop-append p s

rest : (m n : ℕ) → m + n - n ≡ m
rest m n = omega arith

-- The end of a text of the length of its second part is that part.
from_end-append : (p s : Text) → from_end (p ++ s) (length s) ≡ s
unfolding from_end
from_end-append p s =
    ground (arith, length-append p s)
    ∙ ap (λ n. drop n (p ++ s)) (rest (length p) (length s))
    ∙ drop-append p s

-- An output that ends in "unsat" is unsatisfiable. One that ends in "sat", with at least two characters
-- before that and no "n" right before, is satisfiable.
pub check_answer_lem :
    (p : Text) (a c : ℕ)
    → (c == b'n') ≡ false
    → (check_answer (p ++ text "unsat") ≡ unsatisfiable)
      × (check_answer (p ++ a ∷ c ∷ text "sat") ≡ satisfiable)
unfolding check_answer
check_answer_lem p a c h = (
  ground (arith, from_end-append p (text "unsat"), same_refl (text "unsat")),
  ground (
    arith,
    from_end-append p (a ∷ c ∷ text "sat"),
    from_end-append (p ++ a ∷ c ∷ []) (text "sat"),
    append_assoc p (a ∷ c ∷ []) (text "sat"),
    same_refl (text "sat"),
  ),
)

clean_line :
    (line results : Text)
    → has 10 line ≡ false
    → clean_from false (line ++ 10 ∷ results) ≡ clean_from true results
unfolding clean_from
clean_line [] results h = refl
clean_line (c ∷ line) results h = ground (arith, clean_line line results)

clean_last_line : (line : Text) → has 10 line ≡ false → clean_from false line ≡ goes_on
unfolding clean_from
clean_last_line [] h = refl
clean_last_line (c ∷ line) h = ground (arith, clean_last_line line)

-- Of a first line that does not start with a bracket, `cleanExtraOutputs` removes what is before the
-- model on the next line; with no next line it does not end.
pub clean_extra_outputs_lem :
    (c : ℕ) (line model : Text)
    → (c == b'(') ≡ false
    → has 10 (c ∷ line) ≡ false
    → (clean_extra_outputs (c ∷ line ++ 10 ∷ b'(' ∷ model) ≡ cleaned (b'(' ∷ model))
      × (clean_extra_outputs (c ∷ line) ≡ goes_on)
unfolding clean_extra_outputs clean_from
clean_extra_outputs_lem c line model h n =
    (ground (arith, clean_line line (b'(' ∷ model)), ground (arith, clean_last_line line))
