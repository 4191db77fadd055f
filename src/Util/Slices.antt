-- ===== src/Util/Slices.antt =====
-- The slice helpers of util/util.go that the generator relies on.
use fault.Common.{
  ◌≡◌, refl, sym, ◌∙◌, ap, Bool, true, false, List, [], ◌∷◌, ◌++◌, none, some, arith, if◌then◌else◌,
  same_refl, same_comm, same_iff, has, distinct, append_assoc, append-nil, init-append, Bool-cases,
  inl, inr,
}
use fault.Common.Text.{Text, text_key}
use fault.Util.{in_string_slice, drop_last, pop_equal, scan_slice, intersection}

pub in_string_slice-has : (sl : List Text) (sub : Text) → in_string_slice sl sub ≡ has sub sl
unfolding in_string_slice
in_string_slice-has [] sub = refl
in_string_slice-has (s ∷ sl) sub = ground (arith, in_string_slice-has sl sub)

-- The elements of `s1` that are not in `s2`, in their order.
unfoldable pub minus : List Text → List Text → List Text
minus [] s2 = []
minus (s ∷ s1) s2 = if has s s2 then minus s1 s2 else s ∷ minus s1 s2

drop_last-append : (s3 : List Text) (s : Text) → drop_last (s3 ++ s ∷ []) ≡ some s3
unfolding drop_last
drop_last-append [] s = refl
drop_last-append (x ∷ s3) s = ap some (init-append (x ∷ s3) s)

pop_equal_absent : (s : Text) (s2 s3 : List Text) → has s s2 ≡ false → pop_equal s s2 s3 ≡ some s3
unfolding pop_equal
pop_equal_absent s [] s3 h = refl
pop_equal_absent s (z ∷ s2) s3 h = ground (arith, same_comm s z, pop_equal_absent s s2 s3)

-- An element that a slice without repetitions holds is dropped from the end once.
pop_equal-distinct :
    (s : Text) (s2 s3 : List Text)
    → distinct s2 ≡ true
    → pop_equal s s2 (s3 ++ s ∷ []) ≡ some (if has s s2 then s3 else s3 ++ s ∷ [])
unfolding pop_equal
pop_equal-distinct s [] s3 d = refl
pop_equal-distinct s (z ∷ s2) s3 d = ground (
  arith,
  same_comm s z,
  same_iff s z,
  drop_last-append s3 s,
  pop_equal_absent s s2 s3,
  pop_equal-distinct s s2 s3,
)

scan_slice-minus :
    (s1 s2 s3 : List Text) → distinct s2 ≡ true → scan_slice s1 s2 s3 ≡ some (s3 ++ minus s1 s2)
unfolding scan_slice minus
scan_slice-minus [] s2 s3 d = ap some (sym (append-nil s3))
scan_slice-minus (s ∷ s1) s2 s3 d = elim (Bool-cases (has s s2)) [
  | inl e ↦ rw (pop_equal-distinct s s2 s3 d) (rw e (scan_slice-minus s1 s2 s3 d))
  | inr e ↦ rw (pop_equal-distinct s s2 s3 d) (
      rw e (
        scan_slice-minus s1 s2 (s3 ++ s ∷ []) d ∙ ap some (append_assoc s3 (s ∷ []) (minus s1 s2))))
]

-- Of two slices without repetitions, `Intersection` gives the elements that only the first has, and
-- behind them, if it is asked for both sides, those that only the second has. Nothing that is in both
-- comes back.
pub intersection-minus :
    (s1 s2 : List Text) (both : Bool)
    → distinct s1 ≡ true
    → distinct s2 ≡ true
    → intersection s1 s2 both ≡ some (if both then minus s1 s2 ++ minus s2 s1 else minus s1 s2)
unfolding intersection
intersection-minus s1 s2 both d1 d2 =
    ground (arith, scan_slice-minus s1 s2 [] d2, scan_slice-minus s2 s1 [] d1)

-- The panic of `Intersection`: the element is in the second slice more often than the slice so far
-- has elements.
pub intersection_panics : (s : Text) (both : Bool) → intersection (s ∷ []) (s ∷ s ∷ []) both ≡ none
unfolding intersection
intersection_panics s both = ground (arith, same_refl s)
