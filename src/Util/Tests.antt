-- ===== src/Util/Tests.antt =====
-- util/util.go on the words a, b and c.
use fault.Common.{◌≡◌, refl, true, [], ◌∷◌, some, ◌↔◌}
use fault.Common.Text.{Text, text}
use fault.Util.{intersection, cartesian}
use fault.Util.Slices.{minus, intersection-minus}
use fault.Util.Sets.{
  StringSet, new_str_set, add, len, contains, diff_str_sets, new_str_set-IsProper, add-IsProper,
  len-diff_str_sets,
}

abbrev word_a : Text
word_a = text "a"

abbrev word_b : Text
word_b = text "b"

abbrev word_c : Text
word_c = text "c"

intersection-minus_example :
    intersection (word_a ∷ word_b ∷ []) (word_b ∷ word_c ∷ []) true ≡ some (word_a ∷ word_c ∷ [])
unfolding minus
intersection-minus_example =
    intersection-minus (word_a ∷ word_b ∷ []) (word_b ∷ word_c ∷ []) true refl refl

abbrev one_word : StringSet
one_word = add new_str_set word_a

abbrev two_words : StringSet
two_words = add one_word word_b

len-diff_str_sets_example :
    (len (diff_str_sets one_word two_words) ≡ 0)
    ↔ ((k : Text) → contains one_word k ≡ contains two_words k)
len-diff_str_sets_example =
    len-diff_str_sets one_word two_words (add-IsProper new_str_set word_a new_str_set-IsProper)
      (add-IsProper one_word word_b (add-IsProper new_str_set word_a new_str_set-IsProper))

cartesian_of_two :
    cartesian (word_a ∷ word_b ∷ []) (word_c ∷ [])
    ≡ (word_a ∷ word_c ∷ []) ∷ (word_b ∷ word_c ∷ []) ∷ []
unfolding cartesian
cartesian_of_two = refl
