-- ===== src/Util/Sets.antt =====
-- `StringSet` and `DiffStrSets` of util/util.go.
use mathlib.Core.Bool.{xor}
use fault.Common.{
  ℕ, ◌≡◌, refl, sym, ◌∙◌, Bool, true, false, not, ◌&&◌, ◌||◌, List, [], ◌∷◌, Option, none, some,
  arith, ◌↔◌, if◌then◌else◌, length, same, same_iff, same_refl, has,
}
use fault.Common.Text.{Text, text_key}
use fault.Common.Dict.{lookup, insert, keys, is_some, has-keys, lookup-insert}

pub record StringSet : Type 0 where
  pub base : List (Text × Bool)

unfoldable pub new_str_set : StringSet
new_str_set = record { base = [] }

unfoldable pub add : StringSet → Text → StringSet
add s str = record s { base = insert str true s.base }

-- `s.base[str]`: the zero value where the key is missing.
abbrev or_false : Option Bool → Bool
or_false none = false
or_false (some b) = b

unfoldable pub contains : StringSet → Text → Bool
contains s str = or_false (lookup str s.base)

unfoldable pub len : StringSet → ℕ
len s = length s.base

-- One of the two loops: the keys that the other set does not contain are added to the third.
add_missing : StringSet → List Text → StringSet → StringSet
unfolding contains add
add_missing other [] s3 = s3
add_missing other (k ∷ ks) s3 =
    add_missing other ks (if not (contains other k) then add s3 k else s3)

unfoldable pub diff_str_sets : StringSet → StringSet → StringSet
unfolding add_missing new_str_set
diff_str_sets s1 s2 = add_missing s1 (keys s2.base) (add_missing s2 (keys s1.base) new_str_set)

-- No key of a set has the value false. `Add` is the only write.
unfoldable pub IsProper : StringSet → Type 0
IsProper s = (k : Text) → contains s k ≡ is_some (lookup k s.base)

pub new_str_set-IsProper : IsProper new_str_set
unfolding IsProper contains new_str_set lookup
new_str_set-IsProper k = refl

pub contains-add :
    (s : StringSet) (str k : Text) → contains (add s str) k ≡ (same str k || contains s k)
unfolding contains add
contains-add s str k = ground (arith, lookup-insert str k true s.base)

pub add-IsProper : (s : StringSet) (str : Text) → IsProper s → IsProper (add s str)
unfolding IsProper contains add
add-IsProper s str h k = ground (arith, lookup-insert str k true s.base, h k)

module _ (other : StringSet) where
  contains-add_missing :
      (ks : List Text) (s3 : StringSet) (k : Text)
      → contains (add_missing other ks s3) k ≡ (contains s3 k || has k ks && not (contains other k))
  unfolding add_missing
  contains-add_missing [] s3 k = ground arith
  contains-add_missing (j ∷ ks) s3 k =
      rw (contains-add_missing ks (if not (contains other j) then add s3 j else s3) k)
        (ground (arith, contains-add s3 j k, same_iff j k))

  add_missing-IsProper :
      (ks : List Text) (s3 : StringSet) → IsProper s3 → IsProper (add_missing other ks s3)
  unfolding add_missing
  add_missing-IsProper [] s3 h = h
  add_missing-IsProper (j ∷ ks) s3 h = add_missing-IsProper ks _ (kept (not (contains other j)))
    where
      kept : (b : Bool) → IsProper (if b then add s3 j else s3)
      kept true = add-IsProper s3 j h
      kept false = h

contains-keys : (s : StringSet) (k : Text) → IsProper s → has k (keys s.base) ≡ contains s k
unfolding IsProper
contains-keys s k h = has-keys k s.base ∙ sym (h k)

-- A string is in the difference of two sets exactly if it is in one of them and not in the other.
pub contains-diff_str_sets :
    (s1 s2 : StringSet) (k : Text)
    → IsProper s1
    → IsProper s2
    → contains (diff_str_sets s1 s2) k ≡ xor (contains s1 k) (contains s2 k)
unfolding diff_str_sets xor
contains-diff_str_sets s1 s2 k h1 h2 = ground (
  arith,
  contains-add_missing s1 (keys s2.base) (add_missing s2 (keys s1.base) new_str_set) k,
  contains-add_missing s2 (keys s1.base) new_str_set k,
  contains-keys s1 k h1,
  contains-keys s2 k h2,
  nothing k,
)
  where
    nothing : (k : Text) → contains new_str_set k ≡ false
    nothing k = unfold contains new_str_set lookup in refl

-- A set that contains nothing is empty.
empty_base :
    (m : List (Text × Bool))
    → ((k : Text) → or_false (lookup k m) ≡ is_some (lookup k m))
    → ((k : Text) → or_false (lookup k m) ≡ false)
    → length m ≡ 0
unfolding lookup
empty_base [] h empty = refl
empty_base ((k, v) ∷ m) h empty = ground (arith, h k, empty k, same_refl k)

len-eq-zero : (s : StringSet) → IsProper s → (len s ≡ 0) ↔ ((k : Text) → contains s k ≡ false)
unfolding len IsProper contains
len-eq-zero s h = (λ e. nothing s.base e, empty_base s.base h)
  where
    nothing : (m : List (Text × Bool)) → length m ≡ 0 → (k : Text) → or_false (lookup k m) ≡ false
    nothing [] e k = unfold lookup in refl
    nothing (p ∷ m) e k = ground arith

diff_str_sets-IsProper : (s1 s2 : StringSet) → IsProper (diff_str_sets s1 s2)
unfolding diff_str_sets
diff_str_sets-IsProper s1 s2 =
    add_missing-IsProper s1 (keys s2.base) _
      (add_missing-IsProper s2 (keys s1.base) new_str_set new_str_set-IsProper)

-- `Len` of the difference of two sets is 0, by which `parseAssert` tells that both sides of an
-- assertion are about the same variables, exactly if the two sets contain the same strings.
pub len-diff_str_sets :
    (s1 s2 : StringSet)
    → IsProper s1
    → IsProper s2
    → (len (diff_str_sets s1 s2) ≡ 0) ↔ ((k : Text) → contains s1 k ≡ contains s2 k)
unfolding xor
len-diff_str_sets s1 s2 h1 h2 = (
  λ e k. equal k (zero_iff.0 e k),
  λ e. zero_iff.1 (λ k. ground (arith, e k, contains-diff_str_sets s1 s2 k h1 h2)),
)
  where
    zero_iff :
        (len (diff_str_sets s1 s2) ≡ 0) ↔ ((k : Text) → contains (diff_str_sets s1 s2) k ≡ false)
    zero_iff = len-eq-zero (diff_str_sets s1 s2) (diff_str_sets-IsProper s1 s2)

    equal : (k : Text) → contains (diff_str_sets s1 s2) k ≡ false → contains s1 k ≡ contains s2 k
    equal k e = unfold xor in ground (arith, contains-diff_str_sets s1 s2 k h1 h2)
