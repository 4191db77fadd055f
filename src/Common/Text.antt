-- ===== src/Common/Text.antt =====
-- Text as a list of code points, Go's `strings.Split` and `strings.Join` at one character, and
-- `strconv.Itoa` and `strconv.Atoi` for decimal numbers.
use Prim.Native.Char.{code}
use Prim.Native.String.{String}
use fault.Common.{
  ℕ, zero, suc, ◌+◌, ◌-◌, ◌*◌, ◌/◌, ◌%◌, ◌<◌, ◌≡◌, refl, ◌∙◌, ap, inl, inr, Bool, true, false, ◌&&◌,
  List, [], ◌∷◌, ◌++◌, Option, none, some, arith, Key, list_key, nat_key, ◌==◌, leb, ltb,
  if◌then◌else◌, has, All, Bool-cases, ==_iff,
}
use fault.Common.Int.{ℤ, pos, negsuc, IsInt16}

abbrev pub Text : Type 0
Text = List ℕ

-- The code points of a literal.
abbrev pub text : String → Text
text String.[] = []
text (String.◌∷◌ c s) = code c ∷ text s

instance abbrev pub text_key : Key Text
text_key = list_key

-- The parts of `s` between the characters `c`, the first one apart.
unfoldable pub split_first : ℕ → Text → Text × List Text
split_first c [] = ([], [])
split_first c (x ∷ s) =
    let (part, parts) = split_first c s in if x == c then ([], part ∷ parts) else (x ∷ part, parts)

-- `strings.Split(s, c)` is never empty.
unfoldable pub split : ℕ → Text → List Text
unfolding split_first
split c s = let (part, parts) = split_first c s in part ∷ parts

-- `strings.Join(parts, c)`
unfoldable pub join : ℕ → List Text → Text
join c [] = []
join c (p ∷ []) = p
join c (p ∷ q ∷ ps) = p ++ c ∷ join c (q ∷ ps)

join_first : (c x : ℕ) (p : Text) (ps : List Text) → join c ((x ∷ p) ∷ ps) ≡ x ∷ join c (p ∷ ps)
unfolding join
join_first c x p [] = refl
join_first c x p (q ∷ ps) = refl

-- Joining what a split took apart gives the text back.
pub join-split : (c : ℕ) (s : Text) → join c (split c s) ≡ s
unfolding split split_first join
join-split c [] = refl
join-split c (x ∷ s) =
    ground
      (arith, ==_iff x c, join-split c s, join_first c x (split_first c s).0 (split_first c s).1)

split_none : (c : ℕ) (p : Text) → has c p ≡ false → split_first c p ≡ (p, [])
unfolding split_first
split_none c [] h = refl
split_none c (x ∷ p) h = ground (arith, split_none c p)

-- A part without the separator that is put behind a text is the last part of the split.
pub split-append :
    (c : ℕ) (s p : Text) → has c p ≡ false → split c (s ++ c ∷ p) ≡ split c s ++ p ∷ []
unfolding split split_first
split-append c [] p h = ground (arith, split_none c p h)
split-append c (x ∷ s) p h = ground (arith, split-append c s p h)

-- The decimal digits of `n`. Each round divides by ten, so `n + 1` rounds are enough.
digits : ℕ → ℕ → Text
digits zero n = []
digits (suc f) n =
    let rest = digits f (n / 10) ++ (b'0' + n % 10) ∷ [] in
    if ltb n 10 then (b'0' + n) ∷ [] else rest

unfoldable pub itoa : ℤ → Text
unfolding digits
itoa (pos n) = digits (suc n) n
itoa (negsuc n) = b'-' ∷ digits (suc (suc n)) (suc n)

abbrev is_digit : ℕ → Bool
is_digit c = leb b'0' c && leb c b'9'

read_from : ℕ → Text → Option ℕ
read_from acc [] = some acc
read_from acc (c ∷ s) = if is_digit c then read_from (acc * 10 + (c - b'0')) s else none

-- At least one digit, and nothing else.
read : Text → Option ℕ
unfolding read_from
read [] = none
read (c ∷ s) = read_from 0 (c ∷ s)

-- `strconv.Atoi`: an optional sign and digits; a value that an `int` of 64 bits cannot hold is an
-- error.
positive : Option ℕ → Option ℤ
positive none = none
positive (some n) = if ltb n 9223372036854775808 then some (pos n) else none

negative : Option ℕ → Option ℤ
negative none = none
negative (some zero) = some (pos 0)
negative (some (suc n)) = if ltb n 9223372036854775808 then some (negsuc n) else none

unfoldable pub atoi : Text → Option ℤ
unfolding read positive negative
atoi [] = none
atoi (c ∷ s) =
    if c == b'-'
    then negative (read s)
    else if c == b'+'
    then positive (read s)
    else positive (read (c ∷ s))

abbrev AllDigits : Text → Type 0
AllDigits s = All (λ c. is_digit c ≡ true) s

All-snoc : (s : Text) (c : ℕ) → AllDigits s → is_digit c ≡ true → AllDigits (s ++ c ∷ [])
All-snoc [] c h d = (d, tt)
All-snoc (x ∷ s) c h d = (h.0, All-snoc s c h.1 d)

digits-AllDigits : (f n : ℕ) → AllDigits (digits f n)
unfolding digits
digits-AllDigits zero n = tt
digits-AllDigits (suc f) n = elim (Bool-cases (ltb n 10)) [
  | inl e ↦ rw e (ground arith, tt)
  | inr e ↦ rw e (All-snoc (digits f (n / 10)) _ (digits-AllDigits f (n / 10)) (ground arith))
]

has-AllDigits : (c : ℕ) (s : Text) → is_digit c ≡ false → AllDigits s → has c s ≡ false
has-AllDigits c [] h d = refl
has-AllDigits c (x ∷ s) h d = ground (arith, has-AllDigits c s h d.1)

-- The printed number holds no underscore.
pub has-itoa : (i : ℤ) → has b'_' (itoa i) ≡ false
unfolding itoa
has-itoa (pos n) = has-AllDigits b'_' (digits (suc n) n) refl (digits-AllDigits (suc n) n)
has-itoa (negsuc n) =
    has-AllDigits b'_' (digits (suc (suc n)) (suc n)) refl (digits-AllDigits (suc (suc n)) (suc n))

read_from-snoc :
    (acc : ℕ) (s : Text) (c n : ℕ)
    → read_from acc s ≡ some n
    → is_digit c ≡ true
    → read_from acc (s ++ c ∷ []) ≡ some (n * 10 + (c - b'0'))
unfolding read_from
read_from-snoc acc [] c n h d = ground arith
read_from-snoc acc (x ∷ s) c n h d = ground (arith, read_from-snoc (acc * 10 + (x - b'0')) s c n)

read_from-digits : (f n : ℕ) → n < f → read_from 0 (digits f n) ≡ some n
unfolding digits
read_from-digits zero n h = absurd (omega arith)
read_from-digits (suc f) n h = elim (Bool-cases (ltb n 10)) [
  | inl e ↦ rw e (unfold read_from in ground arith)
  | inr e ↦ rw e (
      read_from-snoc 0 (digits f (n / 10)) (b'0' + n % 10) (n / 10)
        (read_from-digits f (n / 10) (ground arith)) (ground arith)
      ∙ ap some (omega arith))
]

read-snoc : (s : Text) (c : ℕ) → read (s ++ c ∷ []) ≡ read_from 0 (s ++ c ∷ [])
unfolding read
read-snoc [] c = refl
read-snoc (x ∷ s) c = refl

read-digits : (f n : ℕ) → n < suc f → read (digits (suc f) n) ≡ some n
read-digits f n h = nonempty ∙ read_from-digits (suc f) n h
  where
    nonempty : read (digits (suc f) n) ≡ read_from 0 (digits (suc f) n)
    nonempty =
        unfold digits in
        elim (Bool-cases (ltb n 10)) [
          | inl e ↦ unfold read in rw e
          | inr e ↦ rw e (read-snoc (digits f (n / 10)) (b'0' + n % 10))
        ]

atoi_of_digits : (s : Text) (n : ℕ) → AllDigits s → read s ≡ some n → atoi s ≡ positive (some n)
unfolding atoi
atoi_of_digits [] n d h = ground arith
atoi_of_digits (c ∷ s) n d h = ground arith

-- A printed `int16` is read back.
pub atoi-itoa : (i : ℤ) → IsInt16 i → atoi (itoa i) ≡ some i
unfolding itoa
atoi-itoa (pos n) h =
    atoi_of_digits (digits (suc n) n) n (digits-AllDigits (suc n) n) (read-digits n n (omega arith))
    ∙ unfold positive in ground arith
atoi-itoa (negsuc n) h =
    unfold atoi in rw (read-digits (suc n) (suc n) (omega arith)) (ground arith)

round_trip : atoi (itoa (negsuc 11)) ≡ some (negsuc 11)
unfolding itoa atoi
round_trip = refl

split_ssa : split b'_' (text "a_b_12") ≡ text "a" ∷ text "b" ∷ text "12" ∷ []
unfolding split
split_ssa = refl
