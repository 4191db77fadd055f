-- ===== src/Forks/Choices.antt =====
-- `AddChoiceValue`, `GetEnd` and `GetForkEndPoints` of smt/forks/forks.go: the end of a choice is its
-- highest version.
use fault.Common.{
  ◌≡◌, refl, ◌∙◌, Bool, true, not, ◌&&◌, ◌||◌, List, [], ◌∷◌, ◌++◌, some, arith, same, has,
  has-append, last?,
}
use fault.Common.Int.{ℤ, pos, negsuc, ltb_ℤ, eqb_ℤ_iff, int_key}
use fault.Forks.{Choice, insert_sorted, sort, add_choice_value, get_end}

abbrev pub leb_ℤ : ℤ → ℤ → Bool
leb_ℤ a b = not (ltb_ℤ b a)

pub leb_ℤ_trans : (a b c : ℤ) → leb_ℤ a b ≡ true → leb_ℤ b c ≡ true → leb_ℤ a c ≡ true
leb_ℤ_trans (pos a) (pos b) (pos c) h k = ground arith
leb_ℤ_trans (pos a) (pos b) (negsuc c) h k = ground arith
leb_ℤ_trans (pos a) (negsuc b) (pos c) h k = ground arith
leb_ℤ_trans (pos a) (negsuc b) (negsuc c) h k = ground arith
leb_ℤ_trans (negsuc a) (pos b) (pos c) h k = ground arith
leb_ℤ_trans (negsuc a) (pos b) (negsuc c) h k = ground arith
leb_ℤ_trans (negsuc a) (negsuc b) (pos c) h k = ground arith
leb_ℤ_trans (negsuc a) (negsuc b) (negsuc c) h k = ground arith

pub leb_ℤ_total : (a b : ℤ) → ltb_ℤ a b ≡ true → leb_ℤ a b ≡ true
leb_ℤ_total (pos a) (pos b) h = ground arith
leb_ℤ_total (pos a) (negsuc b) h = ground arith
leb_ℤ_total (negsuc a) (pos b) h = ground arith
leb_ℤ_total (negsuc a) (negsuc b) h = ground arith

pub leb_ℤ_refl : (a : ℤ) → leb_ℤ a a ≡ true
leb_ℤ_refl (pos a) = ground arith
leb_ℤ_refl (negsuc a) = ground arith

-- No value of the list is below `a`.
abbrev pub floor : ℤ → List ℤ → Bool
floor a [] = true
floor a (v ∷ vs) = leb_ℤ a v && floor a vs

-- No value of the list is above `a`.
abbrev pub ceiling : ℤ → List ℤ → Bool
ceiling a [] = true
ceiling a (v ∷ vs) = leb_ℤ v a && ceiling a vs

abbrev pub ascending : List ℤ → Bool
ascending [] = true
ascending (v ∷ vs) = floor v vs && ascending vs

floor_trans : (a b : ℤ) (vs : List ℤ) → leb_ℤ a b ≡ true → floor b vs ≡ true → floor a vs ≡ true
floor_trans a b [] h k = refl
floor_trans a b (v ∷ vs) h k = ground (arith, leb_ℤ_trans a b v, floor_trans a b vs)

floor-has : (a e : ℤ) (vs : List ℤ) → floor a vs ≡ true → has e vs ≡ true → leb_ℤ a e ≡ true
floor-has a e [] h k = ground arith
floor-has a e (v ∷ vs) h k = ground (arith, eqb_ℤ_iff v e, floor-has a e vs)

floor-insert_sorted :
    (a n : ℤ) (vs : List ℤ) → floor a (insert_sorted n vs) ≡ (leb_ℤ a n && floor a vs)
unfolding insert_sorted
floor-insert_sorted a n [] = refl
floor-insert_sorted a n (v ∷ vs) = ground (arith, floor-insert_sorted a n vs)

insert_sorted-ascending :
    (n : ℤ) (vs : List ℤ) → ascending vs ≡ true → ascending (insert_sorted n vs) ≡ true
unfolding insert_sorted
insert_sorted-ascending n [] h = refl
insert_sorted-ascending n (v ∷ vs) h = ground (
  arith,
  floor-insert_sorted v n vs,
  insert_sorted-ascending n vs,
  leb_ℤ_total v n,
  floor_trans n v vs,
)

pub sort-ascending : (vs : List ℤ) → ascending (sort vs) ≡ true
unfolding sort
sort-ascending [] = refl
sort-ascending (v ∷ vs) = insert_sorted-ascending v (sort vs) (sort-ascending vs)

has-insert_sorted : (e n : ℤ) (vs : List ℤ) → has e (insert_sorted n vs) ≡ (same n e || has e vs)
unfolding insert_sorted
has-insert_sorted e n [] = refl
has-insert_sorted e n (v ∷ vs) = ground (arith, has-insert_sorted e n vs)

has-sort : (e : ℤ) (vs : List ℤ) → has e (sort vs) ≡ has e vs
unfolding sort
has-sort e [] = refl
has-sort e (v ∷ vs) = ground (arith, has-insert_sorted e v (sort vs), has-sort e vs)

-- The last of a list in ascending order is its maximum.
pub last?-ascending :
    (v : ℤ) (vs : List ℤ)
    → ascending (v ∷ vs) ≡ true
    → (e : ℤ) × (last? (v ∷ vs) ≡ some e) × (has e (v ∷ vs) ≡ true) × (ceiling e (v ∷ vs) ≡ true)
last?-ascending v [] h = (v, refl, ground (arith, eqb_ℤ_iff v v), ground (arith, leb_ℤ_refl v))
last?-ascending v (w ∷ vs) h =
    let (e, l, m, c) = last?-ascending w vs (ground arith) in
    (e, l, ground (arith, m), ground (arith, c, m, floor-has v e (w ∷ vs)))

pub highest :
    (n : ℤ) (vs : List ℤ)
    → ascending vs ≡ true
    → has n vs ≡ true
    → (e : ℤ) × (last? vs ≡ some e) × (has e vs ≡ true) × (ceiling e vs ≡ true)
highest n [] h m = ground arith
highest n (v ∷ vs) h m = last?-ascending v vs h

has-sort_added : (v n : ℤ) (vs : List ℤ) → has v (sort (vs ++ n ∷ [])) ≡ (has v vs || same n v)
has-sort_added v n vs = ground (arith, has-sort v (vs ++ n ∷ []), has-append v vs (n ∷ []))

-- After a value has been added to a choice, the end of the choice is its highest value, and its
-- values are the earlier ones and the new one.
pub get_end-add_choice_value :
    (c : Choice) (n : ℤ)
    → (e : ℤ) × (get_end (add_choice_value c n) ≡ some e)
      × ((v : ℤ) → has v (add_choice_value c n).values ≡ (has v c.values || same n v))
      × (has e (add_choice_value c n).values ≡ true)
      × (ceiling e (add_choice_value c n).values ≡ true)
unfolding get_end add_choice_value
get_end-add_choice_value c n =
    let (e, l, m, k) =
      highest n (sort (c.values ++ n ∷ [])) (sort-ascending (c.values ++ n ∷ []))
        (has-sort_added n n c.values ∙ ground (arith, eqb_ℤ_iff n n)) in
    (e, l, λ v. has-sort_added v n c.values, m, k)
