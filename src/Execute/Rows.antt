-- ===== src/Execute/Rows.antt =====
-- `generateRows` of execute/format.go: the row of texts of a trace, in whatever order its map is
-- visited.
use fault.Common.{
  ◌⊎◌, inl, inr, ℕ, zero, suc, ◌+◌, ◌-◌, ◌<◌, ◌≤◌, ◌≡◌, refl, ◌∙◌, ap, Bool, true, false, List, [],
  ◌∷◌, ◌++◌, none, some, arith, if◌then◌else◌, length, length-append, ◌==◌, ltb, take, drop, set,
  length-set, distinct,
}
use fault.Common.Text.{Text, text_key}
use fault.Common.Dict.{lookup, keys, has-keys}
use fault.Common.Int.{ℤ, pos, negsuc, int_key}
use fault.Execute.{Trace, pad, float_row, int_row, h_w_to_string, row_loop, generate_rows_float}

-- The text at a position; behind the end nothing is shown.
abbrev pub cell : List Text → ℕ → Text
cell [] j = []
cell (t ∷ r) zero = t
cell (t ∷ r) (suc j) = cell r j

abbrev pub max_nat : ℕ → ℕ → ℕ
max_nat a b = if ltb a b then b else a

pub cell_past : (r : List Text) (j : ℕ) → length r ≤ j → cell r j ≡ []
cell_past [] j h = refl
cell_past (t ∷ r) zero h = ground arith
cell_past (t ∷ r) (suc j) h = cell_past r j (omega arith)

cell-append :
    (r : List Text) (t : Text) (j : ℕ)
    → cell (r ++ t ∷ []) j ≡ (if length r == j then t else cell r j)
cell-append [] t zero = refl
cell-append [] t (suc j) = ground arith
cell-append (u ∷ r) t zero = ground arith
cell-append (u ∷ r) t (suc j) = ground (arith, cell-append r t j)

length-pad : (n : ℕ) (r : List Text) → length (pad n r) ≡ n + length r
unfolding pad
length-pad zero r = omega arith
length-pad (suc n) r = omega (arith, length-pad n (r ++ [] ∷ []), length-append r ([] ∷ []))

cell-pad : (n : ℕ) (r : List Text) (j : ℕ) → cell (pad n r) j ≡ cell r j
unfolding pad
cell-pad zero r j = refl
cell-pad (suc n) r j =
    cell-pad n (r ++ [] ∷ []) j ∙ ground (arith, cell-append r [] j, cell_past r j)

-- The element at a position is replaced by cutting the slice around it.
take-drop-set :
    (r : List Text) (i : ℕ) (t : Text) → i < length r → take i r ++ t ∷ drop (suc i) r ≡ set r i t
take-drop-set [] i t h = ground arith
take-drop-set (u ∷ r) zero t h = refl
take-drop-set (u ∷ r) (suc i) t h = ap (λ x. u ∷ x) (take-drop-set r i t (omega arith))

cell-set :
    (r : List Text) (i : ℕ) (t : Text) (j : ℕ)
    → i < length r
    → cell (set r i t) j ≡ (if i == j then t else cell r j)
cell-set [] i t j h = ground arith
cell-set (u ∷ r) zero t zero h = refl
cell-set (u ∷ r) zero t (suc j) h = ground arith
cell-set (u ∷ r) (suc i) t zero h = ground arith
cell-set (u ∷ r) (suc i) t (suc j) h = ground (arith, cell-set r i t j (omega arith))

three_cases : (i n : ℕ) → (i ≡ n) ⊎ (n < i) ⊎ (i < n)
three_cases i n = ground arith

-- A row `r'` that has the text `t` at `i`, is else as `r`, and is no longer than that asks for.
abbrev Placed : List Text → ℕ → Text → List Text → Type 0
Placed r i t r' =
    (length r' ≡ max_nat (length r) (suc i))
    × ((j : ℕ) → cell r' j ≡ (if i == j then t else cell r j))

pub append-Placed : (r : List Text) (i : ℕ) (t : Text) → i ≡ length r → Placed r i t (r ++ t ∷ [])
append-Placed r i t h =
    (ground (arith, length-append r (t ∷ [])), λ j. ground (arith, cell-append r t j))

pub pad-Placed :
    (r : List Text) (i : ℕ) (t : Text)
    → length r < i
    → Placed r i t (pad (i - length r) r ++ t ∷ [])
pad-Placed r i t h = (
  ground (arith, length-append (pad (i - length r) r) (t ∷ []), length-pad (i - length r) r),
  λ j. ground (
    arith,
    cell-append (pad (i - length r) r) t j,
    length-pad (i - length r) r,
    cell-pad (i - length r) r j,
  ),
)

pub set-Placed : (r : List Text) (i : ℕ) (t : Text) → i < length r → Placed r i t (set r i t)
set-Placed r i t h = (ground (arith, length-set r i t), λ j. cell-set r i t j h)

-- A pass of the loop on a `FloatTrace`.
float_row_lem :
    (r : List Text) (i : ℕ) (t : Text)
    → (r' : List Text) × (float_row r (pos i) t ≡ some r') × Placed r i t r'
unfolding float_row
float_row_lem r i t = elim (three_cases i (length r)) [
  | inl e ↦ (r ++ t ∷ [], ground arith, append-Placed r i t e)
  | inr (inl h) ↦ (pad (i - length r) r ++ t ∷ [], ground arith, pad-Placed r i t h)
  | inr (inr h) ↦ (set r i t, ground (arith, take-drop-set r i t h), set-Placed r i t h)
]

abbrev pub natural_keys {ℓ} : {V : Type ℓ} → List (ℤ × V) → Bool
natural_keys [] = true
natural_keys ((pos i, v) ∷ m) = natural_keys m
natural_keys ((negsuc i, v) ∷ m) = false

-- One more than the highest index.
abbrev pub height {ℓ} : {V : Type ℓ} → List (ℤ × V) → ℕ
height [] = 0
height ((pos i, v) ∷ m) = max_nat (suc i) (height m)
height ((negsuc i, v) ∷ m) = height m

module _ {V W : Type 0} (show : V → Text) (show_weight : W → Text) where
  -- The text of the index `j`, by the results `m` and a row.
  abbrev pub shown : List (ℤ × W) → List (ℤ × V) → List Text → ℕ → Text
  shown weights m r j = elim (lookup (pos j) m) [
    | some n ↦ h_w_to_string show show_weight n (pos j) weights
    | none ↦ cell r j
  ]

  float_loop :
      (weights : List (ℤ × W)) (m : List (ℤ × V)) (r : List Text)
      → natural_keys m ≡ true
      → distinct (keys m) ≡ true
      → (r' : List Text) × (row_loop show show_weight float_row weights m r ≡ some r')
        × (length r' ≡ max_nat (length r) (height m))
        × ((j : ℕ) → cell r' j ≡ shown weights m r j)
  unfolding row_loop lookup
  float_loop weights [] r n d = (r, refl, ground arith, λ j. refl)
  float_loop weights ((negsuc i, v) ∷ m) r n d = ground arith
  float_loop weights ((pos i, v) ∷ m) r n d =
      let (r1, e1, (l1, c1)) =
        float_row_lem r i (h_w_to_string show show_weight v (pos i) weights) in
      let (r2, e2, l2, c2) = float_loop weights m r1 n (ground arith) in
      (r2, rw e1 e2, ground (arith, l1, l2), λ j. ground (arith, c1 j, c2 j, has-keys (pos i) m))

  -- For a `FloatTrace` each of whose indices is natural and stands in its map once, `generateRows` does
  -- not panic, and its row has one text for each index up to the highest: the text of its value, or
  -- nothing if the trace has none there.
  pub generate_rows_float-shown :
      (s : Trace V W)
      → natural_keys s.results ≡ true
      → distinct (keys s.results) ≡ true
      → (r : List Text) × (generate_rows_float show show_weight s ≡ some r)
        × (length r ≡ height s.results)
        × ((j : ℕ) → cell r j ≡ shown s.weights s.results [] j)
  unfolding generate_rows_float
  generate_rows_float-shown s n d =
      let (r, e, l, c) = float_loop s.weights s.results [] n d in (r, e, ground (arith, l), c)

-- A pass of the loop on an `IntTrace` or a `BoolTrace` whose index is behind the end of the row puts
-- the text one place too far, and nothing at its index.
pub int_row_late :
    (r : List Text) (i : ℕ) (t : Text)
    → length r < i
    → (r' : List Text) × (int_row r (pos i) t ≡ some r')
      × (length r' ≡ suc (suc i))
      × (cell r' i ≡ [])
      × (cell r' (suc i) ≡ t)
unfolding int_row
int_row_late r i t h = (
  pad (suc i - length r) r ++ t ∷ [],
  ground arith,
  ground
      (arith, length-append (pad (suc i - length r) r) (t ∷ []), length-pad (suc i - length r) r),
  ground (
    arith,
    cell-append (pad (suc i - length r) r) t i,
    length-pad (suc i - length r) r,
    cell-pad (suc i - length r) r i,
    cell_past r i,
  ),
  ground (arith, cell-append (pad (suc i - length r) r) t (suc i), length-pad (suc i - length r) r),
)
