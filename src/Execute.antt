-- ===== src/Execute.antt =====
-- execute/history.go and execute/format.go: the values that a solver found, and the text shown of
-- them; `LoadMeta` of execute/execute.go and `MaxInt16` of util/util.go.
pub mod Traces
pub mod Rows
pub mod Branches
pub mod Meta
mod Tests
use fault.Common.{
  ℕ, zero, suc, ◌+◌, ◌-◌, ◌≡◌, Bool, true, false, not, List, [], ◌∷◌, ◌++◌, Option, none, some,
  if◌then◌else◌, length, last?, ◌==◌, ltb, take, drop, set, same, has,
}
use fault.Common.Text.{Text, text, text_key}
use fault.Common.Dict.{lookup, insert, erase, keys}
use fault.Common.Fallible.{◌>>=◌}
use fault.Common.Int.{ℤ, pos, negsuc, ltb_ℤ, suc_ℤ, int16, int_key}
use fault.Forks.{Choice, get_fork_end_points}

pub record Branch : Type 0 where
  pub trail : List ℤ
  pub phi : ℤ
  pub base : Text

-- `End`; `none` is the panic of the index -1.
unfoldable pub end : Branch → Option ℤ
end b = last? b.trail

unfoldable pub in_trail : Branch → ℤ → Bool
in_trail b i = has i b.trail

-- `FloatTrace`, `IntTrace` and `BoolTrace`, which differ in the type V of the values only. W is the
-- `float64` of the weights.
pub record Trace (V W : Type 0) : Type 0 where
  pub results : List (ℤ × V)
  pub weights : List (ℤ × W)

module _ {V W : Type 0} where
  unfoldable pub new_trace : Trace V W
  new_trace = record { results = []; weights = [] }

  unfoldable pub index : Trace V W → ℤ → Option V
  index t i = lookup i t.results

  unfoldable pub add : Trace V W → ℤ → V → Trace V W
  add t i v = record t { results = insert i v t.results }

  unfoldable pub add_weight : Trace V W → ℤ → W → Trace V W
  add_weight t i f = record t { weights = insert i f t.weights }

  unfoldable pub remove : Trace V W → ℤ → Trace V W
  remove t i = record { results = erase i t.results; weights = erase i t.weights }

  -- `hWToString`, by what `fmt.Sprintf` writes for a value and for a weight.
  module _ (show : V → Text) (show_weight : W → Text) where
    unfoldable pub h_w_to_string : V → ℤ → List (ℤ × W) → Text
    h_w_to_string n i weights = elim (lookup i weights) [
      | some val ↦ text "-> " ++ show n ++ text " (" ++ show_weight val ++ text ")"
      | none ↦ text "-> " ++ show n
    ]

-- The loop that appends blanks, as many as `j` has values.
unfoldable pub pad : ℕ → List Text → List Text
pad zero r = r
pad (suc n) r = pad n (r ++ [] ∷ [])

-- One pass of the loop of `generateRows`, case *FloatTrace: `j` runs from len(r)-1 to i-2. A negative
-- index is a panic.
unfoldable pub float_row : List Text → ℤ → Text → Option (List Text)
unfolding pad
float_row r (negsuc i) t = none
float_row r (pos i) t = some (
    if i == length r
    then r ++ t ∷ []
    else if ltb (length r) i
    then pad (i - length r) r ++ t ∷ []
    else take i r ++ t ∷ drop (suc i) r)

-- The same, cases *IntTrace and *BoolTrace: `j` runs from len(r)-1 to i-1.
unfoldable pub int_row : List Text → ℤ → Text → Option (List Text)
unfolding pad
int_row r (negsuc i) t = none
int_row r (pos i) t = some (
    if i == length r
    then r ++ t ∷ []
    else if ltb (length r) i
    then pad (suc i - length r) r ++ t ∷ []
    else set r i t)

module _ {V W : Type 0} (show : V → Text) (show_weight : W → Text) where
  -- The loop, by the `row` of the type of the trace.
  unfoldable pub row_loop :
      (List Text → ℤ → Text → Option (List Text))
      → List (ℤ × W)
      → List (ℤ × V)
      → List Text
      → Option (List Text)
  unfolding h_w_to_string
  row_loop row weights [] r = some r
  row_loop row weights ((i, n) ∷ m) r =
      row r i (h_w_to_string show show_weight n i weights) >>= λ r'. row_loop row weights m r'

  unfoldable pub generate_rows_float : Trace V W → Option (List Text)
  unfolding row_loop float_row
  generate_rows_float s = row_loop float_row s.weights s.results []

  unfoldable pub generate_rows_int : Trace V W → Option (List Text)
  unfolding row_loop int_row
  generate_rows_int s = row_loop int_row s.weights s.results []

-- `deadBranches`. `differ` is Go's `!=` on the values, where NaN differs from itself.
module _ {V W : Type 0} (differ : V → V → Bool) where
  -- `for k := range v.results { if b.InTrail(k) { v.Remove(k) } }`
  unfoldable pub remove_trail : Branch → List ℤ → Trace V W → Trace V W
  unfolding in_trail remove
  remove_trail b [] v = v
  remove_trail b (k ∷ ks) v = remove_trail b ks (if in_trail b k then remove v k else v)

  unfoldable pub prune : Branch → Trace V W → Option (Trace V W)
  unfolding remove_trail end index
  prune b v = end b >>= λ e. index v e >>= λ end_value. index v b.phi >>= λ phi_value.
      some (if differ end_value phi_value then remove_trail b (keys v.results) v else v)

  unfoldable pub prune_all : List Branch → Trace V W → Option (Trace V W)
  unfolding prune
  prune_all [] v = some v
  prune_all (b ∷ bs) v = prune b v >>= λ v'. prune_all bs v'

  unfoldable pub remove_phis : List Branch → Trace V W → Trace V W
  unfolding remove
  remove_phis [] v = v
  remove_phis (b ∷ bs) v = remove_phis bs (remove v b.phi)

  unfoldable pub dead_branches : List Branch → Trace V W → Option (Trace V W)
  unfolding prune_all remove_phis
  dead_branches bs v = prune_all bs v >>= λ v'. some (remove_phis bs v')

-- `MaxInt16`, which starts at 0.
unfoldable pub max_from : ℤ → List ℤ → ℤ
max_from temp [] = temp
max_from temp (i ∷ nums) = max_from (if ltb_ℤ temp i then i else temp) nums

unfoldable pub max_int16 : List ℤ → ℤ
unfolding max_from
max_int16 nums = max_from (pos 0) nums

-- `LoadMeta`.
unfoldable pub to_branches : Text → ℤ → List Choice → List Branch
to_branches k phi [] = []
to_branches k phi (v ∷ c) =
    record { trail = v.values; phi = int16 (suc_ℤ phi); base = k } ∷ to_branches k phi c

abbrev or_empty : Option (List Branch) → List Branch
or_empty none = []
or_empty (some bs) = bs

unfoldable pub load_fork :
    List (Text × List Choice) → List (Text × List Branch) → Option (List (Text × List Branch))
unfolding max_int16 to_branches
load_fork [] tree = some tree
load_fork ((k, c) ∷ f) tree = get_fork_end_points c >>= λ ends.
    load_fork f (insert k (or_empty (lookup k tree) ++ to_branches k (max_int16 ends) c) tree)

unfoldable pub load_forks :
    List (List (Text × List Choice))
    → List (Text × List Branch)
    → Option (List (Text × List Branch))
unfolding load_fork
load_forks [] tree = some tree
load_forks (f ∷ frks) tree = load_fork f tree >>= λ tree'. load_forks frks tree'

unfoldable pub load_meta : List (List (Text × List Choice)) → Option (List (Text × List Branch))
unfolding load_forks
load_meta frks = load_forks frks []
