-- ===== src/Variables/Phis.antt =====
-- The branch stacks of smt/variables/variables.go: `NewPhi`, `PopPhi` and what is built on them. A
-- stack holds, for each open branch, the numbers that the variable had in it, the first one first.
use fault.Common.{List, [], ◌∷◌, ◌++◌, Option, none, some, if◌then◌else◌, last?, init}
use fault.Common.Dict.{lookup, insert, keys}
use fault.Common.Int.{ℤ, pos, negsuc, eqb_ℤ}
use fault.Common.Text.{Text, text_key}
use fault.Common.Fallible.{◌>>=◌}

-- The field `Phis` of `VarData`, the only one that these methods use.
abbrev pub Phis : Type 0
Phis = List (Text × List (List ℤ))

-- The panics are on a stack, or on a branch, with nothing in it.
unfoldable pub get_last_state : Phis → Text → Option ℤ
get_last_state vd id = elim (lookup id vd) [
  | none ↦ some (pos 0)
  | some p ↦ (last? p >>= λ last. last? last)
]

head? : List ℤ → Option ℤ
head? [] = none
head? (x ∷ xs) = some x

unfoldable pub get_start_state : Phis → Text → Option ℤ
unfolding head?
get_start_state vd id = elim (lookup id vd) [
  | none ↦ some (pos 0)
  | some p ↦ (last? p >>= λ last. head? last)
]

-- A first branch starts at 0 whatever `start` is; after that -1 stands for the last state.
unfoldable pub new_phi : Phis → Text → ℤ → Option Phis
unfolding get_last_state
new_phi vd id start = elim (lookup id vd) [
  | none ↦ some (insert id ((pos 0 ∷ []) ∷ []) vd)
  | some p ↦
      if eqb_ℤ start (negsuc 0)
      then (get_last_state vd id >>= λ last. some (insert id (p ++ (last ∷ []) ∷ []) vd))
      else some (insert id (p ++ (start ∷ []) ∷ []) vd)
]

unfoldable pub pop_phi : Phis → Text → Option Phis
pop_phi vd id = elim (lookup id vd) [
  | none ↦ some vd
  | some [] ↦ none
  | some (b ∷ p) ↦ some (insert id (init (b ∷ p)) vd)
]

unfoldable pub store_last_state : Phis → Text → ℤ → Option Phis
unfolding new_phi
store_last_state vd id n = elim (lookup id vd) [
  | none ↦ new_phi vd id (pos 0)
  | some p ↦ (last? p >>= λ last. some (insert id (init p ++ (last ++ n ∷ []) ∷ []) vd))
]

-- `for k := range vd.Phis`: the bodies write existing keys only, so the keys of the start are visited.
unfoldable pub each : (Phis → Text → Option Phis) → List Text → Phis → Option Phis
each f [] vd = some vd
each f (k ∷ ks) vd = f vd k >>= λ vd'. each f ks vd'

unfoldable pub init_phis : Phis → Option Phis
unfolding each new_phi
init_phis vd = each (λ vd k. new_phi vd k (negsuc 0)) (keys vd) vd

unfoldable pub pop_phis : Phis → Option Phis
unfolding each pop_phi
pop_phis vd = each pop_phi (keys vd) vd

save_from : Phis → List Text → Option (List (Text × ℤ))
unfolding get_start_state
save_from vd [] = some []
save_from vd (k ∷ ks) =
    get_start_state vd k >>= λ start. save_from vd ks >>= λ rest. some ((k, start) ∷ rest)

unfoldable pub save_state : Phis → Option (List (Text × ℤ))
unfolding save_from
save_state vd = save_from vd (keys vd)

unfoldable pub load_state : Phis → List (Text × ℤ) → Option Phis
unfolding new_phi
load_state vd [] = some vd
load_state vd ((k, i) ∷ state) = new_phi vd k i >>= λ vd'. load_state vd' state

unfoldable pub append_state : Phis → List (Text × ℤ) → Option Phis
unfolding store_last_state
append_state vd [] = some vd
append_state vd ((k, i) ∷ state) = store_last_state vd k i >>= λ vd'. append_state vd' state
