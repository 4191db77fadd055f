-- ===== src/Reachability/Verdict.antt =====
-- What `Scan` and `check` (reachability/reachability.go) report about a syntax tree.
use mathlib.Core.Bool.{xor}
use fault.Common.{
  ◌≡◌, refl, Bool, List, [], ◌∷◌, ◌++◌, Option, none, some, true, false, arith, if◌then◌else◌,
  same_iff, same_refl, distinct, has, has-append, ◌↔◌,
}
use fault.Common.Dict.{lookup, keys, has-keys}
use fault.Common.Text.{Text, text_key}
use fault.Reachability.{Node, Tracer, unentered, check, scan, walk, new_tracer}
use fault.Reachability.Trace.{defined, entered, Traces, walk-Traces}

abbrev is_false : Option Bool → Bool
is_false (some false) = true
is_false _ = false

has-unentered :
    (id : Text) (m : List (Text × Bool))
    → distinct (keys m) ≡ true
    → has id (unentered m) ≡ is_false (lookup id m)
unfolding unentered lookup
has-unentered id [] h = refl
has-unentered id ((k, v) ∷ m) h = ground (arith, same_iff k id, has-keys k m, has-unentered id m)

-- The states that the verdict names, none if the system is accepted.
abbrev pub reported : Option (List Text) → List Text
reported none = []
reported (some missing) = missing

abbrev missing : Tracer → List Text
missing t = t.undefined ++ unentered t.graph

reported-check :
    (t : Tracer)
    → reported (let (ok, found) = check t in if ok then none else some found) ≡ missing t
unfolding check
reported-check t = ground arith

has-missing :
    {ds es : List Text} {t : Tracer} (id : Text)
    → Traces ds es t
    → has id (missing t) ≡ xor (has id ds) (has id es)
unfolding xor
has-missing {ds} {es} {t} id h = ground (
  arith,
  has-append id t.undefined (unentered t.graph),
  has-unentered id t.graph h.keys_distinct,
  h.undefined_at id,
  h.graph_at id,
)

-- `Scan` reports exactly the states that are defined and never entered, and those that are entered
-- and never defined.
pub reported-scan :
    (n : Node) (id : Text)
    → has id (reported (scan n)) ≡ xor (has id (defined n)) (has id (entered n))
unfolding scan
reported-scan n id = rw (reported-check (walk new_tracer n)) (has-missing id (walk-Traces n))

none_of_has : (xs : List Text) → ((id : Text) → has id xs ≡ false) → xs ≡ []
none_of_has [] h = refl
none_of_has (x ∷ xs) h = ground (arith, h x, same_refl x)

accepted_of_reported : (n : Node) → reported (scan n) ≡ [] → scan n ≡ none
unfolding scan check
accepted_of_reported n h = ground arith

-- `Scan` lets a system pass exactly if the states that it defines are those that it enters.
pub scan-eq-none :
    (n : Node) → (scan n ≡ none) ↔ ((id : Text) → has id (defined n) ≡ has id (entered n))
unfolding xor
scan-eq-none n = (
  λ e id. ground (arith, e, reported-scan n id),
  λ same_sets.
      accepted_of_reported n
        (none_of_has (reported (scan n)) λ id. ground (arith, same_sets id, reported-scan n id)),
)
