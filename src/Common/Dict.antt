-- ===== src/Common/Dict.antt =====
-- A Go map as an association list. The order of the list is the order in which one `range` over the
-- map visits it, which Go leaves open: no statement about the program may depend on it.
use fault.Common.{
  ◌≡◌, refl, ◌||◌, Bool, true, false, List, [], ◌∷◌, Option, none, some, arith, Key, same, same_iff,
  if◌then◌else◌, has, distinct,
}

abbrev pub is_some {ℓ} : {A : Type ℓ} → Option A → Bool
is_some none = false
is_some (some _) = true

pub of_some {ℓ} : {A : Type ℓ} (o : Option A) → is_some o ≡ true → (a : A) × (o ≡ some a)
of_some (some a) h = (a, refl)
of_some none h = cc

abbrev pub keys {ℓ κ} : {K : Type ℓ} {V : Type κ} → List (K × V) → List K
keys [] = []
keys ((k, v) ∷ m) = k ∷ keys m

module _ {ℓ κ} {K : Type ℓ} {V : Type κ} ⦃e : Key K⦄ where
  -- `v, ok := m[k]`
  unfoldable pub lookup : K → List (K × V) → Option V
  lookup k [] = none
  lookup k ((j, v) ∷ m) = if same j k then some v else lookup k m

  -- `m[k] = v`
  unfoldable pub insert : K → V → List (K × V) → List (K × V)
  insert k v [] = (k, v) ∷ []
  insert k v ((j, w) ∷ m) = if same j k then (j, v) ∷ m else (j, w) ∷ insert k v m

  -- `delete(m, k)`
  unfoldable pub erase : K → List (K × V) → List (K × V)
  erase k [] = []
  erase k ((j, w) ∷ m) = if same j k then erase k m else (j, w) ∷ erase k m

  pub lookup-insert :
      (k j : K) (v : V) (m : List (K × V))
      → lookup j (insert k v m) ≡ (if same k j then some v else lookup j m)
  unfolding lookup insert
  lookup-insert k j v [] = refl
  lookup-insert k j v ((i, w) ∷ m) =
      ground (arith, same_iff k j, same_iff i k, same_iff i j, lookup-insert k j v m)

  pub lookup-erase :
      (k j : K) (m : List (K × V)) → lookup j (erase k m) ≡ (if same k j then none else lookup j m)
  unfolding lookup erase
  lookup-erase k j [] = ground arith
  lookup-erase k j ((i, w) ∷ m) =
      ground (arith, same_iff k j, same_iff i k, same_iff i j, lookup-erase k j m)

  -- A key is visited exactly if a lookup finds it.
  pub has-keys : (k : K) (m : List (K × V)) → has k (keys m) ≡ is_some (lookup k m)
  unfolding lookup
  has-keys k [] = refl
  has-keys k ((j, v) ∷ m) = ground (arith, has-keys k m)

  pub has-keys-insert :
      (k j : K) (v : V) (m : List (K × V))
      → has j (keys (insert k v m)) ≡ (same k j || has j (keys m))
  unfolding insert
  has-keys-insert k j v [] = refl
  has-keys-insert k j v ((i, w) ∷ m) =
      ground (arith, same_iff k j, same_iff i k, same_iff i j, has-keys-insert k j v m)

  -- A write keeps the keys distinct.
  pub distinct-insert :
      (k : K) (v : V) (m : List (K × V))
      → distinct (keys m) ≡ true
      → distinct (keys (insert k v m)) ≡ true
  unfolding insert
  distinct-insert k v [] h = refl
  distinct-insert k v ((i, w) ∷ m) h =
      ground (arith, same_iff i k, same_iff k i, has-keys-insert k i v m, distinct-insert k v m)

  -- A write to a key that is there keeps the keys and their order.
  pub keys-insert :
      (k : K) (v : V) (m : List (K × V))
      → is_some (lookup k m) ≡ true
      → keys (insert k v m) ≡ keys m
  unfolding lookup insert
  keys-insert k v [] h = cc
  keys-insert k v ((j, w) ∷ m) h = ground (arith, keys-insert k v m)
