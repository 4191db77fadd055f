-- ===== src/Common/Fallible.antt =====
-- A Go computation that may panic: `none` is the panic.
use fault.Common.{◌≡◌, refl, subst, Option, none, some, Bool, ◌&&◌, arith}
use fault.Common.Dict.{is_some}

infixl 5 ◌>>=◌ ◌>>◌
abbrev pub ◌>>=◌ {ℓ κ} : {A : Type ℓ} {B : Type κ} → Option A → (A → Option B) → Option B
none >>= f = none
some a >>= f = f a

abbrev pub ◌>>◌ {ℓ κ} : {A : Type ℓ} {B : Type κ} → Option A → Option B → Option B
m >> k = m >>= λ _. k

-- Inversion of a bind that returns.
pub >>=-eq-some {ℓ κ} :
    {A : Type ℓ} {B : Type κ} (m : Option A) (f : A → Option B) {b : B}
    → (m >>= f) ≡ some b
    → (a : A) × (m ≡ some a) × (f a ≡ some b)
>>=-eq-some (some a) f h = (a, refl, h)
>>=-eq-some none f h = cc

-- Whatever `m` returns satisfies `P`.
abbrev pub Post {ℓ κ} : {A : Type ℓ} → Option A → (A → Type κ) → Type (ℓ ⊔ κ)
Post {A} m P = (a : A) → m ≡ some a → P a

module _ {ℓ κ μ} {A : Type ℓ} {B : Type κ} {P : B → Type μ} where
  pub Post-bind :
      (m : Option A) {f : A → Option B} → ((a : A) → m ≡ some a → Post (f a) P) → Post (m >>= f) P
  Post-bind none h b e = cc
  Post-bind (some a) h b e = h a refl b e

pub Post-some {ℓ κ} : {A : Type ℓ} (P : A → Type κ) (a : A) → P a → Post (some a) P
Post-some P a p b e = subst P (cc) p

module _ {ℓ κ} {A : Type ℓ} {B : Type κ} where
  -- A chain of steps returns exactly if each of them does.
  pub is_some-bind :
      (m : Option A) (f : A → Option B) {a b : Bool}
      → is_some m ≡ a
      → ((x : A) → is_some (f x) ≡ b)
      → is_some (m >>= f) ≡ (a && b)
  is_some-bind none f h k = ground (arith, h)
  is_some-bind (some x) f h k = ground (arith, h, k x)

  pub is_some-map :
      (m : Option A) (f : A → B) {a : Bool} → is_some m ≡ a → is_some (m >>= λ x. some (f x)) ≡ a
  is_some-map none f h = h
  is_some-map (some x) f h = h
