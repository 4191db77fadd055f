-- ===== src/Types/Scope.antt =====
-- The base of `calculateBase` in types/types.go, against the fraction that its digits spell.
use fault.Common.{
  ℕ, zero, suc, ◌+◌, ◌-◌, ◌*◌, ◌^◌, ◌%◌, ◌≤◌, ◌≡◌, ◌≢◌, ◌⊎◌, inl, inr, refl, ap, subst, sym, false,
  true, ◌∙◌, [], ◌∷◌, Option, some, none, All, Bool-cases, Option-cases, get_elem?, length, ◌==◌,
  arith,
}
use fault.Common.Text.{Text}
use fault.Common.Int.{ℤ, pos}
use fault.Types.Checker.{base_from, calculate_base, int32_pow10}
use native.Mathlib.Nat.{mul_assoc, pow-suc}

abbrev digit_of : Option ℕ → ℕ
digit_of none = 0
digit_of (some r) = r - b'0'

-- The number that the first `i` digits spell.
abbrev pub value : ℕ → Text → ℕ
value zero s = 0
value (suc i) s = value i s * 10 + digit_of (get_elem? s i)

abbrev pub IsDigit : ℕ → Type 0
IsDigit r = (48 ≤ r) × (r ≤ 57)

some-inj : {x r : ℕ} → some x ≡ some r → x ≡ r
some-inj p = cc

zero_digit : (x : ℕ) → IsDigit x → digit_of (some x) ≡ 0 → (x == 48) ≡ true
zero_digit x h p = ground (arith, h, p)

nonzero_digit : (x : ℕ) → digit_of (some x) ≢ 0 → (x == 48) ≡ false
nonzero_digit x h = ground (arith, h)

small : (x : ℕ) → IsDigit x → digit_of (some x) ≤ 9
small x h = ground (arith, h)

All-get_elem? : (s : Text) (i r : ℕ) → All IsDigit s → get_elem? s i ≡ some r → IsDigit r
All-get_elem? [] i r h p = cc
All-get_elem? (x ∷ xs) zero r h p = subst IsDigit (some-inj p) h.0
All-get_elem? (x ∷ xs) (suc i) r h p = All-get_elem? xs i r h.1 p

-- The first `i` digits, as a fraction, times `10 ^ p` are the whole number `q`, and no lower power of
-- ten makes them one.
record Least (s : Text) (i : ℕ) (base : ℤ) : Type 0 where
  p : ℕ
  q : ℕ
  r : ℕ
  base_eq : base ≡ pos (10 ^ p)
  parts : p + r ≡ i
  whole : value i s ≡ q * 10 ^ r
  lowest : (p ≡ 0) ⊎ (q % 10 ≢ 0)

base_from-skip :
    (wide : ℕ → ℤ) (i : ℕ) (s : Text)
    → digit_of (get_elem? s i) ≡ 0
    → All IsDigit s
    → base_from wide (suc i) s ≡ base_from wide i s
unfolding base_from
base_from-skip wide i s d h = elim (Option-cases (get_elem? s i)) [
  | inl n ↦ rw (n, base_from) refl
  | inr (x, e) ↦
      rw (e, base_from) rw (zero_digit x (All-get_elem? s i x h e) (ap digit_of (sym e) ∙ d)) refl
]

int32_pow10_fits : (wide : ℕ → ℤ) (n : ℕ) → n ≤ 9 → int32_pow10 wide n ≡ pos (10 ^ n)
int32_pow10_fits wide n h = ground arith

base_from-stop :
    (wide : ℕ → ℤ) (i : ℕ) (s : Text)
    → suc i ≤ 9
    → digit_of (get_elem? s i) ≢ 0
    → base_from wide (suc i) s ≡ pos (10 ^ suc i)
unfolding base_from
base_from-stop wide i s b d = elim (Option-cases (get_elem? s i)) [
  | inl n ↦ absurd (d (ap digit_of n))
  | inr (x, e) ↦
      rw (e, base_from) rw (nonzero_digit x (λ z. d (ap digit_of e ∙ z)))
        (int32_pow10_fits wide (suc i) b)
]

shifted : (v q r d : ℕ) → v ≡ q * 10 ^ r → d ≡ 0 → v * 10 + d ≡ q * 10 ^ suc r
shifted v q r d h z =
    ap (λ w. w * 10 + d) h
    ∙ ground (arith, z)
    ∙ mul_assoc q (10 ^ r) 10
    ∙ ap (λ w. q * w) (sym (pow-suc 10 r))

digit_small : (i : ℕ) (s : Text) → All IsDigit s → digit_of (get_elem? s i) ≤ 9
digit_small i s h = elim (Option-cases (get_elem? s i)) [
  | inl n ↦ rw n (omega arith)
  | inr (x, e) ↦ rw e (small x (All-get_elem? s i x h e))
]

digit_nonzero : {d : ℕ} → (d == 0) ≡ false → d ≢ 0
digit_nonzero h e = ground (arith, h, e)

base_from-Least :
    (wide : ℕ → ℤ) (i : ℕ) (s : Text) → i ≤ 9 → All IsDigit s → Least s i (base_from wide i s)
unfolding base_from
base_from-Least wide zero s b h = record {
  p = 0;
  q = 0;
  r = 0;
  base_eq = refl;
  parts = refl;
  whole = refl;
  lowest = inl refl;
}
base_from-Least wide (suc i) s b h =
    let l = base_from-Least wide i s (omega arith) h in
    elim (Bool-cases (digit_of (get_elem? s i) == 0)) [
      | inl z ↦ record {
        p = l.p;
        q = l.q;
        r = suc l.r;
        base_eq = base_from-skip wide i s (ground (arith, z)) h ∙ l.base_eq;
        parts = omega (arith, l.parts);
        whole = shifted (value i s) l.q l.r (digit_of (get_elem? s i)) l.whole (ground (arith, z));
        lowest = l.lowest;
      }
      | inr z ↦ record {
        p = suc i;
        q = value (suc i) s;
        r = 0;
        base_eq = base_from-stop wide i s b (ground (arith, z));
        parts = omega arith;
        whole = omega arith;
        lowest = inr (λ e. omega (arith, e, digit_small i s h, digit_nonzero z));
      }
    ]

-- On at most nine digits, whatever an int32 conversion gives above its range, the base of
-- `calculateBase` is the power `10 ^ p` with the least `p` at which the fraction that the digits spell,
-- times the base, is a whole number `q`; `p` is at most the number of the digits.
pub calculate_base-least :
    (wide : ℕ → ℤ) (s : Text)
    → length s ≤ 9
    → All IsDigit s
    → (p : ℕ) × (q : ℕ) × (r : ℕ) × (calculate_base wide s ≡ pos (10 ^ p))
      × (p + r ≡ length s)
      × (value (length s) s ≡ q * 10 ^ r)
      × ((p ≡ 0) ⊎ (q % 10 ≢ 0))
unfolding calculate_base
calculate_base-least wide s b h =
    let l = base_from-Least wide (length s) s b h in
    (l.p, l.q, l.r, l.base_eq, l.parts, l.whole, l.lowest)
