-- ===== src/Common/Int.antt =====
-- Go's signed integers: ℤ over the native numbers, and the conversion to `int16`, which wraps.
use fault.Common.{
  ℕ, zero, suc, ◌+◌, ◌-◌, ◌%◌, ◌<◌, ◌≡◌, ◌↔◌, Bool, true, false, arith, Key, ltb, ◌==◌,
  if◌then◌else◌,
}

-- `negsuc n` is -(n + 1).
pub data ℤ : Type 0 where
  pos : ℕ → ℤ
  negsuc : ℕ → ℤ

abbrev pub eqb_ℤ : ℤ → ℤ → Bool
eqb_ℤ (pos a) (pos b) = a == b
eqb_ℤ (negsuc a) (negsuc b) = a == b
eqb_ℤ _ _ = false

pub eqb_ℤ_iff : (a b : ℤ) → (eqb_ℤ a b ≡ true) ↔ (a ≡ b)
eqb_ℤ_iff (pos a) (pos b) = ground arith
eqb_ℤ_iff (pos a) (negsuc b) = ground arith
eqb_ℤ_iff (negsuc a) (pos b) = ground arith
eqb_ℤ_iff (negsuc a) (negsuc b) = ground arith

instance abbrev pub int_key : Key ℤ
int_key = record { same = eqb_ℤ; same_iff = eqb_ℤ_iff }

abbrev pub ltb_ℤ : ℤ → ℤ → Bool
ltb_ℤ (pos a) (pos b) = ltb a b
ltb_ℤ (pos a) (negsuc b) = false
ltb_ℤ (negsuc a) (pos b) = true
ltb_ℤ (negsuc a) (negsuc b) = ltb b a

abbrev pub suc_ℤ : ℤ → ℤ
suc_ℤ (pos n) = pos (n + 1)
suc_ℤ (negsuc zero) = pos 0
suc_ℤ (negsuc (suc n)) = negsuc n

-- `int16(i)`: the residue of `i` modulo 2^16 between -2^15 and 2^15 - 1.
abbrev pub int16 : ℤ → ℤ
int16 (pos n) = let r = n % 65536 in if ltb r 32768 then pos r else negsuc (65535 - r)
int16 (negsuc n) = let r = n % 65536 in if ltb r 32768 then negsuc r else pos (65535 - r)

-- A value that an `int16` holds.
abbrev pub IsInt16 : ℤ → Type 0
IsInt16 (pos n) = n < 32768
IsInt16 (negsuc n) = n < 32768

pub int16-IsInt16 : (i : ℤ) → IsInt16 (int16 i)
int16-IsInt16 (pos n) = ground arith
int16-IsInt16 (negsuc n) = ground arith

pub int16_of_IsInt16 : (i : ℤ) → IsInt16 i → int16 i ≡ i
int16_of_IsInt16 (pos n) h = ground arith
int16_of_IsInt16 (negsuc n) h = ground arith
