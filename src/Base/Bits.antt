-- ===== src/Base/Bits.antt =====
-- `&` with a mask of low bits, and `|` of fields that do not overlap, as arithmetic. The native
-- operations are recursions on binary digits with the first operand as fuel; here one digit is
-- split off at a time.
use Prim.Native.Nat.{ℕ, zero, suc, ◌+◌, ◌-◌, ◌*◌, ◌/◌, ◌%◌, ◌^◌, ◌≤◌, ◌<◌, min, max}
use Prim.Native.Nat.{
  digits, bitwise, differ, bit_and, bit_or, bit_xor, bit_and-bitwise, bit_or-bitwise,
  bit_xor-bitwise,
}
use mathlib.Core.Path.{◌≡◌, refl, ap, sym}
use native.Mathlib.Nat.{pow-suc, one-le-pow, div-div-eq-div-mul, zero-add, suc-add, mul_right_comm}
use native.Mathlib.Omega.{arith}

module _ (rest : ℕ → ℕ) (op : ℕ → ℕ → ℕ) where
  -- Any two amounts of fuel that cover the first operand agree.
  digits_fuel : (k l a b : ℕ) → a ≤ k → a ≤ l → digits rest op k a b ≡ digits rest op l a b
  digits_fuel zero zero a b p q = refl
  digits_fuel zero (suc l) zero b p q = refl
  digits_fuel zero (suc l) (suc a) b p q = absurd (omega arith)
  digits_fuel (suc k) zero zero b p q = refl
  digits_fuel (suc k) zero (suc a) b p q = absurd (omega arith)
  digits_fuel (suc k) (suc l) zero b p q = refl
  digits_fuel (suc k) (suc l) (suc a) b p q =
      omega (arith, digits_fuel k l (suc a / 2) (b / 2) (omega arith) (omega arith))

  bitwise-suc :
      (a b : ℕ)
      → bitwise rest op (suc a) b ≡ bitwise rest op (suc a / 2) (b / 2) * 2 + op (suc a % 2) (b % 2)
  bitwise-suc a b =
      omega (arith, digits_fuel a (suc a / 2) (suc a / 2) (b / 2) (omega arith) (omega arith))

and_digit : (a b : ℕ) → bit_and a b ≡ bit_and (a / 2) (b / 2) * 2 + min (a % 2) (b % 2)
and_digit zero b = simp bit_and-bitwise (omega arith)
and_digit (suc a) b = simp bit_and-bitwise (bitwise-suc (λ t. 0) min a b)

or_digit : (a b : ℕ) → bit_or a b ≡ bit_or (a / 2) (b / 2) * 2 + max (a % 2) (b % 2)
or_digit zero b = simp bit_or-bitwise (omega arith)
or_digit (suc a) b = simp bit_or-bitwise (bitwise-suc (λ t. t) max a b)

and_zero : (fuel a : ℕ) → a ≤ fuel → bit_and a 0 ≡ 0
and_zero fuel zero h = refl
and_zero zero (suc a) h = absurd (omega arith)
and_zero (suc fuel) (suc a) h =
    omega (arith, and_digit (suc a) 0, and_zero fuel (suc a / 2) (omega arith))

or_zero : (fuel a : ℕ) → a ≤ fuel → bit_or a 0 ≡ a
or_zero fuel zero h = refl
or_zero zero (suc a) h = absurd (omega arith)
or_zero (suc fuel) (suc a) h =
    omega (arith, or_digit (suc a) 0, or_zero fuel (suc a / 2) (omega arith))

double_pow : (q k : ℕ) → q * 2 ^ suc k ≡ 2 * (q * 2 ^ k)
double_pow q k = omega (arith, ap (λ (t : ℕ). q * t) (pow-suc 2 k))

-- `(q << k) | r` adds a field `r` of `k` bits.
pub bit_or_field : (k q r : ℕ) → r < 2 ^ k → bit_or (q * 2 ^ k) r ≡ q * 2 ^ k + r
bit_or_field zero q r fits = ground (arith, or_zero q q (omega arith))
bit_or_field (suc k) q r fits = ground (
  arith,
  or_digit (q * 2 ^ suc k) r,
  double_pow q k,
  pow-suc 2 k,
  bit_or_field k q (r / 2) (omega (arith, pow-suc 2 k)),
)

and_field : (k q r : ℕ) → r < 2 ^ k → bit_and (q * 2 ^ k + r) (2 ^ k - 1) ≡ r
and_field zero q r fits = rw (and_zero (q * 2 ^ 0 + r) (q * 2 ^ 0 + r) (omega arith)) (omega arith)
and_field (suc k) q r fits = ground (
  arith,
  and_digit (q * 2 ^ suc k + r) (2 ^ suc k - 1),
  double_pow q k,
  pow-suc 2 k,
  one-le-pow k 2,
  and_field k q (r / 2) (omega (arith, pow-suc 2 k)),
)

-- `x & (2^k - 1)` is the remainder by `2^k`.
pub bit_and_mask : (k a : ℕ) → bit_and a (2 ^ k - 1) ≡ a % 2 ^ k
bit_and_mask k a = ground (arith, one-le-pow k 2, and_field k (a / 2 ^ k) (a % 2 ^ k))

zero_or : (b : ℕ) → bit_or 0 b ≡ b
zero_or b = simp bit_or-bitwise

-- The field above may also come second.
pub bit_or_high : (k q r : ℕ) → r < 2 ^ k → bit_or r (q * 2 ^ k) ≡ q * 2 ^ k + r
bit_or_high zero q r fits = let e : r ≡ 0 = omega arith in rw e (omega (arith, zero_or (q * 2 ^ 0)))
bit_or_high (suc k) q r fits = ground (
  arith,
  or_digit r (q * 2 ^ suc k),
  double_pow q k,
  pow-suc 2 k,
  bit_or_high k q (r / 2) (omega (arith, pow-suc 2 k)),
)

xor_digit : (a b : ℕ) → bit_xor a b ≡ bit_xor (a / 2) (b / 2) * 2 + differ (a % 2) (b % 2)
xor_digit zero b = simp bit_xor-bitwise (ground arith)
xor_digit (suc a) b = simp bit_xor-bitwise (bitwise-suc (λ t. t) differ a b)

differ_0 : (r : ℕ) → differ r 0 ≡ r
differ_0 zero = refl
differ_0 (suc r) = refl

differ_1 : (r : ℕ) → r < 2 → differ r 1 ≡ 1 - r
differ_1 zero h = refl
differ_1 (suc zero) h = refl
differ_1 (suc (suc r)) h = absurd (omega arith)

xor_zero : (fuel a : ℕ) → a ≤ fuel → bit_xor a 0 ≡ a
xor_zero fuel zero h = refl
xor_zero zero (suc a) h = absurd (omega arith)
xor_zero (suc fuel) (suc a) h =
    ground
      (arith, xor_digit (suc a) 0, differ_0 (suc a % 2), xor_zero fuel (suc a / 2) (omega arith))

-- `x ^ 1` is the other one of the pair of numbers that differ in the last bit.
pub bit_xor_one : (a : ℕ) → bit_xor a 1 ≡ 2 * (a / 2) + (1 - a % 2)
bit_xor_one a =
    ground
      (arith, xor_digit a 1, differ_1 (a % 2) (omega arith), xor_zero (a / 2) (a / 2) (omega arith))

pub bit_and_one : (a : ℕ) → bit_and a 1 ≡ a % 2
bit_and_one a = bit_and_mask 1 a

pub half_pow : (a h : ℕ) → a / 2 ^ (h + 1) ≡ a / 2 ^ h / 2
half_pow a h =
    let next : h + 1 ≡ suc h = omega arith in
    rw (next, pow-suc 2 h) (sym (div-div-eq-div-mul a (2 ^ h) 2))

pub pow_over : (t h : ℕ) → 2 ^ (t + h) ≡ 2 ^ t * 2 ^ h
pow_over zero h = rw (zero-add) (omega arith)
pow_over (suc t) h =
    rw (suc-add, pow-suc 2 (t + h), pow-suc 2 t, pow_over t h) (mul_right_comm (2 ^ t) (2 ^ h) 2)
