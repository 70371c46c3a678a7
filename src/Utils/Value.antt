-- ===== src/Utils/Value.antt =====
-- The number that a big-endian byte string stands for, and what the loops of utils.c make of it.
use xmss_reference.Base.{
  ℕ, zero, suc, ◌+◌, ◌*◌, ◌/◌, ◌%◌, ◌^◌, ◌≤◌, ◌<◌, ◌≡◌, refl, ap, ap₂, ◌∙◌, arith,
}
use xmss_reference.Base.{
  List, [], ◌∷◌, ◌++◌, length, All, IsByte, bit_and, bit_or, u64, bit_and_mask,
}
use xmss_reference.Base.{bit_or_field}
use xmss_reference.Utils.{ull_to_bytes_loop, bytes_to_ull_loop}
use native.Mathlib.Nat.{pow-suc, one-le-pow, pow-le-pow_right, div-add-mod, mod-eq_of_lt}
use native.Mathlib.Nat.{mul-add-mod_self_left, mul-le-mul_right, mod-lt, mod-one, mul_comm}
use native.Mathlib.Numerals.{towards_suc}

abbrev pub be_value : List ℕ → ℕ
be_value [] = 0
be_value (b ∷ bs) = b * 256 ^ length bs + be_value bs

pow_add_eight : (s : ℕ) → 2 ^ (s + 8) ≡ 256 * 2 ^ s
pow_add_eight s = simp towards_suc (omega arith)

pub pow_256 : (k : ℕ) → 2 ^ (8 * k) ≡ 256 ^ k
pow_256 zero = refl
pow_256 (suc k) =
    let e : 8 * suc k ≡ 8 * k + 8 = omega arith in
    rw e (omega (arith, pow_add_eight (8 * k), pow_256 k, pow-suc 256 k))

pub mod_256 : (x m : ℕ) → 0 < m → x % (256 * m) ≡ 256 * (x / 256 % m) + x % 256
mod_256 x m h =
    ap (λ t. t % (256 * m)) split
    ∙ mul-add-mod_self_left (256 * m) (x / 256 / m) low
    ∙ mod-eq_of_lt low_lt
  where
    low : ℕ
    low = 256 * (x / 256 % m) + x % 256

    low_lt : low < 256 * m
    low_lt = omega (arith, mod-lt (x / 256) h)

    split : x ≡ 256 * m * (x / 256 / m) + low
    split = omega (arith, ap (λ (t : ℕ). 256 * t) (div-add-mod (x / 256) m), div-add-mod x 256)

le_of_byte : (b : ℕ) → IsByte b → b ≤ 255
le_of_byte b h = omega arith

-- A byte string stands for a number below `256 ^ length`.
pub be_value-lt : (bs : List ℕ) → All IsByte bs → be_value bs < 256 ^ length bs
be_value-lt [] h = omega arith
be_value-lt (b ∷ bs) (hb, hbs) = omega (
  arith,
  be_value-lt bs hbs,
  pow-suc 256 (length bs),
  mul-le-mul_right (256 ^ length bs) (le_of_byte b hb),
)

head_eq : (x y u v m : ℕ) → u < m → v < m → x * m + u ≡ y * m + v → (x ≡ y) × (u ≡ v)
head_eq x y u v m hu hv e = (xy, omega (arith, ap (λ (t : ℕ). t * m) xy))
  where
    xy : x ≡ y
    xy = grind arith

pub be_value_inj :
    (xs ys : List ℕ)
    → length xs ≡ length ys
    → All IsByte xs
    → All IsByte ys
    → be_value xs ≡ be_value ys
    → xs ≡ ys
be_value_inj [] [] l hx hy e = refl
be_value_inj [] (y ∷ ys) l hx hy e = absurd (omega arith)
be_value_inj (x ∷ xs) [] l hx hy e = absurd (omega arith)
be_value_inj (x ∷ xs) (y ∷ ys) l (hx, hxs) (hy, hys) e =
    let same_length : length xs ≡ length ys = omega arith in
    let heads =
      head_eq x y (be_value xs) (be_value ys) (256 ^ length ys)
        (rw same_length at (be_value-lt xs hxs)) (be_value-lt ys hys) (rw same_length at e) in
    ap₂ ◌∷◌ heads.0 (be_value_inj xs ys same_length hxs hys heads.1)

pub ull_to_bytes_loop-be_value :
    (i x : ℕ) (tail : List ℕ)
    → be_value (ull_to_bytes_loop i x tail) ≡ x % 256 ^ i * 256 ^ length tail + be_value tail
unfolding ull_to_bytes_loop
ull_to_bytes_loop-be_value zero x tail =
    omega (arith, ap (λ (t : ℕ). t * 256 ^ length tail) (mod-one x))
ull_to_bytes_loop-be_value (suc i) x tail =
    let ih : be_value (ull_to_bytes_loop (suc i) x tail)
        ≡ high * 256 ^ suc (length tail) + (bit_and x 0xff * 256 ^ length tail + be_value tail) =
      ull_to_bytes_loop-be_value i (x / 256) (bit_and x 0xff ∷ tail) in
    omega (arith, ih, ap (λ (t : ℕ). high * t) (pow-suc 256 (length tail)), times mask, times last)
  where
    high : ℕ
    high = x / 256 % 256 ^ i

    times : {a b : ℕ} → a ≡ b → a * 256 ^ length tail ≡ b * 256 ^ length tail
    times e = ap (λ (t : ℕ). t * 256 ^ length tail) e

    mask : bit_and x 0xff ≡ x % 256
    mask = bit_and_mask 8 x

    last : x % 256 ^ suc i ≡ 256 * high + x % 256
    last =
        ap (λ t. x % t) (pow-suc 256 i ∙ mul_comm (256 ^ i) 256)
        ∙ mod_256 x (256 ^ i) (one-le-pow i 256 (omega arith))

-- The byte that the loop adds lies below the bits of `retval`, and the shift does not overflow.
add_byte :
    (b q l : ℕ)
    → b < 256
    → l ≤ 7
    → bit_or (q * 256 ^ suc l) (u64 (b * 2 ^ (8 * l))) ≡ (q * 256 + b) * 256 ^ l
add_byte b q l hb hl =
    rw (pow_256 l, mod-eq_of_lt fits_64, ← pow_256 (suc l), bit_or_field (8 * suc l) q _ fits)
      (omega
        (arith, ap (λ (t : ℕ). q * t) (pow_256 (suc l)), ap (λ (t : ℕ). q * t) (pow-suc 256 l)))
  where
    below : b * 256 ^ l < 256 ^ suc l
    below = omega (
      arith,
      pow-suc 256 l,
      mul-le-mul_right (256 ^ l) (le_of_byte b hb),
      one-le-pow l 256 (omega arith),
    )

    fits : b * 256 ^ l < 2 ^ (8 * suc l)
    fits = rw (pow_256 (suc l)) below

    fits_64 : b * 256 ^ l < 2 ^ 64
    fits_64 =
        omega
          (arith, below, pow-le-pow_right {n = 256} (omega arith) {i = suc l} {j = 8} (omega arith))

pub bytes_to_ull_loop-be_value :
    (bs rest : List ℕ) (q : ℕ)
    → All IsByte bs
    → length bs ≤ 8
    → bytes_to_ull_loop (bs ++ rest) (length bs) (q * 256 ^ length bs)
      ≡ q * 256 ^ length bs + be_value bs
unfolding bytes_to_ull_loop
bytes_to_ull_loop-be_value [] rest q hb h8 = omega arith
bytes_to_ull_loop-be_value (b ∷ bs) rest q (hb, hbs) h8 =
    rw (add_byte b q (length bs) hb (omega arith)) (
      omega (
        arith,
        bytes_to_ull_loop-be_value bs rest (q * 256 + b) hbs (omega arith),
        ap (λ (t : ℕ). q * t) (pow-suc 256 (length bs)),
      ))
