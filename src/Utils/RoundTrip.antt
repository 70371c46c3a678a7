-- ===== src/Utils/RoundTrip.antt =====
-- utils.c: `ull_to_bytes` and `bytes_to_ull` together.
use xmss_reference.Base.{ℕ, zero, suc, ◌+◌, ◌/◌, ◌%◌, ◌^◌, ◌≤◌, ◌<◌, ◌≡◌, ◌∙◌, ap, arith}
use xmss_reference.Base.{List, [], ◌∷◌, ◌++◌, length, All, IsByte, bit_and, u64, bit_and_mask}
use xmss_reference.Utils.{ull_to_bytes_loop, ull_to_bytes, bytes_to_ull}
use xmss_reference.Utils.Value.{
  be_value, be_value-lt, be_value_inj, ull_to_bytes_loop-be_value, bytes_to_ull_loop-be_value,
}
use mathlib.Core.List.{append-nil}
use native.Mathlib.Nat.{mod-eq_of_lt, pow-le-pow_right, zero-mul, zero-add}

length-ull_to_bytes_loop :
    (i x : ℕ) (tail : List ℕ) → length (ull_to_bytes_loop i x tail) ≡ i + length tail
unfolding ull_to_bytes_loop
length-ull_to_bytes_loop zero x tail = omega arith
length-ull_to_bytes_loop (suc i) x tail =
    omega (arith, length-ull_to_bytes_loop i (x / 2 ^ 8) (bit_and x 0xff ∷ tail))

pub length-ull_to_bytes : (len x : ℕ) → length (ull_to_bytes len x) ≡ len
unfolding ull_to_bytes
length-ull_to_bytes len x = omega (arith, length-ull_to_bytes_loop len (u64 x) [])

ull_to_bytes_loop-IsByte :
    (i x : ℕ) (tail : List ℕ) → All IsByte tail → All IsByte (ull_to_bytes_loop i x tail)
unfolding ull_to_bytes_loop
ull_to_bytes_loop-IsByte zero x tail h = h
ull_to_bytes_loop-IsByte (suc i) x tail h =
    ull_to_bytes_loop-IsByte i (x / 2 ^ 8) _ (omega (arith, bit_and_mask 8 x), h)

pub ull_to_bytes-IsByte : (len x : ℕ) → All IsByte (ull_to_bytes len x)
unfolding ull_to_bytes
ull_to_bytes-IsByte len x = ull_to_bytes_loop-IsByte len (u64 x) [] tt

-- What `ull_to_bytes` writes stands for the value modulo `256 ^ len`.
pub be_value-ull_to_bytes : (len x : ℕ) → x < 2 ^ 64 → be_value (ull_to_bytes len x) ≡ x % 256 ^ len
unfolding ull_to_bytes
be_value-ull_to_bytes len x h =
    rw (mod-eq_of_lt h) (omega (arith, ull_to_bytes_loop-be_value len x []))

pub bytes_to_ull-be_value :
    (bs rest : List ℕ)
    → All IsByte bs
    → length bs ≤ 8
    → bytes_to_ull (bs ++ rest) (length bs) ≡ be_value bs
unfolding bytes_to_ull
bytes_to_ull-be_value bs rest hb h8 =
    rw (zero-mul, zero-add) at (bytes_to_ull_loop-be_value bs rest 0 hb h8)

-- Reading back `len` bytes, at most 8, gives the value that was written, if it fits `len` bytes;
-- bytes that follow do not matter.
pub bytes_to_ull-ull_to_bytes :
    (len x : ℕ) (rest : List ℕ)
    → len ≤ 8
    → x < 256 ^ len
    → bytes_to_ull (ull_to_bytes len x ++ rest) len ≡ x
bytes_to_ull-ull_to_bytes len x rest h8 fits =
    ap (bytes_to_ull (ull_to_bytes len x ++ rest)) (sym' len x)
    ∙ bytes_to_ull-be_value (ull_to_bytes len x) rest (ull_to_bytes-IsByte len x)
        (omega (arith, length-ull_to_bytes len x))
    ∙ be_value-ull_to_bytes len x (fits_64 len x h8 fits)
    ∙ mod-eq_of_lt fits
  where
    sym' : (len x : ℕ) → len ≡ length (ull_to_bytes len x)
    sym' len x = omega (arith, length-ull_to_bytes len x)

    fits_64 : (len x : ℕ) → len ≤ 8 → x < 256 ^ len → x < 2 ^ 64
    fits_64 len x h8 fits = omega (arith, pow-le-pow_right {n = 256} (omega arith) {j = 8} h8)

-- Writing back the value that was read from at most 8 bytes gives the same bytes.
pub ull_to_bytes-bytes_to_ull :
    (bs : List ℕ)
    → All IsByte bs
    → length bs ≤ 8
    → ull_to_bytes (length bs) (bytes_to_ull bs (length bs)) ≡ bs
ull_to_bytes-bytes_to_ull bs hb h8 =
    be_value_inj _ bs (length-ull_to_bytes (length bs) value)
      (ull_to_bytes-IsByte (length bs) value) hb
      (be_value-ull_to_bytes (length bs) value
          (omega (arith, fits, pow-le-pow_right {n = 256} (omega arith) {j = 8} h8))
        ∙ mod-eq_of_lt fits
        ∙ reads)
  where
    value : ℕ
    value = bytes_to_ull bs (length bs)

    reads : value ≡ be_value bs
    reads = rw append-nil at (bytes_to_ull-be_value bs [] hb h8)

    fits : value < 256 ^ length bs
    fits = omega (arith, reads, be_value-lt bs hb)
