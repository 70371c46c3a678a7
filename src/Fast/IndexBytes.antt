-- ===== src/Fast/IndexBytes.antt =====
-- xmss_core_fast.c and xmss_core.c: the same bytes of an index, whether it is written by the
-- loop of utils.c or byte by byte.
use xmss_reference.Base.{ℕ, ◌*◌, ◌/◌, ◌^◌, ◌<◌, ◌≡◌, arith, [], ◌∷◌, bit_and, u64}
use xmss_reference.Utils.{ull_to_bytes, ull_to_bytes_loop}
use xmss_reference.Fast.Sign.{idx_to_bytes}

pub idx_to_bytes_lem : (idx : ℕ) → idx < 2 ^ 32 → idx_to_bytes 4 idx ≡ ull_to_bytes 4 idx
unfolding idx_to_bytes ull_to_bytes ull_to_bytes_loop
idx_to_bytes_lem idx lt =
    let x = u64 idx in
    let e3 : idx / 2 ^ (8 * 3) ≡ x / 2 ^ 8 / 2 ^ 8 / 2 ^ 8 = omega arith in
    let e2 : idx / 2 ^ (8 * 2) ≡ x / 2 ^ 8 / 2 ^ 8 = omega arith in
    let e1 : idx / 2 ^ (8 * 1) ≡ x / 2 ^ 8 = omega arith in
    let e0 : idx / 2 ^ (8 * 0) ≡ x = omega arith in
    λ j.
      bit_and (e3 j) 255 ∷ (bit_and (e2 j) 255 ∷ (bit_and (e1 j) 255 ∷ (bit_and (e0 j) 255 ∷ [])))
