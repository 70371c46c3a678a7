-- ===== src/Utils.antt =====
-- utils.c: integers to and from big-endian byte arrays.
pub mod Value
pub mod RoundTrip
use xmss_reference.Base.{ℕ, zero, suc, ◌*◌, ◌/◌, ◌^◌, bit_and, bit_or, List, [], ◌∷◌, u64}

-- The loop runs from the last byte of `out` to the first: `i + 1` bytes are left to write, and
-- `tail` holds those behind them.
unfoldable pub ull_to_bytes_loop : ℕ → ℕ → List ℕ → List ℕ
ull_to_bytes_loop zero x tail = tail
ull_to_bytes_loop (suc i) x tail = ull_to_bytes_loop i (x / 2 ^ 8) (bit_and x 0xff ∷ tail)

-- The `outlen` bytes written to `out`. The argument is converted to `unsigned long long`.
unfoldable pub ull_to_bytes : ℕ → ℕ → List ℕ
unfolding ull_to_bytes_loop
ull_to_bytes outlen x = ull_to_bytes_loop outlen (u64 x) []

-- `left` is `inlen - i`. Reading past the array is undefined in C; here it adds nothing.
pub bytes_to_ull_loop : List ℕ → ℕ → ℕ → ℕ
bytes_to_ull_loop bs zero retval = retval
bytes_to_ull_loop [] (suc left) retval = retval
bytes_to_ull_loop (b ∷ bs) (suc left) retval =
    bytes_to_ull_loop bs left (bit_or retval (u64 (b * 2 ^ (8 * left))))

unfoldable pub bytes_to_ull : List ℕ → ℕ → ℕ
unfolding bytes_to_ull_loop
bytes_to_ull bs inlen = bytes_to_ull_loop bs inlen 0
