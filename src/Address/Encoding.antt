-- ===== src/Address/Encoding.antt =====
-- hash_address.c and `addr_to_bytes` of hash.c: the bytes of an address, and the address they stand for.
use xmss_reference.Base.{ℕ, ◌^◌, ◌<◌, ◌≡◌, ◌++◌, List, [], length, length-append, arith}
use xmss_reference.Base.{sym, ◌∙◌, ap, drop, drop-append_length}
use xmss_reference.Address.{Addr, addr_to_bytes}
use xmss_reference.Utils.{ull_to_bytes, bytes_to_ull}
use xmss_reference.Utils.RoundTrip.{length-ull_to_bytes, bytes_to_ull-ull_to_bytes}

-- Every word is a `uint32_t`.
pub record IsAddr (a : Addr) : Type 0 where
  pub w0_fits : a.w0 < 2 ^ 32
  pub w1_fits : a.w1 < 2 ^ 32
  pub w2_fits : a.w2 < 2 ^ 32
  pub w3_fits : a.w3 < 2 ^ 32
  pub w4_fits : a.w4 < 2 ^ 32
  pub w5_fits : a.w5 < 2 ^ 32
  pub w6_fits : a.w6 < 2 ^ 32
  pub w7_fits : a.w7 < 2 ^ 32

pub length-addr_to_bytes : (a : Addr) → length (addr_to_bytes a) ≡ 32
unfolding addr_to_bytes
length-addr_to_bytes a = simp (length-append, length-ull_to_bytes)

-- The first four bytes determine the word, and the rest remain to be compared.
word_head :
    (x y : ℕ) (xs ys : List ℕ)
    → x < 2 ^ 32
    → y < 2 ^ 32
    → ull_to_bytes 4 x ++ xs ≡ ull_to_bytes 4 y ++ ys
    → (x ≡ y) × (xs ≡ ys)
word_head x y xs ys hx hy e = (
  sym (bytes_to_ull-ull_to_bytes 4 x xs (omega arith) (omega arith))
      ∙ ap (λ bs. bytes_to_ull bs 4) e
      ∙ bytes_to_ull-ull_to_bytes 4 y ys (omega arith) (omega arith),
  sym (drop-append_length 4 (ull_to_bytes 4 x) xs (length-ull_to_bytes 4 x))
      ∙ ap (drop 4) e
      ∙ drop-append_length 4 (ull_to_bytes 4 y) ys (length-ull_to_bytes 4 y),
)

word_last : (x y : ℕ) → x < 2 ^ 32 → y < 2 ^ 32 → ull_to_bytes 4 x ≡ ull_to_bytes 4 y → x ≡ y
word_last x y hx hy e = (word_head x y [] [] hx hy (ap (λ bs. bs ++ []) e)).0

-- Two addresses whose words are `uint32_t` values have the same 32 bytes only if they are equal.
pub addr_to_bytes_inj :
    (a b : Addr) → IsAddr a → IsAddr b → addr_to_bytes a ≡ addr_to_bytes b → a ≡ b
unfolding addr_to_bytes
addr_to_bytes_inj a b ha hb e =
    let (e0, r0) = word_head a.w0 b.w0 _ _ ha.w0_fits hb.w0_fits e in
    let (e1, r1) = word_head a.w1 b.w1 _ _ ha.w1_fits hb.w1_fits r0 in
    let (e2, r2) = word_head a.w2 b.w2 _ _ ha.w2_fits hb.w2_fits r1 in
    let (e3, r3) = word_head a.w3 b.w3 _ _ ha.w3_fits hb.w3_fits r2 in
    let (e4, r4) = word_head a.w4 b.w4 _ _ ha.w4_fits hb.w4_fits r3 in
    let (e5, r5) = word_head a.w5 b.w5 _ _ ha.w5_fits hb.w5_fits r4 in
    let (e6, r6) = word_head a.w6 b.w6 _ _ ha.w6_fits hb.w6_fits r5 in
    let e7 = word_last a.w7 b.w7 ha.w7_fits hb.w7_fits r6 in
    λ i. record {
      w0 = e0 i;
      w1 = e1 i;
      w2 = e2 i;
      w3 = e3 i;
      w4 = e4 i;
      w5 = e5 i;
      w6 = e6 i;
      w7 = e7 i;
    }
