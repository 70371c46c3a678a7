-- ===== src/Wots.antt =====
-- wots.c: the Winternitz one-time signature. `wots_sig_bytes` of a key or a signature are `wots_len`
-- chunks of `n` bytes; the loops go from chunk to chunk, so here each round takes the next chunk off
-- the front of its buffer.
pub mod Chain
pub mod Digits
pub mod Keys
pub mod Correct
pub mod Checksum
pub mod Subtree
pub mod SameSeed
use xmss_reference.Base.{
  ℕ, zero, suc, ◌+◌, ◌-◌, ◌*◌, ◌/◌, ◌%◌, ◌^◌, ◌&&◌, bit_and, List, [], ◌∷◌, ◌++◌, take, drop, ltb,
  ◌==◌, if◌then◌else◌, replicate,
}
use xmss_reference.Utils.{ull_to_bytes}
use xmss_reference.Address.{Addr, set_hash_addr, set_key_and_mask, set_chain_addr, addr_to_bytes}
use xmss_reference.Params.{Params}
use xmss_reference.Hash.{HashFns, written, prf_keygen, thash_f}

-- The byte at `input[in]`. Reading past the array is undefined in C; here the byte is 0.
abbrev first_byte : List ℕ → ℕ
first_byte [] = 0
first_byte (b ∷ bs) = b

abbrev rest_bytes : List ℕ → List ℕ
rest_bytes [] = []
rest_bytes (b ∷ bs) = bs

-- `left` is `out_len - consumed`, and `input` begins at `input[in]`. `wots_log_w` divides 8, so
-- `bits` does not fall below 0.
pub base_w_loop : Params → ℕ → ℕ → ℕ → List ℕ → List ℕ
base_w_loop p zero total bits input = []
base_w_loop p (suc left) total bits input =
    let fresh = bits == 0 in
    let total' = if fresh then first_byte input else total in
    let bits' = (if fresh then bits + 8 else bits) - p.wots_log_w in
    bit_and (total' / 2 ^ bits') (p.wots_w - 1)
    ∷ base_w_loop p left total' bits' (if fresh then rest_bytes input else input)

-- `total` is not initialised, and read only after it is set.
unfoldable pub base_w : Params → ℕ → List ℕ → List ℕ
unfolding base_w_loop
base_w p out_len input = base_w_loop p out_len 0 0 input

-- `csum` over the first `left` digits.
pub csum_loop : Params → ℕ → ℕ → List ℕ → ℕ
csum_loop p zero csum msg = csum
csum_loop p (suc left) csum [] = csum
csum_loop p (suc left) csum (digit ∷ msg) = csum_loop p left (csum + (p.wots_w - 1 - digit)) msg

unfoldable pub wots_checksum : Params → List ℕ → List ℕ
unfolding csum_loop
wots_checksum p msg_base_w =
    let csum = csum_loop p p.wots_len1 0 msg_base_w in
    let shifted = csum * 2 ^ (8 - p.wots_len2 * p.wots_log_w % 8) in
    base_w p p.wots_len2 (ull_to_bytes ((p.wots_len2 * p.wots_log_w + 7) / 8) shifted)

unfoldable pub chain_lengths : Params → List ℕ → List ℕ
chain_lengths p msg = let lengths = base_w p p.wots_len1 msg in lengths ++ wots_checksum p lengths

module _ (fns : HashFns) where
  -- `left` is `wots_len - i`.
  pub expand_seed_loop : Params → ℕ → ℕ → List ℕ → List ℕ → List ℕ → Addr → Addr × List ℕ
  expand_seed_loop p zero i outseeds inseed pub_seed addr = (addr, outseeds)
  expand_seed_loop p (suc left) i outseeds inseed pub_seed addr =
      let addr' = set_chain_addr addr i in
      let buf = take p.n pub_seed ++ addr_to_bytes addr' in
      let seed = written (take p.n outseeds) (prf_keygen fns p buf inseed) in
      let (addr'', seeds) =
        expand_seed_loop p left (i + 1) (drop p.n outseeds) inseed pub_seed addr' in
      (addr'', seed ++ seeds)

  unfoldable pub expand_seed : Params → List ℕ → List ℕ → List ℕ → Addr → Addr × List ℕ
  unfolding expand_seed_loop
  expand_seed p outseeds inseed pub_seed addr =
      expand_seed_loop p p.wots_len 0 outseeds inseed pub_seed
        (set_key_and_mask (set_hash_addr addr 0) 0)

  -- `left` is `start + steps - i`. Once `i` reaches `wots_w` the loop is over.
  pub gen_chain_loop : Params → ℕ → ℕ → List ℕ → List ℕ → Addr → Addr × List ℕ
  gen_chain_loop p zero i out pub_seed addr = (addr, out)
  gen_chain_loop p (suc left) i out pub_seed addr =
      let (addr', hashed) = thash_f fns p out pub_seed (set_hash_addr addr i) in
      let rest = gen_chain_loop p left (i + 1) (written out hashed) pub_seed addr' in
      if ltb i p.wots_w then rest else (addr, out)

  unfoldable pub gen_chain : Params → List ℕ → ℕ → ℕ → List ℕ → Addr → Addr × List ℕ
  unfolding gen_chain_loop
  gen_chain p input start steps pub_seed addr =
      gen_chain_loop p steps start (take p.n input) pub_seed addr

  -- The loop of wots_pkgen, in place in `pk`.
  pub pkgen_loop : Params → ℕ → ℕ → List ℕ → List ℕ → Addr → Addr × List ℕ
  pkgen_loop p zero i pk pub_seed addr = (addr, pk)
  pkgen_loop p (suc left) i pk pub_seed addr =
      let (addr', link) =
        gen_chain p (take p.n pk) 0 (p.wots_w - 1) pub_seed (set_chain_addr addr i) in
      let (addr'', links) = pkgen_loop p left (i + 1) (drop p.n pk) pub_seed addr' in
      (addr'', link ++ links)

  -- The buffer `pk` is filled, so its old content does not show in the result.
  unfoldable pub wots_pkgen : Params → List ℕ → List ℕ → List ℕ → Addr → Addr × List ℕ
  unfolding pkgen_loop
  wots_pkgen p pk seed pub_seed addr =
      let (addr', keys) = expand_seed p pk seed pub_seed addr in
      pkgen_loop p p.wots_len 0 keys pub_seed addr'

  -- The loop of wots_sign, in place in `sig`; `lengths` begins at `lengths[i]`.
  pub sign_loop : Params → List ℕ → ℕ → List ℕ → List ℕ → Addr → Addr × List ℕ
  sign_loop p [] i sig pub_seed addr = (addr, sig)
  sign_loop p (steps ∷ lengths) i sig pub_seed addr =
      let (addr', link) = gen_chain p (take p.n sig) 0 steps pub_seed (set_chain_addr addr i) in
      let (addr'', links) = sign_loop p lengths (i + 1) (drop p.n sig) pub_seed addr' in
      (addr'', link ++ links)

  unfoldable pub wots_sign : Params → List ℕ → List ℕ → List ℕ → List ℕ → Addr → Addr × List ℕ
  unfolding sign_loop
  wots_sign p sig msg seed pub_seed addr =
      let (addr', keys) = expand_seed p sig seed pub_seed addr in
      sign_loop p (take p.wots_len (chain_lengths p msg)) 0 keys pub_seed addr'

  -- The loop of wots_pk_from_sig, from `sig` to `pk`.
  pub pk_from_sig_loop : Params → List ℕ → ℕ → List ℕ → List ℕ → Addr → Addr × List ℕ
  pk_from_sig_loop p [] i sig pub_seed addr = (addr, [])
  pk_from_sig_loop p (start ∷ lengths) i sig pub_seed addr =
      let (addr', link) =
        gen_chain p (take p.n sig) start (p.wots_w - 1 - start) pub_seed (set_chain_addr addr i) in
      let (addr'', links) = pk_from_sig_loop p lengths (i + 1) (drop p.n sig) pub_seed addr' in
      (addr'', link ++ links)

  unfoldable pub wots_pk_from_sig : Params → List ℕ → List ℕ → List ℕ → Addr → Addr × List ℕ
  unfolding pk_from_sig_loop
  wots_pk_from_sig p sig msg pub_seed addr =
      pk_from_sig_loop p (take p.wots_len (chain_lengths p msg)) 0 sig pub_seed addr
