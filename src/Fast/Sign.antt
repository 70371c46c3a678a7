-- ===== src/Fast/Sign.antt =====
-- xmss_core_fast.c: the size of the secret key, and key generation and signing for XMSS, whose index
-- has four bytes. Behind the regular secret key stands the state of the traversal.
use xmss_reference.Base.{
  ℕ, zero, suc, ◌+◌, ◌-◌, ◌*◌, ◌/◌, ◌^◌, Option, none, some, List, [], ◌∷◌, ◌++◌, bit_and, length,
  u32, take, drop, replicate, ltb, leb, if◌then◌else◌,
}
use xmss_reference.Utils.{ull_to_bytes, bytes_to_ull}
use xmss_reference.Address.{zero_addr, addr_type_ots, set_type, set_ots_addr}
use xmss_reference.Params.{Params}
use xmss_reference.Hash.{HashFns, written, prf, hash_message}
use xmss_reference.Wots.{wots_sign}
use xmss_reference.Core.{KeyPair, last_index, check_index, flatten_nodes}
use xmss_reference.Fast.{
  TreehashInst, BdsState, instances, retained, xmss_serialize_state, xmss_deserialize_state,
}
use xmss_reference.Fast.Update.{treehash_init, bds_treehash_update}
use xmss_reference.Fast.Round.{bds_round}

-- `xmss_xmssmt_core_sk_bytes`, whose sum is one of `unsigned int`s.
unfoldable pub fast_sk_bytes : Params → ℕ
fast_sk_bytes p = u32 (
    p.index_bytes
    + 4 * p.n
    + (2 * p.d - 1)
      * ((p.tree_height + 1) * p.n
          + 4
          + p.tree_height
          + 1
          + p.tree_height * p.n
          + p.tree_height / 2 * p.n
          + instances p * (7 + p.n)
          + retained p * p.n
          + 4)
    + (p.d - 1) * p.wots_sig_bytes)

-- The bytes of an index, `(idx >> 8 * (left - 1)) & 255` first.
unfoldable pub idx_to_bytes : ℕ → ℕ → List ℕ
idx_to_bytes zero idx = []
idx_to_bytes (suc left) idx = bit_and (idx / 2 ^ (8 * left)) 255 ∷ idx_to_bytes left idx

-- Where the secret key is erased, so are the buffers of the state, which are regions of it; what the
-- state has as numbers stays.
unfoldable pub erase_insts : Params → List TreehashInst → List TreehashInst
erase_insts p [] = []
erase_insts p (t ∷ ts) = record t { node = replicate p.n 0 } ∷ erase_insts p ts

unfoldable pub erase_state : Params → BdsState → BdsState
erase_state p s = record s {
  stack = replicate (p.tree_height + 1) (replicate p.n 0);
  stacklevels = replicate (p.tree_height + 1) 0;
  auth = replicate p.tree_height (replicate p.n 0);
  keep = replicate (p.tree_height / 2) (replicate p.n 0);
  treehash = erase_insts p s.treehash;
  retain = replicate (retained p) (replicate p.n 0);
}

-- What signing leaves: the secret key, and `*smlen` and the bytes of `sm`, or `none` where the code
-- returns -2, which writes neither.
pub record FastSigned : Type 0 where
  pub sk : List ℕ
  pub made : Option (ℕ × List ℕ)

module _ (fns : HashFns) where
  -- `xmss_core_keypair`. `sk` is what the buffer for the secret key holds before; `randombytes` has the
  -- bytes of each of the calls.
  unfoldable pub xmss_fast_keypair : (ℕ → ℕ → List ℕ) → Params → List ℕ → KeyPair
  xmss_fast_keypair randombytes p sk =
      let old = xmss_deserialize_state p (drop (p.index_bytes + 4 * p.n) sk) in
      let state = record old { stackoffset = 0; next_leaf = 0 } in
      let seeds = randombytes 0 (2 * p.n) in
      let pub_seed = randombytes 1 p.n in
      let (root, state') = treehash_init fns p p.tree_height 0 state seeds pub_seed zero_addr in
      record {
        pk = root ++ pub_seed;
        sk = replicate 4 0 ++ (seeds ++ (root ++ (pub_seed ++ xmss_serialize_state state' [])));
      }

  -- `xmss_core_sign`
  unfoldable pub xmss_fast_sign : Params → List ℕ → List ℕ → FastSigned
  xmss_fast_sign p sk m =
      let loaded = xmss_deserialize_state p (drop (p.index_bytes + 4 * p.n) sk) in
      let idx = bytes_to_ull sk 4 in
      let (sk', used_up) = check_index p idx sk in
      let state = if leb (last_index p) idx then erase_state p loaded else loaded in
      let keys = take (4 * p.n) (drop p.index_bytes sk') in
      let sk_seed = take p.n keys in
      let sk_prf = take p.n (drop p.n keys) in
      let pub_root = drop (2 * p.n) keys in
      let pub_seed = take p.n (drop (3 * p.n) keys) in
      let r = written (replicate p.n 0) (prf fns p (ull_to_bytes 32 idx) sk_prf) in
      let msg_h = written (replicate p.n 0) (hash_message fns p r pub_root idx m) in
      let (ots_addr, sig) =
        wots_sign fns p (replicate p.wots_sig_bytes 0) msg_h sk_seed pub_seed
          (set_ots_addr (set_type zero_addr addr_type_ots) idx) in
      let (updated, left) =
        bds_treehash_update fns p (bds_round fns p state idx sk_seed pub_seed ots_addr)
          (instances p / 2) sk_seed pub_seed ots_addr in
      let state' = if ltb idx (2 ^ p.tree_height - 1) then updated else state in
      let smlen = 4 + p.n + p.wots_sig_bytes + p.tree_height * p.n + length m in
      let sm = idx_to_bytes 4 idx ++ (r ++ (sig ++ (flatten_nodes state.auth ++ m))) in
      if used_up then record { sk = sk'; made = none } else record {
        sk = idx_to_bytes 4 (idx + 1) ++ (keys ++ xmss_serialize_state state' []);
        made = some (smlen, sm);
      }
