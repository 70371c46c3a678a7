-- ===== src/Commons.antt =====
-- xmss_commons.c: the L-tree, the root computed from a leaf, and the verification of signatures.
-- Buffers that a function reads and writes are passed in and returned.
pub mod Ltree
pub mod Tree
pub mod Seeds
pub mod Rows
pub mod InPlace
pub mod Root
use xmss_reference.Base.{
  ℕ, zero, suc, ◌+◌, ◌-◌, ◌*◌, ◌/◌, ◌%◌, ◌^◌, Bool, true, false, ◌&&◌, List, [], ◌∷◌, ◌++◌, bit_and,
  length, take, drop, replicate, ltb, ◌==◌, if◌then◌else◌, u32, u64,
}
use xmss_reference.Utils.{bytes_to_ull}
use xmss_reference.Address.{
  Addr, zero_addr, addr_type_ots, addr_type_ltree, addr_type_hashtree, set_layer_addr,
  set_tree_addr, set_type, set_ots_addr, set_ltree_addr, set_tree_height, set_tree_index,
}
use xmss_reference.Params.{Params}
use xmss_reference.Hash.{HashFns, written, hash_message, thash_h}
use xmss_reference.Wots.{wots_pkgen, wots_pk_from_sig}

-- `len` bytes at `buf + off`, and a write of `bytes` there.
abbrev pub slice : ℕ → ℕ → List ℕ → List ℕ
slice off len buf = take len (drop off buf)

abbrev pub write_at : ℕ → List ℕ → List ℕ → List ℕ
write_at off bytes buf = take off buf ++ (bytes ++ drop (off + length bytes) buf)

-- `memcmp` of two buffers of one length, as a test for equality.
unfoldable pub bytes_eq : List ℕ → List ℕ → Bool
bytes_eq [] [] = true
bytes_eq [] (y ∷ ys) = false
bytes_eq (x ∷ xs) [] = false
bytes_eq (x ∷ xs) (y ∷ ys) = x == y && bytes_eq xs ys

-- The nodes of the next row, and what the row leaves in the buffer: an odd last node is pulled up.
unfoldable pub next_row : ℕ → ℕ
next_row l = if l % 2 == 1 then l / 2 + 1 else l / 2

unfoldable pub pull_up : Params → ℕ → List ℕ → List ℕ
pull_up p l wots_pk =
    if l % 2 == 1
    then write_at (l / 2 * p.n) (slice ((l - 1) * p.n) p.n wots_pk) wots_pk
    else wots_pk

-- `ret` is the return code 0 (`true`) or -1, `mlen` the value left in `*mlen`, and `m` the first
-- `smlen - sig_bytes` bytes of the output buffer, which serves as work space behind them.
pub record Opened : Type 0 where
  pub ret : Bool
  pub mlen : ℕ
  pub m : List ℕ

module _ (fns : HashFns) where
  -- One row of the L-tree: the `for` loop, with `left` of the `parent_nodes` to go.
  pub l_tree_row : Params → ℕ → ℕ → List ℕ → List ℕ → Addr → Addr × List ℕ
  l_tree_row p zero i wots_pk pub_seed addr = (addr, wots_pk)
  l_tree_row p (suc left) i wots_pk pub_seed addr =
      let (addr', hashed) =
        thash_h fns p (slice (i * 2 * p.n) (2 * p.n) wots_pk) pub_seed (set_tree_index addr i) in
      let node = written (slice (i * p.n) p.n wots_pk) hashed in
      l_tree_row p left (i + 1) (write_at (i * p.n) node wots_pk) pub_seed addr'

  -- The `while` loop; a row of `l` nodes takes fewer than `l` rounds.
  pub l_tree_loop : Params → ℕ → ℕ → ℕ → List ℕ → List ℕ → Addr → Addr × List ℕ
  unfolding next_row pull_up
  l_tree_loop p zero l height wots_pk pub_seed addr = (addr, wots_pk)
  l_tree_loop p (suc fuel) l height wots_pk pub_seed addr =
      let (addr', row) = l_tree_row p (l / 2) 0 wots_pk pub_seed addr in
      let rest =
        l_tree_loop p fuel (next_row l) (height + 1) (pull_up p l row) pub_seed
          (set_tree_height addr' (height + 1)) in
      if ltb 1 l then rest else (addr, wots_pk)

  -- The leaf, and the address as it is left. What is left of the key is not used again.
  unfoldable pub l_tree : Params → List ℕ → List ℕ → Addr → Addr × List ℕ
  unfolding l_tree_loop l_tree_row
  l_tree p wots_pk pub_seed addr =
      let (addr', row) =
        l_tree_loop p p.wots_len p.wots_len 0 wots_pk pub_seed (set_tree_height addr 0) in
      (addr', take p.n row)

  -- The loop of compute_root, with `left` of its `tree_height - 1` rounds to go; `auth_path` begins at
  -- the next node. It gives the address, the index and the buffer.
  pub compute_root_loop : Params → ℕ → ℕ → ℕ → List ℕ → List ℕ → List ℕ → Addr → Addr × ℕ × List ℕ
  compute_root_loop p zero i leafidx buffer auth_path pub_seed addr = (addr, leafidx, buffer)
  compute_root_loop p (suc left) i leafidx buffer auth_path pub_seed addr =
      let leafidx' = leafidx / 2 in
      let (addr', hashed) =
        thash_h fns p buffer pub_seed (set_tree_index (set_tree_height addr i) leafidx') in
      let buffer' =
        if bit_and leafidx' 1 == 1
        then take p.n auth_path ++ written (drop p.n buffer) hashed
        else written (take p.n buffer) hashed ++ take p.n auth_path in
      compute_root_loop p left (i + 1) leafidx' buffer' (drop p.n auth_path) pub_seed addr'

  -- A `tree_height` of 0 is not met in a parameter set.
  unfoldable pub compute_root :
      Params → List ℕ → List ℕ → ℕ → List ℕ → List ℕ → Addr → Addr × List ℕ
  unfolding compute_root_loop
  compute_root p root leaf leafidx auth_path pub_seed addr =
      let buffer =
        if bit_and leafidx 1 == 1
        then take p.n auth_path ++ take p.n leaf
        else take p.n leaf ++ take p.n auth_path in
      let (addr', leafidx', buffer') =
        compute_root_loop p (p.tree_height - 1) 0 leafidx buffer (drop p.n auth_path) pub_seed
          addr in
      let (addr'', hashed) =
        thash_h fns p buffer' pub_seed
          (set_tree_index (set_tree_height addr' (p.tree_height - 1)) (leafidx' / 2)) in
      (addr'', written root hashed)

  -- The leaf, with `ltree_addr` and `ots_addr` as they are left. The buffer of the key is filled.
  unfoldable pub gen_leaf_wots : Params → List ℕ → List ℕ → Addr → Addr → Addr × Addr × List ℕ
  gen_leaf_wots p sk_seed pub_seed ltree_addr ots_addr =
      let (ots_addr', pk) =
        wots_pkgen fns p (replicate p.wots_sig_bytes 0) sk_seed pub_seed ots_addr in
      let (ltree_addr', leaf) = l_tree p pk pub_seed ltree_addr in (ltree_addr', ots_addr', leaf)

  -- The loop over the subtrees; `sm` begins at the WOTS signature of layer `i`, and `idx` is what is
  -- left of the index. It gives the root of the last subtree and the rest of `sm`.
  unfoldable pub open_loop :
      Params → ℕ → ℕ → ℕ → List ℕ → List ℕ → List ℕ → Addr → Addr → Addr → List ℕ × List ℕ
  open_loop p zero i idx root sm pub_seed ots_addr ltree_addr node_addr = (root, sm)
  open_loop p (suc left) i idx root sm pub_seed ots_addr ltree_addr node_addr =
      let idx_leaf = u32 (bit_and idx (2 ^ p.tree_height - 1)) in
      let idx' = idx / 2 ^ p.tree_height in
      let ots_addr' = set_ots_addr (set_tree_addr (set_layer_addr ots_addr i) idx') idx_leaf in
      let (ots_addr'', wots_pk) = wots_pk_from_sig fns p sm root pub_seed ots_addr' in
      let sm' = drop p.wots_sig_bytes sm in
      let ltree_addr' =
        set_ltree_addr (set_tree_addr (set_layer_addr ltree_addr i) idx') idx_leaf in
      let (ltree_addr'', leaf) = l_tree p wots_pk pub_seed ltree_addr' in
      let node_addr' = set_tree_addr (set_layer_addr node_addr i) idx' in
      let (node_addr'', root') = compute_root p root leaf idx_leaf sm' pub_seed node_addr' in
      open_loop p left (i + 1) idx' root' (drop (p.tree_height * p.n) sm') pub_seed ots_addr''
        ltree_addr'' node_addr''

  -- `xmssmt_core_sign_open`. The subtraction wraps if `smlen` is less than `sig_bytes`; what the code
  -- then copies lies outside its buffers.
  unfoldable pub xmssmt_core_sign_open : Params → List ℕ → ℕ → List ℕ → Opened
  unfolding open_loop
  xmssmt_core_sign_open p sm smlen pk =
      let pub_root = pk in
      let pub_seed = drop p.n pk in
      let ots_addr = set_type zero_addr addr_type_ots in
      let ltree_addr = set_type zero_addr addr_type_ltree in
      let node_addr = set_type zero_addr addr_type_hashtree in
      let mlen = u64 (smlen + 2 ^ 64 - p.sig_bytes) in
      let idx = bytes_to_ull sm p.index_bytes in
      let m = slice p.sig_bytes mlen sm in
      let mhash = written (replicate p.n 0) (hash_message fns p (drop p.index_bytes sm) pk idx m) in
      let (root, rest) =
        open_loop p p.d 0 idx mhash (drop (p.index_bytes + p.n) sm) pub_seed ots_addr ltree_addr
          node_addr in
      if bytes_eq (take p.n root) (take p.n pub_root)
      then record { ret = true; mlen = mlen; m = take mlen rest }
      else record { ret = false; mlen = 0; m = replicate mlen 0 }

  -- `xmss_core_sign_open` is the same function.
  unfoldable pub xmss_core_sign_open : Params → List ℕ → ℕ → List ℕ → Opened
  xmss_core_sign_open p sm smlen pk = xmssmt_core_sign_open p sm smlen pk
