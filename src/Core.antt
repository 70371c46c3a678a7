-- ===== src/Core.antt =====
-- xmss_core.c: TreeHash, key generation and signing, with the whole state of the key in its index.
pub mod Index
pub mod UsedUp
pub mod AuthPath
pub mod Merge
pub mod TreeHash
pub mod Single
pub mod Layers
pub mod Climb
pub mod Opening
pub mod Correct
pub mod Series
use xmss_reference.Base.{
  ℕ, zero, suc, ◌+◌, ◌-◌, ◌*◌, ◌/◌, ◌^◌, Bool, true, false, ◌&&◌, ◌||◌, List, [], ◌∷◌, ◌++◌,
  bit_and, bit_xor, length, set, take, drop, replicate, ltb, leb, ◌==◌, if◌then◌else◌, u32, u64,
}
use xmss_reference.Utils.{bytes_to_ull, ull_to_bytes}
use xmss_reference.Address.{
  Addr, zero_addr, addr_type_ots, addr_type_ltree, addr_type_hashtree, set_layer_addr,
  set_tree_addr, set_type, set_ots_addr, set_ltree_addr, set_tree_height, set_tree_index,
  copy_subtree_addr,
}
use xmss_reference.Params.{Params}
use xmss_reference.Hash.{HashFns, written, prf, hash_message, thash_h}
use xmss_reference.Wots.{wots_sign}
use xmss_reference.Commons.{gen_leaf_wots, slice}

-- `stack` and `heights` below `offset`, the top first: the height of each node, and the node.
abbrev pub Stack : Type 0
Stack = List (ℕ × List ℕ)

-- The variables of treehash; `auth_path` is an array of `tree_height` nodes.
pub record TreeState : Type 0 where
  pub stack : Stack
  pub auth_path : List (List ℕ)
  pub ots_addr : Addr
  pub ltree_addr : Addr
  pub node_addr : Addr

abbrev pub flatten_nodes : List (List ℕ) → List ℕ
flatten_nodes [] = []
flatten_nodes (x ∷ xs) = x ++ flatten_nodes xs

-- The node at the bottom of the stack, `stack[0]`.
abbrev pub bottom : Stack → List ℕ
bottom [] = []
bottom ((h, x) ∷ []) = x
bottom ((h, x) ∷ (y ∷ ys)) = bottom (y ∷ ys)

module _ (fns : HashFns) where
  -- The `while` loop: `x` of height `h` is on top of `rest`. It gives the stack, the authentication
  -- path and the node address.
  pub merge_loop :
      Params
      → ℕ
      → ℕ
      → List ℕ
      → Stack
      → ℕ
      → List ℕ
      → List (List ℕ)
      → Addr
      → Stack × List (List ℕ) × Addr
  merge_loop p idx leaf_idx pub_seed [] h x auth_path node_addr =
      ((h, x) ∷ [], auth_path, node_addr)
  merge_loop p idx leaf_idx pub_seed ((h', y) ∷ rest) h x auth_path node_addr =
      let tree_idx = idx / 2 ^ (h + 1) in
      let (node_addr', hashed) =
        thash_h fns p (y ++ x) pub_seed (set_tree_index (set_tree_height node_addr h) tree_idx) in
      let node = written y hashed in
      let auth_path' =
        if bit_xor (leaf_idx / 2 ^ (h + 1)) 1 == tree_idx
        then set auth_path (h + 1) node
        else auth_path in
      let merged = merge_loop p idx leaf_idx pub_seed rest (h + 1) node auth_path' node_addr' in
      if h == h' then merged else ((h, x) ∷ ((h', y) ∷ rest), auth_path, node_addr)

  -- One round of the `for` loop.
  unfoldable pub add_leaf : Params → List ℕ → List ℕ → ℕ → ℕ → TreeState → TreeState
  unfolding merge_loop
  add_leaf p sk_seed pub_seed leaf_idx idx s =
      let (ltree_addr, ots_addr, leaf) =
        gen_leaf_wots fns p sk_seed pub_seed (set_ltree_addr s.ltree_addr idx)
          (set_ots_addr s.ots_addr idx) in
      let auth_path = if bit_xor leaf_idx 1 == idx then set s.auth_path 0 leaf else s.auth_path in
      let (stack, auth_path', node_addr) =
        merge_loop p idx leaf_idx pub_seed s.stack 0 leaf auth_path s.node_addr in
      record {
        stack = stack;
        auth_path = auth_path';
        ots_addr = ots_addr;
        ltree_addr = ltree_addr;
        node_addr = node_addr;
      }

  -- The rounds from `idx` on, `left` of them.
  pub treehash_loop : Params → List ℕ → List ℕ → ℕ → ℕ → ℕ → TreeState → TreeState
  treehash_loop p sk_seed pub_seed leaf_idx zero idx s = s
  treehash_loop p sk_seed pub_seed leaf_idx (suc left) idx s =
      treehash_loop p sk_seed pub_seed leaf_idx left (idx + 1)
        (add_leaf p sk_seed pub_seed leaf_idx idx s)

  -- The root and the authentication path, which is written into `auth_path`.
  unfoldable pub treehash :
      Params → List (List ℕ) → List ℕ → List ℕ → ℕ → Addr → List ℕ × List (List ℕ)
  unfolding treehash_loop
  treehash p auth_path sk_seed pub_seed leaf_idx subtree_addr =
      let addr = copy_subtree_addr zero_addr subtree_addr in
      let s = treehash_loop p sk_seed pub_seed leaf_idx (2 ^ p.tree_height) 0 (record {
        stack = [];
        auth_path = auth_path;
        ots_addr = set_type addr addr_type_ots;
        ltree_addr = set_type addr addr_type_ltree;
        node_addr = set_type addr addr_type_hashtree;
      }) in
      (bottom s.stack, s.auth_path)

-- `xmss_xmssmt_core_sk_bytes`
unfoldable pub core_sk_bytes : Params → ℕ
core_sk_bytes p = u32 (p.index_bytes + 4 * p.n)

-- A public and a secret key, without OIDs.
pub record KeyPair : Type 0 where
  pub pk : List ℕ
  pub sk : List ℕ

-- `tree_height` nodes of zeros, for an array that is filled.
abbrev pub blank_path : Params → List (List ℕ)
blank_path p = replicate p.tree_height (replicate p.n 0)

-- What signing returns: the code 0 (`true`) or -2, the secret key, and the `*smlen` bytes of `sm`
-- (of which only the message is written where the code is -2: `sm` is then the message).
pub record Signed : Type 0 where
  pub ret : Bool
  pub sk : List ℕ
  pub smlen : ℕ
  pub sm : List ℕ

-- `(1ULL << full_height) - 1`
abbrev pub last_index : Params → ℕ
last_index p = u64 (2 ^ p.full_height) - 1

-- The two `memset`s of a key that can sign no more.
unfoldable pub erase_key : Params → List ℕ
erase_key p = replicate p.index_bytes 0xff ++ replicate (p.sk_bytes - p.index_bytes) 0

-- What follows the test of the index: the key, and whether the code returns -2.
unfoldable pub check_index : Params → ℕ → List ℕ → List ℕ × Bool
check_index p idx sk =
    if leb (last_index p) idx
    then (erase_key p, ltb (last_index p) idx || p.full_height == 64 && idx == last_index p)
    else (sk, false)

module _ (fns : HashFns) where
  -- `xmssmt_core_seed_keypair`. The seed has `3 * n` bytes.
  unfoldable pub xmssmt_core_seed_keypair : Params → List ℕ → KeyPair
  xmssmt_core_seed_keypair p seed =
      let top_tree_addr = set_layer_addr zero_addr (p.d - 1) in
      let sk_seed_prf = take (2 * p.n) seed in
      let pub_seed = slice (2 * p.n) p.n seed in
      let (root, auth_path) = treehash fns p (blank_path p) sk_seed_prf pub_seed 0 top_tree_addr in
      record {
        pk = root ++ pub_seed;
        sk = replicate p.index_bytes 0 ++ (sk_seed_prf ++ (root ++ pub_seed));
      }

  -- `xmssmt_core_keypair`, with the bytes that randombytes gives.
  unfoldable pub xmssmt_core_keypair : (ℕ → List ℕ) → Params → KeyPair
  xmssmt_core_keypair randombytes p = xmssmt_core_seed_keypair p (randombytes (3 * p.n))

  -- `xmss_core_keypair` is the same function.
  unfoldable pub xmss_core_keypair : (ℕ → List ℕ) → Params → KeyPair
  xmss_core_keypair randombytes p = xmssmt_core_keypair randombytes p

  -- The loop over the layers, with `left` of `d` to go: for each a WOTS signature of `root` and the
  -- authentication path.
  pub sign_layers : Params → ℕ → ℕ → ℕ → List ℕ → List ℕ → List ℕ → Addr → List ℕ
  sign_layers p zero i idx root sk_seed pub_seed ots_addr = []
  sign_layers p (suc left) i idx root sk_seed pub_seed ots_addr =
      let idx_leaf = u32 (bit_and idx (2 ^ p.tree_height - 1)) in
      let idx' = idx / 2 ^ p.tree_height in
      let addr = set_ots_addr (set_tree_addr (set_layer_addr ots_addr i) idx') idx_leaf in
      let (addr', sig) =
        wots_sign fns p (replicate p.wots_sig_bytes 0) root sk_seed pub_seed addr in
      let (root', auth_path) = treehash fns p (blank_path p) sk_seed pub_seed idx_leaf addr' in
      sig
      ++ (flatten_nodes auth_path ++ sign_layers p left (i + 1) idx' root' sk_seed pub_seed addr')

  -- The part of xmssmt_core_sign behind the test of the index, for the key as it is then.
  unfoldable pub sign_with : Params → ℕ → List ℕ → List ℕ → Signed
  unfolding sign_layers
  sign_with p idx sk m =
      let index = take p.index_bytes sk in
      let keys = drop p.index_bytes sk in
      let sk_seed = keys in
      let sk_prf = drop p.n keys in
      let pub_root = drop (2 * p.n) keys in
      let pub_seed = drop (3 * p.n) keys in
      let r = written (replicate p.n 0) (prf fns p (ull_to_bytes 32 idx) sk_prf) in
      let mhash = written (replicate p.n 0) (hash_message fns p r pub_root idx m) in
      let layers =
        sign_layers p p.d 0 idx mhash sk_seed pub_seed (set_type zero_addr addr_type_ots) in
      record {
        ret = true;
        sk = ull_to_bytes p.index_bytes (idx + 1) ++ keys;
        smlen = p.sig_bytes + length m;
        sm = index ++ (r ++ (layers ++ m));
      }

  -- `xmssmt_core_sign`
  unfoldable pub xmssmt_core_sign : Params → List ℕ → List ℕ → Signed
  xmssmt_core_sign p sk m =
      let idx = bytes_to_ull sk p.index_bytes in
      let (sk', used_up) = check_index p idx sk in
      let signed = sign_with p idx sk' m in
      if used_up
      then record { ret = false; sk = sk'; smlen = p.sig_bytes + length m; sm = m }
      else signed

  -- `xmss_core_sign` is the same function.
  unfoldable pub xmss_core_sign : Params → List ℕ → List ℕ → Signed
  xmss_core_sign p sk m = xmssmt_core_sign p sk m
