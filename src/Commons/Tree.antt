-- ===== src/Commons/Tree.antt =====
-- The Merkle tree over the leaves of one key pair's WOTS+ public keys, as a recursive definition: what
-- treehash of xmss_core.c and compute_root of xmss_commons.c compute is stated against it.
use xmss_reference.Base.{
  ℕ, zero, suc, ◌+◌, ◌*◌, ◌/◌, ◌^◌, ◌≡◌, ap, ◌∙◌, List, [], ◌∷◌, ◌++◌, bit_xor, arith, length,
  length-replicate, replicate,
}
use xmss_reference.Address.{
  Addr, zero_addr, addr_type_ots, addr_type_ltree, addr_type_hashtree, set_type, set_key_and_mask,
  set_ots_addr, set_ltree_addr, set_tree_height, set_tree_index, copy_subtree_addr,
}
use xmss_reference.Params.{Params}
use xmss_reference.Params.Sets.{IsParams}
use xmss_reference.Hash.{HashFns, written, derive, thash_h}
use xmss_reference.Hash.Lengths.{HasLengths, length-written, written_any, thash_h-Writes}
use xmss_reference.Wots.{wots_pkgen}
use xmss_reference.Wots.Keys.{ots_part, publics, le-length-publics, wots_pkgen_lem}
use xmss_reference.Commons.{l_tree, gen_leaf_wots}
use xmss_reference.Commons.Ltree.{l_tree_addr, length-l_tree}

-- The address of a subtree with a type, all the words behind it 0.
abbrev pub typed_addr : Addr → ℕ → Addr
typed_addr sub type = set_type (copy_subtree_addr zero_addr sub) type

-- The words that name the subtree and the type.
abbrev pub type_part : Addr → Addr
type_part a = record a { w4 = 0; w5 = 0; w6 = 0; w7 = 0 }

-- The address of the OTS key pair `i` of a subtree, and of its L-tree.
abbrev pub ots_at : Addr → ℕ → Addr
ots_at sub i = set_ots_addr (typed_addr sub addr_type_ots) i

abbrev pub ltree_at : Addr → ℕ → Addr
ltree_at sub i = set_ltree_addr (typed_addr sub addr_type_ltree) i

-- The last index but for its last bit: the other child of the parent, at height `h` above a leaf.
abbrev pub sibling : ℕ → ℕ → ℕ
sibling leaf_idx h = bit_xor (leaf_idx / 2 ^ h) 1

module _ (fns : HashFns) (p : Params) (pub_seed : List ℕ) where
  -- The parent of two nodes: `j` is its index, and `h` the height of the two.
  unfoldable pub parent : Addr → ℕ → ℕ → List ℕ → List ℕ
  parent a h j children =
      written (replicate p.n 0)
        (thash_h fns p children pub_seed (set_tree_index (set_tree_height a h) j)).1

  pub parent_addr :
      (a base : Addr) (h j : ℕ) (children : List ℕ)
      → ots_part a ≡ base
      → ots_part (thash_h fns p children pub_seed (set_tree_index (set_tree_height a h) j)).0 ≡ base
  unfolding thash_h derive set_key_and_mask set_tree_index set_tree_height
  parent_addr a base h j children e = e

module _ (fns : HashFns) (lengths : HasLengths fns) (p : Params) (ok : IsParams p)
    (sk_seed pub_seed : List ℕ) (sub : Addr) where
  -- The L-tree of the public key of key pair `i`.
  unfoldable pub leaf : ℕ → List ℕ
  leaf i =
      (l_tree fns p (publics fns lengths p ok sk_seed pub_seed (ots_at sub i) p.wots_len 0) pub_seed
        (ltree_at sub i)).1

  -- Node `j` of height `h`.
  unfoldable pub node : ℕ → ℕ → List ℕ
  node zero j = leaf j
  node (suc h) j =
      parent fns p pub_seed (typed_addr sub addr_type_hashtree) h j
        (node h (2 * j) ++ node h (2 * j + 1))

  -- The authentication path of a leaf: `left` nodes from height `h` on.
  unfoldable pub auth_nodes : ℕ → ℕ → ℕ → List (List ℕ)
  auth_nodes leaf_idx zero h = []
  auth_nodes leaf_idx (suc left) h = node h (sibling leaf_idx h) ∷ auth_nodes leaf_idx left (h + 1)

  pub length-node : (h j : ℕ) → length (node h j) ≡ p.n
  unfolding node leaf parent
  length-node zero j = length-l_tree fns lengths p ok pub_seed _ (ltree_at sub j) (
      le-length-publics fns lengths p ok sk_seed pub_seed (ots_at sub j) p.wots_len 0
        (omega (arith, ok.len, ok.len2)))
  length-node (suc h) j =
      length-written p.n (replicate p.n 0)
        (thash_h-Writes fns lengths p ok.hash_set (node h (2 * j) ++ node h (2 * j + 1)) pub_seed _)

  -- Whatever the buffer held, and whatever the address's last words.
  pub node-suc :
      (h j : ℕ) (old : List ℕ) (a : Addr)
      → ots_part a ≡ typed_addr sub addr_type_hashtree
      → written old
          (thash_h fns p
            (node h (2 * j) ++ node h (2 * j + 1))
            pub_seed
            (set_tree_index (set_tree_height a h) j)).1
        ≡ node (suc h) j
  unfolding node parent thash_h derive set_key_and_mask set_tree_index set_tree_height
  node-suc h j old a e =
      written_any p.n old (replicate p.n 0) (
        thash_h-Writes fns lengths p ok.hash_set (node h (2 * j) ++ node h (2 * j + 1)) pub_seed
          (set_tree_index (set_tree_height a h) j))
      ∙ (λ i. parent fns p pub_seed (e i) h j (node h (2 * j) ++ node h (2 * j + 1)))

  -- From any buffers and addresses of the subtree, gen_leaf_wots makes the leaf.
  pub gen_leaf_wots_lem :
      (i : ℕ) (ltree_addr ots_addr : Addr)
      → type_part ltree_addr ≡ typed_addr sub addr_type_ltree
      → type_part ots_addr ≡ typed_addr sub addr_type_ots
      → let r =
          gen_leaf_wots fns p sk_seed pub_seed
            (set_ltree_addr ltree_addr i)
            (set_ots_addr ots_addr i) in
        (type_part r.0 ≡ typed_addr sub addr_type_ltree)
        × (type_part r.1 ≡ typed_addr sub addr_type_ots)
        × (r.2 ≡ leaf i)
  unfolding gen_leaf_wots leaf set_ltree_addr set_ots_addr set_type copy_subtree_addr
  gen_leaf_wots_lem i ltree_addr ots_addr el eo =
      let key =
        wots_pkgen_lem fns lengths p ok sk_seed pub_seed (ots_at sub i)
          (replicate p.wots_sig_bytes 0) (set_ots_addr ots_addr i)
          (length-replicate p.wots_sig_bytes 0 ∙ ok.sig_len)
          (ap (λ c. ots_part (set_ots_addr c i)) eo) in
      let pk =
        (wots_pkgen fns p (replicate p.wots_sig_bytes 0) sk_seed pub_seed
          (set_ots_addr ots_addr i)).1 in
      let tree =
        l_tree_addr fns p pub_seed pk (set_ltree_addr ltree_addr i) (ltree_at sub i)
          (ap (λ c. ots_part (set_ltree_addr c i)) el) in
      (
        ap type_part tree.1 ∙ el,
        ap type_part key.0,
        tree.0 ∙ ap (λ k. (l_tree fns p k pub_seed (ltree_at sub i)).1) key.1,
      )
