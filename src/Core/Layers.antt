-- ===== src/Core/Layers.antt =====
-- xmss_core.c and xmss_commons.c: one layer of a signature, as it is signed and as it is verified.
use xmss_reference.Base.{
  ℕ, zero, suc, ◌+◌, ◌-◌, ◌*◌, ◌/◌, ◌^◌, ◌<◌, ◌≡◌, ap, ◌∙◌, List, ◌++◌, bit_and, bit_and_mask, u32,
  arith, length, length-append, length-replicate, drop, replicate, drop-append_length,
}
use native.Mathlib.Nat.{suc-mul, mod-lt, mod-le, one-le-pow}
use xmss_reference.Address.{
  Addr, zero_addr, addr_type_ots, addr_type_ltree, addr_type_hashtree, set_layer_addr,
  set_tree_addr, set_type, set_ots_addr, set_ltree_addr, copy_subtree_addr,
}
use xmss_reference.Params.{Params}
use xmss_reference.Params.Sets.{IsParams}
use xmss_reference.Hash.{HashFns}
use xmss_reference.Hash.Lengths.{HasLengths}
use xmss_reference.Wots.{wots_sign, wots_pk_from_sig, chain_lengths}
use xmss_reference.Wots.Keys.{ots_part, publics}
use xmss_reference.Wots.Correct.{signatures, length-signatures, wots_sign_lem, wots_pk_from_sig_lem}
use xmss_reference.Commons.{l_tree, compute_root}
use xmss_reference.Commons.Ltree.{l_tree_addr}
use xmss_reference.Commons.Tree.{
  typed_addr, ots_at, ltree_at, leaf, node, auth_nodes, length-node, sibling,
}
use xmss_reference.Commons.Root.{compute_root_lem}
use xmss_reference.Core.{treehash, blank_path, flatten_nodes}
use xmss_reference.Core.TreeHash.{treehash_lem}

-- The tree `tree` of layer `i`.
abbrev pub tree_at : ℕ → ℕ → Addr
tree_at i tree = set_tree_addr (set_layer_addr zero_addr i) tree

-- The words of an address that no layer sets: for OTS and L-tree addresses the type alone, for those
-- of hash trees also the word that stays 0.
abbrev pub kind_part : Addr → Addr
kind_part a = record a { w0 = 0; w1 = 0; w2 = 0; w4 = 0; w5 = 0; w6 = 0; w7 = 0 }

abbrev pub tree_kind_part : Addr → Addr
tree_kind_part a = record a { w0 = 0; w1 = 0; w2 = 0; w5 = 0; w6 = 0; w7 = 0 }

-- The leaf of the tree at the bottom that index `idx` is for.
abbrev pub leaf_of : Params → ℕ → ℕ
leaf_of p idx = u32 (bit_and idx (2 ^ p.tree_height - 1))

leaf_of-lt : (p : Params) → IsParams p → (idx : ℕ) → leaf_of p idx < 2 ^ p.tree_height
leaf_of-lt p ok idx = omega (
  arith,
  bit_and_mask p.tree_height idx,
  mod-lt idx (one-le-pow p.tree_height 2 (omega arith)),
  mod-le (bit_and idx (2 ^ p.tree_height - 1)) (2 ^ 32),
)

module _ (fns : HashFns) (lengths : HasLengths fns) (p : Params) (ok : IsParams p)
    (sk_seed pub_seed : List ℕ) where
  abbrev pub root_of : Addr → List ℕ
  root_of sub = node fns lengths p ok sk_seed pub_seed sub p.tree_height 0

  abbrev pub sigs : List ℕ → Addr → ℕ → List ℕ
  sigs root sub idx_leaf =
      signatures fns lengths p ok sk_seed pub_seed (ots_at sub idx_leaf) (chain_lengths p root) 0

  abbrev pub path_of : Addr → ℕ → List ℕ
  path_of sub idx_leaf =
      flatten_nodes (auth_nodes fns lengths p ok sk_seed pub_seed sub idx_leaf p.tree_height 0)

  pub length-path_loop :
      (sub : Addr) (idx_leaf left h : ℕ)
      → length (flatten_nodes (auth_nodes fns lengths p ok sk_seed pub_seed sub idx_leaf left h))
        ≡ left * p.n
  unfolding auth_nodes
  length-path_loop sub idx_leaf zero h = omega arith
  length-path_loop sub idx_leaf (suc left) h = omega (
    arith,
    length-append (node fns lengths p ok sk_seed pub_seed sub h (sibling idx_leaf h))
        (flatten_nodes (auth_nodes fns lengths p ok sk_seed pub_seed sub idx_leaf left (h + 1))),
    length-node fns lengths p ok sk_seed pub_seed sub h (sibling idx_leaf h),
    length-path_loop sub idx_leaf left (h + 1),
    suc-mul left p.n,
  )

  -- What signing writes for one layer, and how it leaves the address.
  pub sign_layer :
      (i idx : ℕ) (root : List ℕ) (ots_addr : Addr)
      → kind_part ots_addr ≡ set_type zero_addr addr_type_ots
      → let idx_leaf = leaf_of p idx in
        let sub = tree_at i (idx / 2 ^ p.tree_height) in
        let signed = wots_sign fns p (replicate p.wots_sig_bytes 0) root sk_seed pub_seed (
          set_ots_addr
            (set_tree_addr (set_layer_addr ots_addr i) (idx / 2 ^ p.tree_height))
            idx_leaf) in
        let tree = treehash fns p (blank_path p) sk_seed pub_seed idx_leaf signed.0 in
        (kind_part signed.0 ≡ set_type zero_addr addr_type_ots)
        × (signed.1 ≡ sigs root sub idx_leaf)
        × (tree.0 ≡ root_of sub)
        × (flatten_nodes tree.1 ≡ path_of sub idx_leaf)
  unfolding set_ots_addr set_tree_addr set_layer_addr set_type copy_subtree_addr
  sign_layer i idx root ots_addr ek =
      (ap kind_part signed.0, signed.1, tree.0, ap flatten_nodes tree.1)
    where
      idx_leaf : ℕ
      idx_leaf = leaf_of p idx

      sub : Addr
      sub = tree_at i (idx / 2 ^ p.tree_height)

      addr : Addr
      addr =
          set_ots_addr (set_tree_addr (set_layer_addr ots_addr i) (idx / 2 ^ p.tree_height))
            idx_leaf

      signed :
          let r = wots_sign fns p (replicate p.wots_sig_bytes 0) root sk_seed pub_seed addr in
          (ots_part r.0 ≡ ots_at sub idx_leaf) × (r.1 ≡ sigs root sub idx_leaf)
      signed =
          wots_sign_lem fns lengths p ok sk_seed pub_seed (ots_at sub idx_leaf)
            (replicate p.wots_sig_bytes 0) root addr
            (length-replicate p.wots_sig_bytes 0 ∙ ok.sig_len)
            (ap
              (λ c. ots_part (
                set_ots_addr (set_tree_addr (set_layer_addr c i) (idx / 2 ^ p.tree_height))
                  idx_leaf))
              ek)

      addr' : Addr
      addr' = (wots_sign fns p (replicate p.wots_sig_bytes 0) root sk_seed pub_seed addr).0

      tree :
          let r = treehash fns p (blank_path p) sk_seed pub_seed idx_leaf addr' in
          (r.0 ≡ root_of sub)
          × (r.1 ≡ auth_nodes fns lengths p ok sk_seed pub_seed sub idx_leaf p.tree_height 0)
      tree =
          treehash_lem fns lengths p ok sk_seed pub_seed sub idx_leaf (blank_path p) addr'
            (ap (λ c. copy_subtree_addr zero_addr c) signed.0) (leaf_of-lt p ok idx)
            (length-replicate p.tree_height (replicate p.n 0))

  -- What verification makes of it, whatever is behind it.
  pub open_layer :
      (i idx : ℕ) (root rest : List ℕ) (ots_addr ltree_addr node_addr : Addr)
      → kind_part ots_addr ≡ set_type zero_addr addr_type_ots
      → kind_part ltree_addr ≡ set_type zero_addr addr_type_ltree
      → tree_kind_part node_addr ≡ set_type zero_addr addr_type_hashtree
      → let idx_leaf = leaf_of p idx in
        let idx' = idx / 2 ^ p.tree_height in
        let sub = tree_at i idx' in
        let sm = sigs root sub idx_leaf ++ (path_of sub idx_leaf ++ rest) in
        let key =
          wots_pk_from_sig fns p sm root pub_seed
            (set_ots_addr (set_tree_addr (set_layer_addr ots_addr i) idx') idx_leaf) in
        let sm' = drop p.wots_sig_bytes sm in
        let made =
          l_tree fns p key.1 pub_seed
            (set_ltree_addr (set_tree_addr (set_layer_addr ltree_addr i) idx') idx_leaf) in
        let up =
          compute_root fns p root made.1 idx_leaf sm' pub_seed
            (set_tree_addr (set_layer_addr node_addr i) idx') in
        (kind_part key.0 ≡ set_type zero_addr addr_type_ots)
        × (kind_part made.0 ≡ set_type zero_addr addr_type_ltree)
        × (tree_kind_part up.0 ≡ set_type zero_addr addr_type_hashtree)
        × (up.1 ≡ root_of sub)
        × (drop (p.tree_height * p.n) sm' ≡ rest)
  unfolding set_ots_addr set_ltree_addr set_tree_addr set_layer_addr set_type copy_subtree_addr node
      leaf
  open_layer i idx root rest ots_addr ltree_addr node_addr eo el en = (
    ap kind_part key.0,
    ap kind_part made.1 ∙ el,
    ap tree_kind_part up.0,
    up.1,
    ap (drop (p.tree_height * p.n)) behind
        ∙ drop-append_length (p.tree_height * p.n) (path_of sub idx_leaf) rest
            (length-path_loop sub idx_leaf p.tree_height 0),
  )
    where
      idx_leaf : ℕ
      idx_leaf = leaf_of p idx

      idx' : ℕ
      idx' = idx / 2 ^ p.tree_height

      sub : Addr
      sub = tree_at i idx'

      behind :
          drop p.wots_sig_bytes (sigs root sub idx_leaf ++ (path_of sub idx_leaf ++ rest))
          ≡ path_of sub idx_leaf ++ rest
      behind =
          drop-append_length p.wots_sig_bytes (sigs root sub idx_leaf)
            (path_of sub idx_leaf ++ rest)
            (length-signatures fns lengths p ok sk_seed pub_seed (ots_at sub idx_leaf) root)

      key :
          let r =
            wots_pk_from_sig fns p
              (sigs root sub idx_leaf ++ (path_of sub idx_leaf ++ rest))
              root
              pub_seed
              (set_ots_addr (set_tree_addr (set_layer_addr ots_addr i) idx') idx_leaf) in
          (ots_part r.0 ≡ ots_at sub idx_leaf)
          × (r.1 ≡ publics fns lengths p ok sk_seed pub_seed (ots_at sub idx_leaf) p.wots_len 0)
      key =
          wots_pk_from_sig_lem fns lengths p ok sk_seed pub_seed (ots_at sub idx_leaf) root
            (path_of sub idx_leaf ++ rest) _
            (ap (λ c. ots_part (set_ots_addr (set_tree_addr (set_layer_addr c i) idx') idx_leaf))
              eo)

      pk : List ℕ
      pk =
          (wots_pk_from_sig fns p (sigs root sub idx_leaf ++ (path_of sub idx_leaf ++ rest)) root
            pub_seed (set_ots_addr (set_tree_addr (set_layer_addr ots_addr i) idx') idx_leaf)).1

      made :
          let addr = set_ltree_addr (set_tree_addr (set_layer_addr ltree_addr i) idx') idx_leaf in
          ((l_tree fns p pk pub_seed addr).1 ≡ (l_tree fns p pk pub_seed (ltree_at sub idx_leaf)).1)
          × (ots_part (l_tree fns p pk pub_seed addr).0 ≡ ots_part addr)
      made = l_tree_addr fns p pub_seed pk _ (ltree_at sub idx_leaf) (
          ap (λ c. ots_part (set_ltree_addr (set_tree_addr (set_layer_addr c i) idx') idx_leaf)) el)

      made_leaf : List ℕ
      made_leaf =
          (l_tree fns p pk pub_seed
            (set_ltree_addr (set_tree_addr (set_layer_addr ltree_addr i) idx') idx_leaf)).1

      is_leaf : made_leaf ≡ node fns lengths p ok sk_seed pub_seed sub 0 idx_leaf
      is_leaf = made.0 ∙ ap (λ t. (l_tree fns p t pub_seed (ltree_at sub idx_leaf)).1) key.1

      up :
          let r =
            compute_root fns p root made_leaf idx_leaf
              (drop p.wots_sig_bytes (sigs root sub idx_leaf ++ (path_of sub idx_leaf ++ rest)))
              pub_seed
              (set_tree_addr (set_layer_addr node_addr i) idx') in
          (ots_part r.0 ≡ typed_addr sub addr_type_hashtree) × (r.1 ≡ root_of sub)
      up = rw behind (
          compute_root_lem fns lengths p ok sk_seed pub_seed sub idx_leaf root made_leaf rest _
            (leaf_of-lt p ok idx) is_leaf
            (ap (λ c. ots_part (set_tree_addr (set_layer_addr c i) idx')) en))
