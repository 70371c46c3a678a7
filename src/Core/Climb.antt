-- ===== src/Core/Climb.antt =====
-- xmss_core.c and xmss_commons.c: the loops of signing and verification over the layers.
use xmss_reference.Base.{
  ℕ, zero, suc, ◌+◌, ◌*◌, ◌/◌, ◌^◌, ◌<◌, ◌≡◌, refl, sym, ap, ap₂, ◌∙◌, List, ◌++◌, arith, length,
  length-append, drop, replicate, pow_over,
}
use mathlib.Core.List.{append_assoc}
use native.Mathlib.Nat.{zero-add, suc-mul, one-le-pow, div-lt_iff_lt-mul}
use xmss_reference.Address.{
  Addr, zero_addr, addr_type_ots, addr_type_ltree, addr_type_hashtree, set_layer_addr,
  set_tree_addr, set_type, set_ots_addr, set_ltree_addr,
}
use xmss_reference.Params.{Params}
use xmss_reference.Params.Sets.{IsParams}
use xmss_reference.Hash.{HashFns}
use xmss_reference.Hash.Lengths.{HasLengths}
use xmss_reference.Wots.{wots_sign, wots_pk_from_sig}
use xmss_reference.Wots.Correct.{length-signatures}
use xmss_reference.Commons.Tree.{ots_at}
use xmss_reference.Commons.{l_tree, compute_root, open_loop}
use xmss_reference.Core.{sign_layers}
use xmss_reference.Core.Layers.{
  tree_at, kind_part, tree_kind_part, leaf_of, root_of, sigs, path_of, sign_layer, open_layer,
  length-path_loop,
}

module _ (fns : HashFns) (lengths : HasLengths fns) (p : Params) (ok : IsParams p)
    (sk_seed pub_seed : List ℕ) where
  -- The root of the last of `left` layers from `i` on.
  pub top_root : ℕ → ℕ → ℕ → List ℕ → List ℕ
  top_root zero i idx root = root
  top_root (suc left) i idx root =
      let idx' = idx / 2 ^ p.tree_height in
      top_root left (i + 1) idx' (root_of fns lengths p ok sk_seed pub_seed (tree_at i idx'))

  -- One round of verification, for the layer that signing wrote.
  open_step :
      (left i idx : ℕ) (root rest : List ℕ) (ots_addr ltree_addr node_addr : Addr) (top : List ℕ)
      (behind : List ℕ)
      → kind_part ots_addr ≡ set_type zero_addr addr_type_ots
      → kind_part ltree_addr ≡ set_type zero_addr addr_type_ltree
      → tree_kind_part node_addr ≡ set_type zero_addr addr_type_hashtree
      → let idx' = idx / 2 ^ p.tree_height in
        let sub = tree_at i idx' in
        let sig = sigs fns lengths p ok sk_seed pub_seed root sub (leaf_of p idx) in
        let path = path_of fns lengths p ok sk_seed pub_seed sub (leaf_of p idx) in
        let r =
          open_loop fns p
            (suc left)
            i
            idx
            root
            (sig ++ (path ++ rest))
            pub_seed
            ots_addr
            ltree_addr
            node_addr in
        ((o l t : Addr)
          → kind_part o ≡ set_type zero_addr addr_type_ots
          → kind_part l ≡ set_type zero_addr addr_type_ltree
          → tree_kind_part t ≡ set_type zero_addr addr_type_hashtree
          → let root' = root_of fns lengths p ok sk_seed pub_seed sub in
            let next = open_loop fns p left (i + 1) idx' root' rest pub_seed o l t in
            (next.0 ≡ top) × (next.1 ≡ behind))
        → (r.0 ≡ top) × (r.1 ≡ behind)
  unfolding open_loop
  open_step left i idx root rest oa la na top behind eo el en next =
      let layer = open_layer fns lengths p ok sk_seed pub_seed i idx root rest oa la na eo el en in
      let idx_leaf = leaf_of p idx in
      let idx' = idx / 2 ^ p.tree_height in
      let sub = tree_at i idx' in
      let sm =
        sigs fns lengths p ok sk_seed pub_seed root sub idx_leaf
        ++ (path_of fns lengths p ok sk_seed pub_seed sub idx_leaf ++ rest) in
      let key =
        wots_pk_from_sig fns p sm root pub_seed
          (set_ots_addr (set_tree_addr (set_layer_addr oa i) idx') idx_leaf) in
      let made =
        l_tree fns p key.1 pub_seed
          (set_ltree_addr (set_tree_addr (set_layer_addr la i) idx') idx_leaf) in
      let up =
        compute_root fns p root made.1 idx_leaf (drop p.wots_sig_bytes sm) pub_seed
          (set_tree_addr (set_layer_addr na i) idx') in
      let rounds = λ (root' : List ℕ) (sm' : List ℕ).
        open_loop fns p left (i + 1) idx' root' sm' pub_seed key.0 made.0 up.0 in
      let later = next key.0 made.0 up.0 layer.0 layer.1 layer.2 in
      (
        (λ j. (rounds (layer.3 j) (layer.4 j)).0) ∙ later.0,
        (λ j. (rounds (layer.3 j) (layer.4 j)).1) ∙ later.1,
      )

  pub open_loop-sign_layers :
      (left i idx : ℕ) (root rest : List ℕ) (sign_addr ots_addr ltree_addr node_addr : Addr)
      → kind_part sign_addr ≡ set_type zero_addr addr_type_ots
      → kind_part ots_addr ≡ set_type zero_addr addr_type_ots
      → kind_part ltree_addr ≡ set_type zero_addr addr_type_ltree
      → tree_kind_part node_addr ≡ set_type zero_addr addr_type_hashtree
      → let sm = sign_layers fns p left i idx root sk_seed pub_seed sign_addr ++ rest in
        let r = open_loop fns p left i idx root sm pub_seed ots_addr ltree_addr node_addr in
        (r.0 ≡ top_root left i idx root) × (r.1 ≡ rest)
  unfolding open_loop sign_layers top_root
  open_loop-sign_layers zero i idx root rest sa oa la na es eo el en = (refl, refl)
  open_loop-sign_layers (suc left) i idx root rest sa oa la na es eo el en =
      let idx' = idx / 2 ^ p.tree_height in
      let s = sign_layer fns lengths p ok sk_seed pub_seed i idx root sa es in
      let sub = tree_at i idx' in
      let addr =
        (wots_sign fns p (replicate p.wots_sig_bytes 0) root sk_seed pub_seed
          (set_ots_addr (set_tree_addr (set_layer_addr sa i) idx') (leaf_of p idx))).0 in
      let more =
        sign_layers fns p left (i + 1) idx' (root_of fns lengths p ok sk_seed pub_seed sub) sk_seed
          pub_seed addr in
      let sig = sigs fns lengths p ok sk_seed pub_seed root sub (leaf_of p idx) in
      let path = path_of fns lengths p ok sk_seed pub_seed sub (leaf_of p idx) in
      rw (s.1, s.2, s.3, append_assoc sig (path ++ more) rest, append_assoc path more rest)
        (open_step left i idx root (more ++ rest) oa la na _ rest eo el en (λ o l t eo' el' en'.
          open_loop-sign_layers left (i + 1) idx' _ rest addr o l t s.0 eo' el' en'))

  -- Under the top tree, the index of every tree is 0.
  pub top_root_lem :
      (left i idx : ℕ) (root : List ℕ)
      → idx < 2 ^ (suc left * p.tree_height)
      → top_root (suc left) i idx root
        ≡ root_of fns lengths p ok sk_seed pub_seed (tree_at (left + i) 0)
  unfolding top_root
  top_root_lem zero i idx root h =
      let one : 1 * p.tree_height ≡ p.tree_height = omega arith in
      let small : idx / 2 ^ p.tree_height < 1 =
        (div-lt_iff_lt-mul (one-le-pow p.tree_height 2 (omega arith))).1
          (omega (arith, ap (λ (t : ℕ). 2 ^ t) one)) in
      let none : idx / 2 ^ p.tree_height ≡ 0 = omega arith in
      ap₂ (λ t u. root_of fns lengths p ok sk_seed pub_seed (tree_at t u)) (sym (zero-add i)) none
  top_root_lem (suc left) i idx root h =
      let split : 2 ^ (suc (suc left) * p.tree_height)
          ≡ 2 ^ (suc left * p.tree_height) * 2 ^ p.tree_height =
        ap (λ (t : ℕ). 2 ^ t) (suc-mul (suc left) p.tree_height)
        ∙ pow_over (suc left * p.tree_height) p.tree_height in
      let up : left + (i + 1) ≡ suc left + i = omega arith in
      top_root_lem left (i + 1) (idx / 2 ^ p.tree_height)
        (root_of fns lengths p ok sk_seed pub_seed (tree_at i (idx / 2 ^ p.tree_height)))
        ((div-lt_iff_lt-mul (one-le-pow p.tree_height 2 (omega arith))).1 (omega arith))
      ∙ ap (λ t. root_of fns lengths p ok sk_seed pub_seed (tree_at t 0)) up

  pub length-sign_layers :
      (left i idx : ℕ) (root : List ℕ) (sign_addr : Addr)
      → kind_part sign_addr ≡ set_type zero_addr addr_type_ots
      → length (sign_layers fns p left i idx root sk_seed pub_seed sign_addr)
        ≡ left * (p.wots_sig_bytes + p.tree_height * p.n)
  unfolding sign_layers
  length-sign_layers zero i idx root sa es = omega arith
  length-sign_layers (suc left) i idx root sa es =
      let idx' = idx / 2 ^ p.tree_height in
      let s = sign_layer fns lengths p ok sk_seed pub_seed i idx root sa es in
      let sub = tree_at i idx' in
      let addr =
        (wots_sign fns p (replicate p.wots_sig_bytes 0) root sk_seed pub_seed
          (set_ots_addr (set_tree_addr (set_layer_addr sa i) idx') (leaf_of p idx))).0 in
      let root' = root_of fns lengths p ok sk_seed pub_seed sub in
      let more = sign_layers fns p left (i + 1) idx' root' sk_seed pub_seed addr in
      let sig = sigs fns lengths p ok sk_seed pub_seed root sub (leaf_of p idx) in
      let path = path_of fns lengths p ok sk_seed pub_seed sub (leaf_of p idx) in
      rw (s.1, s.2, s.3)
        (omega (
          arith,
          length-append sig (path ++ more),
          length-append path more,
          length-signatures fns lengths p ok sk_seed pub_seed (ots_at sub (leaf_of p idx)) root,
          length-path_loop fns lengths p ok sk_seed pub_seed sub (leaf_of p idx) p.tree_height 0,
          length-sign_layers left (i + 1) idx' root' addr s.0,
          suc-mul left (p.wots_sig_bytes + p.tree_height * p.n),
        ))
