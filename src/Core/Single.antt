-- ===== src/Core/Single.antt =====
-- xmss_core.c: signing where there is one layer, as in XMSS.
use xmss_reference.Base.{
  ℕ, ◌-◌, ◌*◌, ◌/◌, ◌^◌, ◌<◌, ◌≡◌, refl, ap, ◌∙◌, arith, u32, bit_and, bit_and_mask, List, [], ◌++◌,
  drop, replicate, length-replicate, take-append_length, drop-append_length,
}
use mathlib.Core.List.{append-nil}
use native.Mathlib.Nat.{mod-eq_of_lt, div-eq_of_lt, pow-le-pow_right}
use xmss_reference.Utils.{ull_to_bytes}
use xmss_reference.Utils.RoundTrip.{length-ull_to_bytes}
use xmss_reference.Address.{
  Addr, zero_addr, addr_type_ots, set_type, set_ots_addr, set_layer_addr, set_tree_addr,
  copy_subtree_addr,
}
use xmss_reference.Params.{Params}
use xmss_reference.Params.Sets.{IsParams}
use xmss_reference.Hash.{HashFns, written, prf, hash_message}
use xmss_reference.Hash.Lengths.{HasLengths}
use xmss_reference.Wots.{wots_sign}
use xmss_reference.Wots.Subtree.{wots_sign-subtree}
use xmss_reference.Commons.Tree.{auth_nodes}
use xmss_reference.Core.{sign_layers, sign_with, treehash, blank_path, flatten_nodes}
use xmss_reference.Core.Index.{key_at}
use xmss_reference.Core.TreeHash.{treehash_lem}

module _ (fns : HashFns) (lengths : HasLengths fns) (p : Params) (ok : IsParams p) where
  abbrev pub ots_addr_of : ℕ → Addr
  ots_addr_of idx = set_ots_addr (set_type zero_addr addr_type_ots) idx

  -- A signature in the one tree.
  abbrev pub single_sig : List ℕ → List ℕ → ℕ → List ℕ → List ℕ
  single_sig sk_seed pub_seed idx root =
      (wots_sign fns p (replicate p.wots_sig_bytes 0) root sk_seed pub_seed (ots_addr_of idx)).1
      ++ flatten_nodes (auth_nodes fns lengths p ok sk_seed pub_seed zero_addr idx p.tree_height 0)

  module _ (sk_seed pub_seed : List ℕ) (idx : ℕ) (lt : idx < 2 ^ p.tree_height) where
    leaf_is : u32 (bit_and idx (2 ^ p.tree_height - 1)) ≡ idx
    leaf_is =
        let wide =
          pow-le-pow_right {n = 2} (omega arith) {i = p.tree_height} {j = 20} ok.height_max in
        ap u32 (bit_and_mask p.tree_height idx ∙ mod-eq_of_lt lt) ∙ mod-eq_of_lt (omega arith)

    no_tree : idx / 2 ^ p.tree_height ≡ 0
    no_tree = div-eq_of_lt lt

    layer_addr :
        set_ots_addr
          (set_tree_addr
            (set_layer_addr (set_type zero_addr addr_type_ots) 0)
            (idx / 2 ^ p.tree_height))
          (u32 (bit_and idx (2 ^ p.tree_height - 1)))
        ≡ ots_addr_of idx
    unfolding set_tree_addr set_layer_addr set_ots_addr set_type
    layer_addr = λ j.
        set_ots_addr
          (set_tree_addr (set_layer_addr (set_type zero_addr addr_type_ots) 0) (no_tree j))
          (leaf_is j)

    single_path :
        (root : List ℕ)
        → (treehash fns p
            (blank_path p)
            sk_seed
            pub_seed
            idx
            (wots_sign fns p
              (replicate p.wots_sig_bytes 0)
              root
              sk_seed
              pub_seed
              (ots_addr_of idx)).0).1
          ≡ auth_nodes fns lengths p ok sk_seed pub_seed zero_addr idx p.tree_height 0
    unfolding set_ots_addr set_type copy_subtree_addr
    single_path root =
        (treehash_lem fns lengths p ok sk_seed pub_seed zero_addr idx (blank_path p) _
          (wots_sign-subtree fns p pub_seed (replicate p.wots_sig_bytes 0) root sk_seed
            (ots_addr_of idx))
          lt (length-replicate p.tree_height (replicate p.n 0))).1

    single_layer :
        (root : List ℕ)
        → sign_layers fns p 1 0 idx root sk_seed pub_seed (set_type zero_addr addr_type_ots)
          ≡ single_sig sk_seed pub_seed idx root
    unfolding sign_layers
    single_layer root =
        let sign : Addr → Addr × List ℕ =
          λ a. wots_sign fns p (replicate p.wots_sig_bytes 0) root sk_seed pub_seed a in
        let path : ℕ → Addr → List (List ℕ) =
          λ leaf a. (treehash fns p (blank_path p) sk_seed pub_seed leaf a).1 in
        (λ j.
          (sign (layer_addr j)).1
          ++ (flatten_nodes (path (leaf_is j) (sign (layer_addr j)).0) ++ []))
        ∙ ap (λ t. (sign (ots_addr_of idx)).1 ++ t)
            (append-nil (flatten_nodes (path idx (sign (ots_addr_of idx)).0)))
        ∙ ap (λ t. (sign (ots_addr_of idx)).1 ++ flatten_nodes t) (single_path root)

  -- What signing writes.
  pub sign_with-single :
      (keys m : List ℕ) (idx : ℕ)
      → p.d ≡ 1
      → idx < 2 ^ p.tree_height
      → let r = written (replicate p.n 0) (prf fns p (ull_to_bytes 32 idx) (drop p.n keys)) in
        let root = written (replicate p.n 0) (hash_message fns p r (drop (2 * p.n) keys) idx m) in
        (sign_with fns p idx (key_at p idx keys) m).sm
        ≡ ull_to_bytes p.index_bytes idx
          ++ (r ++ (single_sig keys (drop (3 * p.n) keys) idx root ++ m))
  unfolding sign_with
  sign_with-single keys m idx one lt =
      let r = written (replicate p.n 0) (prf fns p (ull_to_bytes 32 idx) (drop p.n keys)) in
      let root = written (replicate p.n 0) (hash_message fns p r (drop (2 * p.n) keys) idx m) in
      rw
        (
          take-append_length p.index_bytes (ull_to_bytes p.index_bytes idx) keys
              (length-ull_to_bytes p.index_bytes idx),
          drop-append_length p.index_bytes (ull_to_bytes p.index_bytes idx) keys
              (length-ull_to_bytes p.index_bytes idx),
          ap
                (λ d.
                  sign_layers fns p d 0 idx root keys (drop (3 * p.n) keys)
                    (set_type zero_addr addr_type_ots))
                one
              ∙ single_layer keys (drop (3 * p.n) keys) idx lt root,
        )
        refl
