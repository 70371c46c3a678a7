-- ===== src/Commons/Seeds.antt =====
-- The secret seed of the tree, for which the code passes a pointer into the secret key: its first `n`
-- bytes.
use xmss_reference.Base.{ℕ, zero, suc, ◌+◌, ◌-◌, ◌*◌, ◌≡◌, refl, ap₂, List, [], ◌∷◌, ◌++◌, take}
use xmss_reference.Address.{Addr, addr_to_bytes, addr_type_hashtree}
use xmss_reference.Params.{Params}
use xmss_reference.Params.Sets.{IsParams}
use xmss_reference.Hash.{HashFns, prf_keygen, core_hash, written, padding_prf_keygen}
use xmss_reference.Hash.Lengths.{HasLengths}
use xmss_reference.Utils.{ull_to_bytes}
use xmss_reference.Wots.Chain.{links}
use xmss_reference.Wots.Keys.{chain_addr, seed, signed, publics}
use xmss_reference.Commons.{l_tree}
use xmss_reference.Commons.Tree.{
  typed_addr, ots_at, ltree_at, parent, leaf, node, auth_nodes, sibling,
}

module _ (fns : HashFns) (lengths : HasLengths fns) (p : Params) (ok : IsParams p)
    (k k' pub_seed : List ℕ) (same : take p.n k ≡ take p.n k') where
  signed_seed :
      (base : Addr) (steps i : ℕ)
      → signed fns lengths p ok k pub_seed base steps i
        ≡ signed fns lengths p ok k' pub_seed base steps i
  unfolding signed seed prf_keygen
  signed_seed base steps i = λ j. links fns p pub_seed (chain_addr base i) 0 steps (
      written [] (
        core_hash fns p (
          ull_to_bytes p.padding_len padding_prf_keygen
          ++ (same j ++ take (p.n + 32) (take p.n pub_seed ++ addr_to_bytes (chain_addr base i))))))

  publics_seed :
      (base : Addr) (left i : ℕ)
      → publics fns lengths p ok k pub_seed base left i
        ≡ publics fns lengths p ok k' pub_seed base left i
  unfolding publics
  publics_seed base zero i = refl
  publics_seed base (suc left) i =
      ap₂ ◌++◌ (signed_seed base (p.wots_w - 1) i) (publics_seed base left (i + 1))

  pub node_seed :
      (sub : Addr) (h j : ℕ)
      → node fns lengths p ok k pub_seed sub h j ≡ node fns lengths p ok k' pub_seed sub h j
  unfolding node leaf
  node_seed sub zero j =
      λ t. (l_tree fns p (publics_seed (ots_at sub j) p.wots_len 0 t) pub_seed (ltree_at sub j)).1
  node_seed sub (suc h) j = λ t.
      parent fns p pub_seed (typed_addr sub addr_type_hashtree) h j
        (node_seed sub h (2 * j) t ++ node_seed sub h (2 * j + 1) t)

  pub auth_nodes_seed :
      (sub : Addr) (leaf_idx left h : ℕ)
      → auth_nodes fns lengths p ok k pub_seed sub leaf_idx left h
        ≡ auth_nodes fns lengths p ok k' pub_seed sub leaf_idx left h
  unfolding auth_nodes
  auth_nodes_seed sub leaf_idx zero h = refl
  auth_nodes_seed sub leaf_idx (suc left) h =
      ap₂ ◌∷◌ (node_seed sub h (sibling leaf_idx h)) (auth_nodes_seed sub leaf_idx left (h + 1))
