-- ===== src/Core/Correct.antt =====
-- xmss_core.c and xmss_commons.c: key generation, signing and verification together.
use xmss_reference.Base.{
  ℕ, ◌+◌, ◌-◌, ◌*◌, ◌^◌, ◌≤◌, ◌<◌, ◌≡◌, refl, sym, ap, ◌∙◌, List, ◌++◌, true, arith, length,
  length-append, length-replicate, take, drop, replicate, take-append_length, drop-append_length,
  take-append_le, length-take, length-drop,
}
use mathlib.Core.List.{append_assoc}
use native.Mathlib.Nat.{one-le-pow}
use xmss_reference.Utils.{ull_to_bytes}
use xmss_reference.Utils.RoundTrip.{length-ull_to_bytes}
use xmss_reference.Address.{zero_addr, set_layer_addr, set_tree_addr, copy_subtree_addr}
use xmss_reference.Params.{Params}
use xmss_reference.Params.Sets.{IsParams}
use xmss_reference.Hash.{HashFns, written, prf}
use xmss_reference.Hash.Lengths.{HasLengths, length-written, core_hash-Writes}
use xmss_reference.Commons.{slice, xmssmt_core_sign_open}
use xmss_reference.Commons.Tree.{length-node}
use xmss_reference.Commons.Seeds.{node_seed}
use xmss_reference.Core.{
  sign_with, xmssmt_core_sign, xmssmt_core_seed_keypair, treehash, blank_path,
}
use xmss_reference.Core.Index.{key_at, sign_free, last_index_lem}
use xmss_reference.Core.TreeHash.{treehash_lem}
use xmss_reference.Core.Layers.{tree_at}
use xmss_reference.Core.Opening.{digest, layers, key_root, open_lem}

module _ (fns : HashFns) (lengths : HasLengths fns) (p : Params) (ok : IsParams p) where
  -- The key pair of a seed: the root, and what stands behind the index in the secret key.
  tree_root : List ℕ → List ℕ
  tree_root seed =
      (treehash fns p (blank_path p) (take (2 * p.n) seed) (slice (2 * p.n) p.n seed) 0
        (set_layer_addr zero_addr (p.d - 1))).0

  keys_of : List ℕ → List ℕ
  keys_of seed = take (2 * p.n) seed ++ (tree_root seed ++ slice (2 * p.n) p.n seed)

  keypair_lem :
      (seed : List ℕ)
      → ((xmssmt_core_seed_keypair fns p seed).pk ≡ tree_root seed ++ slice (2 * p.n) p.n seed)
        × (drop p.index_bytes (xmssmt_core_seed_keypair fns p seed).sk ≡ keys_of seed)
  unfolding xmssmt_core_seed_keypair tree_root keys_of
  keypair_lem seed = (
    refl,
    drop-append_length p.index_bytes (replicate p.index_bytes 0) _
        (length-replicate p.index_bytes 0),
  )

  -- The tree of the secret key in use is that of the seed.
  tree_root_lem :
      (seed : List ℕ)
      → 2 * p.n ≤ length seed
      → tree_root seed ≡ key_root fns lengths p ok (keys_of seed) (slice (2 * p.n) p.n seed)
  unfolding tree_root keys_of set_layer_addr set_tree_addr copy_subtree_addr
  tree_root_lem seed h =
      (treehash_lem fns lengths p ok (take (2 * p.n) seed) (slice (2 * p.n) p.n seed)
        (tree_at (p.d - 1) 0) 0 (blank_path p) (set_layer_addr zero_addr (p.d - 1)) refl
        (one-le-pow p.tree_height 2 (omega arith))
        (length-replicate p.tree_height (replicate p.n 0))).0
      ∙ node_seed fns lengths p ok (take (2 * p.n) seed) (keys_of seed) (slice (2 * p.n) p.n seed)
          (sym (
            take-append_le p.n (take (2 * p.n) seed) _
              (omega (arith, length-take (2 * p.n) seed h))))
          (tree_at (p.d - 1) 0) p.tree_height 0

  -- The randomness of a signature.
  random : List ℕ → ℕ → List ℕ
  random keys idx = written (replicate p.n 0) (prf fns p (ull_to_bytes 32 idx) (drop p.n keys))

  length-random : (keys : List ℕ) (idx : ℕ) → length (random keys idx) ≡ p.n
  unfolding random prf
  length-random keys idx =
      length-written p.n (replicate p.n 0) (core_hash-Writes fns lengths p _ ok.hash_set)

  -- What signing writes.
  sign_with_lem :
      (keys root_pub pub_seed m : List ℕ) (idx : ℕ)
      → drop (2 * p.n) keys ≡ root_pub
      → drop (3 * p.n) keys ≡ pub_seed
      → let r = random keys idx in
        (sign_with fns p idx (key_at p idx keys) m).sm
        ≡ ull_to_bytes p.index_bytes idx
          ++ (r ++ (layers fns p keys pub_seed idx (digest fns p r root_pub idx m) ++ m))
  unfolding sign_with random digest
  sign_with_lem keys root_pub pub_seed m idx e2 e3 =
      rw
        (
          take-append_length p.index_bytes (ull_to_bytes p.index_bytes idx) keys
              (length-ull_to_bytes p.index_bytes idx),
          drop-append_length p.index_bytes (ull_to_bytes p.index_bytes idx) keys
              (length-ull_to_bytes p.index_bytes idx),
          e2,
          e3,
        )
        refl

  -- For the parameters of a set and any seed of 3n bytes, a signature that xmssmt_core_sign makes of
  -- any message, with the secret key that xmssmt_core_seed_keypair made of the seed at any index below
  -- the last one, is accepted by xmssmt_core_sign_open under the public key of the pair, which returns
  -- 0 and gives the message back. The signed message's length has to fit `unsigned long long`.
  pub sign_open-sign :
      (seed m : List ℕ) (idx : ℕ)
      → length seed ≡ 3 * p.n
      → idx < 2 ^ p.full_height - 1
      → p.sig_bytes + length m < 2 ^ 64
      → let pair = xmssmt_core_seed_keypair fns p seed in
        let s = xmssmt_core_sign fns p (key_at p idx (drop p.index_bytes pair.sk)) m in
        xmssmt_core_sign_open fns p s.sm s.smlen pair.pk
        ≡ record { ret = true; mlen = length m; m = m }
  unfolding sign_with keys_of
  sign_open-sign seed m idx ls hi hm =
      (λ j. xmssmt_core_sign_open fns p (sm_is j) (smlen_is j) (pk_is j))
      ∙ open_lem fns lengths p ok keys pub_seed (random keys idx) m idx (length-random keys idx)
          pub_length (omega arith) hm
    where
      keys : List ℕ
      keys = keys_of seed

      pub_seed : List ℕ
      pub_seed = slice (2 * p.n) p.n seed

      pk : List ℕ
      pk = key_root fns lengths p ok keys pub_seed ++ pub_seed

      pub_length : length pub_seed ≡ p.n
      pub_length = length-take p.n (drop (2 * p.n) seed) (omega (arith, length-drop (2 * p.n) seed))

      root_is : tree_root seed ≡ key_root fns lengths p ok keys pub_seed
      root_is = tree_root_lem seed (omega arith)

      pk_is : (xmssmt_core_seed_keypair fns p seed).pk ≡ pk
      pk_is = (keypair_lem seed).0 ∙ ap (λ t. t ++ pub_seed) root_is

      signed_is :
          xmssmt_core_sign fns p
            (key_at p idx (drop p.index_bytes (xmssmt_core_seed_keypair fns p seed).sk))
            m
          ≡ sign_with fns p idx (key_at p idx keys) m
      signed_is =
          ap (λ t. xmssmt_core_sign fns p (key_at p idx t) m) (keypair_lem seed).1
          ∙ sign_free fns p ok idx keys m (omega (arith, last_index_lem p ok))

      smlen_is :
          (xmssmt_core_sign fns p
            (key_at p idx (drop p.index_bytes (xmssmt_core_seed_keypair fns p seed).sk))
            m).smlen
          ≡ p.sig_bytes + length m
      smlen_is = ap (λ s. s.smlen) signed_is

      seeds_length : length (take (2 * p.n) seed) ≡ 2 * p.n
      seeds_length = length-take (2 * p.n) seed (omega arith)

      e2 : drop (2 * p.n) keys ≡ tree_root seed ++ pub_seed
      e2 =
          drop-append_length (2 * p.n) (take (2 * p.n) seed) (tree_root seed ++ pub_seed)
            seeds_length

      root_length : length (tree_root seed) ≡ p.n
      root_length =
          ap length root_is
          ∙ length-node fns lengths p ok keys pub_seed (tree_at (p.d - 1) 0) p.tree_height 0

      e3 : drop (3 * p.n) keys ≡ pub_seed
      e3 =
          ap (drop (3 * p.n)) (sym (append_assoc (take (2 * p.n) seed) (tree_root seed) pub_seed))
          ∙ drop-append_length (3 * p.n) (take (2 * p.n) seed ++ tree_root seed) pub_seed (
              omega (
                arith,
                length-append (take (2 * p.n) seed) (tree_root seed),
                seeds_length,
                root_length,
              ))

      sm_is :
          (xmssmt_core_sign fns p
            (key_at p idx (drop p.index_bytes (xmssmt_core_seed_keypair fns p seed).sk))
            m).sm
          ≡ ull_to_bytes p.index_bytes idx
            ++ (random keys idx
                ++ (layers fns p keys pub_seed idx (digest fns p (random keys idx) pk idx m) ++ m))
      sm_is =
          ap (λ s. s.sm) signed_is
          ∙ sign_with_lem keys pk pub_seed m idx (e2 ∙ ap (λ t. t ++ pub_seed) root_is) e3
