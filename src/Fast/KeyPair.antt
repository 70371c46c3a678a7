-- ===== src/Fast/KeyPair.antt =====
-- xmss_core_fast.c and xmss_core.c: the public keys that the two make of the same random bytes.
use xmss_reference.Base.{
  ℕ, zero, suc, ◌+◌, ◌-◌, ◌*◌, ◌/◌, ◌<◌, ◌≡◌, inl, refl, sym, ap, ◌∙◌, arith, List, ◌++◌, length,
  set, get_or_other, take, drop, replicate, length-replicate, take-append_length,
  drop-append_length, take_all,
}
use mathlib.Core.Path.{subst}
use native.Mathlib.Nat.{one-le-pow, zero-add}
use xmss_reference.Address.{Addr, zero_addr, set_layer_addr, copy_subtree_addr}
use xmss_reference.Params.{Params}
use xmss_reference.Params.Sets.{IsParams}
use xmss_reference.Hash.{HashFns}
use xmss_reference.Hash.Lengths.{HasLengths}
use xmss_reference.Wots.{wots_sign}
use xmss_reference.Wots.Subtree.{subtree_part, wots_sign-subtree}
use xmss_reference.Commons.{slice, write_at}
use xmss_reference.Core.{
  blank_path, treehash, xmss_core_keypair, xmssmt_core_keypair, xmssmt_core_seed_keypair,
}
use xmss_reference.Core.TreeHash.{treehash_lem}
use xmss_reference.Fast.{
  BdsState, instances, chunks, deserialize_insts, deserialize_state, xmssmt_deserialize_state,
}
use xmss_reference.Fast.Update.{treehash_init}
use xmss_reference.Fast.Sign.{xmss_fast_keypair}
use xmss_reference.Fast.SignMt.{
  blank_state, get_state, restart_states, keypair_layers, xmssmt_fast_keypair,
}
use xmss_reference.Fast.Init.{treehash_init_lem}

length-chunks : (count n : ℕ) (sk : List ℕ) → length (chunks count n sk) ≡ count
unfolding chunks
length-chunks zero n sk = refl
length-chunks (suc count) n sk = ap suc (length-chunks count n (drop n sk))

length-deserialize_insts :
    (p : Params) (left : ℕ) (sk : List ℕ) → length (deserialize_insts p left sk).0 ≡ left
unfolding deserialize_insts
length-deserialize_insts p zero sk = refl
length-deserialize_insts p (suc left) sk = ap suc (length-deserialize_insts p left _)

-- The arrays that treehash_init writes have the declared lengths.
record Sized (p : Params) (s : BdsState) : Type 0 where
  auth_len : length s.auth ≡ p.tree_height
  keep_len : length s.keep ≡ p.tree_height / 2
  inst_len : length s.treehash ≡ instances p

deserialize_state-Sized : (p : Params) (sk : List ℕ) → Sized p (deserialize_state p sk).0
unfolding deserialize_state
deserialize_state-Sized p sk = record {
  auth_len = length-chunks p.tree_height p.n _;
  keep_len = length-chunks (p.tree_height / 2) p.n _;
  inst_len = length-deserialize_insts p (instances p) _;
}

-- Any state of the key, with the two fields that key generation sets.
restarted-Sized :
    (p : Params) (count i : ℕ) (sk : List ℕ)
    → i < count
    → Sized p (get_state (restart_states (xmssmt_deserialize_state p count sk).0) i)
unfolding xmssmt_deserialize_state restart_states
restarted-Sized p zero i sk lt = absurd (omega arith)
restarted-Sized p (suc count) zero sk lt =
    let b = deserialize_state-Sized p sk in
    record { auth_len = b.auth_len; keep_len = b.keep_len; inst_len = b.inst_len }
restarted-Sized p (suc count) (suc i) sk lt = restarted-Sized p count i _ (omega arith)

module _ (fns : HashFns) (lengths : HasLengths fns) (p : Params) (ok : IsParams p) where
  -- The root that treehash_init makes is that of treehash.
  same_root :
      (s : BdsState) (seeds pub_seed : List ℕ) (addr : Addr)
      → Sized p s
      → subtree_part addr ≡ subtree_part (set_layer_addr zero_addr (p.d - 1))
      → (treehash_init fns p p.tree_height 0 s seeds pub_seed addr).0
        ≡ (treehash fns p (blank_path p) seeds pub_seed 0 (set_layer_addr zero_addr (p.d - 1))).0
  same_root s seeds pub_seed addr b same =
      let top = set_layer_addr zero_addr (p.d - 1) in
      (treehash_init_lem fns lengths p ok seeds pub_seed top s addr same b.auth_len b.keep_len
        b.inst_len).0
      ∙ sym
          (treehash_lem fns lengths p ok seeds pub_seed top 0 (blank_path p) top refl
            (one-le-pow p.tree_height 2 (omega arith))
            (length-replicate p.tree_height (replicate p.n 0))).0

  core_pk :
      (seeds pub_seed : List ℕ)
      → length seeds ≡ 2 * p.n
      → length pub_seed ≡ p.n
      → (xmssmt_core_seed_keypair fns p (seeds ++ pub_seed)).pk
        ≡ (treehash fns p (blank_path p) seeds pub_seed 0 (set_layer_addr zero_addr (p.d - 1))).0
          ++ pub_seed
  unfolding xmssmt_core_seed_keypair
  core_pk seeds pub_seed ls lp =
      let behind : slice (2 * p.n) p.n (seeds ++ pub_seed) ≡ pub_seed =
        ap (take p.n) (drop-append_length (2 * p.n) seeds pub_seed ls) ∙ take_all p.n pub_seed lp in
      rw (take-append_length (2 * p.n) seeds pub_seed ls, behind) refl

  -- For the parameters of an XMSS set, xmss_core_keypair of xmss_core_fast.c and that of xmss_core.c
  -- make the same public key, if the bytes that the former takes in two calls of randombytes, of the
  -- lengths asked for, are those that the latter takes in one; what the buffer of the secret key held
  -- does not matter.
  pub xmss_fast_keypair-pk :
      (randombytes : ℕ → ℕ → List ℕ) (once : ℕ → List ℕ) (sk : List ℕ)
      → p.d ≡ 1
      → length (randombytes 0 (2 * p.n)) ≡ 2 * p.n
      → length (randombytes 1 p.n) ≡ p.n
      → once (3 * p.n) ≡ randombytes 0 (2 * p.n) ++ randombytes 1 p.n
      → (xmss_fast_keypair fns randombytes p sk).pk ≡ (xmss_core_keypair fns once p).pk
  unfolding xmss_fast_keypair xmss_core_keypair xmssmt_core_keypair copy_subtree_addr set_layer_addr
  xmss_fast_keypair-pk randombytes once sk one ls lp same =
      let seeds = randombytes 0 (2 * p.n) in
      let pub_seed = randombytes 1 p.n in
      let b = deserialize_state-Sized p (drop (p.index_bytes + 4 * p.n) sk) in
      let top : 0 ≡ p.d - 1 = omega arith in
      rw same (
        ap (λ t. t ++ pub_seed)
          (same_root _ seeds pub_seed zero_addr
            (record { auth_len = b.auth_len; keep_len = b.keep_len; inst_len = b.inst_len })
            (ap (λ t. subtree_part (set_layer_addr zero_addr t)) top))
        ∙ sym (core_pk seeds pub_seed ls lp))

  abbrev layer_part : ℕ → Addr
  layer_part i = subtree_part (set_layer_addr zero_addr i)

  -- The loop leaves the states of the layers from the last one on alone, and its address names that
  -- layer in the end.
  keypair_layers_lem :
      (left i : ℕ) (states : List BdsState) (sigs seeds pub_seed : List ℕ) (addr : Addr)
      → subtree_part addr ≡ layer_part i
      → (get_state (keypair_layers fns p left i states sigs seeds pub_seed addr).0 (left + i)
          ≡ get_state states (left + i))
        × (subtree_part (keypair_layers fns p left i states sigs seeds pub_seed addr).2
            ≡ layer_part (left + i))
  unfolding keypair_layers copy_subtree_addr set_layer_addr
  keypair_layers_lem zero i states sigs seeds pub_seed addr e =
      (refl, e ∙ ap layer_part (sym (zero-add i)))
  keypair_layers_lem (suc left) i states sigs seeds pub_seed addr e =
      let up : left + (i + 1) ≡ suc left + i = omega arith in
      let (root, s) =
        treehash_init fns p p.tree_height 0 (get_state states i) seeds pub_seed addr in
      let sig = slice (i * p.wots_sig_bytes) p.wots_sig_bytes sigs in
      let (addr', made) = wots_sign fns p sig root seeds pub_seed (set_layer_addr addr (i + 1)) in
      let rest =
        keypair_layers_lem left (i + 1) (set states i s) (write_at (i * p.wots_sig_bytes) made sigs)
          seeds pub_seed addr'
          (wots_sign-subtree fns p pub_seed sig root seeds (set_layer_addr addr (i + 1))
            ∙ ap (λ c. subtree_part (set_layer_addr c (i + 1))) e) in
      let r = keypair_layers fns p (suc left) i states sigs seeds pub_seed addr in
      (
        ap (get_state r.0) (sym up)
            ∙ rest.0
            ∙ ap (get_state (set states i s)) up
            ∙ get_or_other states i (suc left + i) s blank_state (inl (omega arith)),
        rest.1 ∙ ap layer_part up,
      )

  -- For the parameters of a set, xmssmt_core_keypair of xmss_core_fast.c and that of xmss_core.c make
  -- the same public key, if the bytes that the former takes in two calls of randombytes, of the lengths
  -- asked for, are those that the latter takes in one; what the buffer of the secret key held does not
  -- matter.
  pub xmssmt_fast_keypair-pk :
      (randombytes : ℕ → ℕ → List ℕ) (once : ℕ → List ℕ) (sk : List ℕ)
      → length (randombytes 0 (2 * p.n)) ≡ 2 * p.n
      → length (randombytes 1 p.n) ≡ p.n
      → once (3 * p.n) ≡ randombytes 0 (2 * p.n) ++ randombytes 1 p.n
      → (xmssmt_fast_keypair fns randombytes p sk).pk ≡ (xmssmt_core_keypair fns once p).pk
  unfolding xmssmt_fast_keypair xmssmt_core_keypair
  xmssmt_fast_keypair-pk randombytes once sk ls lp same =
      let seeds = randombytes 0 (2 * p.n) in
      let pub_seed = randombytes 1 p.n in
      let (old, sigs) =
        xmssmt_deserialize_state p (2 * p.d - 1) (drop (p.index_bytes + 4 * p.n) sk) in
      let states = restart_states old in
      let addr = set_layer_addr zero_addr 0 in
      let made = keypair_layers fns p (p.d - 1) 0 states sigs seeds pub_seed addr in
      let (kept, at_top) = keypair_layers_lem (p.d - 1) 0 states sigs seeds pub_seed addr refl in
      let top : p.d - 1 + 0 ≡ p.d - 1 = omega arith in
      let b =
        restarted-Sized p (2 * p.d - 1) (p.d - 1) (drop (p.index_bytes + 4 * p.n) sk)
          (omega (arith, ok.one_layer)) in
      let top_state : get_state made.0 (p.d - 1) ≡ get_state states (p.d - 1) =
        ap (get_state made.0) (sym top) ∙ kept ∙ ap (get_state states) top in
      rw same (
        ap (λ t. t ++ pub_seed)
          (same_root (get_state made.0 (p.d - 1)) seeds pub_seed made.2
            (subst (Sized p) (sym top_state) b) (at_top ∙ ap layer_part top))
        ∙ sym (core_pk seeds pub_seed ls lp))
