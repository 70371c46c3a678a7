-- ===== src/Fast/SignMt.antt =====
-- xmss_core_fast.c: key generation and signing for XMSS^MT. There are 2d - 1 states, for the tree in
-- use on each layer and, from number d on, for the next tree of each layer but the top one, and behind
-- them stand the WOTS signatures of the roots of the trees in use.
use xmss_reference.Base.{
  ℕ, zero, suc, ◌+◌, ◌-◌, ◌*◌, ◌/◌, ◌^◌, ◌&&◌, Option, none, some, List, [], ◌∷◌, ◌++◌, bit_and,
  length, take, drop, replicate, get_or, set, ltb, leb, ◌==◌, if◌then◌else◌, u32, u64,
}
use xmss_reference.Utils.{ull_to_bytes, bytes_to_ull}
use xmss_reference.Address.{
  Addr, zero_addr, addr_type_ots, set_type, set_ots_addr, set_layer_addr, set_tree_addr,
}
use xmss_reference.Params.{Params}
use xmss_reference.Hash.{HashFns, written, prf, hash_message}
use xmss_reference.Wots.{wots_sign}
use xmss_reference.Commons.{slice, write_at}
use xmss_reference.Core.{KeyPair, last_index, check_index, flatten_nodes}
use xmss_reference.Fast.{
  TreehashInst, BdsState, instances, xmssmt_serialize_state, xmssmt_deserialize_state,
  deep_state_swap,
}
use xmss_reference.Fast.Update.{treehash_init, bds_treehash_update, bds_state_update}
use xmss_reference.Fast.Round.{bds_round}
use xmss_reference.Fast.Sign.{FastSigned, idx_to_bytes, erase_state}

abbrev pub blank_state : BdsState
blank_state = record {
  stack = [];
  stackoffset = 0;
  stacklevels = [];
  auth = [];
  keep = [];
  treehash = [];
  retain = [];
  next_leaf = 0;
}

abbrev pub get_state : List BdsState → ℕ → BdsState
get_state states i = get_or states i blank_state

unfoldable pub restart_states : List BdsState → List BdsState
restart_states [] = []
restart_states (s ∷ states) = record s { stackoffset = 0; next_leaf = 0 } ∷ restart_states states

unfoldable pub erase_states : Params → List BdsState → List BdsState
erase_states p [] = []
erase_states p (s ∷ states) = erase_state p s ∷ erase_states p states

-- The loop `states[i].treehash[j].completed = 1`.
unfoldable pub complete_insts : List TreehashInst → List TreehashInst
complete_insts [] = []
complete_insts (t ∷ ts) = record t { completed = 1 } ∷ complete_insts ts

-- The state behind a call of bds_state_update on `s`, whose return value is not looked at.
unfoldable pub or_unchanged : BdsState → Option BdsState → BdsState
or_unchanged s none = s
or_unchanged s (some s') = s'

-- The variables of the loop over the layers; `nextswap` is `needswap_upto + 1`.
pub record Layers : Type 0 where
  pub states : List BdsState
  pub wots_sigs : List ℕ
  pub addr : Addr
  pub ots_addr : Addr
  pub updates : ℕ
  pub nextswap : ℕ

-- The signatures and authentication paths of the layers from `i` on, with `left` to go.
unfoldable pub copy_layers : Params → ℕ → ℕ → List BdsState → List ℕ → List ℕ
copy_layers p zero i states wots_sigs = []
copy_layers p (suc left) i states wots_sigs =
    slice ((i - 1) * p.wots_sig_bytes) p.wots_sig_bytes wots_sigs
    ++ (flatten_nodes (get_state states i).auth ++ copy_layers p left (i + 1) states wots_sigs)

module _ (fns : HashFns) where
  -- The loop of key generation over the layers below the top one: the states, the signatures, and the
  -- address. `left` of `d - 1` are to go.
  unfoldable pub keypair_layers :
      Params
      → ℕ
      → ℕ
      → List BdsState
      → List ℕ
      → List ℕ
      → List ℕ
      → Addr
      → List BdsState × List ℕ × Addr
  keypair_layers p zero i states wots_sigs sk_seed pub_seed addr = (states, wots_sigs, addr)
  keypair_layers p (suc left) i states wots_sigs sk_seed pub_seed addr =
      let (root, s) =
        treehash_init fns p p.tree_height 0 (get_state states i) sk_seed pub_seed addr in
      let (addr', sig) =
        wots_sign fns p (slice (i * p.wots_sig_bytes) p.wots_sig_bytes wots_sigs) root sk_seed
          pub_seed (set_layer_addr addr (i + 1)) in
      keypair_layers p left (i + 1) (set states i s) (write_at (i * p.wots_sig_bytes) sig wots_sigs)
        sk_seed pub_seed addr'

  -- `xmssmt_core_keypair`. `sk` is what the buffer for the secret key holds before.
  unfoldable pub xmssmt_fast_keypair : (ℕ → ℕ → List ℕ) → Params → List ℕ → KeyPair
  unfolding keypair_layers
  xmssmt_fast_keypair randombytes p sk =
      let (old, old_sigs) =
        xmssmt_deserialize_state p (2 * p.d - 1) (drop (p.index_bytes + 4 * p.n) sk) in
      let seeds = randombytes 0 (2 * p.n) in
      let pub_seed = randombytes 1 p.n in
      let (states, wots_sigs, addr) =
        keypair_layers p (p.d - 1) 0 (restart_states old) old_sigs seeds pub_seed
          (set_layer_addr zero_addr 0) in
      let (root, s) =
        treehash_init fns p p.tree_height 0 (get_state states (p.d - 1)) seeds pub_seed addr in
      record {
        pk = root ++ pub_seed;
        sk =
            replicate p.index_bytes 0
            ++ (seeds
                ++ (root
                    ++ (pub_seed ++ xmssmt_serialize_state (set states (p.d - 1) s) wots_sigs)));
      }

  -- A layer that is not at the end of a tree: the traversal goes on by one leaf, and the next tree of
  -- the layer by one leaf if there are updates left. A return of -1 leaves the next tree alone, and
  -- counts as an update all the same.
  unfoldable pub advance_layer : Params → ℕ → ℕ → List ℕ → List ℕ → Layers → Layers
  advance_layer p idx i sk_seed pub_seed l =
      let idx_leaf = u32 (bit_and (idx / 2 ^ (p.tree_height * i)) (2 ^ p.tree_height - 1)) in
      let idx_tree = idx / 2 ^ (p.tree_height * (i + 1)) in
      let addr = set_tree_addr (set_layer_addr l.addr i) idx_tree in
      let s = get_state l.states i in
      let s' = if i == l.nextswap then bds_round fns p s idx_leaf sk_seed pub_seed addr else s in
      let (s'', updates) = bds_treehash_update fns p s' l.updates sk_seed pub_seed addr in
      let states = set l.states i s'' in
      let addr' = set_tree_addr addr (idx_tree + 1) in
      let next = get_state states (p.d + i) in
      let next' = or_unchanged next (bds_state_update fns p next sk_seed pub_seed addr') in
      let moved = record l { states = states; addr = addr'; updates = updates } in
      if ltb ((1 + idx_tree) * 2 ^ p.tree_height + idx_leaf)
          (2 ^ (p.full_height - p.tree_height * i))
        && ltb 0 i
        && ltb 0 updates
        && ltb next.next_leaf (2 ^ p.full_height)
      then record moved { states = set states (p.d + i) next'; updates = updates - 1 }
      else moved

  -- A layer at the end of a tree: the next tree comes into use, its root is signed on the layer above,
  -- and the next tree after it is begun.
  unfoldable pub swap_layer : Params → ℕ → ℕ → List ℕ → List ℕ → Layers → Layers
  swap_layer p idx i sk_seed pub_seed l =
      let (next, current) = deep_state_swap (get_state l.states (p.d + i)) (get_state l.states i) in
      let leaf = u32 (bit_and (idx / 2 ^ ((i + 1) * p.tree_height) + 1) (2 ^ p.tree_height - 1)) in
      let (ots_addr, sig) =
        wots_sign fns p (slice (i * p.wots_sig_bytes) p.wots_sig_bytes l.wots_sigs)
          (get_or current.stack 0 []) sk_seed pub_seed
          (set_ots_addr
            (set_tree_addr (set_layer_addr l.ots_addr (i + 1))
              ((idx + 1) / 2 ^ ((i + 2) * p.tree_height)))
            leaf) in
      record l {
        states =
            set (set l.states (p.d + i) (record next { stackoffset = 0; next_leaf = 0 })) i
              (record current { treehash = complete_insts current.treehash });
        wots_sigs = write_at (i * p.wots_sig_bytes) sig l.wots_sigs;
        ots_addr = ots_addr;
        updates = u32 (l.updates + 2 ^ 32 - 1);
        nextswap = i + 1;
      }

  -- The loop over the layers, with `left` to go.
  unfoldable pub sign_layers_mt : Params → ℕ → ℕ → ℕ → List ℕ → List ℕ → Layers → Layers
  unfolding advance_layer swap_layer
  sign_layers_mt p idx zero i sk_seed pub_seed l = l
  sign_layers_mt p idx (suc left) i sk_seed pub_seed l =
      sign_layers_mt p idx left (i + 1) sk_seed pub_seed (
        if bit_and (idx + 1) (2 ^ ((i + 1) * p.tree_height) - 1) == 0
        then (if ltb idx (last_index p) then swap_layer p idx i sk_seed pub_seed l else l)
        else advance_layer p idx i sk_seed pub_seed l)

  -- `xmssmt_core_sign`
  unfoldable pub xmssmt_fast_sign : Params → List ℕ → List ℕ → FastSigned
  unfolding sign_layers_mt
  xmssmt_fast_sign p sk m =
      let (loaded, loaded_sigs) =
        xmssmt_deserialize_state p (2 * p.d - 1) (drop (p.index_bytes + 4 * p.n) sk) in
      let idx = bytes_to_ull sk p.index_bytes in
      let (sk', used_up) = check_index p idx sk in
      let last = leb (last_index p) idx in
      let states = if last then erase_states p loaded else loaded in
      let wots_sigs = if last then replicate ((p.d - 1) * p.wots_sig_bytes) 0 else loaded_sigs in
      let keys = take (4 * p.n) (drop p.index_bytes sk') in
      let sk_seed = take p.n keys in
      let sk_prf = take p.n (drop p.n keys) in
      let pub_root = drop (2 * p.n) keys in
      let pub_seed = take p.n (drop (3 * p.n) keys) in
      let r = written (replicate p.n 0) (prf fns p (ull_to_bytes 32 idx) sk_prf) in
      let msg_h = written (replicate p.n 0) (hash_message fns p r pub_root idx m) in
      let idx_tree = idx / 2 ^ p.tree_height in
      let idx_leaf = u32 (bit_and idx (2 ^ p.tree_height - 1)) in
      let (ots_addr, sig) = wots_sign fns p (replicate p.wots_sig_bytes 0) msg_h sk_seed pub_seed (
        set_ots_addr (set_tree_addr (set_layer_addr (set_type zero_addr addr_type_ots) 0) idx_tree)
          idx_leaf) in
      let smlen = p.index_bytes + p.n + p.d * (p.wots_sig_bytes + p.tree_height * p.n) + length m in
      let sm =
        idx_to_bytes p.index_bytes idx
        ++ (r
            ++ (sig
                ++ (flatten_nodes (get_state states 0).auth
                    ++ (copy_layers p (p.d - 1) 1 states wots_sigs ++ m)))) in
      let addr = set_tree_addr zero_addr (idx_tree + 1) in
      let next = get_state states p.d in
      let next' = or_unchanged next (bds_state_update fns p next sk_seed pub_seed addr) in
      let begun =
        if ltb ((1 + idx_tree) * 2 ^ p.tree_height + idx_leaf) (u64 (2 ^ p.full_height))
        then set states p.d next'
        else states in
      let l = sign_layers_mt p idx p.d 0 sk_seed pub_seed (record {
        states = begun;
        wots_sigs = wots_sigs;
        addr = addr;
        ots_addr = ots_addr;
        updates = instances p / 2;
        nextswap = 0;
      }) in
      if used_up then record { sk = sk'; made = none } else record {
        sk =
            idx_to_bytes p.index_bytes (idx + 1)
            ++ (keys ++ xmssmt_serialize_state l.states l.wots_sigs);
        made = some (smlen, sm);
      }
