-- ===== src/Fast/Round.antt =====
-- xmss_core_fast.c: bds_round, which makes the authentication path of the next leaf.
use xmss_reference.Base.{
  ℕ, zero, suc, ◌+◌, ◌-◌, ◌*◌, ◌/◌, ◌^◌, ◌&&◌, bit_and, List, [], ◌++◌, get_or, set, ltb, ◌==◌,
  if◌then◌else◌, u8, u32,
}
use xmss_reference.Address.{
  Addr, addr_type_ots, addr_type_ltree, addr_type_hashtree, set_ots_addr, set_ltree_addr,
  set_tree_height, set_tree_index,
}
use xmss_reference.Params.{Params}
use xmss_reference.Hash.{HashFns, written, thash_h}
use xmss_reference.Commons.{gen_leaf_wots}
use xmss_reference.Fast.{BdsState, instances}
use xmss_reference.Fast.Update.{get_inst, set_inst, subtree_addr, retain_offset}

-- The loop that finds `tau`, with `left` of the `tree_height` bits to go.
unfoldable pub find_tau : Params → ℕ → ℕ → ℕ → ℕ
find_tau p leaf_idx zero i = p.tree_height
find_tau p leaf_idx (suc left) i =
    let rest = find_tau p leaf_idx left (i + 1) in
    if bit_and (leaf_idx / 2 ^ i) 1 == 0 then i else rest

-- The loop that takes the nodes below `tau` from the instances and from `retain`.
unfoldable pub refill_auth : Params → ℕ → ℕ → ℕ → BdsState → BdsState
refill_auth p leaf_idx zero i s = s
refill_auth p leaf_idx (suc left) i s =
    let x =
      if ltb i (instances p)
      then (get_inst s i).node
      else get_or s.retain (retain_offset p i + (leaf_idx / 2 ^ i - 1) / 2) [] in
    refill_auth p leaf_idx left (i + 1) (record s { auth = set s.auth i x })

-- The loop that starts instances on the nodes that are needed next.
unfoldable pub restart_insts : Params → ℕ → ℕ → ℕ → BdsState → BdsState
restart_insts p leaf_idx zero i s = s
restart_insts p leaf_idx (suc left) i s =
    let startidx = u32 (leaf_idx + 1 + 3 * 2 ^ i) in
    let started =
      if ltb startidx (2 ^ p.tree_height)
      then set_inst s i
          (record (get_inst s i) { h = u8 i; next_idx = startidx; completed = 0; stackusage = 0 })
      else s in
    restart_insts p leaf_idx left (i + 1) started

-- The copy of a node into `keep`.
unfoldable pub keep_node : Params → ℕ → ℕ → BdsState → BdsState
keep_node p leaf_idx tau s =
    if bit_and (leaf_idx / 2 ^ (tau + 1)) 1 == 0 && ltb tau (p.tree_height - 1)
    then record s { keep = set s.keep (tau / 2) (get_or s.auth tau []) }
    else s

module _ (fns : HashFns) where
  -- What follows for a given `tau`. At `tau` equal to tree_height, which the callers rule out, the code
  -- writes behind the path; a write out of bounds changes nothing here.
  unfoldable pub round_at : Params → ℕ → ℕ → BdsState → List ℕ → List ℕ → Addr → BdsState
  round_at p leaf_idx zero s sk_seed pub_seed addr =
      let kept = keep_node p leaf_idx 0 s in
      let (ltree_addr, ots_addr, leaf) =
        gen_leaf_wots fns p sk_seed pub_seed
          (set_ltree_addr (subtree_addr addr addr_type_ltree) leaf_idx)
          (set_ots_addr (subtree_addr addr addr_type_ots) leaf_idx) in
      record kept { auth = set kept.auth 0 leaf }
  round_at p leaf_idx (suc below) s sk_seed pub_seed addr =
      let tau = suc below in
      let buf = get_or s.auth below [] ++ get_or s.keep (below / 2) [] in
      let kept = keep_node p leaf_idx tau s in
      let (node_addr, hashed) = thash_h fns p buf pub_seed (
        set_tree_index (set_tree_height (subtree_addr addr addr_type_hashtree) below)
          (leaf_idx / 2 ^ tau)) in
      let climbed = record kept {
        auth = set kept.auth tau (written (get_or kept.auth tau []) hashed);
      } in
      let filled = refill_auth p leaf_idx tau 0 climbed in
      restart_insts p leaf_idx (if ltb tau (instances p) then tau else instances p) 0 filled

  unfoldable pub bds_round : Params → BdsState → ℕ → List ℕ → List ℕ → Addr → BdsState
  bds_round p s leaf_idx sk_seed pub_seed addr =
      round_at p leaf_idx (find_tau p leaf_idx p.tree_height 0) s sk_seed pub_seed addr
