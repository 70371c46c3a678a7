-- ===== src/Fast/Update.antt =====
-- xmss_core_fast.c: the TreeHash of key generation, the updates of the treehash instances and of the
-- state of a next tree. The level of a node is at most tree_height, so that an `unsigned char` holds
-- it.
use xmss_reference.Base.{
  ℕ, zero, suc, ◌+◌, ◌-◌, ◌/◌, ◌%◌, ◌^◌, true, false, ◌&&◌, Option, none, some, List, [], ◌∷◌, ◌++◌,
  get_or, set, replicate, ltb, leb, ◌==◌, if◌then◌else◌, u8,
}
use xmss_reference.Address.{
  Addr, zero_addr, addr_type_ots, addr_type_ltree, addr_type_hashtree, set_type, set_ots_addr,
  set_ltree_addr, set_tree_height, set_tree_index, copy_subtree_addr,
}
use xmss_reference.Params.{Params}
use xmss_reference.Hash.{HashFns, written, thash_h}
use xmss_reference.Commons.{gen_leaf_wots}
use xmss_reference.Fast.{TreehashInst, BdsState, blank_inst, instances}

abbrev pub get_inst : BdsState → ℕ → TreehashInst
get_inst s i = get_or s.treehash i blank_inst

abbrev pub set_inst : BdsState → ℕ → TreehashInst → BdsState
set_inst s i t = record s { treehash = set s.treehash i t }

-- `memcpy(state->treehash[i].node, x, n)`
abbrev pub set_node : BdsState → ℕ → List ℕ → BdsState
set_node s i x = set_inst s i (record (get_inst s i) { node = x })

-- The addresses of the three types in one subtree.
abbrev pub subtree_addr : Addr → ℕ → Addr
subtree_addr addr type = set_type (copy_subtree_addr zero_addr addr) type

-- Where the row of height `h` begins in `retain`.
abbrev pub retain_offset : Params → ℕ → ℕ
retain_offset p h = 2 ^ (p.tree_height - 1 - h) + h - p.tree_height

-- Before the top node `x` of height `h` is merged it is copied, if the traversal needs it; `i` is the
-- number of the last leaf in the tree.
unfoldable pub save_node : Params → ℕ → ℕ → List ℕ → BdsState → BdsState
save_node p i h x s =
    if i / 2 ^ h == 1
    then record s { auth = set s.auth h x }
    else if ltb h (instances p) && i / 2 ^ h == 3
    then set_node s h x
    else if leb (instances p) h
    then record s { retain = set s.retain (retain_offset p h + (i / 2 ^ h - 3) / 2) x }
    else s

-- The loop that sets up the instances: `i` of them are done.
unfoldable pub init_insts : ℕ → ℕ → List TreehashInst → List TreehashInst
init_insts zero i ts = ts
init_insts (suc left) i [] = []
init_insts (suc left) i (t ∷ ts) =
    record t { h = u8 i; completed = 1; stackusage = 0 } ∷ init_insts left (i + 1) ts

-- `treehash_minheight_on_stack`: the loop, with `left` of `stackusage` to go.
unfoldable pub minheight_loop : BdsState → ℕ → ℕ → ℕ → ℕ
minheight_loop s zero i r = r
minheight_loop s (suc left) i r =
    let level = get_or s.stacklevels (s.stackoffset - i - 1) 0 in
    minheight_loop s left (i + 1) (if ltb level r then level else r)

abbrev pub treehash_minheight_on_stack : Params → BdsState → TreehashInst → ℕ
treehash_minheight_on_stack p s t = minheight_loop s t.stackusage 0 p.tree_height

-- `low` of instance `i`.
unfoldable pub low_of : Params → BdsState → ℕ → ℕ
low_of p s i =
    let t = get_inst s i in
    if t.completed == 0
    then (if t.stackusage == 0 then i else treehash_minheight_on_stack p s t)
    else p.tree_height

-- The loop that looks for the instance to update, with `left` to go: `level` and `l_min`.
unfoldable pub find_level : Params → BdsState → ℕ → ℕ → ℕ → ℕ → ℕ
find_level p s zero i level l_min = level
find_level p s (suc left) i level l_min =
    let low = low_of p s i in
    find_level p s left (i + 1) (if ltb low l_min then i else level)
      (if ltb low l_min then low else l_min)

module _ (fns : HashFns) where
  -- The body of the `while` loop, where the offset is `k + 2`: the state and the node address.
  unfoldable pub merge_pair : Params → ℕ → ℕ → List ℕ → ℕ → BdsState → Addr → BdsState × Addr
  merge_pair p i idx pub_seed k s node_addr =
      let h = get_or s.stacklevels (suc k) 0 in
      let left = get_or s.stack k [] in
      let right = get_or s.stack (suc k) [] in
      let saved = save_node p i h right s in
      let (node_addr', hashed) =
        thash_h fns p (left ++ right) pub_seed
          (set_tree_index (set_tree_height node_addr h) (idx / 2 ^ (h + 1))) in
      (
        record saved {
          stack = set saved.stack k (written left hashed);
          stacklevels = set saved.stacklevels k (get_or saved.stacklevels k 0 + 1);
          stackoffset = suc k;
        },
        node_addr',
      )

  -- The `while` loop, with the offset as its fuel.
  unfoldable pub merge_nodes : Params → ℕ → ℕ → List ℕ → ℕ → BdsState → Addr → BdsState × Addr
  merge_nodes p i idx pub_seed zero s node_addr = (s, node_addr)
  merge_nodes p i idx pub_seed (suc zero) s node_addr = (s, node_addr)
  merge_nodes p i idx pub_seed (suc (suc k)) s node_addr =
      let (s', node_addr') = merge_pair p i idx pub_seed k s node_addr in
      let merged = merge_nodes p i idx pub_seed (suc k) s' node_addr' in
      if get_or s.stacklevels (suc k) 0 == get_or s.stacklevels k 0 then merged else (s, node_addr)

  -- One leaf, number `i` of its tree with index `idx`, put on the stack, and the loop. Leaf 3 is also
  -- meant to go to the first instance; what is copied is the place behind it, and the loop then copies
  -- the leaf. The addresses are those of the L-tree, the OTS key and the nodes.
  unfoldable pub push_leaf :
      Params
      → List ℕ
      → List ℕ
      → ℕ
      → ℕ
      → BdsState
      → Addr
      → Addr
      → Addr
      → BdsState × Addr × Addr × Addr
  unfolding merge_nodes
  push_leaf p sk_seed pub_seed i idx s ltree_addr ots_addr node_addr =
      let (ltree_addr', ots_addr', leaf) =
        gen_leaf_wots fns p sk_seed pub_seed (set_ltree_addr ltree_addr idx)
          (set_ots_addr ots_addr idx) in
      let pushed = record s {
        stack = set s.stack s.stackoffset leaf;
        stacklevels = set s.stacklevels s.stackoffset 0;
        stackoffset = s.stackoffset + 1;
      } in
      let saved =
        if ltb 0 (instances p) && i == 3
        then set_node pushed 0 (get_or pushed.stack pushed.stackoffset [])
        else pushed in
      let (s', node_addr') = merge_nodes p i idx pub_seed pushed.stackoffset saved node_addr in
      (s', ltree_addr', ots_addr', node_addr')

  -- The loop over the leaves in treehash_init, with `left` to go.
  unfoldable pub init_loop :
      Params → List ℕ → List ℕ → ℕ → ℕ → ℕ → BdsState → Addr → Addr → Addr → BdsState
  unfolding push_leaf
  init_loop p sk_seed pub_seed zero i idx s ltree_addr ots_addr node_addr = s
  init_loop p sk_seed pub_seed (suc left) i idx s ltree_addr ots_addr node_addr =
      let (s', ltree_addr', ots_addr', node_addr') =
        push_leaf p sk_seed pub_seed i idx s ltree_addr ots_addr node_addr in
      init_loop p sk_seed pub_seed left (i + 1) (idx + 1) s' ltree_addr' ots_addr' node_addr'

  -- `treehash_init`: the node and the state. The function works on a stack of its own, which stands in
  -- the fields of the state during the loop.
  unfoldable pub treehash_init :
      Params → ℕ → ℕ → BdsState → List ℕ → List ℕ → Addr → List ℕ × BdsState
  unfolding init_loop
  treehash_init p height index state sk_seed pub_seed addr =
      let start = record state {
        treehash = init_insts (instances p) 0 state.treehash;
        stack = replicate (height + 1) (replicate p.n 0);
        stacklevels = replicate (height + 1) 0;
        stackoffset = 0;
      } in
      let s =
        init_loop p sk_seed pub_seed (2 ^ height) 0 index start (subtree_addr addr addr_type_ltree)
          (subtree_addr addr addr_type_ots) (subtree_addr addr addr_type_hashtree) in
      (
        get_or s.stack 0 [],
        record s {
          stack = state.stack;
          stacklevels = state.stacklevels;
          stackoffset = state.stackoffset;
        },
      )

  -- The `while` loop of treehash_update, on `stackusage`, the offset, the height and the node in the
  -- first half of the buffer. It gives these four as they are left.
  unfoldable pub update_loop :
      Params → ℕ → List ℕ → BdsState → ℕ → ℕ → ℕ → List ℕ → Addr → ℕ × ℕ × ℕ × List ℕ
  update_loop p next_idx pub_seed s zero offset h x node_addr = (0, offset, h, x)
  update_loop p next_idx pub_seed s (suc usage) offset h x node_addr =
      let top = get_or s.stack (offset - 1) [] in
      let (node_addr', hashed) =
        thash_h fns p (top ++ x) pub_seed
          (set_tree_index (set_tree_height node_addr h) (next_idx / 2 ^ (h + 1))) in
      let merged =
        update_loop p next_idx pub_seed s usage (offset - 1) (h + 1) (written top hashed)
          node_addr' in
      if get_or s.stacklevels (offset - 1) 0 == h then merged else (suc usage, offset, h, x)

  -- `treehash_update` on instance `i`.
  unfoldable pub treehash_update : Params → ℕ → BdsState → List ℕ → List ℕ → Addr → BdsState
  unfolding update_loop
  treehash_update p i s sk_seed pub_seed addr =
      let t = get_inst s i in
      let (ltree_addr, ots_addr, leaf) =
        gen_leaf_wots fns p sk_seed pub_seed
          (set_ltree_addr (subtree_addr addr addr_type_ltree) t.next_idx)
          (set_ots_addr (subtree_addr addr addr_type_ots) t.next_idx) in
      let (usage, offset, height, x) =
        update_loop p t.next_idx pub_seed s t.stackusage s.stackoffset 0 leaf
          (subtree_addr addr addr_type_hashtree) in
      if height == t.h
      then record (set_inst s i (record t { stackusage = usage; node = x; completed = 1 })) {
        stackoffset = offset;
      }
      else record (set_inst s i
          (record t { stackusage = u8 (usage + 1); next_idx = t.next_idx + 1 })) {
            stack = set s.stack offset x;
            stacklevels = set s.stacklevels offset height;
            stackoffset = offset + 1;
          }

  -- The outer loop, with `left` of the updates to go. It gives the state and the updates left.
  unfoldable pub update_rounds : Params → ℕ → BdsState → List ℕ → List ℕ → Addr → BdsState × ℕ
  update_rounds p zero s sk_seed pub_seed addr = (s, 0)
  update_rounds p (suc left) s sk_seed pub_seed addr =
      let level = find_level p s (instances p) 0 (instances p) p.tree_height in
      elim (level == instances p) [
        | true ↦ (s, suc left)
        | false ↦
            update_rounds p left (treehash_update p level s sk_seed pub_seed addr) sk_seed pub_seed
              addr
      ]

  -- A `char`, which is signed, as an `unsigned int`.
  abbrev pub char_to_unsigned : ℕ → ℕ
  char_to_unsigned x = if ltb (x % 2 ^ 8) (2 ^ 7) then x % 2 ^ 8 else x % 2 ^ 8 + 2 ^ 32 - 2 ^ 8

  -- `bds_treehash_update`: the state, and what the caller reads as the number of updates left.
  unfoldable pub bds_treehash_update : Params → BdsState → ℕ → List ℕ → List ℕ → Addr → BdsState × ℕ
  bds_treehash_update p s updates sk_seed pub_seed addr =
      let (s', left) = update_rounds p updates s sk_seed pub_seed addr in
      (s', char_to_unsigned left)

  -- `bds_state_update`; `none` is the return of -1, which leaves the state alone.
  unfoldable pub bds_state_update : Params → BdsState → List ℕ → List ℕ → Addr → Option BdsState
  bds_state_update p s sk_seed pub_seed addr =
      let idx = s.next_leaf in
      let (s', ltree_addr, ots_addr, node_addr) =
        push_leaf p sk_seed pub_seed idx idx s (subtree_addr addr addr_type_ltree)
          (subtree_addr addr addr_type_ots) (subtree_addr addr addr_type_hashtree) in
      if idx == 2 ^ p.tree_height then none else some (record s' { next_leaf = idx + 1 })
