-- ===== src/Fast/FitsRound.antt =====
-- xmss_core_fast.c: bds_round, and with it each signature, keeps a state within the bytes that it is
-- written to.
use xmss_reference.Base.{
  All-set, All-get_or, ℕ, zero, suc, ◌+◌, ◌-◌, ◌*◌, ◌/◌, ◌^◌, ◌&&◌, ◌≤◌, ◌<◌, ◌≡◌, inl, inr, ap,
  ◌∙◌, arith, true, Bool-cases, ltb, ◌==◌, List, [], ◌++◌, length, get_or, set, length-set, bit_and,
  pow_over,
}
use native.Mathlib.Nat.{mod-lt, pow-le-pow_right, mul_assoc, div-add-mod'}
use xmss_reference.Address.{
  Addr, zero_addr, addr_type_hashtree, copy_subtree_addr, set_tree_height, set_tree_index,
}
use xmss_reference.Params.{Params}
use xmss_reference.Params.Sets.{IsParams}
use xmss_reference.Hash.{HashFns, written, thash_h}
use xmss_reference.Hash.Lengths.{HasLengths, length-written, thash_h-Writes}
use xmss_reference.Fast.{BdsState, blank_inst, instances}
use xmss_reference.Fast.Update.{get_inst, subtree_addr, bds_treehash_update}
use xmss_reference.Fast.Round.{refill_auth, restart_insts, keep_node, round_at, bds_round, find_tau}
use xmss_reference.Fast.Carry.{find_tau_lem}
use xmss_reference.Fast.RoundTrip.{InstFits, StateFits}
use xmss_reference.Fast.Restart.{want, startidx, start_one}
use xmss_reference.Fast.RoundShared.{bds_round-Shared}
use xmss_reference.Fast.Timely.{Timely-AllDone, next_state}
use xmss_reference.Fast.Live.{Live}
use xmss_reference.Fast.Fits.{Nodes-set, length-leaf, rounds-StateFits}

module _ (p : Params) where
  auth_set-StateFits :
      (s : BdsState) (i : ℕ) (x : List ℕ)
      → StateFits p s
      → length x ≡ p.n
      → StateFits p (record s { auth = set s.auth i x })
  auth_set-StateFits s i x f e = record {
    stack = f.stack;
    stackoffset = f.stackoffset;
    stacklevels = f.stacklevels;
    auth = Nodes-set p.n p.tree_height s.auth i x f.auth e;
    keep = f.keep;
    treehash = f.treehash;
    count_insts = f.count_insts;
    retain = f.retain;
    next_leaf = f.next_leaf;
  }

  node_at : (s : BdsState) (i : ℕ) → StateFits p s → i < instances p → InstFits p (get_inst s i)
  node_at s i f lt =
      All-get_or (InstFits p) s.treehash i blank_inst f.treehash (omega (arith, f.count_insts))

  auth_at :
      (s : BdsState) (i : ℕ) → StateFits p s → i < p.tree_height → length (get_or s.auth i []) ≡ p.n
  auth_at s i f lt =
      let a = f.auth in
      All-get_or (λ x. length x ≡ p.n) s.auth i [] a.sizes (omega (arith, a.count_nodes))

  keep_node-StateFits :
      (leaf_idx tau : ℕ) (s : BdsState)
      → tau < p.tree_height
      → StateFits p s
      → StateFits p (keep_node p leaf_idx tau s)
  unfolding keep_node
  keep_node-StateFits leaf_idx tau s lt f =
      elim (Bool-cases (bit_and (leaf_idx / 2 ^ (tau + 1)) 1 == 0 && ltb tau (p.tree_height - 1))) [
        | inl hit ↦ rw hit (record {
          stack = f.stack;
          stackoffset = f.stackoffset;
          stacklevels = f.stacklevels;
          auth = f.auth;
          keep =
              Nodes-set p.n (p.tree_height / 2) s.keep (tau / 2) (get_or s.auth tau []) f.keep
                (auth_at s tau f lt);
          treehash = f.treehash;
          count_insts = f.count_insts;
          retain = f.retain;
          next_leaf = f.next_leaf;
        })
        | inr miss ↦ rw miss f
      ]

  refill_auth-StateFits :
      (leaf_idx left i : ℕ) (s : BdsState)
      → left + i ≤ instances p
      → StateFits p s
      → StateFits p (refill_auth p leaf_idx left i s)
  unfolding refill_auth
  refill_auth-StateFits leaf_idx zero i s le f = f
  refill_auth-StateFits leaf_idx (suc left) i s le f =
      let all : ltb i (instances p) ≡ true = ground arith in
      let t = node_at s i f (omega arith) in
      rw all (
        refill_auth-StateFits leaf_idx left (i + 1) _ (omega arith)
          (auth_set-StateFits s i (get_inst s i).node f t.node))

  start_one-StateFits :
      (leaf_idx i : ℕ) (s : BdsState)
      → i < instances p
      → StateFits p s
      → StateFits p (start_one p leaf_idx i s)
  start_one-StateFits leaf_idx i s lt f =
      let t = node_at s i f lt in
      elim (Bool-cases (ltb (startidx leaf_idx i) (2 ^ p.tree_height))) [
        | inl hit ↦ rw hit (record {
          stack = f.stack;
          stackoffset = f.stackoffset;
          stacklevels = f.stacklevels;
          auth = f.auth;
          keep = f.keep;
          treehash = All-set (InstFits p) s.treehash i _ f.treehash (record {
            h = mod-lt i (omega arith);
            next_idx = omega (arith, mod-lt (leaf_idx + 1 + 3 * 2 ^ i) {m = 2 ^ 32} (omega arith));
            stackusage = omega arith;
            completed = omega arith;
            node = t.node;
          });
          count_insts = length-set s.treehash i _ ∙ f.count_insts;
          retain = f.retain;
          next_leaf = f.next_leaf;
        })
        | inr miss ↦ rw miss f
      ]

  restart_insts-StateFits :
      (leaf_idx left i : ℕ) (s : BdsState)
      → left + i ≤ instances p
      → StateFits p s
      → StateFits p (restart_insts p leaf_idx left i s)
  unfolding restart_insts
  restart_insts-StateFits leaf_idx zero i s le f = f
  restart_insts-StateFits leaf_idx (suc left) i s le f =
      restart_insts-StateFits leaf_idx left (i + 1) (start_one p leaf_idx i s) (omega arith)
        (start_one-StateFits leaf_idx i s (omega arith) f)

module _ (fns : HashFns) (lengths : HasLengths fns) (p : Params) (ok : IsParams p)
    (sk_seed pub_seed : List ℕ) (sub : Addr) where
  round_at-StateFits :
      (leaf_idx tau : ℕ) (s : BdsState) (addr : Addr)
      → copy_subtree_addr zero_addr addr ≡ copy_subtree_addr zero_addr sub
      → tau < p.tree_height
      → StateFits p s
      → StateFits p (round_at fns p leaf_idx tau s sk_seed pub_seed addr)
  unfolding round_at
  round_at-StateFits leaf_idx zero s addr same lt f =
      auth_set-StateFits p (keep_node p leaf_idx 0 s) 0 _ (keep_node-StateFits p leaf_idx 0 s lt f)
        (length-leaf fns lengths p ok sk_seed pub_seed sub leaf_idx addr same)
  round_at-StateFits leaf_idx (suc below) s addr same lt f =
      let tau = suc below in
      let buf = get_or s.auth below [] ++ get_or s.keep (below / 2) [] in
      let kept = keep_node p leaf_idx tau s in
      let all : ltb tau (instances p) ≡ true = ground (arith, ok.bds) in
      let a =
        set_tree_index (set_tree_height (subtree_addr addr addr_type_hashtree) below)
          (leaf_idx / 2 ^ tau) in
      let climbed =
        auth_set-StateFits p kept tau
          (written (get_or kept.auth tau []) (thash_h fns p buf pub_seed a).1)
          (keep_node-StateFits p leaf_idx tau s lt f)
          (length-written p.n (get_or kept.auth tau [])
            (thash_h-Writes fns lengths p ok.hash_set buf pub_seed a)) in
      rw all (
        restart_insts-StateFits p leaf_idx tau 0 _ (omega (arith, ok.bds))
          (refill_auth-StateFits p leaf_idx tau 0 _ (omega (arith, ok.bds)) climbed))

  -- The nodes that are wanted have few leaves before them.
  want_narrow :
      (leaf_idx i : ℕ)
      → leaf_idx < 2 ^ p.tree_height
      → i < instances p
      → (want leaf_idx i + 1) * 2 ^ i < 256 ^ 4
  want_narrow leaf_idx i lt li =
      let q = leaf_idx / 2 ^ (i + 1) in
      let double : 2 ^ (i + 1) ≡ 2 * 2 ^ i = omega (arith, pow_over i 1) in
      let split : (want leaf_idx i + 1) * 2 ^ i ≡ q * 2 * 2 ^ i + 4 * 2 ^ i = omega arith in
      omega (
        arith,
        split,
        mul_assoc q 2 (2 ^ i),
        ap (λ (u : ℕ). q * u) double,
        div-add-mod' leaf_idx (2 ^ (i + 1)),
        pow-le-pow_right {n = 2} (omega arith) {i = p.tree_height} {j = 20} ok.height_max,
        pow-le-pow_right {n = 2} (omega arith) {i = i} {j = 20} (omega (arith, ok.height_max)),
      )

  pub next_state-StateFits :
      (leaf_idx : ℕ) (s : BdsState) (addr : Addr)
      → copy_subtree_addr zero_addr addr ≡ copy_subtree_addr zero_addr sub
      → leaf_idx + 1 < 2 ^ p.tree_height
      → Live fns lengths p ok sk_seed pub_seed sub leaf_idx s
      → StateFits p s
      → StateFits p (next_state fns lengths p ok sk_seed pub_seed sub leaf_idx s addr)
  unfolding bds_treehash_update bds_round
  next_state-StateFits leaf_idx s addr same fits live f =
      let found = find_tau_lem p leaf_idx fits in
      let tau = find_tau p leaf_idx p.tree_height 0 in
      rounds-StateFits fns lengths p ok sk_seed pub_seed sub (want (leaf_idx + 1))
        (λ i lt. want_narrow (leaf_idx + 1) i fits lt) (instances p / 2)
        (round_at fns p leaf_idx tau s sk_seed pub_seed addr) addr same
        (bds_round-Shared fns lengths p ok sk_seed pub_seed sub leaf_idx s addr fits live.shared (
          Timely-AllDone fns lengths p ok sk_seed pub_seed sub leaf_idx s fits live.shared
            live.timely))
        (round_at-StateFits leaf_idx tau s addr same found.1 f)
