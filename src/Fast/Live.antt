-- ===== src/Fast/Live.antt =====
-- xmss_core_fast.c: the traversal of a whole tree, signature by signature.
use xmss_reference.Base.{
  ℕ, zero, suc, ◌+◌, ◌/◌, ◌^◌, ◌<◌, ◌≡◌, sym, ap, ◌∙◌, arith, List, [], length, get_or,
}
use mathlib.Core.Path.{subst}
use xmss_reference.Address.{Addr, zero_addr, copy_subtree_addr}
use xmss_reference.Params.{Params}
use xmss_reference.Params.Sets.{IsParams}
use xmss_reference.Hash.{HashFns}
use xmss_reference.Hash.Lengths.{HasLengths}
use xmss_reference.Commons.Tree.{sibling, node, auth_nodes}
use xmss_reference.Core.{treehash}
use xmss_reference.Core.TreeHash.{treehash_lem, auth_nodes_ext}
use xmss_reference.Fast.{BdsState, instances}
use xmss_reference.Fast.Update.{treehash_init}
use xmss_reference.Fast.Round.{bds_round}
use xmss_reference.Fast.NextPath.{Traversing, bds_round-Traversing}
use xmss_reference.Fast.Ready.{Initial}
use xmss_reference.Fast.Init.{treehash_init_lem}
use xmss_reference.Fast.Shared.{Shared}
use xmss_reference.Fast.Restart.{want, Initial-Shared}
use xmss_reference.Fast.RoundShared.{InstsReady-Shared, bds_round-Shared}
use xmss_reference.Fast.Updates.{bds_treehash_update-Updated}
use xmss_reference.Fast.Timely.{Timely, Timely-AllDone, next_state, next-Timely}

module _ (fns : HashFns) (lengths : HasLengths fns) (p : Params) (ok : IsParams p)
    (sk_seed pub_seed : List ℕ) (sub : Addr) where
  -- The state before leaf `leaf_idx` is used: its path is there, each instance has its node or is on
  -- its way to it, and it will be there in time.
  pub record Live (leaf_idx : ℕ) (s : BdsState) : Type 0 where
    pub traversing : Traversing fns lengths p ok sk_seed pub_seed sub leaf_idx s
    pub shared : Shared fns lengths p ok sk_seed pub_seed sub (want leaf_idx) s
    pub timely : Timely fns lengths p ok sk_seed pub_seed sub leaf_idx s

  pub Initial-Live :
      (s : BdsState)
      → Initial fns lengths p ok sk_seed pub_seed sub (λ h. 1) s
      → s.stackoffset ≡ 0
      → length s.stack ≡ p.tree_height + 1
      → length s.stacklevels ≡ p.tree_height + 1
      → Live 0 s
  Initial-Live s ini eo sl ll = record {
    traversing = ini.traversing;
    shared = Initial-Shared fns lengths p ok sk_seed pub_seed sub s ini eo sl ll;
    timely = λ i lt active. absurd (omega (arith, ini.done i lt));
  }

  -- From the state before a leaf that is not the last one, bds_round and half as many updates as there
  -- are instances make the state before the next leaf.
  pub next_state-Live :
      (leaf_idx : ℕ) (s : BdsState) (addr : Addr)
      → copy_subtree_addr zero_addr addr ≡ copy_subtree_addr zero_addr sub
      → leaf_idx + 1 < 2 ^ p.tree_height
      → Live leaf_idx s
      → Live (leaf_idx + 1) (next_state fns lengths p ok sk_seed pub_seed sub leaf_idx s addr)
  next_state-Live leaf_idx s addr same fits live =
      let done =
        Timely-AllDone fns lengths p ok sk_seed pub_seed sub leaf_idx s fits live.shared
          live.timely in
      let ready =
        InstsReady-Shared fns lengths p ok sk_seed pub_seed sub leaf_idx s fits live.shared done in
      let t =
        bds_round-Traversing fns lengths p ok sk_seed pub_seed sub leaf_idx s addr same fits
          live.traversing ready in
      let u =
        bds_treehash_update-Updated fns lengths p ok sk_seed pub_seed sub (want (leaf_idx + 1))
          (instances p / 2) (bds_round fns p s leaf_idx sk_seed pub_seed addr) addr same
          (omega (arith, ok.bds, ok.height_max))
          (bds_round-Shared fns lengths p ok sk_seed pub_seed sub leaf_idx s addr fits live.shared
            done) in
      record {
        traversing = record {
          auth_len = ap length u.auth ∙ t.auth_len;
          auth = λ h lt. ap (λ a. get_or a h []) u.auth ∙ t.auth h lt;
          keep_len = ap length u.keep ∙ t.keep_len;
          keep = λ h lt odd even. ap (λ a. get_or a (h / 2) []) u.keep ∙ t.keep h lt odd even;
        };
        shared = u.shared;
        timely =
            next-Timely fns lengths p ok sk_seed pub_seed sub leaf_idx s addr same fits live.shared
              live.timely;
      }

  -- The state after `n` signatures, the last of them with the address `addrs (n - 1)`.
  unfoldable pub traverse : (ℕ → Addr) → ℕ → BdsState → BdsState
  traverse addrs zero s = s
  traverse addrs (suc n) s =
      next_state fns lengths p ok sk_seed pub_seed sub n (traverse addrs n s) (addrs n)

  pub traverse-Live :
      (addrs : ℕ → Addr) (n : ℕ) (s : BdsState)
      → ((k : ℕ) → copy_subtree_addr zero_addr (addrs k) ≡ copy_subtree_addr zero_addr sub)
      → n < 2 ^ p.tree_height
      → Live 0 s
      → Live n (traverse addrs n s)
  unfolding traverse
  traverse-Live addrs zero s same lt live = live
  traverse-Live addrs (suc n) s same lt live =
      let up : n + 1 ≡ suc n = omega arith in
      subst (λ m. Live m (traverse addrs (suc n) s)) up
        (next_state-Live n (traverse addrs n s) (addrs n) (same n) (omega arith)
          (traverse-Live addrs n s same (omega arith) live))

  -- The path of a state is that of the recursive tree.
  pub auth-Live :
      (leaf_idx : ℕ) (s : BdsState)
      → Live leaf_idx s
      → s.auth ≡ auth_nodes fns lengths p ok sk_seed pub_seed sub leaf_idx p.tree_height 0
  auth-Live leaf_idx s live =
      auth_nodes_ext fns lengths p ok sk_seed pub_seed sub leaf_idx p.tree_height 0 s.auth
        live.traversing.auth_len
        (λ i lt.
          let up : i + 0 ≡ i = omega arith in
          live.traversing.auth i lt
          ∙ ap (λ h. node fns lengths p ok sk_seed pub_seed sub h (sibling leaf_idx h)) (sym up))

  -- For the parameters of a set: from the state that treehash_init leaves, after any number of
  -- signatures below the number of leaves, each with bds_round and bds_treehash_update with half as
  -- many updates as there are instances, the authentication path in the state is the one that treehash
  -- of xmss_core.c computes anew from all leaves for the leaf of that number; the state has arrays of
  -- the declared lengths and an empty stack at first, and the addresses name the same subtree.
  pub auth-traverse :
      (state : BdsState) (addr : Addr) (addrs : ℕ → Addr) (path : List (List ℕ)) (n : ℕ)
      → copy_subtree_addr zero_addr addr ≡ copy_subtree_addr zero_addr sub
      → ((k : ℕ) → copy_subtree_addr zero_addr (addrs k) ≡ copy_subtree_addr zero_addr sub)
      → length state.auth ≡ p.tree_height
      → length state.keep ≡ p.tree_height / 2
      → length state.treehash ≡ instances p
      → length state.stack ≡ p.tree_height + 1
      → length state.stacklevels ≡ p.tree_height + 1
      → state.stackoffset ≡ 0
      → length path ≡ p.tree_height
      → n < 2 ^ p.tree_height
      → (traverse addrs n (treehash_init fns p p.tree_height 0 state sk_seed pub_seed addr).1).auth
        ≡ (treehash fns p path sk_seed pub_seed n addr).1
  unfolding treehash_init
  auth-traverse state addr addrs path n same sames la lk lt ls ll empty lp below =
      let made = treehash_init_lem fns lengths p ok sk_seed pub_seed sub state addr same la lk lt in
      let start = treehash_init fns p p.tree_height 0 state sk_seed pub_seed addr in
      auth-Live n (traverse addrs n start.1)
        (traverse-Live addrs n start.1 sames below (Initial-Live start.1 made.1 empty ls ll))
      ∙ sym (treehash_lem fns lengths p ok sk_seed pub_seed sub n path addr same below lp).1
