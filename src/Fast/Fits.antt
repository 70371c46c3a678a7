-- ===== src/Fast/Fits.antt =====
-- xmss_core_fast.c: bds_treehash_update keeps a state within the bytes that it is written to.
use xmss_reference.Base.{
  ℕ, zero, suc, ◌+◌, ◌-◌, ◌*◌, ◌/◌, ◌^◌, ◌≤◌, ◌<◌, ◌≡◌, inl, inr, refl, ap, ◌∙◌, arith, true, false,
  Bool-cases, ◌==◌, List, [], ◌∷◌, ◌++◌, All-set, All-get_or, length, get_or, set, length-set,
}
use native.Mathlib.Nat.{mod-lt}
use xmss_reference.Address.{
  Addr, zero_addr, addr_type_ots, addr_type_ltree, addr_type_hashtree, set_type, copy_subtree_addr,
  set_ltree_addr, set_ots_addr, set_tree_height, set_tree_index,
}
use xmss_reference.Params.{Params}
use xmss_reference.Params.Sets.{IsParams}
use xmss_reference.Hash.{HashFns, written, thash_h}
use xmss_reference.Hash.Lengths.{HasLengths, length-written, thash_h-Writes}
use xmss_reference.Commons.{gen_leaf_wots}
use xmss_reference.Commons.Tree.{node, length-node, gen_leaf_wots_lem}
use xmss_reference.Core.{Stack}
use xmss_reference.Fast.{BdsState, blank_inst, instances}
use xmss_reference.Fast.Update.{
  get_inst, subtree_addr, find_level, update_loop, treehash_update, update_rounds,
}
use xmss_reference.Fast.RoundTrip.{Nodes, InstFits, StateFits}
use xmss_reference.Fast.Tail.{Above}
use xmss_reference.Fast.Choice.{find_level_from}
use xmss_reference.Fast.Chosen.{Least-Chosen}
use xmss_reference.Fast.Shared.{Shared}
use xmss_reference.Fast.Debt.{Part-bound}
use xmss_reference.Fast.Updates.{update_shared, length-joined_above}

pub Nodes-set :
    (n count : ℕ) (nodes : List (List ℕ)) (i : ℕ) (x : List ℕ)
    → Nodes n count nodes
    → length x ≡ n
    → Nodes n count (set nodes i x)
Nodes-set n count nodes i x h hx = record {
  count_nodes = length-set nodes i x ∙ h.count_nodes;
  sizes = All-set (λ y. length y ≡ n) nodes i x h.sizes hx;
}

module _ (fns : HashFns) (lengths : HasLengths fns) (p : Params) (ok : IsParams p)
    (sk_seed pub_seed : List ℕ) (sub : Addr) where
  -- What the loop leaves is no more than before, and the node has its length.
  record Shrunk (usage offset : ℕ) (r : ℕ × ℕ × ℕ × List ℕ) : Type 0 where
    usage_le : r.0 ≤ usage
    offset_le : r.1 ≤ offset
    size : length r.3 ≡ p.n

  update_loop-Shrunk :
      (next_idx : ℕ) (s : BdsState) (usage offset h : ℕ) (x : List ℕ) (a : Addr)
      → length x ≡ p.n
      → Shrunk usage offset (update_loop fns p next_idx pub_seed s usage offset h x a)
  unfolding update_loop
  update_loop-Shrunk next_idx s zero offset h x a e = record {
    usage_le = omega arith;
    offset_le = omega arith;
    size = e;
  }
  update_loop-Shrunk next_idx s (suc usage) offset h x a e =
      let top = get_or s.stack (offset - 1) [] in
      let a' = set_tree_index (set_tree_height a h) (next_idx / 2 ^ (h + 1)) in
      let rest =
        update_loop-Shrunk next_idx s usage (offset - 1) (h + 1)
          (written top (thash_h fns p (top ++ x) pub_seed a').1)
          (thash_h fns p (top ++ x) pub_seed a').0
          (length-written p.n top
            (thash_h-Writes fns lengths p ok.hash_set (top ++ x) pub_seed a')) in
      elim (Bool-cases (get_or s.stacklevels (offset - 1) 0 == h)) [
        | inl same ↦ rw same (record {
          usage_le = omega (arith, rest.usage_le);
          offset_le = omega (arith, rest.offset_le);
          size = rest.size;
        })
        | inr other ↦
            rw other (record { usage_le = omega arith; offset_le = omega arith; size = e })
      ]

  pub length-leaf :
      (i : ℕ) (addr : Addr)
      → copy_subtree_addr zero_addr addr ≡ copy_subtree_addr zero_addr sub
      → length
          (gen_leaf_wots fns p sk_seed pub_seed
            (set_ltree_addr (subtree_addr addr addr_type_ltree) i)
            (set_ots_addr (subtree_addr addr addr_type_ots) i)).2
        ≡ p.n
  unfolding node set_type copy_subtree_addr
  length-leaf i addr same =
      let made =
        gen_leaf_wots_lem fns lengths p ok sk_seed pub_seed sub i
          (subtree_addr addr addr_type_ltree) (subtree_addr addr addr_type_ots)
          (ap (λ c. set_type c addr_type_ltree) same) (ap (λ c. set_type c addr_type_ots) same) in
      ap length made.2 ∙ length-node fns lengths p ok sk_seed pub_seed sub 0 i

  treehash_update-StateFits :
      (i : ℕ) (s : BdsState) (addr : Addr)
      → copy_subtree_addr zero_addr addr ≡ copy_subtree_addr zero_addr sub
      → i < instances p
      → (get_inst s i).next_idx + 1 < 256 ^ 4
      → s.stackoffset + 1 < 256 ^ 4
      → StateFits p s
      → StateFits p (treehash_update fns p i s sk_seed pub_seed addr)
  unfolding treehash_update
  treehash_update-StateFits i s addr same lt few room f =
      let t = get_inst s i in
      let ft =
        All-get_or (InstFits p) s.treehash i blank_inst f.treehash (omega (arith, f.count_insts)) in
      let leaf =
        (gen_leaf_wots fns p sk_seed pub_seed
          (set_ltree_addr (subtree_addr addr addr_type_ltree) t.next_idx)
          (set_ots_addr (subtree_addr addr addr_type_ots) t.next_idx)).2 in
      let r =
        update_loop fns p t.next_idx pub_seed s t.stackusage s.stackoffset 0 leaf
          (subtree_addr addr addr_type_hashtree) in
      let sh =
        update_loop-Shrunk t.next_idx s t.stackusage s.stackoffset 0 leaf
          (subtree_addr addr addr_type_hashtree) (length-leaf t.next_idx addr same) in
      elim (Bool-cases (r.2 == t.h)) [
        | inl top ↦ rw top (record {
          stack = f.stack;
          stackoffset = omega (arith, sh.offset_le);
          stacklevels = f.stacklevels;
          auth = f.auth;
          keep = f.keep;
          treehash = All-set (InstFits p) s.treehash i _ f.treehash (record {
            h = ft.h;
            next_idx = ft.next_idx;
            stackusage = omega (arith, sh.usage_le, ft.stackusage);
            completed = omega arith;
            node = sh.size;
          });
          count_insts = length-set s.treehash i _ ∙ f.count_insts;
          retain = f.retain;
          next_leaf = f.next_leaf;
        })
        | inr below ↦ rw below (record {
          stack = Nodes-set p.n (p.tree_height + 1) s.stack r.1 r.3 f.stack sh.size;
          stackoffset = omega (arith, sh.offset_le);
          stacklevels = length-set s.stacklevels r.1 r.2 ∙ f.stacklevels;
          auth = f.auth;
          keep = f.keep;
          treehash = All-set (InstFits p) s.treehash i _ f.treehash (record {
            h = ft.h;
            next_idx = few;
            stackusage = mod-lt (r.0 + 1) (omega arith);
            completed = ft.completed;
            node = ft.node;
          });
          count_insts = length-set s.treehash i _ ∙ f.count_insts;
          retain = f.retain;
          next_leaf = f.next_leaf;
        })
      ]

  module _ (jobs : ℕ → ℕ)
      (narrow : (i : ℕ) → i < instances p → (jobs i + 1) * 2 ^ i < 256 ^ 4) where
    pub rounds-StateFits :
        (updates : ℕ) (s : BdsState) (addr : Addr)
        → copy_subtree_addr zero_addr addr ≡ copy_subtree_addr zero_addr sub
        → Shared fns lengths p ok sk_seed pub_seed sub jobs s
        → StateFits p s
        → StateFits p (update_rounds fns p updates s sk_seed pub_seed addr).0
    unfolding update_rounds
    rounds-StateFits zero s addr same sh f = f
    rounds-StateFits (suc updates) s addr same sh f =
        elim (find_level_from p s (instances p) 0 (instances p) p.tree_height (omega arith)
          (inr (refl, refl, λ c lt'. absurd (omega arith)))) [
            | inl l ↦
                let level = find_level p s (instances p) 0 (instances p) p.tree_height in
                let found : (level == instances p) ≡ false = ground (arith, l.below) in
                let ch = Least-Chosen fns lengths p ok sk_seed pub_seed sub jobs s sh level l in
                let bound =
                  Part-bound fns lengths p ok sk_seed pub_seed sub level (omega arith)
                    ch.working.part in
                let size =
                  length-joined_above fns lengths p ok sk_seed pub_seed sub jobs s sh (instances p)
                    0 0 (omega arith) (omega arith) (λ b le lt. Above-zero (sh.tails b)) in
                let f' =
                  treehash_update-StateFits level s addr same l.below
                    (omega (arith, narrow level l.below)) (omega (arith, sh.offset, ok.height_max))
                    f in
                let sh' =
                  (update_shared fns lengths p ok sk_seed pub_seed sub jobs s sh level ch addr
                    same).0 in
                rw (update_rounds, found) (rounds-StateFits updates _ addr same sh' f')
            | inr (none, over) ↦
                let stop : (find_level p s (instances p) 0 (instances p) p.tree_height
                      == instances p)
                    ≡ true =
                  ground (arith, none) in
                rw (update_rounds, stop) f
          ]
      where
        Above-zero : (t : Stack) → Above 0 t
        Above-zero [] = tt
        Above-zero ((h, x) ∷ t) = (omega arith, Above-zero t)
