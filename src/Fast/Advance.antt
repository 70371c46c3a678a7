-- ===== src/Fast/Advance.antt =====
-- xmss_core_fast.c: treehash_update on one instance, whose nodes are on top of the shared stack.
use xmss_reference.Base.{
  ℕ, ◌+◌, ◌≤◌, ◌<◌, ◌≡◌, ◌≢◌, ◌⊎◌, inl, inr, refl, sym, ap, ◌∙◌, arith, true, false, ◌==◌, List, [],
  ◌∷◌, ◌++◌, length, get_or, set, get_or-set, get_or_other, length-set, length-append,
  if◌then◌else◌, u8,
}
use mathlib.Core.Path.{subst}
use native.Mathlib.Nat.{mod-eq_of_lt}
use xmss_reference.Address.{
  Addr, zero_addr, addr_type_ots, addr_type_ltree, addr_type_hashtree, set_type, copy_subtree_addr,
  set_ots_addr, set_ltree_addr,
}
use xmss_reference.Params.{Params}
use xmss_reference.Params.Sets.{IsParams}
use xmss_reference.Hash.{HashFns}
use xmss_reference.Hash.Lengths.{HasLengths}
use xmss_reference.Commons.{gen_leaf_wots}
use xmss_reference.Commons.Tree.{node, gen_leaf_wots_lem}
use xmss_reference.Core.{Stack}
use xmss_reference.Fast.{BdsState, TreehashInst, blank_inst, instances}
use xmss_reference.Fast.Update.{get_inst, set_inst, subtree_addr, treehash_update, update_loop}
use xmss_reference.Fast.Build.{OnStack, OnStack-set}
use xmss_reference.Fast.Tail.{
  Part, no_leaf, left_next, right_next, Stopped, Reached, Climbed, update_loop_lem,
}

-- The arrays of a state have the declared lengths.
pub record Arrays (p : Params) (s : BdsState) : Type 0 where
  pub stack_len : length s.stack ≡ p.tree_height + 1
  pub levels_len : length s.stacklevels ≡ p.tree_height + 1
  pub inst_len : length s.treehash ≡ instances p

module _ (fns : HashFns) (lengths : HasLengths fns) (p : Params) (ok : IsParams p)
    (sk_seed pub_seed : List ℕ) (sub : Addr) where
  abbrev at : ℕ → ℕ → List ℕ
  at h j = node fns lengths p ok sk_seed pub_seed sub h j

  abbrev PartOf : ℕ → ℕ → ℕ → ℕ → Stack → Type 0
  PartOf h j k q tail = Part fns lengths p ok sk_seed pub_seed sub h j k q tail

  pub length-Part : {h j k q : ℕ} {tail : Stack} → PartOf h j k q tail → length tail + k ≤ h
  length-Part (no_leaf e e') = omega arith
  length-Part (left_next c lt e t) = omega (arith, length-Part t)
  length-Part (right_next c lt e t) = omega (arith, length-Part t)

  -- Instance `i` is on its way to node `j` of its height.
  pub record Working (i j : ℕ) (t : TreehashInst) (tail : Stack) : Type 0 where
    pub height : t.h ≡ i
    pub active : t.completed ≡ 0
    pub usage : t.stackusage ≡ length tail
    pub part : PartOf i j 0 t.next_idx tail

  -- Instance `i` has node `j` of its height.
  pub record Finished (i j : ℕ) (t : TreehashInst) : Type 0 where
    pub completed : t.completed ≡ 1
    pub usage : t.stackusage ≡ 0
    pub node : t.node ≡ at i j

  pub record Still (i j : ℕ) (below : Stack) (before : TreehashInst) (s : BdsState) : Type 0 where
    pub tail : Stack
    pub working : Working i j (get_inst s i) tail
    pub next_idx : (get_inst s i).next_idx ≡ before.next_idx + 1
    pub on : OnStack s.stack s.stacklevels (tail ++ below)
    pub offset : s.stackoffset ≡ length (tail ++ below)

  pub record Over (i j : ℕ) (below : Stack) (s : BdsState) : Type 0 where
    pub finished : Finished i j (get_inst s i)
    pub on : OnStack s.stack s.stacklevels below
    pub offset : s.stackoffset ≡ length below

  -- What an update of instance `i` makes of the state `s`.
  pub record Advanced (i j : ℕ) (below : Stack) (s s' : BdsState) : Type 0 where
    pub auth : s'.auth ≡ s.auth
    pub keep : s'.keep ≡ s.keep
    pub arrays : Arrays p s'
    pub others : (b : ℕ) → b ≢ i → get_inst s' b ≡ get_inst s b
    pub here : Still i j below (get_inst s i) s' ⊎ Over i j below s'

  -- The two ways that treehash_update ends.
  abbrev end_update : ℕ → BdsState → ℕ × ℕ × ℕ × List ℕ → BdsState
  end_update i s (usage, offset, height, x) =
      if height == (get_inst s i).h
      then record (set_inst s i
          (record (get_inst s i) { stackusage = usage; node = x; completed = 1 })) {
            stackoffset = offset;
          }
      else record (set_inst s i (record (get_inst s i) {
        stackusage = u8 (usage + 1);
        next_idx = (get_inst s i).next_idx + 1;
      })) {
        stack = set s.stack offset x;
        stacklevels = set s.stacklevels offset height;
        stackoffset = offset + 1;
      }

  get_set_inst :
      (i : ℕ) (s : BdsState) (t : TreehashInst)
      → i < length s.treehash
      → get_inst (set_inst s i t) i ≡ t
  get_set_inst i s t lt = get_or-set s.treehash i t blank_inst lt

  get_other_inst :
      (i b : ℕ) (s : BdsState) (t : TreehashInst)
      → b ≢ i
      → get_inst (set_inst s i t) b ≡ get_inst s b
  get_other_inst i b s t other = get_or_other s.treehash i b t blank_inst (ground arith)

  module _ (i j : ℕ) (below : Stack) (s : BdsState) (b : Arrays p s) (lt : i < instances p)
      (room : length below + i ≤ p.tree_height) where
    end_over :
        (r : ℕ × ℕ × ℕ × List ℕ)
        → (get_inst s i).h ≡ i
        → Reached fns lengths p ok sk_seed pub_seed sub i j below s r
        → Advanced i j below s (end_update i s r)
    end_over r eh re =
        let t = get_inst s i in
        let done = record t { stackusage = r.0; node = r.3; completed = 1 } in
        let here = get_set_inst i s done (omega (arith, b.inst_len)) in
        let hit : (r.2 == t.h) ≡ true = ground (arith, re.top) in
        rw hit (record {
          auth = refl;
          keep = refl;
          arrays = record {
            stack_len = b.stack_len;
            levels_len = b.levels_len;
            inst_len = length-set s.treehash i done ∙ b.inst_len;
          };
          others = λ c other. get_other_inst i c s done other;
          here = inr (record {
            finished = record {
              completed = ap (λ (u : TreehashInst). u.completed) here;
              usage = ap (λ (u : TreehashInst). u.stackusage) here ∙ re.usage;
              node = ap (λ (u : TreehashInst). u.node) here ∙ re.made;
            };
            on = re.on;
            offset = re.offset;
          });
        })

    end_still :
        (r : ℕ × ℕ × ℕ × List ℕ)
        → (get_inst s i).h ≡ i
        → (get_inst s i).completed ≡ 0
        → Stopped fns lengths p ok sk_seed pub_seed sub i j 0 (get_inst s i).next_idx below s r
        → Advanced i j below s (end_update i s r)
    end_still r eh active st =
        let t = get_inst s i in
        let size = length-Part st.part in
        let joined = length-append st.tail below in
        let small : u8 (r.0 + 1) ≡ length st.tail + 1 =
          mod-eq_of_lt (omega (arith, st.usage, ok.height_max)) ∙ ap (λ u. u + 1) st.usage in
        let next = record t { stackusage = u8 (r.0 + 1); next_idx = t.next_idx + 1 } in
        let here = get_set_inst i s next (omega (arith, b.inst_len)) in
        let miss : (r.2 == t.h) ≡ false = ground (arith, st.low) in
        let behind =
          OnStack-set s.stack s.stacklevels r.1 r.3 r.2 (st.tail ++ below)
            (omega (arith, st.offset)) st.on in
        let top : get_or (set s.stack r.1 r.3) (length (st.tail ++ below)) [] ≡ r.3 =
          ap (λ (o : ℕ). get_or (set s.stack r.1 r.3) o []) (sym st.offset)
          ∙ get_or-set s.stack r.1 r.3 [] (omega (arith, b.stack_len, st.offset)) in
        let level : get_or (set s.stacklevels r.1 r.2) (length (st.tail ++ below)) 0 ≡ r.2 =
          ap (λ (o : ℕ). get_or (set s.stacklevels r.1 r.2) o 0) (sym st.offset)
          ∙ get_or-set s.stacklevels r.1 r.2 0 (omega (arith, b.levels_len, st.offset)) in
        rw miss (record {
          auth = refl;
          keep = refl;
          arrays = record {
            stack_len = length-set s.stack r.1 r.3 ∙ b.stack_len;
            levels_len = length-set s.stacklevels r.1 r.2 ∙ b.levels_len;
            inst_len = length-set s.treehash i next ∙ b.inst_len;
          };
          others = λ c other. get_other_inst i c s next other;
          here = inl (record {
            tail = (r.2, r.3) ∷ st.tail;
            working = record {
              height = ap (λ (u : TreehashInst). u.h) here ∙ eh;
              active = ap (λ (u : TreehashInst). u.completed) here ∙ active;
              usage = ap (λ (u : TreehashInst). u.stackusage) here ∙ small ∙ omega arith;
              part =
                  subst (λ q. PartOf i j 0 q ((r.2, r.3) ∷ st.tail))
                    (sym (ap (λ (u : TreehashInst). u.next_idx) here)) st.part;
            };
            next_idx = ap (λ (u : TreehashInst). u.next_idx) here;
            on = (top, level, behind);
            offset = omega (arith, st.offset);
          });
        })

    end_update_lem :
        (r : ℕ × ℕ × ℕ × List ℕ)
        → (get_inst s i).h ≡ i
        → (get_inst s i).completed ≡ 0
        → Climbed fns lengths p ok sk_seed pub_seed sub i j 0 (get_inst s i).next_idx below s r
        → Advanced i j below s (end_update i s r)
    unfolding Climbed
    end_update_lem r eh active (inl st) = end_still r eh active st
    end_update_lem r eh active (inr re) = end_over r eh re

    -- An update of an instance whose nodes are on top of the stack puts one leaf more into its part, or
    -- ends with its node, and leaves the other instances and what is below on the stack alone.
    pub treehash_update-Advanced :
        (tail : Stack) (addr : Addr)
        → copy_subtree_addr zero_addr addr ≡ copy_subtree_addr zero_addr sub
        → Working i j (get_inst s i) tail
        → OnStack s.stack s.stacklevels (tail ++ below)
        → s.stackoffset ≡ length (tail ++ below)
        → Advanced i j below s (treehash_update fns p i s sk_seed pub_seed addr)
    unfolding treehash_update node set_type copy_subtree_addr
    treehash_update-Advanced tail addr same w on eo =
        let t = get_inst s i in
        let made =
          gen_leaf_wots_lem fns lengths p ok sk_seed pub_seed sub t.next_idx
            (subtree_addr addr addr_type_ltree) (subtree_addr addr addr_type_ots)
            (ap (λ c. set_type c addr_type_ltree) same) (ap (λ c. set_type c addr_type_ots) same) in
        let climbed =
          update_loop_lem fns lengths p ok sk_seed pub_seed sub t.next_idx t.stackusage below s _
            (subtree_addr addr addr_type_hashtree) w.part (omega arith) w.usage on made.2
            (ap (λ c. set_type c addr_type_hashtree) same) in
        let leaf =
          (gen_leaf_wots fns p sk_seed pub_seed
            (set_ltree_addr (subtree_addr addr addr_type_ltree) t.next_idx)
            (set_ots_addr (subtree_addr addr addr_type_ots) t.next_idx)).2 in
        subst
          (λ o. Advanced i j below s (
            end_update i s (
              update_loop fns p t.next_idx pub_seed s t.stackusage o 0 leaf
                (subtree_addr addr addr_type_hashtree))))
          (sym eo) (end_update_lem _ w.height w.active climbed)
