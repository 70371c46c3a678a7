-- ===== src/Fast/Leaf.antt =====
-- xmss_core_fast.c: one leaf in treehash_init and in bds_state_update.
use xmss_reference.Base.{
  ℕ, suc, ◌+◌, ◌^◌, ◌≤◌, ◌<◌, ◌≡◌, inl, inr, refl, sym, ap, ◌∙◌, arith, Bool-cases, ◌==◌, ◌&&◌, ltb,
  List, [], length, get_or, set, get_or-set, length-set, if◌then◌else◌,
}
use mathlib.Core.Path.{subst}
use xmss_reference.Address.{
  Addr, addr_type_ots, addr_type_ltree, addr_type_hashtree, set_ots_addr, set_ltree_addr,
}
use xmss_reference.Params.{Params}
use xmss_reference.Params.Sets.{IsParams}
use xmss_reference.Hash.{HashFns}
use xmss_reference.Hash.Lengths.{HasLengths}
use xmss_reference.Wots.Keys.{ots_part}
use xmss_reference.Commons.{gen_leaf_wots}
use xmss_reference.Commons.Tree.{typed_addr, type_part, node, gen_leaf_wots_lem}
use xmss_reference.Core.{Stack}
use xmss_reference.Core.TreeHash.{forest_size}
use xmss_reference.Fast.{BdsState, instances}
use xmss_reference.Fast.Update.{set_node, merge_nodes, push_leaf}
use xmss_reference.Fast.Saved.{Saved, save_junk}
use xmss_reference.Fast.Build.{OnStack, OnStack-set, Topped, Grown, merge_nodes_lem}

module _ (fns : HashFns) (lengths : HasLengths fns) (p : Params) (ok : IsParams p)
    (sk_seed pub_seed : List ℕ) (sub : Addr) (flags : ℕ → ℕ) where
  abbrev at : ℕ → ℕ → List ℕ
  at h j = node fns lengths p ok sk_seed pub_seed sub h j

  abbrev GrownTo : ℕ → ℕ → ℕ → BdsState → Addr → Type 0
  GrownTo done k m s a = Grown fns lengths p ok sk_seed pub_seed sub flags done k m s a

  abbrev SavedIn : ℕ → ℕ → BdsState → Type 0
  SavedIn i k s = Saved fns lengths p ok sk_seed pub_seed sub flags i k s

  -- The state with the leaf on the stack, before the loop.
  abbrev pushed : BdsState → List ℕ → BdsState
  pushed s x = record s {
    stack = set s.stack s.stackoffset x;
    stacklevels = set s.stacklevels s.stackoffset 0;
    stackoffset = s.stackoffset + 1;
  }

  -- The place behind the leaf.
  abbrev behind : BdsState → List ℕ → List ℕ
  behind s x = get_or (pushed s x).stack (pushed s x).stackoffset []

  abbrev pushed_saved : ℕ → BdsState → List ℕ → BdsState
  pushed_saved i s x =
      if ltb 0 (instances p) && i == 3 then set_node (pushed s x) 0 (behind s x) else pushed s x

  saved_pushed : (i : ℕ) (s : BdsState) (x : List ℕ) → SavedIn i 0 s → SavedIn i 0 (pushed s x)
  saved_pushed i s x b = record {
    auth_len = b.auth_len;
    inst_len = b.inst_len;
    keep_len = b.keep_len;
    auth = b.auth;
    inst = b.inst;
    done = b.done;
  }

  pushed_saved_lem :
      (i : ℕ) (s : BdsState) (x : List ℕ)
      → SavedIn i 0 s
      → ((pushed_saved i s x).stack ≡ (pushed s x).stack)
        × ((pushed_saved i s x).stacklevels ≡ (pushed s x).stacklevels)
        × ((pushed_saved i s x).stackoffset ≡ (pushed s x).stackoffset)
        × SavedIn i 0 (pushed_saved i s x)
  pushed_saved_lem i s x b = elim (Bool-cases (ltb 0 (instances p) && i == 3)) [
    | inl hit ↦
        let three : i ≡ 3 = ground arith in
        rw hit (
          refl,
          refl,
          refl,
          subst (λ u. SavedIn u 0 (set_node (pushed s x) 0 (behind s x))) (sym three)
              (save_junk fns lengths p ok sk_seed pub_seed sub flags (pushed s x) (behind s x)
                (subst (λ u. SavedIn u 0 (pushed s x)) three (saved_pushed i s x b))),
        )
    | inr miss ↦ rw miss (refl, refl, refl, saved_pushed i s x b)
  ]

  pushed-Topped :
      (i : ℕ) (trees : Stack) (s s' : BdsState) (x : List ℕ) (a : Addr)
      → x ≡ at 0 i
      → i < 2 ^ p.tree_height
      → length trees ≤ p.tree_height
      → OnStack s.stack s.stacklevels trees
      → length s.stack ≡ p.tree_height + 1
      → length s.stacklevels ≡ p.tree_height + 1
      → s.stackoffset ≡ length trees
      → s'.stack ≡ (pushed s x).stack
      → s'.stacklevels ≡ (pushed s x).stacklevels
      → s'.stackoffset ≡ (pushed s x).stackoffset
      → SavedIn i 0 s'
      → ots_part a ≡ typed_addr sub addr_type_hashtree
      → Topped fns lengths p ok sk_seed pub_seed sub flags i 0 i trees s' a
  pushed-Topped i trees s s' x a ex fits room on sl ll eo es el ef b ea = record {
    on = (
      ap (λ u. get_or u (length trees) []) es
          ∙ ap (λ o. get_or (set s.stack o x) (length trees) []) eo
          ∙ get_or-set s.stack (length trees) x [] (omega (arith, sl))
          ∙ ex,
      ap (λ u. get_or u (length trees) 0) el
          ∙ ap (λ o. get_or (set s.stacklevels o 0) (length trees) 0) eo
          ∙ get_or-set s.stacklevels (length trees) 0 0 (omega (arith, ll)),
      subst (λ u. OnStack u s'.stacklevels trees) (sym es)
          (subst (λ l. OnStack (pushed s x).stack l trees) (sym el)
            (OnStack-set s.stack s.stacklevels s.stackoffset x 0 trees (omega (arith, eo)) on)),
    );
    stack_len = ap length es ∙ length-set s.stack s.stackoffset x ∙ sl;
    levels_len = ap length el ∙ length-set s.stacklevels s.stackoffset 0 ∙ ll;
    room = room;
    offset = omega (arith, ef, eo);
    saved = b;
    addr = ea;
  }

  -- From a state with the first `i` leaves, one round makes that with one leaf more.
  pub push_leaf_lem :
      (i : ℕ) (s : BdsState) (ltree_addr ots_addr node_addr : Addr)
      → i < 2 ^ p.tree_height
      → GrownTo i 0 i s node_addr
      → type_part ltree_addr ≡ typed_addr sub addr_type_ltree
      → type_part ots_addr ≡ typed_addr sub addr_type_ots
      → let r = push_leaf fns p sk_seed pub_seed i i s ltree_addr ots_addr node_addr in
        GrownTo (i + 1) 0 (i + 1) r.0 r.3
        × (type_part r.1 ≡ typed_addr sub addr_type_ltree)
        × (type_part r.2 ≡ typed_addr sub addr_type_ots)
  unfolding push_leaf node
  push_leaf_lem i s ltree_addr ots_addr node_addr fits g el eo =
      let made =
        gen_leaf_wots_lem fns lengths p ok sk_seed pub_seed sub i ltree_addr ots_addr el eo in
      let x =
        (gen_leaf_wots fns p sk_seed pub_seed (set_ltree_addr ltree_addr i)
          (set_ots_addr ots_addr i)).2 in
      let room = forest_size fns lengths p ok sk_seed pub_seed sub 0 p.tree_height g.forest fits in
      let offset : s.stackoffset + 1 ≡ suc (length g.trees) = omega (arith, g.offset) in
      let at_leaf = pushed_saved_lem i s x g.saved in
      let topped =
        pushed-Topped i g.trees s (pushed_saved i s x) x node_addr made.2 fits room g.on g.stack_len
          g.levels_len g.offset at_leaf.0 at_leaf.1 at_leaf.2 at_leaf.3 g.addr in
      let merged =
        merge_nodes_lem fns lengths p ok sk_seed pub_seed sub flags i (pushed_saved i s x) node_addr
          fits g.forest (omega arith) (omega arith) topped in
      (
        subst
            (λ o.
              let r = merge_nodes fns p i i pub_seed o (pushed_saved i s x) node_addr in
              GrownTo (i + 1) 0 (i + 1) r.0 r.1)
            (sym offset) merged,
        made.0,
        made.1,
      )
