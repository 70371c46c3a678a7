-- ===== src/Fast/Init.antt =====
-- xmss_core_fast.c: treehash_init and the recursive tree.
use xmss_reference.Base.{
  ℕ, zero, suc, ◌+◌, ◌/◌, ◌^◌, ◌<◌, ◌≡◌, refl, sym, ap, arith, List, [], ◌∷◌, length, get_or,
  replicate, length-replicate,
}
use mathlib.Core.Path.{subst}
use native.Mathlib.Nat.{add-zero, zero-add}
use xmss_reference.Address.{
  Addr, zero_addr, addr_type_ots, addr_type_ltree, addr_type_hashtree, set_type, copy_subtree_addr,
}
use xmss_reference.Params.{Params}
use xmss_reference.Params.Sets.{IsParams}
use xmss_reference.Hash.{HashFns}
use xmss_reference.Hash.Lengths.{HasLengths}
use xmss_reference.Commons.Tree.{typed_addr, type_part, node}
use xmss_reference.Core.Merge.{none_yet}
use xmss_reference.Fast.{BdsState, TreehashInst, blank_inst, instances}
use xmss_reference.Fast.Update.{subtree_addr, init_loop, init_insts, treehash_init}
use xmss_reference.Fast.Saved.{none-Passed}
use xmss_reference.Fast.Build.{Grown}
use xmss_reference.Fast.Ready.{Initial, initial, restacked, root_at_bottom}
use xmss_reference.Fast.Leaf.{push_leaf_lem}

length-init_insts :
    (left i : ℕ) (ts : List TreehashInst) → length ts ≡ left → length (init_insts left i ts) ≡ left
unfolding init_insts
length-init_insts zero i ts e = e
length-init_insts (suc left) i [] e = absurd (omega arith)
length-init_insts (suc left) i (t ∷ ts) e = ap suc (length-init_insts left (i + 1) ts (omega arith))

init_insts-completed :
    (left i : ℕ) (ts : List TreehashInst)
    → length ts ≡ left
    → (h : ℕ) → h < left
    → (get_or (init_insts left i ts) h blank_inst).completed ≡ 1
unfolding init_insts
init_insts-completed zero i ts e h lt = absurd (omega arith)
init_insts-completed (suc left) i [] e h lt = absurd (omega arith)
init_insts-completed (suc left) i (t ∷ ts) e zero lt = refl
init_insts-completed (suc left) i (t ∷ ts) e (suc h) lt =
    init_insts-completed left (i + 1) ts (omega arith) h (omega arith)

module _ (fns : HashFns) (lengths : HasLengths fns) (p : Params) (ok : IsParams p)
    (sk_seed pub_seed : List ℕ) (sub : Addr) where
  abbrev at : ℕ → ℕ → List ℕ
  at h j = node fns lengths p ok sk_seed pub_seed sub h j

  abbrev GrownTo : ℕ → BdsState → Type 0
  GrownTo m s = (a : Addr) × Grown fns lengths p ok sk_seed pub_seed sub (λ h. 1) m 0 m s a

  init_loop_lem :
      (left i : ℕ) (s : BdsState) (ltree_addr ots_addr node_addr : Addr)
      → left + i ≡ 2 ^ p.tree_height
      → Grown fns lengths p ok sk_seed pub_seed sub (λ h. 1) i 0 i s node_addr
      → type_part ltree_addr ≡ typed_addr sub addr_type_ltree
      → type_part ots_addr ≡ typed_addr sub addr_type_ots
      → GrownTo
          (left + i)
          (init_loop fns p sk_seed pub_seed left i i s ltree_addr ots_addr node_addr)
  unfolding init_loop
  init_loop_lem zero i s ltree_addr ots_addr node_addr e g el eo =
      subst (λ m. GrownTo m s) (sym (zero-add i)) (node_addr, g)
  init_loop_lem (suc left) i s ltree_addr ots_addr node_addr e g el eo =
      let r =
        push_leaf_lem fns lengths p ok sk_seed pub_seed sub (λ h. 1) i s ltree_addr ots_addr
          node_addr (omega arith) g el eo in
      let up : left + (i + 1) ≡ suc left + i = omega arith in
      subst
        (λ m.
          GrownTo m
            (init_loop fns p sk_seed pub_seed (suc left) i i s ltree_addr ots_addr node_addr))
        up (init_loop_lem left (i + 1) _ _ _ _ (omega arith) r.0 r.1 r.2)

  -- The state that the loop starts from.
  abbrev begin : ℕ → BdsState → BdsState
  begin height state = record state {
    treehash = init_insts (instances p) 0 state.treehash;
    stack = replicate (height + 1) (replicate p.n 0);
    stacklevels = replicate (height + 1) 0;
    stackoffset = 0;
  }

  start :
      (state : BdsState) (addr : Addr)
      → copy_subtree_addr zero_addr addr ≡ copy_subtree_addr zero_addr sub
      → length state.auth ≡ p.tree_height
      → length state.keep ≡ p.tree_height / 2
      → length state.treehash ≡ instances p
      → Grown fns lengths p ok sk_seed pub_seed sub
          (λ h. 1)
          0
          0
          0
          (begin p.tree_height state)
          (subtree_addr addr addr_type_hashtree)
  unfolding set_type copy_subtree_addr
  start state addr same la lk lt = record {
    trees = [];
    forest = none_yet;
    on = tt;
    stack_len = length-replicate (p.tree_height + 1) (replicate p.n 0);
    levels_len = length-replicate (p.tree_height + 1) 0;
    offset = refl;
    saved = record {
      auth_len = la;
      inst_len = length-init_insts (instances p) 0 state.treehash lt;
      keep_len = lk;
      auth = λ h below passed. absurd (none-Passed h 1 passed);
      inst = λ h below passed. absurd (none-Passed h 3 passed);
      done = init_insts-completed (instances p) 0 state.treehash lt;
    };
    addr = ap (λ c. set_type c addr_type_hashtree) same;
  }

  -- For the parameters of a set and arrays of the declared lengths, treehash_init returns the root of
  -- the tree over all leaves, and leaves a state with the authentication path of leaf 0, with node 3 of
  -- each height up to tree_height - 2 in the instance of the height, and no instance to update.
  pub treehash_init_lem :
      (state : BdsState) (addr : Addr)
      → copy_subtree_addr zero_addr addr ≡ copy_subtree_addr zero_addr sub
      → length state.auth ≡ p.tree_height
      → length state.keep ≡ p.tree_height / 2
      → length state.treehash ≡ instances p
      → let r = treehash_init fns p p.tree_height 0 state sk_seed pub_seed addr in
        (r.0 ≡ node fns lengths p ok sk_seed pub_seed sub p.tree_height 0)
        × Initial fns lengths p ok sk_seed pub_seed sub (λ h. 1) r.1
  unfolding treehash_init set_type copy_subtree_addr
  treehash_init_lem state addr same la lk lt =
      let (a, g) =
        init_loop_lem (2 ^ p.tree_height) 0 (begin p.tree_height state)
          (subtree_addr addr addr_type_ltree) (subtree_addr addr addr_type_ots)
          (subtree_addr addr addr_type_hashtree) (omega arith) (start state addr same la lk lt)
          (ap (λ c. set_type c addr_type_ltree) same) (ap (λ c. set_type c addr_type_ots) same) in
      let run =
        init_loop fns p sk_seed pub_seed (2 ^ p.tree_height) 0 0 (begin p.tree_height state)
          (subtree_addr addr addr_type_ltree) (subtree_addr addr addr_type_ots)
          (subtree_addr addr addr_type_hashtree) in
      let full =
        subst (λ m. Grown fns lengths p ok sk_seed pub_seed sub (λ h. 1) m 0 m run a)
          (add-zero (2 ^ p.tree_height)) g in
      (
        root_at_bottom fns lengths p ok sk_seed pub_seed sub (λ h. 1) run a full,
        restacked fns lengths p ok sk_seed pub_seed sub (λ h. 1) run state
            (initial fns lengths p ok sk_seed pub_seed sub (λ h. 1) run full.saved),
      )
