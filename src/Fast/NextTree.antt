-- ===== src/Fast/NextTree.antt =====
-- xmss_core_fast.c: bds_state_update, call after call, from the beginning of the next tree to its end.
use xmss_reference.Base.{
  ℕ, zero, suc, ◌+◌, ◌/◌, ◌^◌, ◌<◌, ◌≡◌, refl, sym, ap, ◌∙◌, arith, true, false, ◌==◌, Option, none,
  some, ◌>>=◌, List, [], length, get_or,
}
use mathlib.Core.Path.{subst}
use native.Mathlib.Nat.{add-zero, zero-add}
use xmss_reference.Address.{
  Addr, zero_addr, addr_type_ots, addr_type_ltree, addr_type_hashtree, set_type, copy_subtree_addr,
}
use xmss_reference.Params.{Params}
use xmss_reference.Params.Sets.{IsParams}
use xmss_reference.Hash.{HashFns}
use xmss_reference.Hash.Lengths.{HasLengths}
use xmss_reference.Commons.Tree.{typed_addr, node}
use xmss_reference.Core.Merge.{none_yet}
use xmss_reference.Fast.{BdsState, instances}
use xmss_reference.Fast.Update.{get_inst, subtree_addr, bds_state_update}
use xmss_reference.Fast.Saved.{none-Passed}
use xmss_reference.Fast.Build.{Grown}
use xmss_reference.Fast.Leaf.{push_leaf_lem}
use xmss_reference.Fast.Ready.{Initial, initial, root_at_bottom}

-- Whether the instances are completed, which no call changes.
abbrev pub flags_of : BdsState → ℕ → ℕ
flags_of s h = (get_inst s h).completed

module _ (fns : HashFns) where
  -- `count` calls of bds_state_update, one after the other.
  unfoldable pub update_times : ℕ → Params → BdsState → List ℕ → List ℕ → Addr → Option BdsState
  update_times zero p s sk_seed pub_seed addr = some s
  update_times (suc count) p s sk_seed pub_seed addr =
      bds_state_update fns p s sk_seed pub_seed addr
      >>= (λ s'. update_times count p s' sk_seed pub_seed addr)

module _ (fns : HashFns) (lengths : HasLengths fns) (p : Params) (ok : IsParams p)
    (sk_seed pub_seed : List ℕ) (sub : Addr) (flags : ℕ → ℕ) where
  -- The next tree between two calls.
  record Growing (addr : Addr) (s : BdsState) : Type 0 where
    tree :
        Grown fns lengths p ok sk_seed pub_seed sub flags s.next_leaf 0 s.next_leaf s
          (subtree_addr addr addr_type_hashtree)

  SomeGrowing : Addr → ℕ → Option BdsState → Type 0
  SomeGrowing addr m none = ⊥
  SomeGrowing addr m (some s) = Growing addr s × s.next_leaf ≡ m

  counted :
      (addr : Addr) (m : ℕ) (s : BdsState) (a : Addr)
      → typed_addr addr addr_type_hashtree ≡ typed_addr sub addr_type_hashtree
      → Grown fns lengths p ok sk_seed pub_seed sub flags m 0 m s a
      → Growing addr (record s { next_leaf = m })
  unfolding set_type copy_subtree_addr
  counted addr m s a same g =
      let b = g.saved in
      record {
        tree = record {
          trees = g.trees;
          forest = g.forest;
          on = g.on;
          stack_len = g.stack_len;
          levels_len = g.levels_len;
          offset = g.offset;
          saved = record {
            auth_len = b.auth_len;
            inst_len = b.inst_len;
            keep_len = b.keep_len;
            auth = b.auth;
            inst = b.inst;
            done = b.done;
          };
          addr = same;
        };
      }

  update_lem :
      (s : BdsState) (addr : Addr)
      → copy_subtree_addr zero_addr addr ≡ copy_subtree_addr zero_addr sub
      → s.next_leaf < 2 ^ p.tree_height
      → Growing addr s
      → SomeGrowing addr (s.next_leaf + 1) (bds_state_update fns p s sk_seed pub_seed addr)
  unfolding bds_state_update set_type copy_subtree_addr SomeGrowing
  update_lem s addr same lt g =
      let more : (s.next_leaf == 2 ^ p.tree_height) ≡ false = ground arith in
      let r =
        push_leaf_lem fns lengths p ok sk_seed pub_seed sub flags s.next_leaf s
          (subtree_addr addr addr_type_ltree) (subtree_addr addr addr_type_ots)
          (subtree_addr addr addr_type_hashtree) lt g.tree
          (ap (λ c. set_type c addr_type_ltree) same) (ap (λ c. set_type c addr_type_ots) same) in
      let same' = ap (λ c. set_type c addr_type_hashtree) same in
      rw more (counted addr (s.next_leaf + 1) _ _ same' r.0, refl)

  -- With all its leaves the tree is refused another one.
  full_lem :
      (s : BdsState) (addr : Addr)
      → s.next_leaf ≡ 2 ^ p.tree_height
      → bds_state_update fns p s sk_seed pub_seed addr ≡ none
  unfolding bds_state_update
  full_lem s addr e = let full : (s.next_leaf == 2 ^ p.tree_height) ≡ true = ground arith in rw full

  continue :
      (left m : ℕ) (addr : Addr) (next : Option BdsState)
      → ((s : BdsState)
          → Growing addr s
          → s.next_leaf ≡ m
          → SomeGrowing addr (left + m) (update_times fns left p s sk_seed pub_seed addr))
      → SomeGrowing addr m next
      → SomeGrowing addr
          (left + m)
          (next >>= (λ s'. update_times fns left p s' sk_seed pub_seed addr))
  unfolding SomeGrowing
  continue left m addr none later g = absurd g
  continue left m addr (some s) later g = later s g.0 g.1

  updates_lem :
      (left m : ℕ) (s : BdsState) (addr : Addr)
      → copy_subtree_addr zero_addr addr ≡ copy_subtree_addr zero_addr sub
      → left + m ≡ 2 ^ p.tree_height
      → Growing addr s
      → s.next_leaf ≡ m
      → SomeGrowing addr (left + m) (update_times fns left p s sk_seed pub_seed addr)
  unfolding update_times SomeGrowing
  updates_lem zero m s addr same e g em = (g, em ∙ sym (zero-add m))
  updates_lem (suc left) m s addr same e g em =
      let up : left + (m + 1) ≡ suc left + m = omega arith in
      subst (λ t. SomeGrowing addr t (update_times fns (suc left) p s sk_seed pub_seed addr)) up
        (continue left (m + 1) addr (bds_state_update fns p s sk_seed pub_seed addr)
          (λ s' g' e'. updates_lem left (m + 1) s' addr same (omega arith) g' e')
          (subst (λ t. SomeGrowing addr (t + 1) (bds_state_update fns p s sk_seed pub_seed addr)) em
            (update_lem s addr same (omega arith) g)))

module _ (fns : HashFns) (lengths : HasLengths fns) (p : Params) (ok : IsParams p)
    (sk_seed pub_seed : List ℕ) (sub : Addr) where
  -- A state whose arrays have the declared lengths, with no leaf of its tree.
  pub record Fresh (s : BdsState) : Type 0 where
    pub stackoffset : s.stackoffset ≡ 0
    pub next_leaf : s.next_leaf ≡ 0
    pub stack_len : length s.stack ≡ p.tree_height + 1
    pub levels_len : length s.stacklevels ≡ p.tree_height + 1
    pub auth_len : length s.auth ≡ p.tree_height
    pub keep_len : length s.keep ≡ p.tree_height / 2
    pub inst_len : length s.treehash ≡ instances p

  -- A state with a whole tree.
  pub record Whole (addr : Addr) (flags : ℕ → ℕ) (s : BdsState) : Type 0 where
    pub root : get_or s.stack 0 [] ≡ node fns lengths p ok sk_seed pub_seed sub p.tree_height 0
    pub ready : Initial fns lengths p ok sk_seed pub_seed sub flags s
    pub refused : bds_state_update fns p s sk_seed pub_seed addr ≡ none

  pub SomeWhole : Addr → (ℕ → ℕ) → Option BdsState → Type 0
  SomeWhole addr flags none = ⊥
  SomeWhole addr flags (some s) = Whole addr flags s

  start :
      (s : BdsState) (addr : Addr)
      → copy_subtree_addr zero_addr addr ≡ copy_subtree_addr zero_addr sub
      → Fresh s
      → Growing fns lengths p ok sk_seed pub_seed sub (flags_of s) addr s
  unfolding set_type copy_subtree_addr
  start s addr same f = record {
    tree =
        subst
          (λ m.
            Grown fns lengths p ok sk_seed pub_seed sub (flags_of s) m 0 m s
              (subtree_addr addr addr_type_hashtree))
          (sym f.next_leaf)
          (record {
            trees = [];
            forest = none_yet;
            on = tt;
            stack_len = f.stack_len;
            levels_len = f.levels_len;
            offset = f.stackoffset;
            saved = record {
              auth_len = f.auth_len;
              inst_len = f.inst_len;
              keep_len = f.keep_len;
              auth = λ h below passed. absurd (none-Passed h 1 passed);
              inst = λ h below passed. absurd (none-Passed h 3 passed);
              done = λ h lt. refl;
            };
            addr = ap (λ c. set_type c addr_type_hashtree) same;
          });
  }

  whole :
      (addr : Addr) (flags : ℕ → ℕ) (made : Option BdsState)
      → SomeGrowing fns lengths p ok sk_seed pub_seed sub flags addr (2 ^ p.tree_height) made
      → SomeWhole addr flags made
  unfolding SomeGrowing SomeWhole
  whole addr flags none g = g
  whole addr flags (some s) (g, e) =
      let full =
        subst
          (λ m.
            Grown fns lengths p ok sk_seed pub_seed sub flags m 0 m s
              (subtree_addr addr addr_type_hashtree))
          e g.tree in
      record {
        root = root_at_bottom fns lengths p ok sk_seed pub_seed sub flags s _ full;
        ready = initial fns lengths p ok sk_seed pub_seed sub flags s full.saved;
        refused = full_lem fns lengths p ok sk_seed pub_seed sub flags s addr e;
      }

  -- For the parameters of a set: from a state without leaves, 2^tree_height calls of bds_state_update
  -- all add a leaf, and leave a state with the root of the tree at the bottom of the stack, the
  -- authentication path of leaf 0 and the nodes that the instances start with, in which whether an
  -- instance is completed is unchanged; one more call is refused.
  pub update_times-Whole :
      (s : BdsState) (addr : Addr)
      → copy_subtree_addr zero_addr addr ≡ copy_subtree_addr zero_addr sub
      → Fresh s
      → SomeWhole addr (flags_of s) (update_times fns (2 ^ p.tree_height) p s sk_seed pub_seed addr)
  update_times-Whole s addr same f =
      whole addr (flags_of s) (update_times fns (2 ^ p.tree_height) p s sk_seed pub_seed addr) (
        subst
          (λ m.
            SomeGrowing fns lengths p ok sk_seed pub_seed sub (flags_of s) addr m
              (update_times fns (2 ^ p.tree_height) p s sk_seed pub_seed addr))
          (add-zero (2 ^ p.tree_height))
          (updates_lem fns lengths p ok sk_seed pub_seed sub (flags_of s) (2 ^ p.tree_height) 0 s
            addr same (omega arith) (start s addr same f) f.next_leaf))
