-- ===== src/Fast/Build.antt =====
-- xmss_core_fast.c: the `while` loop of treehash_init and bds_state_update, the stack as a forest.
use xmss_reference.Base.{
  ℕ, suc, ◌+◌, ◌-◌, ◌*◌, ◌/◌, ◌%◌, ◌^◌, ◌≤◌, ◌<◌, ◌≡◌, inl, inr, refl, sym, ap, ◌∙◌, arith, true,
  false, ◌==◌, List, [], ◌∷◌, ◌++◌, length, get_or, set, get_or-set, get_or_other, length-set,
  half_pow,
}
use mathlib.Core.Path.{subst}
use native.Mathlib.Decide.{dec_lt}
use native.Mathlib.Nat.{one-le-pow, pow-le-pow_right, div-lt_iff_lt-mul}
use xmss_reference.Address.{Addr, addr_type_hashtree, set_tree_height, set_tree_index}
use xmss_reference.Params.{Params}
use xmss_reference.Params.Sets.{IsParams}
use xmss_reference.Hash.{HashFns, written, thash_h}
use xmss_reference.Hash.Lengths.{HasLengths}
use xmss_reference.Wots.Keys.{ots_part}
use xmss_reference.Commons.Tree.{typed_addr, node, parent_addr}
use xmss_reference.Core.{Stack}
use xmss_reference.Core.AuthPath.{trichotomy}
use xmss_reference.Core.Merge.{
  Forest, none_yet, paired, single, TopAbove, Forest-TopAbove, no_higher, merged_node,
}
use xmss_reference.Fast.{BdsState}
use xmss_reference.Fast.Update.{save_node, merge_pair, merge_nodes}
use xmss_reference.Fast.Saved.{Saved, Passed, save_node_lem}

-- The arrays of nodes and of levels hold a stack, whose top stands last.
abbrev pub OnStack : List (List ℕ) → List ℕ → Stack → Type 0
OnStack nodes levels [] = Unit
OnStack nodes levels ((h, x) ∷ rest) =
    (get_or nodes (length rest) [] ≡ x)
    × (get_or levels (length rest) 0 ≡ h)
    × OnStack nodes levels rest

-- Writes behind the stack leave it alone.
pub OnStack-set :
    (nodes : List (List ℕ)) (levels : List ℕ) (k : ℕ) (x : List ℕ) (h : ℕ) (s : Stack)
    → length s ≤ k
    → OnStack nodes levels s
    → OnStack (set nodes k x) (set levels k h) s
OnStack-set nodes levels k x h [] le on = tt
OnStack-set nodes levels k x h ((h', y) ∷ rest) le on = (
  get_or_other nodes k (length rest) x [] (inr (omega arith)) ∙ on.0,
  get_or_other levels k (length rest) h 0 (inr (omega arith)) ∙ on.1,
  OnStack-set nodes levels k x h rest (omega arith) on.2,
)

-- A node of height `k` with a number that is not 0 stands below the root.
height_below : (i k t : ℕ) → i < 2 ^ t → 1 ≤ i / 2 ^ k → k < t
height_below i k t fits pos = elim (dec_lt k t) [
  | yes lt ↦ lt
  | no over ↦
      let wide : i < 2 ^ k =
        omega (arith, pow-le-pow_right {n = 2} (omega arith) {i = t} {j = k} (omega arith)) in
      let small : i / 2 ^ k < 1 =
        (div-lt_iff_lt-mul (one-le-pow k 2 (omega arith))).1 (omega arith) in
      absurd (omega arith)
]

module _ (p : Params) (i k : ℕ) (x : List ℕ) (s : BdsState) where
  -- Copying a node leaves the stack alone.
  pub save_node-stack : (save_node p i k x s).stack ≡ s.stack
  unfolding save_node
  save_node-stack = ground arith

  pub save_node-stacklevels : (save_node p i k x s).stacklevels ≡ s.stacklevels
  unfolding save_node
  save_node-stacklevels = ground arith

module _ (fns : HashFns) (lengths : HasLengths fns) (p : Params) (ok : IsParams p)
    (sk_seed pub_seed : List ℕ) (sub : Addr) (flags : ℕ → ℕ) where
  abbrev at : ℕ → ℕ → List ℕ
  at h j = node fns lengths p ok sk_seed pub_seed sub h j

  abbrev Trees : ℕ → ℕ → Stack → Type 0
  Trees k m stack = Forest fns lengths p ok sk_seed pub_seed sub 0 k m stack

  -- The state with node `m` of height `k` on top of `rest`, before it is merged or after.
  pub record Topped (i k m : ℕ) (rest : Stack) (s : BdsState) (a : Addr) : Type 0 where
    pub on : OnStack s.stack s.stacklevels ((k, at k m) ∷ rest)
    pub stack_len : length s.stack ≡ p.tree_height + 1
    pub levels_len : length s.stacklevels ≡ p.tree_height + 1
    pub room : length rest ≤ p.tree_height
    pub offset : s.stackoffset ≡ suc (length rest)
    pub saved : Saved fns lengths p ok sk_seed pub_seed sub flags i k s
    pub addr : ots_part a ≡ typed_addr sub addr_type_hashtree

  -- The state that a merge leaves, its three fields written over those behind save_node.
  merged_state :
      (i k c : ℕ) (rest : Stack) (s : BdsState) (x : List ℕ) (level : ℕ) (a : Addr)
      → OnStack s.stack s.stacklevels rest
      → length s.stack ≡ p.tree_height + 1
      → length s.stacklevels ≡ p.tree_height + 1
      → length rest ≤ p.tree_height
      → x ≡ at (k + 1) c
      → level ≡ k
      → Saved fns lengths p ok sk_seed pub_seed sub flags i (k + 1) s
      → ots_part a ≡ typed_addr sub addr_type_hashtree
      → Topped i
          (k + 1)
          c
          rest
          (record s {
            stack = set s.stack (length rest) x;
            stacklevels = set s.stacklevels (length rest) (level + 1);
            stackoffset = suc (length rest);
          })
          a
  merged_state i k c rest s x level a on sl ll room ex el b ea = record {
    on = (
      get_or-set s.stack (length rest) x [] (omega (arith, sl)) ∙ ex,
      get_or-set s.stacklevels (length rest) (level + 1) 0 (omega (arith, ll)) ∙ ap (λ t. t + 1) el,
      OnStack-set s.stack s.stacklevels (length rest) x (level + 1) rest (omega arith) on,
    );
    stack_len = length-set s.stack (length rest) x ∙ sl;
    levels_len = length-set s.stacklevels (length rest) (level + 1) ∙ ll;
    room = room;
    offset = refl;
    saved = record {
      auth_len = b.auth_len;
      inst_len = b.inst_len;
      keep_len = b.keep_len;
      auth = b.auth;
      inst = b.inst;
      done = b.done;
    };
    addr = ea;
  }

  -- One merge: the top node and the one below it are the children of node `c`.
  merge_pair_lem :
      (i k m c : ℕ) (rest : Stack) (s : BdsState) (a : Addr)
      → k < p.tree_height
      → m ≡ 2 * c + 1
      → i / 2 ^ k ≡ m
      → (i + 1) / 2 ^ k ≡ m + 1
      → Topped i k m ((k, at k (2 * c)) ∷ rest) s a
      → Topped i
          (k + 1)
          c
          rest
          (merge_pair fns p i i pub_seed (length rest) s a).0
          (merge_pair fns p i i pub_seed (length rest) s a).1
  unfolding merge_pair
  merge_pair_lem i k m c rest s a below_top em e e' t =
      let (top, level, (left, level', on)) = t.on in
      let n = length rest in
      let h = get_or s.stacklevels (suc n) 0 in
      let right = get_or s.stack (suc n) [] in
      let same = save_node-stack p i h right s in
      let same' = save_node-stacklevels p i h right s in
      let q : i / 2 ^ (k + 1) ≡ c = omega (arith, half_pow i k) in
      let made =
        (λ j.
          written (left j)
            (thash_h fns p (left j ++ top j) pub_seed
              (set_tree_index (set_tree_height a (level j)) (i / 2 ^ (level j + 1)))).1)
        ∙ merged_node fns lengths p ok sk_seed pub_seed sub 0 k m c (i / 2 ^ (k + 1)) a em q
            t.addr in
      let saved =
        subst
          (λ u.
            Saved fns lengths p ok sk_seed pub_seed sub flags i (k + 1) (save_node p i u right s))
          (sym level)
          (save_node_lem fns lengths p ok sk_seed pub_seed sub flags i k s t.saved below_top
            (omega arith) right (top ∙ ap (λ j. at k j) (sym e))) in
      merged_state i k c rest (save_node p i h right s) _ _ _
        (subst (λ l. OnStack (save_node p i h right s).stack l rest) (sym same')
          (subst (λ u. OnStack u s.stacklevels rest) (sym same) on))
        (ap length same ∙ t.stack_len) (ap length same' ∙ t.levels_len) (omega (arith, t.room)) made
        (ap (λ l. get_or l n 0) same' ∙ level') saved
        (parent_addr fns p pub_seed a _ h (i / 2 ^ (h + 1)) _ t.addr)

  -- The state behind the loop: `m` nodes of height `k` in the forest, `done` leaves in the tree.
  pub record Grown (done k m : ℕ) (s : BdsState) (a : Addr) : Type 0 where
    pub trees : Stack
    pub forest : Trees k m trees
    pub on : OnStack s.stack s.stacklevels trees
    pub stack_len : length s.stack ≡ p.tree_height + 1
    pub levels_len : length s.stacklevels ≡ p.tree_height + 1
    pub offset : s.stackoffset ≡ length trees
    pub saved : Saved fns lengths p ok sk_seed pub_seed sub flags done 0 s
    pub addr : ots_part a ≡ typed_addr sub addr_type_hashtree

  -- If the top node is a left child, it is neither node 1 nor node 3, and no higher node is new.
  Passed-all :
      (i k c h q : ℕ)
      → i / 2 ^ k ≡ 2 * c
      → (i + 1) / 2 ^ k ≡ 2 * c + 1
      → q % 2 ≡ 1
      → Passed (i + 1) 0 h q
      → Passed i k h q
  Passed-all i k c h q e e' odd (inl (below, new)) = absurd (omega arith)
  Passed-all i k c h q e e' odd (inr new) = elim (trichotomy h k) [
    | inl below ↦ inl (below, new)
    | inr (inl same) ↦
        let at_k = subst (λ t. q < (i + 1) / 2 ^ t) same new in
        inr (subst (λ t. q < i / 2 ^ t) (sym same) (omega arith))
    | inr (inr above) ↦
        let back : h - (k + 1) + (k + 1) ≡ h = omega arith in
        let old =
          subst (λ t. (i + 1) / 2 ^ t ≡ i / 2 ^ t) back
            (no_higher fns lengths p ok sk_seed pub_seed sub 0 i k c (h - (k + 1)) e e') in
        inr (omega arith)
  ]

  stop :
      (i k m c : ℕ) (rest : Stack) (s : BdsState) (a : Addr)
      → m ≡ 2 * c
      → Trees (k + 1) c rest
      → i / 2 ^ k ≡ m
      → (i + 1) / 2 ^ k ≡ m + 1
      → Topped i k m rest s a
      → Grown (i + 1) k (m + 1) s a
  stop i k m c rest s a em f e e' t =
      let b = t.saved in
      record {
        trees = (k, at k (2 * c)) ∷ rest;
        forest = single c (omega arith) f;
        on = subst (λ u. OnStack s.stack s.stacklevels ((k, at k u) ∷ rest)) em t.on;
        stack_len = t.stack_len;
        levels_len = t.levels_len;
        offset = t.offset;
        saved = record {
          auth_len = b.auth_len;
          inst_len = b.inst_len;
          keep_len = b.keep_len;
          auth =
              λ h lt passed. b.auth h lt (Passed-all i k c h 1 (e ∙ em) (omega arith) refl passed);
          inst =
              λ h lt passed. b.inst h lt (Passed-all i k c h 3 (e ∙ em) (omega arith) refl passed);
          done = b.done;
        };
        addr = t.addr;
      }

  no_merge :
      (i k m : ℕ) (rest : Stack) (s : BdsState) (a : Addr)
      → TopAbove fns lengths p ok sk_seed pub_seed sub 0 (k + 1) rest
      → OnStack s.stack s.stacklevels ((k, at k m) ∷ rest)
      → merge_nodes fns p i i pub_seed (suc (length rest)) s a ≡ (s, a)
  unfolding merge_nodes
  no_merge i k m [] s a h on = refl
  no_merge i k m ((h', y) ∷ rest) s a h (top, level, (under, level', on)) =
      let other : (get_or s.stacklevels (suc (length rest)) 0
            == get_or s.stacklevels (length rest) 0)
          ≡ false =
        ground arith in
      rw other

  abbrev GrownPair : ℕ → ℕ → ℕ → BdsState × Addr → Type 0
  GrownPair done k m r = Grown done k m r.0 r.1

  pub merge_nodes_lem :
      {k m : ℕ} {rest : Stack} (i : ℕ) (s : BdsState) (a : Addr)
      → i < 2 ^ p.tree_height
      → Trees k m rest
      → i / 2 ^ k ≡ m
      → (i + 1) / 2 ^ k ≡ m + 1
      → Topped i k m rest s a
      → GrownPair (i + 1) k (m + 1) (merge_nodes fns p i i pub_seed (suc (length rest)) s a)
  unfolding merge_nodes
  merge_nodes_lem {k} i s a fits none_yet e e' t = stop i k 0 0 [] s a refl none_yet e e' t
  merge_nodes_lem {k} {m} {rest} i s a fits (paired c em f) e e' t =
      rw (no_merge i k m rest s a (Forest-TopAbove fns lengths p ok sk_seed pub_seed sub 0 f) t.on)
        (stop i k m c rest s a em f e e' t)
  merge_nodes_lem {k} {m} i s a fits (single {s = rest} c em f) e e' t =
      let n = length rest in
      let (top, level, (left, level', on)) = t.on in
      let same : (get_or s.stacklevels (suc n) 0 == get_or s.stacklevels n 0) ≡ true =
        ground arith in
      let up : i / 2 ^ (k + 1) ≡ c = omega (arith, half_pow i k) in
      let up' : (i + 1) / 2 ^ (k + 1) ≡ c + 1 = omega (arith, half_pow (i + 1) k) in
      let below_top : k < p.tree_height = height_below i k p.tree_height fits (omega arith) in
      let r =
        merge_nodes_lem i _ _ fits f up up' (merge_pair_lem i k m c rest s a below_top em e e' t) in
      rw same (record {
        trees = r.trees;
        forest = paired (c + 1) (omega arith) r.forest;
        on = r.on;
        stack_len = r.stack_len;
        levels_len = r.levels_len;
        offset = r.offset;
        saved = r.saved;
        addr = r.addr;
      })
