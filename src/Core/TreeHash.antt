-- ===== src/Core/TreeHash.antt =====
-- xmss_core.c: treehash and the recursive tree.
use xmss_reference.Base.{
  ℕ, zero, suc, ◌+◌, ◌-◌, ◌*◌, ◌/◌, ◌^◌, ◌≤◌, ◌<◌, ◌≡◌, inl, inr, refl, sym, ap, ap₂, ◌∙◌, List, [],
  ◌∷◌, ◌==◌, if◌then◌else◌, bit_xor, bit_xor_one, pow_over, arith, length, get_or, set,
}
use mathlib.Core.Path.{subst}
use native.Mathlib.Nat.{
  add-zero, zero-div, zero-add, pow-suc, one-le-pow, mul-div_cancel, div-lt_iff_lt-mul,
}
use xmss_reference.Address.{
  Addr, zero_addr, addr_type_ots, addr_type_ltree, addr_type_hashtree, set_type, copy_subtree_addr,
}
use xmss_reference.Params.{Params}
use xmss_reference.Params.Sets.{IsParams}
use xmss_reference.Hash.{HashFns}
use xmss_reference.Hash.Lengths.{HasLengths}
use xmss_reference.Wots.Keys.{ots_part}
use xmss_reference.Commons.Tree.{
  typed_addr, type_part, sibling, node, auth_nodes, gen_leaf_wots_lem,
}
use xmss_reference.Core.{Stack, TreeState, bottom, merge_loop, add_leaf, treehash_loop, treehash}
use xmss_reference.Core.AuthPath.{Stored, store}
use xmss_reference.Core.Merge.{
  Forest, none_yet, paired, single, Merged, merge_loop_lem, length-stored,
}

-- The sibling of a node below the root is a node of the tree.
pub sibling_bound :
    (h t leaf_idx : ℕ) → leaf_idx < 2 ^ (suc t + h) → sibling leaf_idx h < 2 ^ (suc t + h) / 2 ^ h
sibling_bound h t leaf_idx lt =
    let all : 2 ^ (suc t + h) / 2 ^ h ≡ 2 ^ suc t =
      ap (λ x. x / 2 ^ h) (pow_over (suc t) h)
      ∙ mul-div_cancel (2 ^ suc t) (one-le-pow h 2 (omega arith)) in
    let above : leaf_idx / 2 ^ h < 2 ^ suc t =
      (div-lt_iff_lt-mul (one-le-pow h 2 (omega arith))).1
        (subst (λ x. leaf_idx < x) (pow_over (suc t) h) lt) in
    rw all (omega (arith, above, bit_xor_one (leaf_idx / 2 ^ h), pow-suc 2 t))

-- The variables before the loop.
abbrev pub initial : List (List ℕ) → Addr → TreeState
initial auth_path subtree_addr = record {
  stack = [];
  auth_path = auth_path;
  ots_addr = typed_addr subtree_addr addr_type_ots;
  ltree_addr = typed_addr subtree_addr addr_type_ltree;
  node_addr = typed_addr subtree_addr addr_type_hashtree;
}

module _ (fns : HashFns) (lengths : HasLengths fns) (p : Params) (ok : IsParams p)
    (sk_seed pub_seed : List ℕ) (sub : Addr) (leaf_idx : ℕ) where
  abbrev at : ℕ → ℕ → List ℕ
  at h j = node fns lengths p ok sk_seed pub_seed sub h j

  abbrev Trees : ℕ → ℕ → Stack → Type 0
  Trees k m s = Forest fns lengths p ok sk_seed pub_seed sub leaf_idx k m s

  pub forest_empty : {k m : ℕ} {s : Stack} → Trees k m s → m ≡ 0 → s ≡ []
  forest_empty none_yet e = refl
  forest_empty (paired c em f) e = forest_empty f (omega arith)
  forest_empty (single c em f) e = absurd (omega arith)

  -- With all its leaves, a tree of height `t` is a single node.
  pub forest_full :
      (t : ℕ) {k m : ℕ} {s : Stack} → Trees k m s → m ≡ 2 ^ t → bottom s ≡ at (t + k) 0
  forest_full zero none_yet e = absurd (omega arith)
  forest_full zero (paired c em f) e = absurd (omega arith)
  forest_full zero {k} (single c em f) e =
      let none : c ≡ 0 = omega arith in
      (λ j. bottom ((k, at k (2 * none j)) ∷ forest_empty f none j))
      ∙ ap (λ t. at t 0) (sym (zero-add k))
  forest_full (suc t) none_yet e = absurd (omega (arith, pow-suc 2 t, one-le-pow t 2))
  forest_full (suc t) {k} (paired c em f) e =
      let up : t + (k + 1) ≡ suc t + k = omega arith in
      forest_full t f (omega (arith, pow-suc 2 t)) ∙ ap (λ h. at h 0) up
  forest_full (suc t) (single c em f) e = absurd (omega (arith, pow-suc 2 t))

  -- The state of the loop before leaf `m`.
  record Built (m : ℕ) (s : TreeState) : Type 0 where
    stack : Trees 0 m s.stack
    path :
        (h : ℕ)
        → h < p.tree_height
        → sibling leaf_idx h < m / 2 ^ h
        → get_or s.auth_path h [] ≡ at h (sibling leaf_idx h)
    len : length s.auth_path ≡ p.tree_height
    ots : type_part s.ots_addr ≡ typed_addr sub addr_type_ots
    ltree : type_part s.ltree_addr ≡ typed_addr sub addr_type_ltree
    node_addr : ots_part s.node_addr ≡ typed_addr sub addr_type_hashtree

  abbrev After : ℕ → Stack × List (List ℕ) × Addr → Type 0
  After idx r = Merged fns lengths p ok sk_seed pub_seed sub leaf_idx idx 0 idx r

  store_leaf :
      (idx q : ℕ) (x : List ℕ) (s : Stack) (path : List (List ℕ)) (a : Addr)
      → q ≡ sibling leaf_idx 0
      → x ≡ at 0 idx
      → After idx (
          merge_loop fns p idx leaf_idx pub_seed s 0
            (at 0 idx)
            (if sibling leaf_idx 0 == idx then set path 0 (at 0 idx) else path)
            a)
      → After idx
          (merge_loop fns p idx leaf_idx pub_seed s 0 x (if q == idx then set path 0 x else path) a)
  store_leaf idx q x s path a eq ex r = rw (eq, ex) r

  add_leaf_lem :
      (idx : ℕ) (s : TreeState)
      → Built idx s
      → Built (idx + 1) (add_leaf fns p sk_seed pub_seed leaf_idx idx s)
  unfolding add_leaf node
  add_leaf_lem idx s b =
      let made =
        gen_leaf_wots_lem fns lengths p ok sk_seed pub_seed sub idx s.ltree_addr s.ots_addr b.ltree
          b.ots in
      let all_e : idx / 2 ^ 0 ≡ idx = omega arith in
      let all_e' : (idx + 1) / 2 ^ 0 ≡ idx + 1 = omega arith in
      let first : leaf_idx ≡ leaf_idx / 2 ^ 0 = omega arith in
      let stored =
        store fns lengths p ok sk_seed pub_seed sub leaf_idx idx 0 idx s.auth_path b.len all_e
          all_e' old in
      let r =
        store_leaf idx (bit_xor leaf_idx 1) _ s.stack s.auth_path s.node_addr
          (ap (λ t. bit_xor t 1) first) made.2
          (merge_loop_lem fns lengths p ok sk_seed pub_seed sub leaf_idx idx _ s.node_addr b.stack
            all_e all_e'
            (length-stored fns lengths p ok sk_seed pub_seed sub leaf_idx (sibling leaf_idx 0) 0 idx
                (at 0 idx) s.auth_path
              ∙ b.len)
            stored b.node_addr) in
      record {
        stack = r.stack;
        path = r.path;
        len = r.len;
        ots = made.1;
        ltree = made.0;
        node_addr = r.addr;
      }
    where
      old : Stored fns lengths p ok sk_seed pub_seed sub leaf_idx idx 0 s.auth_path
      old h lt (inl (below, fits)) = absurd (omega arith)
      old h lt (inr fits) = b.path h lt fits

  treehash_loop_lem :
      (left idx : ℕ) (s : TreeState)
      → Built idx s
      → Built (left + idx) (treehash_loop fns p sk_seed pub_seed leaf_idx left idx s)
  unfolding treehash_loop
  treehash_loop_lem zero idx s b = rw (zero-add) b
  treehash_loop_lem (suc left) idx s b =
      let up : left + (idx + 1) ≡ suc left + idx = omega arith in
      subst (λ m. Built m (treehash_loop fns p sk_seed pub_seed leaf_idx (suc left) idx s)) up
        (treehash_loop_lem left (idx + 1) _ (add_leaf_lem idx s b))

  pub auth_nodes_ext :
      (left h : ℕ) (path : List (List ℕ))
      → length path ≡ left
      → ((i : ℕ) → i < left → get_or path i [] ≡ at (i + h) (sibling leaf_idx (i + h)))
      → path ≡ auth_nodes fns lengths p ok sk_seed pub_seed sub leaf_idx left h
  unfolding auth_nodes
  auth_nodes_ext zero h [] len f = refl
  auth_nodes_ext zero h (x ∷ path) len f = absurd (omega arith)
  auth_nodes_ext (suc left) h [] len f = absurd (omega arith)
  auth_nodes_ext (suc left) h (x ∷ path) len f =
      ap₂ ◌∷◌ (f 0 (omega arith) ∙ ap (λ t. at t (sibling leaf_idx t)) (zero-add h)) (
        auth_nodes_ext left (h + 1) path (omega arith) (λ i lt.
          let up : suc i + h ≡ i + (h + 1) = omega arith in
          f (suc i) (omega arith) ∙ ap (λ t. at t (sibling leaf_idx t)) up))

  built_all :
      (s : TreeState)
      → leaf_idx < 2 ^ p.tree_height
      → Built (2 ^ p.tree_height) s
      → (bottom s.stack ≡ at p.tree_height 0)
        × (s.auth_path ≡ auth_nodes fns lengths p ok sk_seed pub_seed sub leaf_idx p.tree_height 0)
  built_all s lt b = (
    forest_full p.tree_height b.stack refl ∙ ap (λ t. at t 0) (add-zero p.tree_height),
    auth_nodes_ext p.tree_height 0 s.auth_path b.len (λ h below. rw (add-zero) (
        b.path h below (
          let from : suc (p.tree_height - suc h) + h ≡ p.tree_height = omega arith in
          subst (λ t. sibling leaf_idx h < 2 ^ t / 2 ^ h) from
            (sibling_bound h (p.tree_height - suc h) leaf_idx
              (subst (λ t. leaf_idx < 2 ^ t) (sym from) lt))))),
  )

  start :
      (auth_path : List (List ℕ)) (subtree_addr : Addr)
      → copy_subtree_addr zero_addr subtree_addr ≡ copy_subtree_addr zero_addr sub
      → length auth_path ≡ p.tree_height
      → Built 0 (initial auth_path subtree_addr)
  unfolding set_type copy_subtree_addr
  start auth_path subtree_addr same len = record {
    stack = none_yet;
    path = λ h below fits. absurd (omega (arith, zero-div (2 ^ h)));
    len = len;
    ots = ap (λ c. set_type c addr_type_ots) same;
    ltree = ap (λ c. set_type c addr_type_ltree) same;
    node_addr = ap (λ c. set_type c addr_type_hashtree) same;
  }

  -- For the parameters of a set, treehash returns the root of the tree over the leaves 0 to
  -- 2^tree_height - 1 of the subtree that its address names, and writes the sibling of each node
  -- between the leaf `leaf_idx` and the root into the authentication path, whatever the path held.
  pub treehash_lem :
      (auth_path : List (List ℕ)) (subtree_addr : Addr)
      → copy_subtree_addr zero_addr subtree_addr ≡ copy_subtree_addr zero_addr sub
      → leaf_idx < 2 ^ p.tree_height
      → length auth_path ≡ p.tree_height
      → ((treehash fns p auth_path sk_seed pub_seed leaf_idx subtree_addr).0
          ≡ node fns lengths p ok sk_seed pub_seed sub p.tree_height 0)
        × ((treehash fns p auth_path sk_seed pub_seed leaf_idx subtree_addr).1
            ≡ auth_nodes fns lengths p ok sk_seed pub_seed sub leaf_idx p.tree_height 0)
  unfolding treehash set_type copy_subtree_addr
  treehash_lem auth_path subtree_addr same lt len =
      let run =
        treehash_loop fns p sk_seed pub_seed leaf_idx (2 ^ p.tree_height) 0
          (initial auth_path subtree_addr) in
      built_all run lt (
        subst (λ m. Built m run) (add-zero (2 ^ p.tree_height))
          (treehash_loop_lem (2 ^ p.tree_height) 0 (initial auth_path subtree_addr)
            (start auth_path subtree_addr same len)))

  pub forest_size : (t : ℕ) {k m : ℕ} {s : Stack} → Trees k m s → m < 2 ^ t → length s ≤ t
  forest_size t none_yet h = omega arith
  forest_size zero (paired c em f) h =
      let none : c ≡ 0 = omega arith in omega (arith, ap length (forest_empty f none))
  forest_size (suc t) (paired c em f) h =
      let below : c < 2 ^ t = omega (arith, pow-suc 2 t) in omega (arith, forest_size t f below)
  forest_size zero (single c em f) h = absurd (omega arith)
  forest_size (suc t) (single c em f) h =
      let below : c < 2 ^ t = omega (arith, pow-suc 2 t) in omega (arith, forest_size t f below)

  -- For the parameters of a set, the stack of treehash holds at most tree_height nodes whenever a leaf
  -- is made, so that with the leaf it has at most the tree_height + 1 nodes that the arrays are
  -- declared for.
  pub treehash_loop-length :
      (idx : ℕ) (auth_path : List (List ℕ)) (subtree_addr : Addr)
      → copy_subtree_addr zero_addr subtree_addr ≡ copy_subtree_addr zero_addr sub
      → length auth_path ≡ p.tree_height
      → idx < 2 ^ p.tree_height
      → length
          (treehash_loop fns p sk_seed pub_seed leaf_idx idx 0
            (initial auth_path subtree_addr)).stack
        ≤ p.tree_height
  treehash_loop-length idx auth_path subtree_addr same len h =
      let b = treehash_loop_lem idx 0 _ (start auth_path subtree_addr same len) in
      forest_size p.tree_height b.stack (omega arith)
