-- ===== src/Core/Merge.antt =====
-- xmss_core.c: the inner loop of treehash, the stack as a forest of complete trees.
use xmss_reference.Base.{
  ℕ, zero, suc, ◌+◌, ◌-◌, ◌*◌, ◌/◌, ◌^◌, ◌≤◌, ◌<◌, ◌≡◌, inl, inr, refl, sym, ap, ◌∙◌, List, [], ◌∷◌,
  ◌++◌, true, false, Bool-cases, ◌==◌, if◌then◌else◌, half_pow, arith, length, get_or, set,
  length-set,
}
use mathlib.Core.Path.{subst}
use native.Mathlib.Decide.{dec_lt}
use native.Mathlib.Nat.{zero-add}
use xmss_reference.Address.{Addr, addr_type_hashtree, set_tree_height, set_tree_index}
use xmss_reference.Params.{Params}
use xmss_reference.Params.Sets.{IsParams}
use xmss_reference.Hash.{HashFns, written, thash_h}
use xmss_reference.Hash.Lengths.{HasLengths}
use xmss_reference.Wots.Keys.{ots_part}
use xmss_reference.Commons.Tree.{typed_addr, sibling, node, node-suc, parent_addr}
use xmss_reference.Core.{Stack, merge_loop}
use xmss_reference.Core.AuthPath.{Stored, store}

module _ (fns : HashFns) (lengths : HasLengths fns) (p : Params) (ok : IsParams p)
    (sk_seed pub_seed : List ℕ) (sub : Addr) (leaf_idx : ℕ) where
  abbrev at : ℕ → ℕ → List ℕ
  at h j = node fns lengths p ok sk_seed pub_seed sub h j

  -- `Forest k m stack`: the stack holds the roots of the complete subtrees of height `k` or more that
  -- the first `m` nodes of height `k` are made of, the smallest on top.
  pub data Forest : ℕ → ℕ → Stack → Type 0 where
    none_yet : {k : ℕ} → Forest k 0 []
    paired : {k m : ℕ} {s : Stack} (c : ℕ) → m ≡ 2 * c → Forest (k + 1) c s → Forest k m s
    single :
        {k m : ℕ} {s : Stack} (c : ℕ)
        → m ≡ 2 * c + 1
        → Forest (k + 1) c s
        → Forest k m ((k, at k (2 * c)) ∷ s)

  -- Every node on the stack has height `k` or more.
  abbrev pub TopAbove : ℕ → Stack → Type 0
  TopAbove k [] = Unit
  TopAbove k ((h, y) ∷ rest) = k ≤ h

  TopAbove-less : (k : ℕ) (s : Stack) → TopAbove (k + 1) s → TopAbove k s
  TopAbove-less k [] h = tt
  TopAbove-less k ((h', y) ∷ rest) h = omega arith

  pub Forest-TopAbove : {k m : ℕ} {s : Stack} → Forest k m s → TopAbove k s
  Forest-TopAbove none_yet = tt
  Forest-TopAbove {k} {s = s} (paired c e f) = TopAbove-less k s (Forest-TopAbove f)
  Forest-TopAbove (single c e f) = omega arith

  no_merge :
      (idx k : ℕ) (x : List ℕ) (s : Stack) (path : List (List ℕ)) (a : Addr)
      → TopAbove (k + 1) s
      → merge_loop fns p idx leaf_idx pub_seed s k x path a ≡ ((k, x) ∷ s, path, a)
  unfolding merge_loop
  no_merge idx k x [] path a h = refl
  no_merge idx k x ((h', y) ∷ rest) path a h =
      let other : (k == h') ≡ false = ground arith in rw other

  -- After leaf `idx`: the forest of all the leaves, and the path with every node that is on it.
  pub record Merged (idx k m : ℕ) (r : Stack × List (List ℕ) × Addr) : Type 0 where
    pub stack : Forest k (m + 1) r.0
    pub path :
        (h : ℕ)
        → h < p.tree_height
        → sibling leaf_idx h < (idx + 1) / 2 ^ h
        → get_or r.1 h [] ≡ at h (sibling leaf_idx h)
    pub len : length r.1 ≡ p.tree_height
    pub addr : ots_part r.2 ≡ typed_addr sub addr_type_hashtree

  -- If the number of nodes of height `k` was even, no higher node is new.
  pub no_higher :
      (idx k c t : ℕ)
      → idx / 2 ^ k ≡ 2 * c
      → (idx + 1) / 2 ^ k ≡ 2 * c + 1
      → (idx + 1) / 2 ^ (t + (k + 1)) ≡ idx / 2 ^ (t + (k + 1))
  no_higher idx k c zero e e' = rw (zero-add, half_pow idx k, half_pow (idx + 1) k) (omega arith)
  no_higher idx k c (suc t) e e' =
      let next : suc t + (k + 1) ≡ t + (k + 1) + 1 = omega arith in
      rw (
        next,
        half_pow idx (t + (k + 1)),
        half_pow (idx + 1) (t + (k + 1)),
        no_higher idx k c t e e',
      )

  unmerged :
      (idx k c m : ℕ) (s : Stack) (path : List (List ℕ)) (a : Addr)
      → m ≡ 2 * c
      → Forest (k + 1) c s
      → idx / 2 ^ k ≡ m
      → (idx + 1) / 2 ^ k ≡ m + 1
      → length path ≡ p.tree_height
      → Stored fns lengths p ok sk_seed pub_seed sub leaf_idx idx (k + 1) path
      → ots_part a ≡ typed_addr sub addr_type_hashtree
      → Merged idx k m ((k, at k m) ∷ s, path, a)
  unmerged idx k c m s path a em f e e' len st ea = record {
    stack =
        subst (λ t. Forest k (m + 1) ((k, at k t) ∷ s)) (sym em) (single c (ap (λ t. t + 1) em) f);
    path = λ h lt sib. elim (dec_lt h (k + 1)) [
      | yes below ↦ st h lt (inl (below, sib))
      | no above ↦ st h lt (inr (subst (λ t. sibling leaf_idx h < t) (old h (omega arith)) sib))
    ];
    len = len;
    addr = ea;
  }
    where
      old : (h : ℕ) → k + 1 ≤ h → (idx + 1) / 2 ^ h ≡ idx / 2 ^ h
      old h above =
          let back : h - (k + 1) + (k + 1) ≡ h = omega arith in
          subst (λ t. (idx + 1) / 2 ^ t ≡ idx / 2 ^ t) back
            (no_higher idx k c (h - (k + 1)) (e ∙ em) (e' ∙ ap (λ t. t + 1) em))

  pub length-stored :
      (k c q : ℕ) (x : List ℕ) (path : List (List ℕ))
      → length (if k == q then set path c x else path) ≡ length path
  length-stored k c q x path = elim (Bool-cases (k == q)) [
    | inl hit ↦ rw hit (length-set path c x)
    | inr miss ↦ rw miss
  ]

  -- The rest of the loop after one merge, whose result is node `c` of height `k + 1`.
  merge_step :
      (idx k m c q : ℕ) (x : List ℕ) (s : Stack) (path : List (List ℕ)) (a : Addr)
      → m ≡ 2 * c + 1
      → q ≡ c
      → x ≡ at (k + 1) c
      → Merged idx (k + 1) c (
          merge_loop fns p idx leaf_idx pub_seed s
            (k + 1)
            (at (k + 1) c)
            (if sibling leaf_idx (k + 1) == c then set path (k + 1) (at (k + 1) c) else path)
            a)
      → Merged idx k m (
          merge_loop fns p idx leaf_idx pub_seed s
            (k + 1)
            x
            (if sibling leaf_idx (k + 1) == q then set path (k + 1) x else path)
            a)
  merge_step idx k m c q x s path a em eq ex r =
      rw (eq, ex)
        (record {
          stack = paired (c + 1) (omega arith) r.stack;
          path = r.path;
          len = r.len;
          addr = r.addr;
        })

  pub merged_node :
      (k m c q : ℕ) (a : Addr)
      → m ≡ 2 * c + 1
      → q ≡ c
      → ots_part a ≡ typed_addr sub addr_type_hashtree
      → written
          (at k (2 * c))
          (thash_h fns p
            (at k (2 * c) ++ at k m)
            pub_seed
            (set_tree_index (set_tree_height a k) q)).1
        ≡ at (k + 1) c
  merged_node k m c q a em eq ea =
      let next : suc k ≡ k + 1 = omega arith in
      rw (em, eq)
        (node-suc fns lengths p ok sk_seed pub_seed sub k c (at k (2 * c)) a ea
          ∙ ap (λ t. at t c) next)

  pub merge_loop_lem :
      {k m : ℕ} {s : Stack} (idx : ℕ) (path : List (List ℕ)) (a : Addr)
      → Forest k m s
      → idx / 2 ^ k ≡ m
      → (idx + 1) / 2 ^ k ≡ m + 1
      → length path ≡ p.tree_height
      → Stored fns lengths p ok sk_seed pub_seed sub leaf_idx idx (k + 1) path
      → ots_part a ≡ typed_addr sub addr_type_hashtree
      → Merged idx k m (merge_loop fns p idx leaf_idx pub_seed s k (at k m) path a)
  unfolding merge_loop
  merge_loop_lem {k} idx path a none_yet e e' len st ea =
      unmerged idx k 0 0 [] path a refl none_yet e e' len st ea
  merge_loop_lem {k} {m} {s} idx path a (paired c em f) e e' len st ea =
      rw (no_merge idx k (at k m) s path a (Forest-TopAbove f))
        (unmerged idx k c m s path a em f e e' len st ea)
  merge_loop_lem {k} {m} idx path a (single {s = s} c em f) e e' len st ea =
      let q : idx / 2 ^ (k + 1) ≡ c = omega (arith, half_pow idx k) in
      let q' : (idx + 1) / 2 ^ (k + 1) ≡ c + 1 = omega (arith, half_pow (idx + 1) k) in
      let same : (k == k) ≡ true = ground arith in
      rw same (
        merge_step idx k m c _ _ s path _ em q (merged_node k m c _ a em q ea) (
          merge_loop_lem idx _ _ f q q'
            (length-stored (sibling leaf_idx (k + 1)) (k + 1) c (at (k + 1) c) path ∙ len)
            (store fns lengths p ok sk_seed pub_seed sub leaf_idx idx (k + 1) c path len q q' st)
            (parent_addr fns p pub_seed a _ k (idx / 2 ^ (k + 1)) (at k (2 * c) ++ at k m) ea)))
