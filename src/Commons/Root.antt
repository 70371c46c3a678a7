-- ===== src/Commons/Root.antt =====
-- xmss_commons.c: compute_root and the recursive tree.
use xmss_reference.Base.{
  ℕ, zero, suc, ◌+◌, ◌-◌, ◌*◌, ◌/◌, ◌^◌, ◌<◌, ◌≡◌, ◌≢◌, inl, inr, sym, ap, ap₂, ◌∙◌, List, ◌++◌,
  Bool-cases, ◌==◌, if◌then◌else◌, bit_and, bit_xor, half_pow, bit_xor_one, bit_and_one, arith,
  take, drop, take_all, take-append_length, drop-append_length,
}
use mathlib.Core.List.{append_assoc}
use mathlib.Core.Path.{subst}
use native.Mathlib.Nat.{zero-add, add-zero, one-le-pow, div-lt_iff_lt-mul}
use xmss_reference.Address.{Addr, addr_type_hashtree, set_tree_height, set_tree_index}
use xmss_reference.Params.{Params}
use xmss_reference.Params.Sets.{IsParams}
use xmss_reference.Hash.{HashFns, written, thash_h}
use xmss_reference.Hash.Lengths.{HasLengths}
use xmss_reference.Wots.Keys.{ots_part}
use xmss_reference.Commons.{compute_root_loop, compute_root}
use xmss_reference.Commons.Tree.{
  typed_addr, sibling, node, auth_nodes, node-suc, length-node, parent_addr,
}
use xmss_reference.Core.{flatten_nodes}

module _ (fns : HashFns) (lengths : HasLengths fns) (p : Params) (ok : IsParams p)
    (sk_seed pub_seed : List ℕ) (sub : Addr) (leaf_idx : ℕ) where
  abbrev at : ℕ → ℕ → List ℕ
  at h j = node fns lengths p ok sk_seed pub_seed sub h j

  -- The two nodes under node `q` of the next height.
  abbrev children : ℕ → ℕ → List ℕ
  children h q = at h (2 * q) ++ at h (2 * q + 1)

  abbrev path_from : ℕ → ℕ → List ℕ
  path_from left h =
      flatten_nodes (auth_nodes fns lengths p ok sk_seed pub_seed sub leaf_idx left h)

  -- A node and its sibling, in the order of their last bits.
  in_order :
      (h x : ℕ) (other here here' : List ℕ)
      → other ≡ at h (bit_xor x 1)
      → here ≡ at h x
      → here' ≡ at h x
      → (if bit_and x 1 == 1 then other ++ here else here' ++ other) ≡ children h (x / 2)
  in_order h x other here here' eo eh eh' = elim (Bool-cases (bit_and x 1 == 1)) [
    | inl odd ↦ rw odd (
        let last : bit_and x 1 ≡ 1 = ground arith in
        let left : bit_xor x 1 ≡ 2 * (x / 2) = omega (arith, last, bit_and_one x, bit_xor_one x) in
        let right : x ≡ 2 * (x / 2) + 1 = omega (arith, last, bit_and_one x) in
        ap₂ ◌++◌ (eo ∙ ap (λ t. at h t) left) (eh ∙ ap (λ t. at h t) right))
    | inr even ↦ rw even (
        let last : bit_and x 1 ≢ 1 = ground arith in
        let right : bit_xor x 1 ≡ 2 * (x / 2) + 1 =
          omega (arith, last, bit_and_one x, bit_xor_one x) in
        let left : x ≡ 2 * (x / 2) = omega (arith, last, bit_and_one x) in
        ap₂ ◌++◌ (eh' ∙ ap (λ t. at h t) left) (eo ∙ ap (λ t. at h t) right))
  ]

  -- The next node of the path, and what is behind it.
  take_node : (h j : ℕ) (more rest : List ℕ) → take p.n ((at h j ++ more) ++ rest) ≡ at h j
  take_node h j more rest = rw (append_assoc (at h j) more rest) (
      take-append_length p.n (at h j) (more ++ rest)
        (length-node fns lengths p ok sk_seed pub_seed sub h j))

  drop_node : (h j : ℕ) (more rest : List ℕ) → drop p.n ((at h j ++ more) ++ rest) ≡ more ++ rest
  drop_node h j more rest = rw (append_assoc (at h j) more rest) (
      drop-append_length p.n (at h j) (more ++ rest)
        (length-node fns lengths p ok sk_seed pub_seed sub h j))

  -- The state after `left` rounds, for the height reached.
  abbrev Climbed : ℕ → Addr × ℕ × List ℕ → Type 0
  Climbed h r =
      (ots_part r.0 ≡ typed_addr sub addr_type_hashtree)
      × (r.1 ≡ leaf_idx / 2 ^ h)
      × (r.2 ≡ children h (r.1 / 2))

  node_at :
      (i q : ℕ) (buffer old : List ℕ) (a : Addr)
      → buffer ≡ children i q
      → ots_part a ≡ typed_addr sub addr_type_hashtree
      → written old (thash_h fns p buffer pub_seed (set_tree_index (set_tree_height a i) q)).1
        ≡ at (i + 1) q
  node_at i q buffer old a eb ea =
      let next : suc i ≡ i + 1 = omega arith in
      (λ j. written old (thash_h fns p (eb j) pub_seed (set_tree_index (set_tree_height a i) q)).1)
      ∙ node-suc fns lengths p ok sk_seed pub_seed sub i q old a ea
      ∙ ap (λ t. at t q) next

  loop_lem :
      (left i x : ℕ) (buffer auth rest : List ℕ) (a : Addr)
      → x ≡ leaf_idx / 2 ^ i
      → buffer ≡ children i (x / 2)
      → auth ≡ path_from left (i + 1) ++ rest
      → ots_part a ≡ typed_addr sub addr_type_hashtree
      → Climbed (left + i) (compute_root_loop fns p left i x buffer auth pub_seed a)
  unfolding compute_root_loop auth_nodes
  loop_lem zero i x buffer auth rest a e eb er ea = rw (zero-add) (ea, e, eb)
  loop_lem (suc left) i x buffer auth rest a e eb er ea =
      let up : left + (i + 1) ≡ suc left + i = omega arith in
      let half : x / 2 ≡ leaf_idx / 2 ^ (i + 1) = ap (λ t. t / 2) e ∙ sym (half_pow leaf_idx i) in
      let next = set_tree_index (set_tree_height a i) (x / 2) in
      subst (λ h. Climbed h (compute_root_loop fns p (suc left) i x buffer auth pub_seed a)) up
        (loop_lem left (i + 1) (x / 2) _ _ rest _ half
          (in_order (i + 1) (x / 2) _ _ _
            (ap (take p.n) er
              ∙ take_node (i + 1) (sibling leaf_idx (i + 1)) _ rest
              ∙ ap (λ t. at (i + 1) (bit_xor t 1)) (sym half))
            (node_at i (x / 2) buffer (drop p.n buffer) a eb ea)
            (node_at i (x / 2) buffer (take p.n buffer) a eb ea))
          (ap (drop p.n) er ∙ drop_node (i + 1) (sibling leaf_idx (i + 1)) _ rest)
          (parent_addr fns p pub_seed a _ i (x / 2) buffer ea))

  -- For the parameters of a set, compute_root, given a leaf of the tree, its index and its
  -- authentication path, writes the root of the tree, and keeps the words of the address that name
  -- the tree.
  pub compute_root_lem :
      (root leaf rest : List ℕ) (a : Addr)
      → leaf_idx < 2 ^ p.tree_height
      → leaf ≡ at 0 leaf_idx
      → ots_part a ≡ typed_addr sub addr_type_hashtree
      → (ots_part
            (compute_root fns p root leaf leaf_idx (path_from p.tree_height 0 ++ rest) pub_seed a).0
          ≡ typed_addr sub addr_type_hashtree)
        × ((compute_root fns p root leaf leaf_idx (path_from p.tree_height 0 ++ rest) pub_seed a).1
            ≡ at p.tree_height 0)
  unfolding compute_root auth_nodes
  compute_root_lem root leaf rest a lt el ea = (
    parent_addr fns p pub_seed r.0 _ h (r.1 / 2) r.2 run.0,
    node_at h (r.1 / 2) r.2 root r.0 run.2 run.0 ∙ ap₂ (λ s t. at s t) (sym tall) top,
  )
    where
      h : ℕ
      h = p.tree_height - 1

      tall : p.tree_height ≡ h + 1
      tall = omega (arith, ok.height_pos)

      auth : List ℕ
      auth = path_from p.tree_height 0 ++ rest

      first : leaf_idx ≡ leaf_idx / 2 ^ 0
      first = omega arith

      next : h + 1 ≡ suc h
      next = omega arith

      split : auth ≡ (at 0 (sibling leaf_idx 0) ++ path_from h 1) ++ rest
      split = ap (λ t. path_from t 0 ++ rest) (tall ∙ next)

      pair : List ℕ
      pair =
          if bit_and leaf_idx 1 == 1
          then take p.n auth ++ take p.n leaf
          else take p.n leaf ++ take p.n auth

      take_leaf : take p.n leaf ≡ at 0 leaf_idx
      take_leaf =
          ap (take p.n) el
          ∙ take_all p.n (at 0 leaf_idx)
              (length-node fns lengths p ok sk_seed pub_seed sub 0 leaf_idx)

      ordered : pair ≡ children 0 (leaf_idx / 2)
      ordered =
          in_order 0 leaf_idx _ _ _
            (ap (take p.n) split
              ∙ take_node 0 (sibling leaf_idx 0) _ rest
              ∙ ap (λ t. at 0 (bit_xor t 1)) (sym first))
            take_leaf take_leaf

      r : Addr × ℕ × List ℕ
      r = compute_root_loop fns p h 0 leaf_idx pair (drop p.n auth) pub_seed a

      run : Climbed h r
      run =
          subst (λ t. Climbed t r) (add-zero h)
            (loop_lem h 0 leaf_idx pair (drop p.n auth) rest a first ordered
              (ap (drop p.n) split ∙ drop_node 0 (sibling leaf_idx 0) _ rest) ea)

      top : r.1 / 2 ≡ 0
      top =
          let all : r.1 / 2 ≡ leaf_idx / 2 ^ p.tree_height =
            ap (λ t. t / 2) run.1
            ∙ sym (half_pow leaf_idx h)
            ∙ ap (λ t. leaf_idx / 2 ^ t) (sym tall) in
          let small : leaf_idx / 2 ^ p.tree_height < 1 =
            (div-lt_iff_lt-mul (one-le-pow p.tree_height 2 (omega arith))).1 (omega arith) in
          omega (arith, all, small)
