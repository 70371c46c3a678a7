-- ===== src/Fast/NextPath.antt =====
-- xmss_core_fast.c: bds_round and the authentication path of the next leaf.
use xmss_reference.Base.{
  ℕ, zero, suc, ◌+◌, ◌-◌, ◌*◌, ◌/◌, ◌%◌, ◌^◌, ◌≤◌, ◌<◌, ◌≡◌, ◌⊎◌, ◌&&◌, inl, inr, refl, sym, ap,
  ◌∙◌, arith, true, Bool-cases, ◌==◌, ltb, List, [], ◌++◌, length, get_or, set, get_or-set,
  get_or_other, length-set, bit_and, bit_and_one, if◌then◌else◌,
}
use mathlib.Core.Path.{subst}
use native.Mathlib.Decide.{dec_lt}
use xmss_reference.Address.{
  Addr, zero_addr, addr_type_ots, addr_type_ltree, addr_type_hashtree, set_type, copy_subtree_addr,
  set_tree_height, set_tree_index,
}
use xmss_reference.Params.{Params}
use xmss_reference.Params.Sets.{IsParams}
use xmss_reference.Hash.{HashFns, written, thash_h}
use xmss_reference.Hash.Lengths.{HasLengths}
use xmss_reference.Commons.Tree.{sibling, node, node-suc, gen_leaf_wots_lem}
use xmss_reference.Core.AuthPath.{trichotomy}
use xmss_reference.Fast.{BdsState, instances, blank_inst}
use xmss_reference.Fast.Update.{get_inst, subtree_addr}
use xmss_reference.Fast.Round.{refill_auth, restart_insts, keep_node, round_at, bds_round}
use xmss_reference.Fast.Carry.{
  Carry, carry_below, carry_above, sibling_above, sibling_at, sibling_kept, sibling_below,
  left_child, right_child, find_tau_lem, carry_zeros,
}

-- What the loop that takes nodes from the instances leaves: with the instances for all heights, each
-- node of the heights from `i` on, `left` of them, is that of the instance.
record Refilled (p : Params) (left i : ℕ) (s r : BdsState) : Type 0 where
  keep : r.keep ≡ s.keep
  auth_len : length r.auth ≡ length s.auth
  new : (h : ℕ) → i ≤ h → h < left + i → get_or r.auth h [] ≡ (get_inst s h).node
  old : (h : ℕ) → h < i ⊎ left + i ≤ h → get_or r.auth h [] ≡ get_or s.auth h []

refill_auth_lem :
    (p : Params) (leaf_idx left i : ℕ) (s : BdsState)
    → left + i ≤ instances p
    → left + i ≤ length s.auth
    → Refilled p left i s (refill_auth p leaf_idx left i s)
unfolding refill_auth
refill_auth_lem p leaf_idx zero i s fits len = record {
  keep = refl;
  auth_len = refl;
  new = λ h le lt. absurd (omega arith);
  old = λ h out. refl;
}
refill_auth_lem p leaf_idx (suc left) i s fits len =
    let is_inst : ltb i (instances p) ≡ true = ground arith in
    let x = (get_inst s i).node in
    let r =
      refill_auth_lem p leaf_idx left (i + 1) (record s { auth = set s.auth i x }) (omega arith)
        (omega (arith, length-set s.auth i x)) in
    rw is_inst (record {
      keep = r.keep;
      auth_len = r.auth_len ∙ length-set s.auth i x;
      new = λ h le lt. elim (dec_lt i h) [
        | yes behind ↦ r.new h (omega arith) (omega arith)
        | no here ↦
            let same : i ≡ h = omega arith in
            r.old h (inl (omega arith))
            ∙ subst (λ t. get_or (set s.auth i x) t [] ≡ (get_inst s t).node) same
                (get_or-set s.auth i x [] (omega arith))
      ];
      old = λ h out. elim out [
        | inl below ↦ r.old h (inl (omega arith)) ∙ get_or_other s.auth i h x [] (inr below)
        | inr above ↦ r.old h (inr (omega arith)) ∙ get_or_other s.auth i h x [] (inl (omega arith))
      ];
    })

-- The loop that starts instances changes nothing else.
restart_insts-same :
    (p : Params) (leaf_idx left i : ℕ) (s : BdsState)
    → ((restart_insts p leaf_idx left i s).auth ≡ s.auth)
      × ((restart_insts p leaf_idx left i s).keep ≡ s.keep)
unfolding restart_insts
restart_insts-same p leaf_idx zero i s = (refl, refl)
restart_insts-same p leaf_idx (suc left) i s =
    elim (Bool-cases (ltb ((leaf_idx + 1 + 3 * 2 ^ i) % 2 ^ 32) (2 ^ p.tree_height))) [
      | inl hit ↦ rw (restart_insts, hit) (restart_insts-same p leaf_idx left (i + 1) _)
      | inr miss ↦ rw (restart_insts, miss) (restart_insts-same p leaf_idx left (i + 1) s)
    ]

module _ (fns : HashFns) (lengths : HasLengths fns) (p : Params) (ok : IsParams p)
    (sk_seed pub_seed : List ℕ) (sub : Addr) where
  abbrev at : ℕ → ℕ → List ℕ
  at h j = node fns lengths p ok sk_seed pub_seed sub h j

  -- The state before leaf `leaf_idx` is signed: the path is that of the leaf, and `keep` holds each
  -- node above the leaf that is a right child whose parent is a left child.
  pub record Traversing (leaf_idx : ℕ) (s : BdsState) : Type 0 where
    pub auth_len : length s.auth ≡ p.tree_height
    pub auth : (h : ℕ) → h < p.tree_height → get_or s.auth h [] ≡ at h (sibling leaf_idx h)
    pub keep_len : length s.keep ≡ p.tree_height / 2
    pub keep :
        (h : ℕ)
        → h + 1 < p.tree_height
        → leaf_idx / 2 ^ h % 2 ≡ 1
        → leaf_idx / 2 ^ (h + 1) % 2 ≡ 0
        → get_or s.keep (h / 2) [] ≡ at h (leaf_idx / 2 ^ h)

  -- The instances that bds_round reads have their nodes.
  abbrev pub InstsReady : ℕ → BdsState → Type 0
  InstsReady leaf_idx s =
      (i : ℕ)
      → (leaf_idx + 1) % 2 ^ (i + 1) ≡ 0
      → i + 1 < p.tree_height
      → (get_inst s i).node ≡ at i ((leaf_idx + 1) / 2 ^ i + 1)

  module _ (leaf_idx tau : ℕ) (c : Carry leaf_idx tau) (s : BdsState) (t : Traversing leaf_idx s)
      (below_top : tau < p.tree_height) where
    keep_node-auth : (keep_node p leaf_idx tau s).auth ≡ s.auth
    unfolding keep_node
    keep_node-auth = ground arith

    length-keep_node : length (keep_node p leaf_idx tau s).keep ≡ p.tree_height / 2
    unfolding keep_node
    length-keep_node =
        ground (arith, length-set s.keep (tau / 2) (get_or s.auth tau []), t.keep_len)

    keep_node-treehash : (keep_node p leaf_idx tau s).treehash ≡ s.treehash
    unfolding keep_node
    keep_node-treehash = ground arith

    -- The node on height `tau` is kept where it is needed again.
    kept_here :
        (h : ℕ)
        → h ≡ tau
        → h + 1 < p.tree_height
        → (leaf_idx + 1) / 2 ^ (h + 1) % 2 ≡ 0
        → get_or (keep_node p leaf_idx tau s).keep (h / 2) [] ≡ at h ((leaf_idx + 1) / 2 ^ h)
    unfolding keep_node
    kept_here h e fits even =
        let here : (bit_and (leaf_idx / 2 ^ (tau + 1)) 1 == 0) ≡ true = ground (
          arith,
          bit_and_one (leaf_idx / 2 ^ (tau + 1)),
          carry_above leaf_idx tau c (tau + 1) (omega arith),
          ap (λ (u : ℕ). (leaf_idx + 1) / 2 ^ (u + 1)) e,
        ) in
        let below : ltb tau (p.tree_height - 1) ≡ true = ground arith in
        rw (e, here, below)
          (get_or-set s.keep (tau / 2) (get_or s.auth tau []) [] (omega (arith, t.keep_len))
            ∙ t.auth tau below_top
            ∙ ap (λ j. at tau j) (sibling_kept leaf_idx tau c))

    kept_above :
        (h : ℕ)
        → tau < h
        → leaf_idx / 2 ^ h % 2 ≡ 1
        → get_or (keep_node p leaf_idx tau s).keep (h / 2) [] ≡ get_or s.keep (h / 2) []
    unfolding keep_node
    kept_above h lt odd =
        elim (Bool-cases
          (bit_and (leaf_idx / 2 ^ (tau + 1)) 1 == 0 && ltb tau (p.tree_height - 1))) [
            | inl hit ↦
                rw hit (
                  get_or_other s.keep (tau / 2) (h / 2) (get_or s.auth tau []) [] (inl (apart hit)))
            | inr miss ↦ rw miss refl
          ]
      where
        apart :
            (bit_and (leaf_idx / 2 ^ (tau + 1)) 1 == 0 && ltb tau (p.tree_height - 1)) ≡ true
            → tau / 2 < h / 2
        apart hit =
            let even : leaf_idx / 2 ^ (tau + 1) % 2 ≡ 0 =
              ground (arith, bit_and_one (leaf_idx / 2 ^ (tau + 1))) in
            elim (dec_lt (tau + 1) h) [
              | yes far ↦ omega arith
              | no near ↦
                  let same : h ≡ tau + 1 = omega arith in
                  absurd (omega (arith, ap (λ (u : ℕ). leaf_idx / 2 ^ u) same))
            ]

    keep_next :
        (h : ℕ)
        → h + 1 < p.tree_height
        → (leaf_idx + 1) / 2 ^ h % 2 ≡ 1
        → (leaf_idx + 1) / 2 ^ (h + 1) % 2 ≡ 0
        → get_or (keep_node p leaf_idx tau s).keep (h / 2) [] ≡ at h ((leaf_idx + 1) / 2 ^ h)
    keep_next h fits odd even = elim (trichotomy h tau) [
      | inl below ↦
          absurd (omega (arith, carry_below leaf_idx tau c h (omega arith), c.ones h below))
      | inr (inl here) ↦ kept_here h here fits even
      | inr (inr far) ↦
          let here = carry_above leaf_idx tau c h far in
          let up = carry_above leaf_idx tau c (h + 1) (omega arith) in
          kept_above h far (omega arith)
          ∙ t.keep h fits (omega arith) (omega arith)
          ∙ ap (λ j. at h j) (sym here)
    ]

  -- Any path that has the right nodes on the heights up to `tau`, and is the old one above.
  next_path :
      (leaf_idx tau : ℕ) (s r : BdsState)
      → Carry leaf_idx tau
      → Traversing leaf_idx s
      → tau < p.tree_height
      → length r.auth ≡ p.tree_height
      → ((h : ℕ) → h < tau → get_or r.auth h [] ≡ at h ((leaf_idx + 1) / 2 ^ h + 1))
      → get_or r.auth tau [] ≡ at tau (leaf_idx / 2 ^ tau)
      → ((h : ℕ) → tau < h → get_or r.auth h [] ≡ get_or s.auth h [])
      → r.keep ≡ (keep_node p leaf_idx tau s).keep
      → Traversing (leaf_idx + 1) r
  next_path leaf_idx tau s r c t below_top len low here high ek = record {
    auth_len = len;
    auth = λ h lt. elim (trichotomy h tau) [
      | inl below ↦ low h below ∙ ap (λ j. at h j) (sym (sibling_below leaf_idx tau c h below))
      | inr (inl same) ↦
          subst (λ u. get_or r.auth u [] ≡ at u (sibling (leaf_idx + 1) u)) (sym same)
            (here ∙ ap (λ j. at tau j) (sym (sibling_at leaf_idx tau c)))
      | inr (inr far) ↦
          high h far ∙ t.auth h lt ∙ ap (λ j. at h j) (sym (sibling_above leaf_idx tau c h far))
    ];
    keep_len = ap length ek ∙ length-keep_node leaf_idx tau c s t below_top;
    keep = λ h fits odd even.
        ap (λ k. get_or k (h / 2) []) ek ∙ keep_next leaf_idx tau c s t below_top h fits odd even;
  }

  leaf_round :
      (leaf_idx : ℕ) (s : BdsState) (addr : Addr)
      → copy_subtree_addr zero_addr addr ≡ copy_subtree_addr zero_addr sub
      → Carry leaf_idx 0
      → Traversing leaf_idx s
      → Traversing (leaf_idx + 1) (round_at fns p leaf_idx 0 s sk_seed pub_seed addr)
  unfolding round_at node set_type copy_subtree_addr
  leaf_round leaf_idx s addr same c t =
      let kept = keep_node p leaf_idx 0 s in
      let made =
        gen_leaf_wots_lem fns lengths p ok sk_seed pub_seed sub leaf_idx
          (subtree_addr addr addr_type_ltree) (subtree_addr addr addr_type_ots)
          (ap (λ a. set_type a addr_type_ltree) same) (ap (λ a. set_type a addr_type_ots) same) in
      let pos : 0 < p.tree_height = omega (arith, ok.height_pos) in
      let e = keep_node-auth leaf_idx 0 c s t pos in
      let len : length kept.auth ≡ p.tree_height = ap length e ∙ t.auth_len in
      next_path leaf_idx 0 s _ c t pos (length-set kept.auth 0 _ ∙ len)
        (λ h lt. absurd (omega arith))
        (get_or-set kept.auth 0 _ [] (omega arith) ∙ made.2 ∙ ap (λ j. at 0 j) (omega arith))
        (λ h lt. get_or_other kept.auth 0 h _ [] (inl lt) ∙ ap (λ a. get_or a h []) e) refl

  -- The left node is on the path, the right one was kept.
  climb :
      (leaf_idx below : ℕ) (s : BdsState) (old : List ℕ) (addr : Addr)
      → copy_subtree_addr zero_addr addr ≡ copy_subtree_addr zero_addr sub
      → Carry leaf_idx (suc below)
      → suc below < p.tree_height
      → Traversing leaf_idx s
      → written old
          (thash_h fns p (get_or s.auth below [] ++ get_or s.keep (below / 2) []) pub_seed (
            set_tree_index
              (set_tree_height (subtree_addr addr addr_type_hashtree) below)
              (leaf_idx / 2 ^ suc below))).1
        ≡ at (suc below) (leaf_idx / 2 ^ suc below)
  unfolding set_type copy_subtree_addr
  climb leaf_idx below s old addr same c fits t =
      let odd = c.ones below (omega arith) in
      let next : suc below ≡ below + 1 = omega arith in
      let left =
        t.auth below (omega arith) ∙ ap (λ j. at below j) (left_child leaf_idx below odd) in
      let right =
        t.keep below (omega arith) odd (subst (λ (u : ℕ). leaf_idx / 2 ^ u % 2 ≡ 0) next c.digit)
        ∙ ap (λ j. at below j) (right_child leaf_idx below odd) in
      let a =
        set_tree_index (set_tree_height (subtree_addr addr addr_type_hashtree) below)
          (leaf_idx / 2 ^ suc below) in
      (λ i. written old (thash_h fns p (left i ++ right i) pub_seed a).1)
      ∙ node-suc fns lengths p ok sk_seed pub_seed sub below (leaf_idx / 2 ^ suc below) old
          (subtree_addr addr addr_type_hashtree) (ap (λ b. set_type b addr_type_hashtree) same)

  node_round :
      (leaf_idx below : ℕ) (s : BdsState) (addr : Addr)
      → copy_subtree_addr zero_addr addr ≡ copy_subtree_addr zero_addr sub
      → Carry leaf_idx (suc below)
      → suc below < p.tree_height
      → Traversing leaf_idx s
      → InstsReady leaf_idx s
      → Traversing (leaf_idx + 1) (round_at fns p leaf_idx (suc below) s sk_seed pub_seed addr)
  unfolding round_at set_type copy_subtree_addr
  node_round leaf_idx below s addr same c fits t ready =
      let tau = suc below in
      let kept = keep_node p leaf_idx tau s in
      let a =
        set_tree_index (set_tree_height (subtree_addr addr addr_type_hashtree) below)
          (leaf_idx / 2 ^ tau) in
      let buf = get_or s.auth below [] ++ get_or s.keep (below / 2) [] in
      let x = written (get_or kept.auth tau []) (thash_h fns p buf pub_seed a).1 in
      let climbed = record kept { auth = set kept.auth tau x } in
      let e = keep_node-auth leaf_idx tau c s t fits in
      let et = keep_node-treehash leaf_idx tau c s t fits in
      let len : length climbed.auth ≡ p.tree_height =
        length-set kept.auth tau x ∙ ap length e ∙ t.auth_len in
      let f =
        refill_auth_lem p leaf_idx tau 0 climbed (omega (arith, ok.bds)) (omega (arith, len)) in
      let filled = refill_auth p leaf_idx tau 0 climbed in
      let r =
        restart_insts-same p leaf_idx (if ltb tau (instances p) then tau else instances p) 0
          filled in
      next_path leaf_idx tau s _ c t fits (ap length r.0 ∙ f.auth_len ∙ len)
        (λ h lt.
          ap (λ u. get_or u h []) r.0
          ∙ f.new h (omega arith) (omega arith)
          ∙ ap (λ u. (get_or u h blank_inst).node) et
          ∙ ready h (carry_zeros leaf_idx tau c (h + 1) (omega arith)) (omega arith))
        (ap (λ u. get_or u tau []) r.0
          ∙ f.old tau (inr (omega arith))
          ∙ get_or-set kept.auth tau x [] (omega (arith, ap length e, t.auth_len))
          ∙ climb leaf_idx below s _ addr same c fits t)
        (λ h lt.
          ap (λ u. get_or u h []) r.0
          ∙ f.old h (inr (omega arith))
          ∙ get_or_other kept.auth tau h x [] (inl lt)
          ∙ ap (λ u. get_or u h []) e)
        (r.1 ∙ f.keep)

  round_cases :
      (leaf_idx tau : ℕ) (s : BdsState) (addr : Addr)
      → copy_subtree_addr zero_addr addr ≡ copy_subtree_addr zero_addr sub
      → Carry leaf_idx tau
      → tau < p.tree_height
      → Traversing leaf_idx s
      → InstsReady leaf_idx s
      → Traversing (leaf_idx + 1) (round_at fns p leaf_idx tau s sk_seed pub_seed addr)
  round_cases leaf_idx zero s addr same c fits t ready = leaf_round leaf_idx s addr same c t
  round_cases leaf_idx (suc below) s addr same c fits t ready =
      node_round leaf_idx below s addr same c fits t ready

  -- For the parameters of a set: from a state with the authentication path of a leaf that is not the
  -- last one, with the nodes in `keep` that belong to the leaf, and with the right nodes in the
  -- instances that are due at this leaf, bds_round makes a state with the path of the next leaf and
  -- the nodes in `keep` that belong to it.
  pub bds_round-Traversing :
      (leaf_idx : ℕ) (s : BdsState) (addr : Addr)
      → copy_subtree_addr zero_addr addr ≡ copy_subtree_addr zero_addr sub
      → leaf_idx + 1 < 2 ^ p.tree_height
      → Traversing leaf_idx s
      → InstsReady leaf_idx s
      → Traversing (leaf_idx + 1) (bds_round fns p s leaf_idx sk_seed pub_seed addr)
  unfolding bds_round
  bds_round-Traversing leaf_idx s addr same fits t ready =
      let tau = find_tau_lem p leaf_idx fits in
      round_cases leaf_idx _ s addr same tau.0 tau.1 t ready
