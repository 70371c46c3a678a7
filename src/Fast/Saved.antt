-- ===== src/Fast/Saved.antt =====
-- xmss_core_fast.c: the nodes that treehash_init and bds_state_update copy for the traversal.
use xmss_reference.Base.{
  ℕ, ◌+◌, ◌/◌, ◌^◌, ◌<◌, ◌≡◌, ◌⊎◌, ◌≢◌, inl, inr, refl, sym, ap, ◌∙◌, arith, true, false,
  Bool-cases, ◌==◌, ltb, leb, List, [], length, get_or, set, get_or-set, get_or_other, length-set,
}
use mathlib.Core.Path.{subst}
use native.Mathlib.Decide.{dec_lt}
use native.Mathlib.Nat.{zero-div}
use xmss_reference.Address.{Addr}
use xmss_reference.Params.{Params}
use xmss_reference.Params.Sets.{IsParams}
use xmss_reference.Hash.{HashFns}
use xmss_reference.Hash.Lengths.{HasLengths}
use xmss_reference.Commons.Tree.{node}
use xmss_reference.Core.AuthPath.{trichotomy}
use xmss_reference.Fast.{BdsState, TreehashInst, blank_inst, instances}
use xmss_reference.Fast.Update.{get_inst, set_node, save_node}

-- Node `q` of height `h` is complete and was merged before the top node of height `k` is, where the
-- last leaf is number `i`.
abbrev pub Passed : ℕ → ℕ → ℕ → ℕ → Type 0
Passed i k h q = (h < k × q < (i + 1) / 2 ^ h) ⊎ q < i / 2 ^ h

pub none-Passed : (h q : ℕ) → Passed 0 0 h q → ⊥
none-Passed h q (inl (below, new)) = omega arith
none-Passed h q (inr new) = omega (arith, zero-div (2 ^ h))

-- If the top node is complete, every node `q` but it that is passed when it is merged was passed
-- before.
Passed-before :
    (i k h q : ℕ)
    → (i + 1) / 2 ^ k ≡ i / 2 ^ k + 1
    → (h ≡ k → q ≢ i / 2 ^ k)
    → Passed i (k + 1) h q
    → Passed i k h q
Passed-before i k h q up other (inl (below, new)) = elim (dec_lt h k) [
  | yes far ↦ inl (far, new)
  | no here ↦
      let same : h ≡ k = omega arith in
      let miss = other same in
      let at_k = subst (λ t. q < (i + 1) / 2 ^ t) same new in
      inr (subst (λ t. q < i / 2 ^ t) (sym same) (omega arith))
]
Passed-before i k h q up other (inr before) = inr before

module _ (fns : HashFns) (lengths : HasLengths fns) (p : Params) (ok : IsParams p)
    (sk_seed pub_seed : List ℕ) (sub : Addr) (flags : ℕ → ℕ) where
  abbrev at : ℕ → ℕ → List ℕ
  at h j = node fns lengths p ok sk_seed pub_seed sub h j

  -- The nodes 1 and 3 of each height that were passed are where the traversal starts from, and no
  -- instance is to be updated.
  pub record Saved (i k : ℕ) (s : BdsState) : Type 0 where
    pub auth_len : length s.auth ≡ p.tree_height
    pub inst_len : length s.treehash ≡ instances p
    pub keep_len : length s.keep ≡ p.tree_height / 2
    pub auth : (h : ℕ) → h < p.tree_height → Passed i k h 1 → get_or s.auth h [] ≡ at h 1
    pub inst : (h : ℕ) → h < p.tree_height → Passed i k h 3 → (get_inst s h).node ≡ at h 3
    pub done : (h : ℕ) → h < instances p → (get_inst s h).completed ≡ flags h

  module _ (i k : ℕ) (s : BdsState) (b : Saved i k s) (below_top : k < p.tree_height)
      (up : (i + 1) / 2 ^ k ≡ i / 2 ^ k + 1) where
    save_first : i / 2 ^ k ≡ 1 → Saved i (k + 1) (record s { auth = set s.auth k (at k 1) })
    save_first e = record {
      auth_len = length-set s.auth k (at k 1) ∙ b.auth_len;
      inst_len = b.inst_len;
      keep_len = b.keep_len;
      auth = λ h lt passed. elim (trichotomy h k) [
        | inl below ↦
            get_or_other s.auth k h (at k 1) [] (inr below)
            ∙ b.auth h lt (Passed-before i k h 1 up (λ same. absurd (omega arith)) passed)
        | inr (inl same) ↦
            subst (λ t. get_or (set s.auth k (at k 1)) t [] ≡ at t 1) (sym same)
              (get_or-set s.auth k (at k 1) [] (omega (arith, b.auth_len)))
        | inr (inr above) ↦
            get_or_other s.auth k h (at k 1) [] (inl above)
            ∙ b.auth h lt (Passed-before i k h 1 up (λ same. absurd (omega arith)) passed)
      ];
      inst = λ h lt passed. b.inst h lt (Passed-before i k h 3 up (λ same. omega arith) passed);
      done = b.done;
    }

    get_inst-set_node : (x : List ℕ) (h : ℕ) → h ≢ k → get_inst (set_node s k x) h ≡ get_inst s h
    get_inst-set_node x h other =
        get_or_other s.treehash k h (record (get_inst s k) { node = x }) blank_inst (ground arith)

    get_inst-set_node_same :
        (x : List ℕ)
        → k < instances p
        → get_inst (set_node s k x) k ≡ record (get_inst s k) { node = x }
    get_inst-set_node_same x lt =
        get_or-set s.treehash k (record (get_inst s k) { node = x }) blank_inst
          (omega (arith, b.inst_len))

    save_third : k < instances p → i / 2 ^ k ≡ 3 → Saved i (k + 1) (set_node s k (at k 3))
    save_third is_inst e = record {
      auth_len = b.auth_len;
      inst_len = length-set s.treehash k (record (get_inst s k) { node = at k 3 }) ∙ b.inst_len;
      keep_len = b.keep_len;
      auth = λ h lt passed. b.auth h lt (Passed-before i k h 1 up (λ same. omega arith) passed);
      inst = λ h lt passed. elim (trichotomy h k) [
        | inl below ↦
            ap (λ (t : TreehashInst). t.node) (get_inst-set_node (at k 3) h (omega arith))
            ∙ b.inst h lt (Passed-before i k h 3 up (λ same. absurd (omega arith)) passed)
        | inr (inl same) ↦
            subst (λ u. (get_inst (set_node s k (at k 3)) u).node ≡ at u 3) (sym same)
              (ap (λ (t : TreehashInst). t.node) (get_inst-set_node_same (at k 3) is_inst))
        | inr (inr above) ↦
            ap (λ (t : TreehashInst). t.node) (get_inst-set_node (at k 3) h (omega arith))
            ∙ b.inst h lt (Passed-before i k h 3 up (λ same. absurd (omega arith)) passed)
      ];
      done = λ h lt. elim (trichotomy h k) [
        | inl below ↦
            ap (λ (t : TreehashInst). t.completed) (get_inst-set_node (at k 3) h (omega arith))
            ∙ b.done h lt
        | inr (inl same) ↦
            subst (λ u. (get_inst (set_node s k (at k 3)) u).completed ≡ flags u) (sym same)
              (ap (λ (t : TreehashInst). t.completed) (get_inst-set_node_same (at k 3) is_inst)
                ∙ b.done k is_inst)
        | inr (inr above) ↦
            ap (λ (t : TreehashInst). t.completed) (get_inst-set_node (at k 3) h (omega arith))
            ∙ b.done h lt
      ];
    }

    save_none : (i / 2 ^ k ≢ 1) → (i / 2 ^ k ≢ 3) → Saved i (k + 1) s
    save_none first third = record {
      auth_len = b.auth_len;
      inst_len = b.inst_len;
      keep_len = b.keep_len;
      auth = λ h lt passed. b.auth h lt (Passed-before i k h 1 up (λ same. ground arith) passed);
      inst = λ h lt passed. b.inst h lt (Passed-before i k h 3 up (λ same. ground arith) passed);
      done = b.done;
    }

    pub save_node_lem : (x : List ℕ) → x ≡ at k (i / 2 ^ k) → Saved i (k + 1) (save_node p i k x s)
    unfolding save_node
    save_node_lem x ex =
        let is_inst : ltb k (instances p) ≡ true = ground (arith, ok.bds) in
        let no_retain : leb (instances p) k ≡ false = ground (arith, ok.bds) in
        elim (Bool-cases (i / 2 ^ k == 1)) [
          | inl first ↦
              let one : i / 2 ^ k ≡ 1 = ground arith in
              rw (first, ex ∙ ap (λ j. at k j) one) (save_first one)
          | inr other ↦ elim (Bool-cases (i / 2 ^ k == 3)) [
            | inl third ↦
                let three : i / 2 ^ k ≡ 3 = ground arith in
                rw (other, is_inst, third, ex ∙ ap (λ j. at k j) three)
                  (save_third (omega (arith, ok.bds)) three)
            | inr neither ↦
                rw (other, is_inst, neither, no_retain) (save_none (ground arith) (ground arith))
          ]
        ]

  -- Leaf 3 puts a place of the stack behind it into the first instance, which is overwritten later.
  pub save_junk : (s : BdsState) (x : List ℕ) → Saved 3 0 s → Saved 3 0 (set_node s 0 x)
  save_junk s x b =
      let pos : 0 < p.tree_height = omega (arith, ok.height_pos) in
      let inst_pos : 0 < instances p = omega (arith, ok.height_pos, ok.bds) in
      record {
        auth_len = b.auth_len;
        inst_len = length-set s.treehash 0 (record (get_inst s 0) { node = x }) ∙ b.inst_len;
        keep_len = b.keep_len;
        auth = b.auth;
        inst = λ h lt passed. elim (trichotomy h 0) [
          | inl below ↦ absurd (omega arith)
          | inr (inl same) ↦ absurd (none-Passed h same passed)
          | inr (inr above) ↦
              ap (λ (t : TreehashInst). t.node)
                (get_inst-set_node 3 0 s b pos refl x h (omega arith))
              ∙ b.inst h lt passed
        ];
        done = λ h lt. elim (trichotomy h 0) [
          | inl below ↦ absurd (omega arith)
          | inr (inl same) ↦
              subst (λ u. (get_inst (set_node s 0 x) u).completed ≡ flags u) (sym same)
                (ap (λ (t : TreehashInst). t.completed)
                    (get_inst-set_node_same 3 0 s b pos refl x inst_pos)
                  ∙ b.done 0 inst_pos)
          | inr (inr above) ↦
              ap (λ (t : TreehashInst). t.completed)
                (get_inst-set_node 3 0 s b pos refl x h (omega arith))
              ∙ b.done h lt
        ];
      }
    where
      none-Passed : (h : ℕ) → h ≡ 0 → Passed 3 0 h 3 → ⊥
      none-Passed h same (inl (below, new)) = absurd (omega arith)
      none-Passed h same (inr old) = absurd (omega (arith, ap (λ (u : ℕ). 3 / 2 ^ u) same))
