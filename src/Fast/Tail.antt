-- ===== src/Fast/Tail.antt =====
-- xmss_core_fast.c: the `while` loop of treehash_update, the nodes of one instance as a part of a tree.
use xmss_reference.Base.{
  ℕ, zero, suc, ◌+◌, ◌-◌, ◌*◌, ◌/◌, ◌^◌, ◌≤◌, ◌<◌, ◌≡◌, ◌⊎◌, inl, inr, refl, sym, ap, ◌∙◌, arith,
  true, false, ◌==◌, List, [], ◌∷◌, ◌++◌, length, get_or, half_pow,
}
use mathlib.Core.Path.{subst}
use xmss_reference.Address.{Addr, addr_type_hashtree, set_tree_height, set_tree_index}
use xmss_reference.Params.{Params}
use xmss_reference.Params.Sets.{IsParams}
use xmss_reference.Hash.{HashFns, written, thash_h}
use xmss_reference.Hash.Lengths.{HasLengths}
use xmss_reference.Wots.Keys.{ots_part}
use xmss_reference.Commons.Tree.{typed_addr, node, parent_addr}
use xmss_reference.Core.{Stack}
use xmss_reference.Core.Merge.{merged_node}
use xmss_reference.Fast.{BdsState}
use xmss_reference.Fast.Update.{update_loop}
use xmss_reference.Fast.Build.{OnStack}

-- Every node of the stack has height `k` or more.
abbrev pub Above : ℕ → Stack → Type 0
Above k [] = Unit
Above k ((h, y) ∷ rest) = k ≤ h × Above k rest

pub Above-less : (k l : ℕ) (s : Stack) → l ≤ k → Above k s → Above l s
Above-less k l [] le a = tt
Above-less k l ((h, y) ∷ rest) le a = (omega arith, Above-less k l rest le a.1)

module _ (fns : HashFns) (lengths : HasLengths fns) (p : Params) (ok : IsParams p)
    (sk_seed pub_seed : List ℕ) (sub : Addr) where
  abbrev at : ℕ → ℕ → List ℕ
  at h j = node fns lengths p ok sk_seed pub_seed sub h j

  -- `Part h j k q tail`: under node `j` of height `h`, the nodes of height `k` up to the one before
  -- number `q` are made, and `tail` holds the largest subtrees of height `k` or more that they are,
  -- the smallest on top.
  pub data Part (h j : ℕ) : ℕ → ℕ → Stack → Type 0 where
    no_leaf : {k q : ℕ} → k ≡ h → q ≡ j → Part h j k q []
    left_next :
        {k q : ℕ} {s : Stack} (c : ℕ) → k < h → q ≡ 2 * c → Part h j (k + 1) c s → Part h j k q s
    right_next :
        {k q : ℕ} {s : Stack} (c : ℕ)
        → k < h
        → q ≡ 2 * c + 1
        → Part h j (k + 1) c s
        → Part h j k q ((k, at k (2 * c)) ∷ s)

  pub Part-Above : {h j k q : ℕ} {s : Stack} → Part h j k q s → Above k s
  Part-Above (no_leaf e e') = tt
  Part-Above {k = k} {s = s} (left_next c lt e t) =
      Above-less (k + 1) k s (omega arith) (Part-Above t)
  Part-Above {k = k} (right_next {s = s} c lt e t) =
      (omega arith, Above-less (k + 1) k s (omega arith) (Part-Above t))

  -- The loop ended under the node of the instance, with a new node for the tail.
  pub record Stopped (h j k q : ℕ) (below : Stack) (s : BdsState) (r : ℕ × ℕ × ℕ × List ℕ)
      : Type 0 where
    pub tail : Stack
    pub usage : r.0 ≡ length tail
    pub offset : r.1 ≡ length (tail ++ below)
    pub on : OnStack s.stack s.stacklevels (tail ++ below)
    pub low : r.2 < h
    pub part : Part h j k (q + 1) ((r.2, r.3) ∷ tail)

  -- The loop ended with the node of the instance.
  pub record Reached (h j : ℕ) (below : Stack) (s : BdsState) (r : ℕ × ℕ × ℕ × List ℕ)
      : Type 0 where
    pub usage : r.0 ≡ 0
    pub offset : r.1 ≡ length below
    pub on : OnStack s.stack s.stacklevels below
    pub top : r.2 ≡ h
    pub made : r.3 ≡ at h j

  unfoldable pub Climbed : ℕ → ℕ → ℕ → ℕ → Stack → BdsState → ℕ × ℕ × ℕ × List ℕ → Type 0
  Climbed h j k q below s r = Stopped h j k q below s r ⊎ Reached h j below s r

  -- The top of the stack is higher than the node at hand, or does not belong to the instance.
  stop :
      (next_idx k usage : ℕ) (tail below : Stack) (s : BdsState) (x : List ℕ) (a : Addr)
      → usage ≡ length tail
      → Above (k + 1) tail
      → OnStack s.stack s.stacklevels (tail ++ below)
      → update_loop fns p next_idx pub_seed s usage (length (tail ++ below)) k x a
        ≡ (length tail, length (tail ++ below), k, x)
  unfolding update_loop
  stop next_idx k zero [] below s x a e h on = refl
  stop next_idx k zero (y ∷ tail) below s x a e h on = absurd (omega arith)
  stop next_idx k (suc usage) [] below s x a e h on = absurd (omega arith)
  stop next_idx k (suc usage) ((h', y) ∷ tail) below s x a e h on =
      let last : length (((h', y) ∷ tail) ++ below) - 1 ≡ length (tail ++ below) = omega arith in
      let other : (get_or s.stacklevels (length (((h', y) ∷ tail) ++ below) - 1) 0 == k) ≡ false =
        ground (arith, ap (λ (t : ℕ). get_or s.stacklevels t 0) last, on.1) in
      rw other (ap (λ (t : ℕ). (t, suc (length (tail ++ below)), k, x)) e)

  made_node :
      (next_idx h j k c off : ℕ) (tail below : Stack) (s : BdsState) (x : List ℕ) (a : Addr)
      → next_idx / 2 ^ (k + 1) ≡ c
      → off ≡ length (tail ++ below)
      → x ≡ at k (2 * c + 1)
      → ots_part a ≡ typed_addr sub addr_type_hashtree
      → get_or s.stack (length (tail ++ below)) [] ≡ at k (2 * c)
      → written
          (get_or s.stack off [])
          (thash_h fns p
            (get_or s.stack off [] ++ x)
            pub_seed
            (set_tree_index (set_tree_height a k) (next_idx / 2 ^ (k + 1)))).1
        ≡ at (k + 1) c
  made_node next_idx h j k c off tail below s x a q eo ex ea left =
      let top = ap (λ (o : ℕ). get_or s.stack o []) eo ∙ left in
      (λ i.
        written (top i)
          (thash_h fns p (top i ++ ex i) pub_seed
            (set_tree_index (set_tree_height a k) (next_idx / 2 ^ (k + 1)))).1)
      ∙ merged_node fns lengths p ok sk_seed pub_seed sub 0 k (2 * c + 1) c (next_idx / 2 ^ (k + 1))
          a refl q ea

  -- What is left of the parts when a pair was merged.
  raise :
      (h j k q c : ℕ) (below : Stack) (s : BdsState) (r : ℕ × ℕ × ℕ × List ℕ)
      → k < h
      → q ≡ 2 * c + 1
      → Climbed h j (k + 1) c below s r
      → Climbed h j k q below s r
  unfolding Climbed
  raise h j k q c below s r lt e (inl st) = inl (record {
    tail = st.tail;
    usage = st.usage;
    offset = st.offset;
    on = st.on;
    low = st.low;
    part = left_next (c + 1) lt (omega arith) st.part;
  })
  raise h j k q c below s r lt e (inr re) = inr re

  -- The loop, from node `q` of height `k`, which follows the nodes of the tail.
  pub update_loop_lem :
      {h j k q : ℕ} {tail : Stack} (next_idx usage : ℕ) (below : Stack) (s : BdsState) (x : List ℕ)
      (a : Addr)
      → Part h j k q tail
      → next_idx / 2 ^ k ≡ q
      → usage ≡ length tail
      → OnStack s.stack s.stacklevels (tail ++ below)
      → x ≡ at k q
      → ots_part a ≡ typed_addr sub addr_type_hashtree
      → Climbed h j k q below s
          (update_loop fns p next_idx pub_seed s usage (length (tail ++ below)) k x a)
  unfolding update_loop Climbed
  update_loop_lem {h} {j} {k} {q} next_idx usage below s x a (no_leaf ek eq) e eu on ex ea =
      rw (stop next_idx k usage [] below s x a eu tt on) (
        inr (record {
          usage = refl;
          offset = refl;
          on = on;
          top = ek;
          made = ex ∙ (λ i. at (ek i) (eq i));
        }))
  update_loop_lem {h} {j} {k} {q} {tail} next_idx usage below s x a (left_next c lt eq t) e eu on ex
        ea =
      rw (stop next_idx k usage tail below s x a eu (Part-Above t) on) (
        inl (record {
          tail = tail;
          usage = refl;
          offset = refl;
          on = on;
          low = lt;
          part =
              subst (λ y. Part h j k (q + 1) ((k, y) ∷ tail)) (ap (λ u. at k u) (sym eq) ∙ sym ex)
                (right_next c lt (omega arith) t);
        }))
  update_loop_lem {q = q} next_idx zero below s x a (right_next c lt eq t) e eu on ex ea =
      absurd (omega arith)
  update_loop_lem {h} {j} {k} {q} next_idx (suc usage) below s x a (right_next {s = tail} c lt eq t)
        e eu on ex ea =
      let last : suc (length (tail ++ below)) - 1 ≡ length (tail ++ below) = omega arith in
      let same : (get_or s.stacklevels (suc (length (tail ++ below)) - 1) 0 == k) ≡ true =
        ground (arith, ap (λ (u : ℕ). get_or s.stacklevels u 0) last, on.1) in
      let up : next_idx / 2 ^ (k + 1) ≡ c = omega (arith, half_pow next_idx k) in
      let right = ex ∙ ap (λ u. at k u) eq in
      let off = suc (length (tail ++ below)) - 1 in
      let top = get_or s.stack off [] in
      let a' = set_tree_index (set_tree_height a k) (next_idx / 2 ^ (k + 1)) in
      let hashed = thash_h fns p (top ++ x) pub_seed a' in
      let rest =
        update_loop_lem next_idx usage below s (written top hashed.1) hashed.0 t up (omega arith)
          on.2 (made_node next_idx h j k c off tail below s x a up last right ea on.0)
          (parent_addr fns p pub_seed a _ k (next_idx / 2 ^ (k + 1)) (top ++ x) ea) in
      rw same (
        raise h j k q c below s _ lt eq (
          subst
            (λ o. Climbed h j (k + 1) c below s (
              update_loop fns p next_idx pub_seed s usage o (k + 1) (written top hashed.1)
                hashed.0))
            (sym last) rest))
