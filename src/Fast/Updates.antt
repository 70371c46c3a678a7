-- ===== src/Fast/Updates.antt =====
-- xmss_core_fast.c: bds_treehash_update keeps the order of the shared stack.
use xmss_reference.Base.{
  ℕ, zero, suc, ◌+◌, ◌-◌, ◌%◌, ◌^◌, ltb, ◌≤◌, ◌<◌, ◌≡◌, ◌≢◌, ◌⊎◌, inl, inr, refl, sym, ap, ◌∙◌,
  arith, true, false, ◌==◌, List, [], ◌++◌, length, length-append, if◌then◌else◌,
}
use mathlib.Core.Path.{subst}
use native.Mathlib.Decide.{dec_lt}
use native.Mathlib.Nat.{mod-eq_of_lt}
use xmss_reference.Address.{Addr, zero_addr, copy_subtree_addr}
use xmss_reference.Params.{Params}
use xmss_reference.Params.Sets.{IsParams}
use xmss_reference.Hash.{HashFns}
use xmss_reference.Hash.Lengths.{HasLengths}
use xmss_reference.Core.{Stack}
use xmss_reference.Core.AuthPath.{trichotomy}
use xmss_reference.Fast.{BdsState, TreehashInst, instances}
use xmss_reference.Fast.Update.{
  get_inst, find_level, treehash_update, update_rounds, bds_treehash_update,
}
use xmss_reference.Fast.Build.{OnStack}
use xmss_reference.Fast.Tail.{Above}
use xmss_reference.Fast.Advance.{Advanced, Arrays, treehash_update-Advanced}
use xmss_reference.Fast.Choice.{find_level_from}
use xmss_reference.Fast.Chosen.{Chosen, Least-Chosen, none_working}
use xmss_reference.Fast.Shared.{joined, joined_from, joined_same, InstIs, Shared, length-Part_above}

-- The nodes of `level` replaced.
abbrev replaced : (ℕ → Stack) → ℕ → Stack → ℕ → Stack
replaced tails level tail b = if b == level then tail else tails b

replaced_here :
    (tails : ℕ → Stack) (level : ℕ) (tail : Stack) → replaced tails level tail level ≡ tail
replaced_here tails level tail = let same : (level == level) ≡ true = ground arith in rw same refl

replaced_other :
    (tails : ℕ → Stack) (level b : ℕ) (tail : Stack)
    → b ≢ level
    → replaced tails level tail b ≡ tails b
replaced_other tails level b tail other =
    let miss : (b == level) ≡ false = ground arith in rw miss refl

-- With other nodes of `level`, the nodes behind them are the same.
joined-replaced :
    (tails : ℕ → Stack) (level n : ℕ) (tail : Stack)
    → level < n
    → ((c : ℕ) → c < level → tails c ≡ [])
    → joined (replaced tails level tail) n 0
      ≡ tail ++ joined tails (n + 0 - (level + 1)) (level + 1)
joined-replaced tails level n tail lt none =
    joined_from (replaced tails level tail) level n 0 (omega arith) (omega arith)
      (λ c le lt'. replaced_other tails level c tail (omega arith) ∙ none c lt')
    ∙ ap (λ t. t ++ joined (replaced tails level tail) (n + 0 - (level + 1)) (level + 1))
        (replaced_here tails level tail)
    ∙ ap (λ t. tail ++ t)
        (joined_same (replaced tails level tail) tails (n + 0 - (level + 1)) (level + 1)
          (λ b le. replaced_other tails level b tail (omega arith)))

module _ (fns : HashFns) (lengths : HasLengths fns) (p : Params) (ok : IsParams p)
    (sk_seed pub_seed : List ℕ) (sub : Addr) (jobs : ℕ → ℕ) where
  abbrev SharedBy : BdsState → Type 0
  SharedBy s = Shared fns lengths p ok sk_seed pub_seed sub jobs s

  abbrev InstOf : ℕ → TreehashInst → Stack → Type 0
  InstOf i t tail = InstIs fns lengths p ok sk_seed pub_seed sub i (jobs i) t tail

  -- The nodes of all instances from `i` on leave room.
  pub length-joined_above :
      (s : BdsState) (sh : SharedBy s) (left i low : ℕ)
      → left + i ≡ instances p
      → low ≤ i
      → ((b : ℕ) → i ≤ b → b < instances p → Above low (sh.tails b))
      → length (joined sh.tails left i) + low ≤ left + i
  length-joined_above s sh zero i low e le a = omega arith
  length-joined_above s sh (suc left) i low e le a =
      let size = length-append (sh.tails i) (joined sh.tails left (i + 1)) in
      elim (dec_lt 0 (length (sh.tails i))) [
        | yes busy ↦
            let rest =
              length-joined_above s sh left (i + 1) i (omega arith) (omega arith)
                (λ b le' lt. sh.order i b (omega arith) lt busy) in
            omega (arith, part_size busy)
        | no empty ↦
            let rest =
              length-joined_above s sh left (i + 1) low (omega arith) (omega arith)
                (λ b le' lt. a b (omega arith) lt) in
            omega arith
      ]
    where
      part_size : 0 < length (sh.tails i) → length (sh.tails i) + low ≤ i
      part_size busy = elim (sh.insts i (omega arith)) [
        | inl w ↦
            length-Part_above fns lengths p ok sk_seed pub_seed sub low w.part
              (a i (omega arith) (omega arith)) le
        | inr idle ↦ absurd (omega (arith, ap length idle.empty))
      ]

  module _ (s : BdsState) (sh : SharedBy s) (level : ℕ)
      (ch : Chosen fns lengths p ok sk_seed pub_seed sub jobs s sh level) where
    abbrev pub below : Stack
    below = joined sh.tails (instances p + 0 - (level + 1)) (level + 1)

    -- The state with other nodes on top.
    reshared :
        (s' : BdsState) (tail : Stack)
        → Arrays p s'
        → ((b : ℕ) → b ≢ level → get_inst s' b ≡ get_inst s b)
        → OnStack s'.stack s'.stacklevels (tail ++ below)
        → s'.stackoffset ≡ length (tail ++ below)
        → InstOf level (get_inst s' level) tail
        → SharedBy s'
    reshared s' tail arrays others on offset inst =
        let e = joined-replaced sh.tails level (instances p) tail ch.below ch.before in
        record {
          arrays = arrays;
          tails = replaced sh.tails level tail;
          on = subst (λ t. OnStack s'.stack s'.stacklevels t) (sym e) on;
          offset = offset ∙ ap length (sym e);
          order = λ c b lt lt' pos. elim (trichotomy c level) [
            | inl before ↦ absurd (
                omega (
                  arith,
                  ap length (replaced_other sh.tails level c tail (omega arith)),
                  ap length (ch.before c before),
                ))
            | inr (inl here) ↦
                subst (λ u. Above u (replaced sh.tails level tail b)) (sym here)
                  (subst (Above level) (sym (replaced_other sh.tails level b tail (omega arith)))
                    (ch.behind b (omega arith) lt'))
            | inr (inr after) ↦
                subst (Above c) (sym (replaced_other sh.tails level b tail (omega arith))) (
                  sh.order c b lt lt'
                    (omega (arith, ap length (replaced_other sh.tails level c tail (omega arith)))))
          ];
          insts = λ i lt. elim (trichotomy i level) [
            | inl before ↦ kept i lt (omega arith)
            | inr (inl here) ↦
                subst (λ u. InstOf u (get_inst s' u) (replaced sh.tails level tail u)) (sym here)
                  (subst (InstOf level (get_inst s' level))
                    (sym (replaced_here sh.tails level tail)) inst)
            | inr (inr after) ↦ kept i lt (omega arith)
          ];
        }
      where
        kept :
            (i : ℕ)
            → i < instances p
            → i ≢ level
            → InstOf i (get_inst s' i) (replaced sh.tails level tail i)
        kept i lt other =
            subst (λ t. InstOf i t (replaced sh.tails level tail i)) (sym (others i other))
              (subst (InstOf i (get_inst s i)) (sym (replaced_other sh.tails level i tail other))
                (sh.insts i lt))

    pub update-Advanced :
        (addr : Addr)
        → copy_subtree_addr zero_addr addr ≡ copy_subtree_addr zero_addr sub
        → Advanced fns lengths p ok sk_seed pub_seed sub level
            (jobs level)
            below
            s
            (treehash_update fns p level s sk_seed pub_seed addr)
    update-Advanced addr same =
        let e =
          joined_from sh.tails level (instances p) 0 (omega arith) (omega (arith, ch.below))
            (λ c le. ch.before c) in
        let size =
          length-joined_above s sh (instances p + 0 - (level + 1)) (level + 1) level
            (omega (arith, ch.below)) (omega arith) (λ b le lt. ch.behind b (omega arith) lt) in
        treehash_update-Advanced fns lengths p ok sk_seed pub_seed sub level (jobs level) below s
          sh.arrays ch.below (omega (arith, ch.below)) (sh.tails level) addr same ch.working
          (subst (λ t. OnStack s.stack s.stacklevels t) e sh.on) (sh.offset ∙ ap length e)

    pub update_shared :
        (addr : Addr)
        → copy_subtree_addr zero_addr addr ≡ copy_subtree_addr zero_addr sub
        → let s' = treehash_update fns p level s sk_seed pub_seed addr in
          SharedBy s' × (s'.auth ≡ s.auth) × (s'.keep ≡ s.keep)
    update_shared addr same =
        let adv = update-Advanced addr same in
        let s' = treehash_update fns p level s sk_seed pub_seed addr in
        (
          elim adv.here [
            | inl still ↦
                reshared s' still.tail adv.arrays adv.others still.on still.offset
                  (inl still.working)
            | inr over ↦ reshared s' [] adv.arrays adv.others over.on over.offset (
                inr (record {
                  completed = over.finished.completed;
                  empty = refl;
                  node = λ lt. over.finished.node;
                }))
          ],
          adv.auth,
          adv.keep,
        )

  -- After the updates: the stack is in order, the path and `keep` are as they were, and there are
  -- updates left only if every instance is completed.
  pub record Updated (updates : ℕ) (s : BdsState) (r : BdsState × ℕ) : Type 0 where
    pub shared : SharedBy r.0
    pub auth : r.0.auth ≡ s.auth
    pub keep : r.0.keep ≡ s.keep
    pub left : r.1 ≤ updates
    pub completed : (r.1 ≡ 0) ⊎ ((i : ℕ) → i < instances p → (get_inst r.0 i).completed ≡ 1)

  rounds_lem :
      (updates : ℕ) (s : BdsState) (addr : Addr)
      → copy_subtree_addr zero_addr addr ≡ copy_subtree_addr zero_addr sub
      → SharedBy s
      → Updated updates s (update_rounds fns p updates s sk_seed pub_seed addr)
  unfolding update_rounds
  rounds_lem zero s addr same sh = record {
    shared = sh;
    auth = refl;
    keep = refl;
    left = omega arith;
    completed = inl refl;
  }
  rounds_lem (suc updates) s addr same sh =
      elim (find_level_from p s (instances p) 0 (instances p) p.tree_height (omega arith)
        (inr (refl, refl, λ c lt. absurd (omega arith)))) [
          | inl l ↦
              let level = find_level p s (instances p) 0 (instances p) p.tree_height in
              let found : (level == instances p) ≡ false = ground (arith, l.below) in
              let ch = Least-Chosen fns lengths p ok sk_seed pub_seed sub jobs s sh level l in
              let u = update_shared s sh level ch addr same in
              let r = rounds_lem updates _ addr same u.0 in
              rw (update_rounds, found)
                (record {
                  shared = r.shared;
                  auth = r.auth ∙ u.1;
                  keep = r.keep ∙ u.2;
                  left = omega (arith, r.left);
                  completed = r.completed;
                })
          | inr (none, over) ↦
              let stop : (find_level p s (instances p) 0 (instances p) p.tree_height == instances p)
                  ≡ true =
                ground (arith, none) in
              rw (update_rounds, stop)
                (record {
                  shared = sh;
                  auth = refl;
                  keep = refl;
                  left = omega arith;
                  completed =
                      inr (none_working fns lengths p ok sk_seed pub_seed sub jobs s sh over);
                })
        ]

  -- For the parameters of a set: if each instance has its node, or is on its way to it with its nodes
  -- in order on the shared stack, then after bds_treehash_update with fewer than 2^7 updates the same
  -- holds, for the same nodes; the authentication path and `keep` are unchanged, and updates are
  -- reported to be left only if every instance is completed.
  pub bds_treehash_update-Updated :
      (updates : ℕ) (s : BdsState) (addr : Addr)
      → copy_subtree_addr zero_addr addr ≡ copy_subtree_addr zero_addr sub
      → updates < 2 ^ 7
      → SharedBy s
      → Updated updates s (bds_treehash_update fns p s updates sk_seed pub_seed addr)
  unfolding bds_treehash_update
  bds_treehash_update-Updated updates s addr same few sh =
      let r = rounds_lem updates s addr same sh in
      let left = (update_rounds fns p updates s sk_seed pub_seed addr).1 in
      let small : left % 2 ^ 8 ≡ left = mod-eq_of_lt (omega (arith, r.left)) in
      let positive : ltb (left % 2 ^ 8) (2 ^ 7) ≡ true = ground (arith, small, r.left) in
      rw (positive, small)
        (record {
          shared = r.shared;
          auth = r.auth;
          keep = r.keep;
          left = r.left;
          completed = r.completed;
        })
