-- ===== src/Fast/RoundShared.antt =====
-- xmss_core_fast.c: bds_round and the order of the shared stack.
use xmss_reference.Base.{
  ℕ, ◌+◌, ◌-◌, ◌*◌, ◌/◌, ◌%◌, ◌^◌, ◌≤◌, ◌<◌, ◌≡◌, inl, inr, sym, ap, ◌∙◌, arith, List, length,
  pow_over, half_pow,
}
use mathlib.Core.Path.{subst}
use native.Mathlib.Decide.{dec_lt}
use native.Mathlib.Nat.{
  mod-eq_of_lt, one-le-pow, pow-le-pow_right, mul_assoc, mul-le-mul_right, div-lt_iff_lt-mul,
}
use xmss_reference.Address.{Addr}
use xmss_reference.Params.{Params}
use xmss_reference.Params.Sets.{IsParams}
use xmss_reference.Hash.{HashFns}
use xmss_reference.Hash.Lengths.{HasLengths}
use xmss_reference.Commons.Tree.{node}
use xmss_reference.Core.{Stack}
use xmss_reference.Fast.{BdsState, TreehashInst, instances}
use xmss_reference.Fast.Update.{get_inst}
use xmss_reference.Fast.Round.{bds_round, find_tau}
use xmss_reference.Fast.Build.{OnStack}
use xmss_reference.Fast.Carry.{
  Carry, carry_below, carry_above, carry_exact, carry_zeros, multiple_below, find_tau_lem,
}
use xmss_reference.Fast.Tail.{Part}
use xmss_reference.Fast.NextPath.{InstsReady}
use xmss_reference.Fast.Advance.{Arrays}
use xmss_reference.Fast.Shared.{joined, Idle, InstIs, Shared}
use xmss_reference.Fast.Restart.{want, startidx, Restarted, part_start}
use xmss_reference.Fast.Frames.{SameStack, round_at-Restarted}

-- The instances that are due at a leaf are completed.
abbrev pub AllDone : Params → ℕ → BdsState → Type 0
AllDone p leaf_idx s =
    (i : ℕ)
    → (leaf_idx + 1) % 2 ^ (i + 1) ≡ 0
    → i + 1 < p.tree_height
    → (get_inst s i).completed ≡ 1

module _ (p : Params) (ok : IsParams p) (leaf_idx tau : ℕ) (c : Carry leaf_idx tau)
    (fits : leaf_idx + 1 < 2 ^ p.tree_height) (low : tau < p.tree_height) where
  -- The first leaf under the node that is wanted next.
  pub startidx-want : (i : ℕ) → i < tau → startidx leaf_idx i ≡ want (leaf_idx + 1) i * 2 ^ i
  startidx-want i lt =
      let q = (leaf_idx + 1) / 2 ^ (i + 1) in
      let exact = carry_exact leaf_idx tau c (i + 1) (omega arith) in
      let double : 2 ^ (i + 1) ≡ 2 * 2 ^ i = omega (arith, pow_over i 1) in
      let wide =
        pow-le-pow_right {n = 2} (omega arith) {i = p.tree_height} {j = 20} ok.height_max in
      let narrow =
        pow-le-pow_right {n = 2} (omega arith) {i = i} {j = p.tree_height} (omega arith) in
      mod-eq_of_lt (omega arith)
      ∙ omega (arith, ap (λ (u : ℕ). q * u) double, mul_assoc q 2 (2 ^ i))

  -- What is wanted of the instances below `tau` is due now.
  want_due : (i : ℕ) → i < tau → want leaf_idx i ≡ (leaf_idx + 1) / 2 ^ i + 1
  want_due i lt =
      omega (arith, half_pow leaf_idx i, carry_below leaf_idx tau c i (omega arith), c.ones i lt)

  -- It is a node of the tree.
  want_exists : (i : ℕ) → i < tau → (want leaf_idx i + 1) * 2 ^ i ≤ 2 ^ p.tree_height
  want_exists i lt =
      let q = (leaf_idx + 1) / 2 ^ (i + 1) in
      let over = p.tree_height - (i + 1) in
      let all : 2 ^ p.tree_height ≡ 2 ^ over * 2 ^ (i + 1) =
        ap (λ (u : ℕ). 2 ^ u) (omega arith) ∙ pow_over over (i + 1) in
      let below : q < 2 ^ over =
        (div-lt_iff_lt-mul (one-le-pow (i + 1) 2 (omega arith))).1 (omega arith) in
      let room : (q + 1) * 2 ^ (i + 1) ≤ 2 ^ over * 2 ^ (i + 1) =
        mul-le-mul_right (2 ^ (i + 1)) (omega arith) in
      let double : 2 ^ (i + 1) ≡ 2 * 2 ^ i = omega (arith, pow_over i 1) in
      let next : want leaf_idx i + 1 ≡ (q + 1) * 2 =
        omega (arith, carry_below leaf_idx tau c (i + 1) (omega arith)) in
      omega (
        arith,
        ap (λ (u : ℕ). u * 2 ^ i) next,
        mul_assoc (q + 1) 2 (2 ^ i),
        ap (λ (u : ℕ). (q + 1) * u) double,
      )

  pub want_kept : (i : ℕ) → tau ≤ i → want (leaf_idx + 1) i ≡ want leaf_idx i
  want_kept i le = omega (arith, carry_above leaf_idx tau c (i + 1) (omega arith))

module _ (fns : HashFns) (lengths : HasLengths fns) (p : Params) (ok : IsParams p)
    (sk_seed pub_seed : List ℕ) (sub : Addr) where
  abbrev SharedAt : ℕ → BdsState → Type 0
  SharedAt leaf_idx s = Shared fns lengths p ok sk_seed pub_seed sub (want leaf_idx) s

  -- Completed instances have the nodes that bds_round takes from them.
  pub InstsReady-Shared :
      (leaf_idx : ℕ) (s : BdsState)
      → leaf_idx + 1 < 2 ^ p.tree_height
      → SharedAt leaf_idx s
      → AllDone p leaf_idx s
      → InstsReady fns lengths p ok sk_seed pub_seed sub leaf_idx s
  InstsReady-Shared leaf_idx s fits sh done i due lt =
      let found = find_tau_lem p leaf_idx fits in
      let tau = find_tau p leaf_idx p.tree_height 0 in
      let below = multiple_below leaf_idx tau found.0 i due in
      let e = want_due p ok leaf_idx tau found.0 fits found.1 i below in
      elim (sh.insts i (omega (arith, ok.bds))) [
        | inl w ↦ absurd (omega (arith, w.active, done i due lt))
        | inr idle ↦
            idle.node (want_exists p ok leaf_idx tau found.0 fits found.1 i below)
            ∙ ap (λ u. node fns lengths p ok sk_seed pub_seed sub i u) e
      ]

  module _ (leaf_idx tau : ℕ) (c : Carry leaf_idx tau) (fits : leaf_idx + 1 < 2 ^ p.tree_height)
      (low : tau < p.tree_height) (s r : BdsState) (sh : SharedAt leaf_idx s)
      (done : AllDone p leaf_idx s) (same : SameStack s r)
      (re : Restarted p leaf_idx tau 0 s r) where
    InstOf : ℕ → TreehashInst → Stack → Type 0
    InstOf i t tail = InstIs fns lengths p ok sk_seed pub_seed sub i (want (leaf_idx + 1) i) t tail

    restarted :
        (i : ℕ)
        → i < tau
        → Idle fns lengths p ok sk_seed pub_seed sub i (want leaf_idx i) (get_inst s i) (sh.tails i)
        → InstOf i (get_inst r i) (sh.tails i)
    unfolding InstOf
    restarted i lt idle =
        let e = startidx-want p ok leaf_idx tau c fits low i lt in
        elim (dec_lt (startidx leaf_idx i) (2 ^ p.tree_height)) [
          | yes exists ↦
              let started = re.started i (omega arith) (omega arith) exists in
              inl (record {
                height =
                    ap (λ (t : TreehashInst). t.h) started
                    ∙ mod-eq_of_lt (omega (arith, ok.height_max));
                active = ap (λ (t : TreehashInst). t.completed) started;
                usage =
                    ap (λ (t : TreehashInst). t.stackusage) started ∙ sym (ap length idle.empty);
                part =
                    subst
                      (λ t.
                        Part fns lengths p ok sk_seed pub_seed sub i (want (leaf_idx + 1) i) 0
                          (get_inst r i).next_idx t)
                      (sym idle.empty)
                      (part_start fns lengths p ok sk_seed pub_seed sub i (want (leaf_idx + 1) i) 0
                        i (get_inst r i).next_idx (omega arith)
                        (ap (λ (t : TreehashInst). t.next_idx) started ∙ e));
              })
          | no over ↦
              let late = re.late i (omega arith) (omega arith) (omega arith) in
              inr (record {
                completed = ap (λ (t : TreehashInst). t.completed) late ∙ idle.completed;
                empty = idle.empty;
                node = λ le. absurd (omega (arith, one-le-pow i 2));
              })
        ]

    kept :
        (i : ℕ)
        → tau ≤ i
        → InstIs fns lengths p ok sk_seed pub_seed sub i
            (want leaf_idx i)
            (get_inst s i)
            (sh.tails i)
        → InstOf i (get_inst r i) (sh.tails i)
    unfolding InstOf
    kept i le inst =
        subst (λ j. InstIs fns lengths p ok sk_seed pub_seed sub i j (get_inst r i) (sh.tails i))
          (sym (want_kept p ok leaf_idx tau c fits low i le))
          (subst
            (λ t. InstIs fns lengths p ok sk_seed pub_seed sub i (want leaf_idx i) t (sh.tails i))
            (sym (re.outside i (inr (omega arith)))) inst)

    round_shared : Arrays p r → SharedAt (leaf_idx + 1) r
    unfolding InstOf
    round_shared arrays = record {
      arrays = arrays;
      tails = sh.tails;
      on =
          subst (λ u. OnStack u r.stacklevels (joined sh.tails (instances p) 0)) (sym same.stack)
            (subst (λ l. OnStack s.stack l (joined sh.tails (instances p) 0)) (sym same.levels)
              sh.on);
      offset = same.offset ∙ sh.offset;
      order = sh.order;
      insts = λ i lt. elim (dec_lt i tau) [
        | yes below ↦ elim (sh.insts i lt) [
          | inl w ↦ absurd (
              omega (
                arith,
                w.active,
                done i (carry_zeros leaf_idx tau c (i + 1) (omega arith)) (omega arith),
              ))
          | inr idle ↦ restarted i below idle
        ]
        | no above ↦ kept i (omega arith) (sh.insts i lt)
      ];
    }

  -- After bds_round each instance has, or is on its way to, what is wanted of it at the next leaf.
  pub bds_round-Shared :
      (leaf_idx : ℕ) (s : BdsState) (addr : Addr)
      → leaf_idx + 1 < 2 ^ p.tree_height
      → SharedAt leaf_idx s
      → AllDone p leaf_idx s
      → SharedAt (leaf_idx + 1) (bds_round fns p s leaf_idx sk_seed pub_seed addr)
  unfolding bds_round
  bds_round-Shared leaf_idx s addr fits sh done =
      let found = find_tau_lem p leaf_idx fits in
      let tau = find_tau p leaf_idx p.tree_height 0 in
      let arrays = sh.arrays in
      let (same, re) =
        round_at-Restarted fns p sk_seed pub_seed addr leaf_idx tau s
          (omega (arith, found.1, ok.bds)) arrays.inst_len in
      round_shared leaf_idx tau found.0 fits found.1 s _ sh done same re (record {
        stack_len = ap length same.stack ∙ arrays.stack_len;
        levels_len = ap length same.levels ∙ arrays.levels_len;
        inst_len = re.inst_len ∙ arrays.inst_len;
      })
