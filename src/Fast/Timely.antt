-- ===== src/Fast/Timely.antt =====
-- xmss_core_fast.c: the updates of each signature suffice, so the instances are ready when they are due.
use xmss_reference.Base.{
  ℕ, suc, ◌+◌, ◌-◌, ◌*◌, ◌/◌, ◌^◌, ◌≤◌, ◌<◌, ◌≡◌, inl, inr, sym, ap, ◌∙◌, arith, List,
}
use native.Mathlib.Decide.{dec_lt}
use native.Mathlib.Nat.{
  pow-suc, one-le-pow, mul-add, mul_assoc, pow-le-pow_right, mul-le-mul_right, div-add-mod',
}
use xmss_reference.Address.{Addr, zero_addr, copy_subtree_addr}
use xmss_reference.Params.{Params}
use xmss_reference.Params.Sets.{IsParams}
use xmss_reference.Hash.{HashFns}
use xmss_reference.Hash.Lengths.{HasLengths}
use xmss_reference.Fast.{BdsState, instances}
use xmss_reference.Fast.Update.{get_inst, bds_treehash_update}
use xmss_reference.Fast.Round.{bds_round, find_tau}
use xmss_reference.Fast.Carry.{
  Carry, carry_below, carry_above, carry_exact, multiple_below, find_tau_lem,
}
use xmss_reference.Fast.Shared.{Shared}
use xmss_reference.Fast.Restart.{want, Restarted}
use xmss_reference.Fast.Frames.{round_at-Restarted}
use xmss_reference.Fast.RoundShared.{AllDone, want_kept, bds_round-Shared}
use xmss_reference.Fast.Debt.{cost, cost_low, total_term, Part-bound}
use xmss_reference.Fast.Credit.{credit, since, credit_grows, since_last, credit_due}
use xmss_reference.Fast.Spend.{debt, rounds-Spent}
use xmss_reference.Fast.Start.{was_started}
use xmss_reference.Fast.Charge.{fresh_debt, kept_debt}

-- The rounds of updates that an instance has had since it was started.
abbrev had : ℕ → ℕ → ℕ
had leaf_idx i = leaf_idx - since leaf_idx i + 1

had_less : (leaf_idx i : ℕ) → since leaf_idx i ≤ leaf_idx
had_less leaf_idx i = omega (arith, div-add-mod' leaf_idx (2 ^ (i + 1)))

-- A node that is due later than the first ones is low.
low_node : (th i j : ℕ) → 5 ≤ j → j * 2 ^ i < 2 ^ th → i + 3 ≤ th
low_node th i j five lt = elim (dec_lt th (i + 3)) [
  | no enough ↦ omega arith
  | yes high ↦
      let up : suc (suc i) ≡ i + 2 = omega arith in
      absurd (
        omega (
          arith,
          mul-le-mul_right (2 ^ i) five,
          pow-le-pow_right {n = 2} (omega arith) {i = th} {j = suc (suc i)} (omega arith),
          pow-suc 2 (suc i),
          pow-suc 2 i,
          one-le-pow i 2,
        ))
]

module _ (fns : HashFns) (lengths : HasLengths fns) (p : Params) (ok : IsParams p)
    (sk_seed pub_seed : List ℕ) (sub : Addr) where
  abbrev SharedAt : ℕ → BdsState → Type 0
  SharedAt leaf_idx s = Shared fns lengths p ok sk_seed pub_seed sub (want leaf_idx) s

  abbrev debt_at : ℕ → ℕ → BdsState → ℕ
  debt_at leaf_idx i s = debt fns lengths p ok sk_seed pub_seed sub (want leaf_idx) i s

  -- What instance `i`, at work, still costs, with the updates that it has had, is no more than what
  -- it cost when it was started and what the lower ones have cost since.
  pub record OnTime (leaf_idx i : ℕ) (s : BdsState) : Type 0 where
    pub exists : want leaf_idx i * 2 ^ i < 2 ^ p.tree_height
    pub begun : 5 ≤ want leaf_idx i
    pub spent :
        debt_at leaf_idx i s + instances p / 2 * had leaf_idx i + 1 + credit i (since leaf_idx i)
        ≤ 3 * 2 ^ i + credit i leaf_idx

  abbrev pub Timely : ℕ → BdsState → Type 0
  Timely leaf_idx s = (i : ℕ) → i < instances p → (get_inst s i).completed ≡ 0 → OnTime leaf_idx i s

  -- An instance at work has something to do.
  debt_left :
      (leaf_idx i : ℕ) (s : BdsState)
      → SharedAt leaf_idx s
      → i < instances p
      → (get_inst s i).completed ≡ 0
      → 0 < debt_at leaf_idx i s
  debt_left leaf_idx i s sh lt active = elim (sh.insts i lt) [
    | inl w ↦ omega (
      arith,
      total_term (λ b. cost i b (want leaf_idx b) (get_inst s b)) (instances p) i lt,
      cost_low i i (want leaf_idx i) (get_inst s i) active (omega arith),
      Part-bound fns lengths p ok sk_seed pub_seed sub i (omega arith) w.part,
    )
    | inr idle ↦ absurd (omega (arith, idle.completed))
  ]

  half_enough : (i : ℕ) → i + 3 ≤ p.tree_height → i + 2 ≤ instances p / 2 * 2
  half_enough i le = omega (arith, ok.bds)

  -- Instances that are on time are done when they are due.
  pub Timely-AllDone :
      (leaf_idx : ℕ) (s : BdsState)
      → leaf_idx + 1 < 2 ^ p.tree_height
      → SharedAt leaf_idx s
      → Timely leaf_idx s
      → AllDone p leaf_idx s
  Timely-AllDone leaf_idx s fits sh timely i due lt =
      let found = find_tau_lem p leaf_idx fits in
      let tau = find_tau p leaf_idx p.tree_height 0 in
      let below = multiple_below leaf_idx tau found.0 i due in
      let li : i < instances p = omega (arith, ok.bds) in
      let u = instances p / 2 in
      elim (sh.insts i li) [
        | inr idle ↦ idle.completed
        | inl w ↦
            let on = timely i li w.active in
            let left = debt_left leaf_idx i s sh li w.active in
            let low =
              half_enough i (low_node p.tree_height i (want leaf_idx i) on.begun on.exists) in
            let full : had leaf_idx i ≡ 2 ^ (i + 1) =
              omega (arith, since_last leaf_idx tau found.0 i below) in
            let double : 2 ^ (i + 1) ≡ 2 * 2 ^ i =
              omega (arith, pow-suc 2 i, ap (λ (x : ℕ). 2 ^ x) (suc_is i)) in
            absurd (
              omega (
                arith,
                on.spent,
                left,
                ap (λ (x : ℕ). u * x) (full ∙ double),
                sym (mul_assoc u 2 (2 ^ i)),
                mul-le-mul_right (2 ^ i) low,
                credit_due leaf_idx tau found.0 i below,
                add_two i,
              ))
      ]
    where
      suc_is : (i : ℕ) → i + 1 ≡ suc i
      suc_is i = omega arith

      add_two : (i : ℕ) → (i + 2) * 2 ^ i ≡ i * 2 ^ i + 2 * 2 ^ i
      add_two i = omega arith

  -- After bds_round, before the updates.
  pub record Billed (leaf_idx i : ℕ) (s : BdsState) : Type 0 where
    pub exists : want leaf_idx i * 2 ^ i < 2 ^ p.tree_height
    pub begun : 5 ≤ want leaf_idx i
    pub before : ℕ
    pub rounds : had leaf_idx i ≡ before + 1
    pub bill :
        debt_at leaf_idx i s + instances p / 2 * before + 1 + credit i (since leaf_idx i)
        ≤ 3 * 2 ^ i + credit i leaf_idx

  module _ (leaf_idx tau : ℕ) (c : Carry leaf_idx tau) (fits : leaf_idx + 1 < 2 ^ p.tree_height)
      (low : tau < p.tree_height) (s r : BdsState) (sh : SharedAt leaf_idx s)
      (timely : Timely leaf_idx s) (re : Restarted p leaf_idx tau 0 s r) where
    done : AllDone p leaf_idx s
    done = Timely-AllDone leaf_idx s fits sh timely

    fresh-Billed :
        (i : ℕ)
        → i < tau
        → i < instances p
        → (get_inst r i).completed ≡ 0
        → Billed (leaf_idx + 1) i r
    fresh-Billed i lt li active =
        let exact = carry_exact leaf_idx tau c (i + 1) (omega arith) in
        record {
          exists = was_started p ok leaf_idx tau c fits low s r done re i lt active;
          begun = omega (arith, carry_below leaf_idx tau c (i + 1) (omega arith));
          before = 0;
          rounds = omega (arith, exact);
          bill = omega (
            arith,
            fresh_debt fns lengths p ok sk_seed pub_seed sub leaf_idx tau c fits low s r sh done re
                i lt li,
            ap (credit i) exact,
          );
        }

    kept-Billed :
        (i : ℕ)
        → tau ≤ i
        → i < instances p
        → (get_inst r i).completed ≡ 0
        → Billed (leaf_idx + 1) i r
    kept-Billed i le li active =
        let inst = re.outside i (inr (omega arith)) in
        let on = timely i li (sym (ap (λ t. t.completed) inst) ∙ active) in
        let kept = want_kept p ok leaf_idx tau c fits low i le in
        let same : since (leaf_idx + 1) i ≡ since leaf_idx i =
          ap (λ (u : ℕ). u * 2 ^ (i + 1)) (carry_above leaf_idx tau c (i + 1) (omega arith)) in
        record {
          exists = omega (arith, on.exists, ap (λ (u : ℕ). u * 2 ^ i) kept);
          begun = omega (arith, kept, on.begun);
          before = had leaf_idx i;
          rounds = omega (arith, same, had_less leaf_idx i);
          bill = omega (
            arith,
            on.spent,
            kept_debt fns lengths p ok sk_seed pub_seed sub leaf_idx tau c fits low s r sh done re i
                le li,
            credit_grows leaf_idx tau c i,
            ap (credit i) same,
          );
        }

    billed : (i : ℕ) → i < instances p → (get_inst r i).completed ≡ 0 → Billed (leaf_idx + 1) i r
    billed i li active = elim (dec_lt i tau) [
      | yes below ↦ fresh-Billed i below li active
      | no above ↦ kept-Billed i (omega arith) li active
    ]

  round-Billed :
      (leaf_idx : ℕ) (s : BdsState) (addr : Addr)
      → leaf_idx + 1 < 2 ^ p.tree_height
      → SharedAt leaf_idx s
      → Timely leaf_idx s
      → (i : ℕ) → i < instances p
      → (get_inst (bds_round fns p s leaf_idx sk_seed pub_seed addr) i).completed ≡ 0
      → Billed (leaf_idx + 1) i (bds_round fns p s leaf_idx sk_seed pub_seed addr)
  unfolding bds_round
  round-Billed leaf_idx s addr fits sh timely =
      let found = find_tau_lem p leaf_idx fits in
      let tau = find_tau p leaf_idx p.tree_height 0 in
      let arrays = sh.arrays in
      let (same, re) =
        round_at-Restarted fns p sk_seed pub_seed addr leaf_idx tau s
          (omega (arith, found.1, ok.bds)) arrays.inst_len in
      billed leaf_idx tau found.0 fits found.1 s _ sh timely re

  -- What bds_round and the updates of a signature make of a state.
  abbrev pub next_state : ℕ → BdsState → Addr → BdsState
  next_state leaf_idx s addr =
      (bds_treehash_update fns p (bds_round fns p s leaf_idx sk_seed pub_seed addr)
        (instances p / 2) sk_seed pub_seed addr).0

  pub next-Timely :
      (leaf_idx : ℕ) (s : BdsState) (addr : Addr)
      → copy_subtree_addr zero_addr addr ≡ copy_subtree_addr zero_addr sub
      → leaf_idx + 1 < 2 ^ p.tree_height
      → SharedAt leaf_idx s
      → Timely leaf_idx s
      → Timely (leaf_idx + 1) (next_state leaf_idx s addr)
  unfolding bds_treehash_update
  next-Timely leaf_idx s addr same fits sh timely i li active =
      let mid = bds_round fns p s leaf_idx sk_seed pub_seed addr in
      let u = instances p / 2 in
      let sh' =
        bds_round-Shared fns lengths p ok sk_seed pub_seed sub leaf_idx s addr fits sh
          (Timely-AllDone leaf_idx s fits sh timely) in
      let r =
        rounds-Spent fns lengths p ok sk_seed pub_seed sub (want (leaf_idx + 1)) u mid i addr same
          li sh' in
      elim (sh'.insts i li) [
        | inr idle ↦ absurd (omega (arith, r.stays idle.completed, active))
        | inl w ↦
            let b = round-Billed leaf_idx s addr fits sh timely i li w.active in
            record {
              exists = b.exists;
              begun = b.begun;
              spent = omega (
                arith,
                b.bill,
                r.spent w.active active,
                ap (λ (x : ℕ). u * x) b.rounds,
                mul-add u b.before 1,
              );
            }
      ]
