-- ===== src/Fast/Charge.antt =====
-- xmss_core_fast.c: what bds_round adds to the updates that stand between an instance and its node.
use xmss_reference.Base.{
  ℕ, suc, ◌+◌, ◌-◌, ◌*◌, ◌^◌, ◌≤◌, ◌<◌, ◌≡◌, inl, inr, refl, sym, ap, ◌∙◌, arith, true, false, ltb,
  ◌==◌, List, length,
}
use mathlib.Core.Path.{subst}
use native.Mathlib.Decide.{dec_lt}
use native.Mathlib.Nat.{pow-suc, one-le-pow}
use xmss_reference.Address.{Addr}
use xmss_reference.Params.{Params}
use xmss_reference.Params.Sets.{IsParams}
use xmss_reference.Hash.{HashFns}
use xmss_reference.Hash.Lengths.{HasLengths}
use xmss_reference.Core.AuthPath.{trichotomy}
use xmss_reference.Fast.{BdsState, instances}
use xmss_reference.Fast.Update.{get_inst}
use xmss_reference.Fast.Tail.{Above, Above-less}
use xmss_reference.Fast.Carry.{Carry}
use xmss_reference.Fast.Shared.{FirstBusy, none_busy, first_busy, find_busy, Shared}
use xmss_reference.Fast.Restart.{want, Restarted}
use xmss_reference.Fast.RoundShared.{AllDone}
use xmss_reference.Fast.Debt.{total, total_le, total_add, cost, cost_done, cost_high, Part-whole}
use xmss_reference.Fast.Credit.{started_cost}
use xmss_reference.Fast.Spend.{debt}
use xmss_reference.Fast.Start.{
  total_cut, powers, powers_at, total-powers_bound, single_cost, total_single, to_multiple_less,
  to_multiple_none, start_cost, start_cost_high, kept_cost, done_below,
}

module _ (fns : HashFns) (lengths : HasLengths fns) (p : Params) (ok : IsParams p)
    (sk_seed pub_seed : List ℕ) (sub : Addr) (leaf_idx tau : ℕ) (c : Carry leaf_idx tau)
    (fits : leaf_idx + 1 < 2 ^ p.tree_height) (low : tau < p.tree_height) (s r : BdsState)
    (sh : Shared fns lengths p ok sk_seed pub_seed sub (want leaf_idx) s)
    (done : AllDone p leaf_idx s) (re : Restarted p leaf_idx tau 0 s r) where
  abbrev old : ℕ → ℕ → ℕ
  old i b = cost i b (want leaf_idx b) (get_inst s b)

  -- An instance with whole subtrees of the height of `i` costs nothing.
  whole_cost : (i b : ℕ) → i < b → b < instances p → Above i (sh.tails b) → old i b ≡ 0
  whole_cost i b lt lt' above = elim (sh.insts b lt') [
    | inl w ↦
        let up : i + 0 ≡ i = omega arith in
        cost_high i b (want leaf_idx b) (get_inst s b) w.active lt
        ∙ to_multiple_none (get_inst s b).next_idx (2 ^ i) (
            Part-whole fns lengths p ok sk_seed pub_seed sub i (omega arith) w.part
              (subst (λ u. Above u (sh.tails b)) (sym up) above))
    | inr idle ↦ cost_done i b (want leaf_idx b) (get_inst s b) idle.completed
  ]

  less_cost : (i b : ℕ) → i < b → b < instances p → old i b ≤ 2 ^ i - 1
  less_cost i b lt lt' = elim (sh.insts b lt') [
    | inl w ↦ omega (
      arith,
      cost_high i b (want leaf_idx b) (get_inst s b) w.active lt,
      to_multiple_less (get_inst s b).next_idx (2 ^ i) (one-le-pow i 2 (omega arith)),
    )
    | inr idle ↦ omega (arith, cost_done i b (want leaf_idx b) (get_inst s b) idle.completed)
  ]

  empty_below : (b : ℕ) → b < tau → b < instances p → length (sh.tails b) ≡ 0
  empty_below b lt lt' = elim (sh.insts b lt') [
    | inl w ↦
        absurd (omega (arith, w.active, done_below p ok leaf_idx tau c fits low s r done re b lt))
    | inr idle ↦ ap length idle.empty
  ]

  -- Of the instances above `i` at most one costs anything.
  record OneBusy (i : ℕ) : Type 0 where
    busy : ℕ
    rest : (b : ℕ) → tau ≤ b → b < instances p → old i b ≤ single_cost busy (2 ^ i - 1) b

  one_busy : (i : ℕ) → i < tau → OneBusy i
  one_busy i lt = go (find_busy sh.tails (instances p))
    where
      go : FirstBusy sh.tails (instances p) → OneBusy i
      go (none_busy none) = record {
        busy = 0;
        rest = λ b le lt'. omega (
          arith,
          whole_cost i b (omega arith) lt' (subst (λ t. Above i t) (sym (none b lt')) tt),
        );
      }
      go (first_busy a h x tail la e none) =
          let size = ap length e in
          let high : tau ≤ a = elim (dec_lt a tau) [
            | yes below ↦ absurd (omega (arith, empty_below a below la))
            | no not_below ↦ omega arith
          ] in
          record {
            busy = a;
            rest = λ b le lt'. elim (trichotomy b a) [
              | inl before ↦ omega (
                arith,
                whole_cost i b (omega arith) lt' (subst (λ t. Above i t) (sym (none b before)) tt),
              )
              | inr (inl same) ↦
                  let hit : (b == a) ≡ true = ground arith in
                  rw hit (less_cost i b (omega arith) lt')
              | inr (inr after) ↦ omega (
                arith,
                whole_cost i b (omega arith) lt' (
                    Above-less a i (sh.tails b) (omega arith)
                      (sh.order a b after lt' (omega arith))),
              )
            ];
          }

  -- What an instance costs that is started.
  pub fresh_debt :
      (i : ℕ)
      → i < tau
      → i < instances p
      → debt fns lengths p ok sk_seed pub_seed sub (want (leaf_idx + 1)) i r + 1 ≤ 3 * 2 ^ i
  fresh_debt i lt lt' =
      let one = one_busy i lt in
      let each : (b : ℕ)
          → b < instances p
          → cost i b (want (leaf_idx + 1) b) (get_inst r b)
            ≤ powers i b + single_cost one.busy (2 ^ i - 1) b =
        λ b lb. elim (dec_lt b tau) [
          | yes below ↦ elim (dec_lt i b) [
            | yes above ↦
                omega
                  (arith, start_cost_high p ok leaf_idx tau c fits low s r done re i b below above)
            | no not_above ↦ omega (
              arith,
              start_cost p ok leaf_idx tau c fits low s r done re i b below (omega arith),
              powers_at i b (omega arith),
            )
          ]
          | no not_below ↦ omega (
            arith,
            kept_cost p ok leaf_idx tau c fits low s r done re i b (omega arith),
            one.rest b (omega arith) lb,
          )
        ] in
      omega (
        arith,
        total_le (λ b. cost i b (want (leaf_idx + 1) b) (get_inst r b))
            (λ b. powers i b + single_cost one.busy (2 ^ i - 1) b) (instances p) each,
        total_add (powers i) (single_cost one.busy (2 ^ i - 1)) (instances p),
        total-powers_bound i (instances p) lt',
        (total_single one.busy (2 ^ i - 1) (instances p)).1,
        pow-suc 2 i,
        ap (λ (u : ℕ). 2 ^ u) (suc_is i),
        one-le-pow i 2,
      )
    where
      suc_is : (i : ℕ) → i + 1 ≡ suc i
      suc_is i = omega arith

  -- The others are kept waiting by those that are started.
  pub kept_debt :
      (i : ℕ)
      → tau ≤ i
      → i < instances p
      → debt fns lengths p ok sk_seed pub_seed sub (want (leaf_idx + 1)) i r
        ≤ debt fns lengths p ok sk_seed pub_seed sub (want leaf_idx) i s
          + total (started_cost tau) i
  kept_debt i le lt =
      let each : (b : ℕ)
          → b < instances p
          → cost i b (want (leaf_idx + 1) b) (get_inst r b)
            ≤ cost i b (want leaf_idx b) (get_inst s b) + started_cost tau b =
        λ b lb. elim (dec_lt b tau) [
          | yes below ↦
              let hit : ltb b tau ≡ true = ground arith in
              rw hit (
                omega (
                  arith,
                  start_cost p ok leaf_idx tau c fits low s r done re i b below (omega arith),
                ))
          | no not_below ↦
              omega (arith, kept_cost p ok leaf_idx tau c fits low s r done re i b (omega arith))
        ] in
      omega (
        arith,
        total_le (λ b. cost i b (want (leaf_idx + 1) b) (get_inst r b))
            (λ b. cost i b (want leaf_idx b) (get_inst s b) + started_cost tau b) (instances p)
            each,
        total_add (λ b. cost i b (want leaf_idx b) (get_inst s b)) (started_cost tau) (instances p),
        total_cut (started_cost tau) (instances p) i (omega arith)
            (λ b le'. let miss : ltb b tau ≡ false = ground arith in rw miss refl),
      )
