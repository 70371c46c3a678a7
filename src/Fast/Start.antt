-- ===== src/Fast/Start.antt =====
-- xmss_core_fast.c: what the instances cost after bds_round has started some of them.
use xmss_reference.Base.{
  ℕ, zero, suc, ◌+◌, ◌-◌, ◌*◌, ◌%◌, ◌^◌, ◌≤◌, ◌<◌, ◌≡◌, inl, inr, refl, ap, ◌∙◌, arith, true, false,
  pow_over, sym, Bool-cases, leb, ◌==◌, if◌then◌else◌,
}
use native.Mathlib.Decide.{dec_lt}
use native.Mathlib.Nat.{pow-suc, mod-lt, suc-mul, mul_assoc, mul-mod_left}
use xmss_reference.Params.{Params}
use xmss_reference.Params.Sets.{IsParams}
use xmss_reference.Fast.{BdsState, TreehashInst}
use xmss_reference.Fast.Update.{get_inst}
use xmss_reference.Fast.Carry.{Carry, carry_zeros}
use xmss_reference.Fast.Restart.{want, startidx, Restarted}
use xmss_reference.Fast.RoundShared.{AllDone, startidx-want, want_kept}
use xmss_reference.Fast.Debt.{total, cost, cost_done, cost_low, cost_high, to_multiple}

pub total_cut : (f : ℕ → ℕ) (n m : ℕ) → m ≤ n → ((b : ℕ) → m ≤ b → f b ≡ 0) → total f n ≡ total f m
total_cut f zero m le h = ap (total f) {x = zero} (omega arith)
total_cut f (suc n) m le h = elim (dec_lt n m) [
  | yes all ↦ ap (total f) {x = suc n} (omega arith)
  | no more ↦ omega (arith, total_cut f n m (omega arith) h, h n (omega arith))
]

-- The powers up to that of `i`.
abbrev pub powers : ℕ → ℕ → ℕ
powers i b = if leb b i then 2 ^ b else 0

pub powers_at : (i b : ℕ) → b ≤ i → powers i b ≡ 2 ^ b
powers_at i b le = let hit : leb b i ≡ true = ground arith in rw hit refl

total-powers : (i n : ℕ) → n ≤ i + 1 → total (powers i) n + 1 ≡ 2 ^ n
total-powers i zero le = omega arith
total-powers i (suc n) le =
    let hit : leb n i ≡ true = ground arith in
    rw hit (omega (arith, total-powers i n (omega arith), pow-suc 2 n))

pub total-powers_bound : (i n : ℕ) → i < n → total (powers i) n + 1 ≡ 2 ^ (i + 1)
total-powers_bound i n lt = omega (
  arith,
  total_cut (powers i) n (i + 1) (omega arith)
      (λ b le. let miss : leb b i ≡ false = ground arith in rw miss refl),
  total-powers i (i + 1) (omega arith),
)

-- A single instance that costs something.
abbrev pub single_cost : ℕ → ℕ → ℕ → ℕ
single_cost a most b = if b == a then most else 0

pub total_single :
    (a most n : ℕ)
    → (n ≤ a → total (single_cost a most) n ≡ 0) × total (single_cost a most) n ≤ most
total_single a most zero = (λ le. refl, omega arith)
total_single a most (suc n) =
    let before = total_single a most n in
    elim (Bool-cases (n == a)) [
      | inl hit ↦
          let same : n ≡ a = ground arith in
          rw hit (λ le. absurd (omega arith), omega (arith, before.0 (omega arith)))
      | inr miss ↦ rw miss (λ le. omega (arith, before.0 (omega arith)), omega (arith, before.1))
    ]

pub to_multiple_less : (q m : ℕ) → 0 < m → to_multiple q m ≤ m - 1
to_multiple_less q m pos = ground (arith, mod-lt q pos)

pub to_multiple_none : (q m : ℕ) → q % m ≡ 0 → to_multiple q m ≡ 0
to_multiple_none q m e = ground arith

module _ (p : Params) (ok : IsParams p) (leaf_idx tau : ℕ) (c : Carry leaf_idx tau)
    (fits : leaf_idx + 1 < 2 ^ p.tree_height) (low : tau < p.tree_height) (s r : BdsState)
    (done : AllDone p leaf_idx s) (re : Restarted p leaf_idx tau 0 s r) where
  pub done_below : (b : ℕ) → b < tau → (get_inst s b).completed ≡ 1
  done_below b lt = done b (carry_zeros leaf_idx tau c (b + 1) (omega arith)) (omega arith)

  -- An instance that is started costs its leaves.
  pub start_cost :
      (i b : ℕ) → b < tau → b ≤ i → cost i b (want (leaf_idx + 1) b) (get_inst r b) ≤ 2 ^ b
  start_cost i b lt le = elim (dec_lt (startidx leaf_idx b) (2 ^ p.tree_height)) [
    | yes exists ↦
        let started = re.started b (omega arith) (omega arith) exists in
        let next =
          ap (λ (t : TreehashInst). t.next_idx) started
          ∙ startidx-want p ok leaf_idx tau c fits low b lt in
        let j = want (leaf_idx + 1) b in
        let value =
          cost_low i b j (get_inst r b) (ap (λ (t : TreehashInst). t.completed) started) le in
        omega (arith, suc-mul j (2 ^ b), ap (λ (u : ℕ). u * 2 ^ b) (one_more j))
    | no over ↦
        let late = re.late b (omega arith) (omega arith) (omega arith) in
        omega (
          arith,
          cost_done i b (want (leaf_idx + 1) b) (get_inst r b)
              (ap (λ (t : TreehashInst). t.completed) late ∙ done_below b lt),
        )
  ]
    where
      one_more : (j : ℕ) → j + 1 ≡ suc j
      one_more j = omega arith

  -- Above `i` an instance that is started has all its subtrees before it.
  pub start_cost_high :
      (i b : ℕ) → b < tau → i < b → cost i b (want (leaf_idx + 1) b) (get_inst r b) ≡ 0
  start_cost_high i b lt lt' = elim (dec_lt (startidx leaf_idx b) (2 ^ p.tree_height)) [
    | yes exists ↦
        let started = re.started b (omega arith) (omega arith) exists in
        let j = want (leaf_idx + 1) b in
        let split : 2 ^ b ≡ 2 ^ (b - i) * 2 ^ i =
          ap (λ (u : ℕ). 2 ^ u) (omega arith) ∙ pow_over (b - i) i in
        let next : (get_inst r b).next_idx ≡ j * 2 ^ (b - i) * 2 ^ i =
          ap (λ (t : TreehashInst). t.next_idx) started
          ∙ startidx-want p ok leaf_idx tau c fits low b lt
          ∙ ap (λ (u : ℕ). j * u) split
          ∙ sym (mul_assoc j (2 ^ (b - i)) (2 ^ i)) in
        cost_high i b j (get_inst r b) (ap (λ (t : TreehashInst). t.completed) started) lt'
        ∙ to_multiple_none (get_inst r b).next_idx (2 ^ i)
            (ap (λ (u : ℕ). u % 2 ^ i) next ∙ mul-mod_left (j * 2 ^ (b - i)) (2 ^ i))
    | no over ↦
        let late = re.late b (omega arith) (omega arith) (omega arith) in
        cost_done i b (want (leaf_idx + 1) b) (get_inst r b)
          (ap (λ (t : TreehashInst). t.completed) late ∙ done_below b lt)
  ]

  -- The others cost what they did.
  pub kept_cost :
      (i b : ℕ)
      → tau ≤ b
      → cost i b (want (leaf_idx + 1) b) (get_inst r b) ≡ cost i b (want leaf_idx b) (get_inst s b)
  kept_cost i b le =
      ap (λ u. cost i b u (get_inst r b)) (want_kept p ok leaf_idx tau c fits low b le)
      ∙ ap (cost i b (want leaf_idx b)) (re.outside b (inr (omega arith)))

  -- An instance that is at work after it was due was started.
  pub was_started :
      (i : ℕ)
      → i < tau
      → (get_inst r i).completed ≡ 0
      → want (leaf_idx + 1) i * 2 ^ i < 2 ^ p.tree_height
  was_started i lt active = elim (dec_lt (startidx leaf_idx i) (2 ^ p.tree_height)) [
    | yes exists ↦ omega (arith, startidx-want p ok leaf_idx tau c fits low i lt)
    | no over ↦
        let late = re.late i (omega arith) (omega arith) (omega arith) in
        absurd (omega (arith, ap (λ (t : TreehashInst). t.completed) late, done_below i lt))
  ]
