-- ===== src/Fast/Credit.antt =====
-- xmss_core_fast.c: how many updates the instances of lower nodes take between two leaves.
use xmss_reference.Base.{
  ℕ, zero, suc, ◌+◌, ◌-◌, ◌*◌, ◌/◌, ◌^◌, ◌≤◌, ◌<◌, ◌≡◌, sym, ap, ◌∙◌, arith, true, false, ltb,
  if◌then◌else◌, pow_over,
}
use native.Mathlib.Decide.{dec_lt}
use native.Mathlib.Nat.{pow-suc, one-le-pow, mul_assoc, mul-div_cancel, mul-add, suc-mul}
use xmss_reference.Fast.Carry.{Carry, carry_below, carry_above, carry_exact}
use xmss_reference.Fast.Debt.{total, total_le, total_add}

-- What the instances below `i` cost up to a leaf, each of them started anew where it is due.
abbrev pub credit : ℕ → ℕ → ℕ
credit i leaf_idx = total (λ b. 2 ^ b * (leaf_idx / 2 ^ (b + 1))) i

-- The leaf from which on instance `i` is at work.
abbrev pub since : ℕ → ℕ → ℕ
since leaf_idx i = leaf_idx / 2 ^ (i + 1) * 2 ^ (i + 1)

-- What starting the instances below `tau` costs.
abbrev pub started_cost : ℕ → ℕ → ℕ
started_cost tau b = if ltb b tau then 2 ^ b else 0

module _ (leaf_idx tau : ℕ) (c : Carry leaf_idx tau) where
  -- From a leaf to the next one, the credit grows by that cost.
  pub credit_grows :
      (i : ℕ) → credit i leaf_idx + total (started_cost tau) i ≤ credit i (leaf_idx + 1)
  credit_grows i = omega (
    arith,
    total_add (λ b. 2 ^ b * (leaf_idx / 2 ^ (b + 1))) (started_cost tau) i,
    total_le (λ b. 2 ^ b * (leaf_idx / 2 ^ (b + 1)) + started_cost tau b)
        (λ b. 2 ^ b * ((leaf_idx + 1) / 2 ^ (b + 1))) i (λ b lt. step b),
  )
    where
      step :
          (b : ℕ)
          → 2 ^ b * (leaf_idx / 2 ^ (b + 1)) + started_cost tau b
            ≤ 2 ^ b * ((leaf_idx + 1) / 2 ^ (b + 1))
      step b = elim (dec_lt b tau) [
        | yes below ↦
            let hit : ltb b tau ≡ true = ground arith in
            let up = carry_below leaf_idx tau c (b + 1) (omega arith) in
            rw hit (
              omega
                (arith, ap (λ (u : ℕ). 2 ^ b * u) up, mul-add (2 ^ b) (leaf_idx / 2 ^ (b + 1)) 1))
        | no over ↦
            let miss : ltb b tau ≡ false = ground arith in
            let same = carry_above leaf_idx tau c (b + 1) (omega arith) in
            rw miss (omega (arith, ap (λ (u : ℕ). 2 ^ b * u) same))
      ]

  module _ (i : ℕ) (lt : i < tau) where
    q : ℕ
    q = leaf_idx / 2 ^ (i + 1)

    -- The last leaf before instance `i` is due.
    pub since_last : leaf_idx + 1 ≡ since leaf_idx i + 2 ^ (i + 1)
    since_last = omega (
      arith,
      carry_exact leaf_idx tau c (i + 1) (omega arith),
      ap (λ (u : ℕ). u * 2 ^ (i + 1)) (carry_below leaf_idx tau c (i + 1) (omega arith)),
      suc-mul (leaf_idx / 2 ^ (i + 1)) (2 ^ (i + 1)),
    )

    -- The multiples of a lower power up to a multiple of a higher one.
    multiple_div : (x b : ℕ) → b < i → x * 2 ^ (i + 1) / 2 ^ (b + 1) ≡ x * 2 ^ (i - b)
    multiple_div x b lt' =
        let split : 2 ^ (i + 1) ≡ 2 ^ (i - b) * 2 ^ (b + 1) =
          ap (λ (u : ℕ). 2 ^ u) (omega arith) ∙ pow_over (i - b) (b + 1) in
        ap (λ (u : ℕ). u / 2 ^ (b + 1))
          (ap (λ (u : ℕ). x * u) split ∙ sym (mul_assoc x (2 ^ (i - b)) (2 ^ (b + 1))))
        ∙ mul-div_cancel (x * 2 ^ (i - b)) (one-le-pow (b + 1) 2 (omega arith))

    term :
        (b : ℕ)
        → b < i
        → 2 ^ b * (leaf_idx / 2 ^ (b + 1)) + 2 ^ b
          ≡ 2 ^ b * (since leaf_idx i / 2 ^ (b + 1)) + 2 ^ i
    term b lt' =
        let x = leaf_idx / 2 ^ (i + 1) in
        let next = carry_below leaf_idx tau c (b + 1) (omega arith) in
        let exact : leaf_idx + 1 ≡ suc x * 2 ^ (i + 1) =
          omega (arith, since_last, suc-mul x (2 ^ (i + 1))) in
        let whole : (leaf_idx + 1) / 2 ^ (b + 1) ≡ x * 2 ^ (i - b) + 2 ^ (i - b) =
          ap (λ (u : ℕ). u / 2 ^ (b + 1)) exact
          ∙ multiple_div (suc x) b lt'
          ∙ suc-mul x (2 ^ (i - b)) in
        let first = multiple_div x b lt' in
        let split : 2 ^ i ≡ 2 ^ b * 2 ^ (i - b) =
          ap (λ (u : ℕ). 2 ^ u) (omega arith) ∙ pow_over b (i - b) in
        let both : leaf_idx / 2 ^ (b + 1) + 1 ≡ since leaf_idx i / 2 ^ (b + 1) + 2 ^ (i - b) =
          omega arith in
        omega (
          arith,
          ap (λ (u : ℕ). 2 ^ b * u) both,
          mul-add (2 ^ b) (leaf_idx / 2 ^ (b + 1)) 1,
          mul-add (2 ^ b) (since leaf_idx i / 2 ^ (b + 1)) (2 ^ (i - b)),
        )

    credits :
        (n : ℕ) → n ≤ i → credit n leaf_idx + 2 ^ n ≡ credit n (since leaf_idx i) + n * 2 ^ i + 1
    credits zero le = omega arith
    credits (suc n) le =
        omega (arith, credits n (omega arith), term n (omega arith), pow-suc 2 n, suc-mul n (2 ^ i))

    -- The credit of instance `i` when it is due.
    pub credit_due : credit i leaf_idx + 2 ^ i ≡ credit i (since leaf_idx i) + i * 2 ^ i + 1
    credit_due = credits i (omega arith)
