-- ===== src/Fast/Carry.antt =====
-- xmss_core_fast.c: the binary digits of a leaf index and of the next one, as bds_round reads them.
use xmss_reference.Base.{
  ℕ, zero, suc, ◌+◌, ◌-◌, ◌*◌, ◌/◌, ◌%◌, ◌^◌, ◌≤◌, ◌<◌, ◌≡◌, refl, sym, ap, ◌∙◌, arith, inl, inr,
  Bool-cases, bit_and, bit_and_one, bit_xor, bit_xor_one, half_pow, pow_over, ◌==◌,
}
use mathlib.Core.Path.{subst}
use native.Mathlib.Decide.{dec_lt}
use native.Mathlib.Nat.{
  zero-add, one-le-pow, mul_right_comm, mul-mod_left, mul-div_cancel, mul_assoc, pow-suc,
  div-add-mod', div-lt_iff_lt-mul,
}
use xmss_reference.Params.{Params}
use xmss_reference.Commons.Tree.{sibling}
use xmss_reference.Fast.Round.{find_tau}

-- The lowest digit of `leaf_idx` that is 0 is number `tau`.
pub record Carry (leaf_idx tau : ℕ) : Type 0 where
  pub ones : (h : ℕ) → h < tau → leaf_idx / 2 ^ h % 2 ≡ 1
  pub digit : leaf_idx / 2 ^ tau % 2 ≡ 0

pub carry_up :
    (leaf_idx h : ℕ)
    → ((i : ℕ) → i < h → leaf_idx / 2 ^ i % 2 ≡ 1)
    → (leaf_idx + 1) / 2 ^ h ≡ leaf_idx / 2 ^ h + 1
carry_up leaf_idx zero ones = omega arith
carry_up leaf_idx (suc h) ones =
    let next : suc h ≡ h + 1 = omega arith in
    rw (next, half_pow leaf_idx h, half_pow (leaf_idx + 1) h)
      (omega (arith, ones h (omega arith), carry_up leaf_idx h (λ i lt. ones i (omega arith))))

carry_multiple :
    (leaf_idx h : ℕ)
    → ((i : ℕ) → i < h → leaf_idx / 2 ^ i % 2 ≡ 1)
    → (leaf_idx + 1) / 2 ^ h * 2 ^ h ≡ leaf_idx + 1
carry_multiple leaf_idx zero ones = omega arith
carry_multiple leaf_idx (suc h) ones =
    let next : suc h ≡ h + 1 = omega arith in
    let q : ℕ = (leaf_idx + 1) / 2 ^ h in
    let even : q / 2 * 2 ≡ q =
      omega (arith, ones h (omega arith), carry_up leaf_idx h (λ i lt. ones i (omega arith))) in
    ap (λ (t : ℕ). (leaf_idx + 1) / 2 ^ t * 2 ^ t) next
    ∙ ap (λ (t : ℕ). t * 2 ^ (h + 1)) (half_pow (leaf_idx + 1) h)
    ∙ ap (λ (t : ℕ). q / 2 * t) (pow_over h 1)
    ∙ omega (arith, mul_right_comm (q / 2) (2 ^ h) 2, ap (λ (t : ℕ). t * 2 ^ h) even)
    ∙ carry_multiple leaf_idx h (λ i lt. ones i (omega arith))

module _ (leaf_idx tau : ℕ) (c : Carry leaf_idx tau) where
  pub carry_exact : (h : ℕ) → h ≤ tau → (leaf_idx + 1) / 2 ^ h * 2 ^ h ≡ leaf_idx + 1
  carry_exact h le = carry_multiple leaf_idx h (λ i lt. c.ones i (omega arith))

  -- The digits below `tau` of the next index are 0.
  pub carry_zeros : (h : ℕ) → h ≤ tau → (leaf_idx + 1) % 2 ^ h ≡ 0
  carry_zeros h le =
      ap (λ (t : ℕ). t % 2 ^ h) (sym (carry_multiple leaf_idx h (λ i lt. c.ones i (omega arith))))
      ∙ mul-mod_left ((leaf_idx + 1) / 2 ^ h) (2 ^ h)

  pub carry_below : (h : ℕ) → h ≤ tau → (leaf_idx + 1) / 2 ^ h ≡ leaf_idx / 2 ^ h + 1
  carry_below h le = carry_up leaf_idx h (λ i lt. c.ones i (omega arith))

  -- If the digits of the next index up to `i` are 0, then `tau` is above.
  pub multiple_below : (i : ℕ) → (leaf_idx + 1) % 2 ^ (i + 1) ≡ 0 → i < tau
  multiple_below i e = elim (dec_lt i tau) [
    | yes lt ↦ lt
    | no over ↦
        let t = i - tau in
        let q = (leaf_idx + 1) / 2 ^ (i + 1) in
        let pow : 2 ^ (i + 1) ≡ 2 ^ suc t * 2 ^ tau =
          ap (λ (u : ℕ). 2 ^ u) (omega arith) ∙ pow_over (suc t) tau in
        let exact : leaf_idx + 1 ≡ q * 2 ^ suc t * 2 ^ tau = omega (
          arith,
          div-add-mod' (leaf_idx + 1) (2 ^ (i + 1)),
          ap (λ (u : ℕ). q * u) pow,
          mul_assoc q (2 ^ suc t) (2 ^ tau),
        ) in
        let half : (leaf_idx + 1) / 2 ^ tau ≡ q * 2 ^ suc t =
          ap (λ (u : ℕ). u / 2 ^ tau) exact
          ∙ mul-div_cancel (q * 2 ^ suc t) (one-le-pow tau 2 (omega arith)) in
        let even : q * 2 ^ suc t ≡ q * 2 ^ t * 2 =
          ap (λ (u : ℕ). q * u) (pow-suc 2 t) ∙ sym (mul_assoc q (2 ^ t) 2) in
        absurd (omega (arith, carry_below tau (omega arith), c.digit))
  ]

  above : (t : ℕ) → (leaf_idx + 1) / 2 ^ (t + (tau + 1)) ≡ leaf_idx / 2 ^ (t + (tau + 1))
  above zero =
      rw (zero-add, half_pow leaf_idx tau, half_pow (leaf_idx + 1) tau)
        (omega (arith, c.digit, carry_below tau (omega arith)))
  above (suc t) =
      let next : suc t + (tau + 1) ≡ t + (tau + 1) + 1 = omega arith in
      rw (next, half_pow leaf_idx (t + (tau + 1)), half_pow (leaf_idx + 1) (t + (tau + 1)), above t)
        refl

  pub carry_above : (h : ℕ) → tau < h → (leaf_idx + 1) / 2 ^ h ≡ leaf_idx / 2 ^ h
  carry_above h lt =
      let back : h - (tau + 1) + (tau + 1) ≡ h = omega arith in
      subst (λ t. (leaf_idx + 1) / 2 ^ t ≡ leaf_idx / 2 ^ t) back (above (h - (tau + 1)))

  pub sibling_above : (h : ℕ) → tau < h → sibling (leaf_idx + 1) h ≡ sibling leaf_idx h
  sibling_above h lt = ap (λ t. bit_xor t 1) (carry_above h lt)

  -- On height `tau` the next path has the parent of what was on the path.
  pub sibling_at : sibling (leaf_idx + 1) tau ≡ leaf_idx / 2 ^ tau
  sibling_at =
      omega (arith, bit_xor_one ((leaf_idx + 1) / 2 ^ tau), carry_below tau (omega arith), c.digit)

  pub sibling_kept : sibling leaf_idx tau ≡ (leaf_idx + 1) / 2 ^ tau
  sibling_kept =
      omega (arith, bit_xor_one (leaf_idx / 2 ^ tau), carry_below tau (omega arith), c.digit)

  pub sibling_below : (h : ℕ) → h < tau → sibling (leaf_idx + 1) h ≡ (leaf_idx + 1) / 2 ^ h + 1
  sibling_below h lt =
      omega (arith, bit_xor_one ((leaf_idx + 1) / 2 ^ h), carry_below h (omega arith), c.ones h lt)

-- The two children of the node that bds_round makes.
pub left_child :
    (leaf_idx h : ℕ) → leaf_idx / 2 ^ h % 2 ≡ 1 → sibling leaf_idx h ≡ 2 * (leaf_idx / 2 ^ suc h)
left_child leaf_idx h odd =
    let next : suc h ≡ h + 1 = omega arith in
    rw (next, half_pow leaf_idx h) (omega (arith, bit_xor_one (leaf_idx / 2 ^ h)))

pub right_child :
    (leaf_idx h : ℕ) → leaf_idx / 2 ^ h % 2 ≡ 1 → leaf_idx / 2 ^ h ≡ 2 * (leaf_idx / 2 ^ suc h) + 1
right_child leaf_idx h odd =
    let next : suc h ≡ h + 1 = omega arith in rw (next, half_pow leaf_idx h) (omega arith)

module _ (p : Params) (leaf_idx : ℕ) (fits : leaf_idx + 1 < 2 ^ p.tree_height) where
  find_tau_from :
      (left i : ℕ)
      → left + i ≡ p.tree_height
      → ((h : ℕ) → h < i → leaf_idx / 2 ^ h % 2 ≡ 1)
      → Carry leaf_idx (find_tau p leaf_idx left i) × find_tau p leaf_idx left i < p.tree_height
  unfolding find_tau
  find_tau_from zero i e ones =
      let all : i ≡ p.tree_height = omega arith in
      let none : (leaf_idx + 1) / 2 ^ p.tree_height < 1 =
        (div-lt_iff_lt-mul (one-le-pow p.tree_height 2 (omega arith))).1 (omega arith) in
      absurd (omega (arith, carry_up leaf_idx i ones, ap (λ (t : ℕ). (leaf_idx + 1) / 2 ^ t) all))
  find_tau_from (suc left) i e ones = elim (Bool-cases (bit_and (leaf_idx / 2 ^ i) 1 == 0)) [
    | inl hit ↦ rw hit (
      record { ones = ones; digit = ground (arith, bit_and_one (leaf_idx / 2 ^ i)) },
      omega arith,
    )
    | inr miss ↦ rw miss (
        find_tau_from left (i + 1) (omega arith) (λ h lt. elim (dec_lt h i) [
          | yes below ↦ ones h below
          | no top ↦
              let same : h ≡ i = omega arith in
              rw same (ground (arith, bit_and_one (leaf_idx / 2 ^ i)))
        ]))
  ]

  -- Below the last leaf of the tree, the loop finds the lowest digit 0, below the height of the tree.
  pub find_tau_lem :
      Carry leaf_idx (find_tau p leaf_idx p.tree_height 0)
      × find_tau p leaf_idx p.tree_height 0 < p.tree_height
  find_tau_lem = find_tau_from p.tree_height 0 (omega arith) (λ h lt. absurd (omega arith))
