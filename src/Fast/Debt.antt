-- ===== src/Fast/Debt.antt =====
-- xmss_core_fast.c: the updates that stand between an instance and its node.
use xmss_reference.Base.{
  ℕ, zero, suc, ◌+◌, ◌-◌, ◌*◌, ◌/◌, ◌%◌, ◌^◌, ◌≤◌, ◌<◌, ◌≡◌, ◌≢◌, refl, sym, ap, ◌∙◌, arith, true,
  false, leb, ◌==◌, List, ◌∷◌, if◌then◌else◌,
}
use mathlib.Core.Path.{subst}
use native.Mathlib.Decide.{dec_lt}
use native.Mathlib.Nat.{
  mod-eq_of_lt, pow-suc, one-le-pow, mod-lt, div-add-mod', mul_assoc, add-mul-mod_self_right,
}
use xmss_reference.Address.{Addr}
use xmss_reference.Params.{Params}
use xmss_reference.Params.Sets.{IsParams}
use xmss_reference.Hash.{HashFns}
use xmss_reference.Hash.Lengths.{HasLengths}
use xmss_reference.Core.{Stack}
use xmss_reference.Fast.{TreehashInst}
use xmss_reference.Fast.Tail.{Above, Part, no_leaf, left_next, right_next, Part-Above}

-- `f 0 + ... + f (n - 1)`
abbrev pub total : (ℕ → ℕ) → ℕ → ℕ
total f zero = 0
total f (suc n) = total f n + f n

pub total_le : (f g : ℕ → ℕ) (n : ℕ) → ((b : ℕ) → b < n → f b ≤ g b) → total f n ≤ total g n
total_le f g zero h = omega arith
total_le f g (suc n) h =
    omega (arith, total_le f g n (λ b lt. h b (omega arith)), h n (omega arith))

pub total_lt :
    (f g : ℕ → ℕ) (n level : ℕ)
    → level < n
    → ((b : ℕ) → b < n → f b ≤ g b)
    → f level < g level
    → total f n < total g n
total_lt f g zero level lt h less = absurd (omega arith)
total_lt f g (suc n) level lt h less = elim (dec_lt level n) [
  | yes before ↦
      omega
        (arith, total_lt f g n level before (λ b lt'. h b (omega arith)) less, h n (omega arith))
  | no here ↦
      let same : level ≡ n = omega arith in
      omega (arith, total_le f g n (λ b lt'. h b (omega arith)), subst (λ u. f u < g u) same less)
]

pub total_add : (f g : ℕ → ℕ) (n : ℕ) → total (λ b. f b + g b) n ≡ total f n + total g n
total_add f g zero = omega arith
total_add f g (suc n) = omega (arith, total_add f g n)

pub total_term : (f : ℕ → ℕ) (n level : ℕ) → level < n → f level ≤ total f n
total_term f zero level lt = absurd (omega arith)
total_term f (suc n) level lt = elim (dec_lt level n) [
  | yes before ↦ omega (arith, total_term f n level before)
  | no here ↦ let same : level ≡ n = omega arith in omega (arith, ap f same)
]

-- What instance `b`, on its way to node `j`, still costs before instance `i` is done: all its leaves,
-- or, behind `i`, the leaves of the subtree of the height of `i` that it has begun.
abbrev pub cost : ℕ → ℕ → ℕ → TreehashInst → ℕ
cost i b j t =
    if t.completed == 1
    then 0
    else if leb b i
    then (j + 1) * 2 ^ b - t.next_idx
    else (if t.next_idx % 2 ^ i == 0 then 0 else 2 ^ i - t.next_idx % 2 ^ i)

-- The second of the two, for the next leaf `q`.
abbrev pub to_multiple : ℕ → ℕ → ℕ
to_multiple q m = if q % m == 0 then 0 else m - q % m

module _ (i b j : ℕ) (t : TreehashInst) where
  pub cost_done : t.completed ≡ 1 → cost i b j t ≡ 0
  cost_done e = let hit : (t.completed == 1) ≡ true = ground arith in rw hit refl

  pub cost_low : t.completed ≡ 0 → b ≤ i → cost i b j t ≡ (j + 1) * 2 ^ b - t.next_idx
  cost_low e le =
      let miss : (t.completed == 1) ≡ false = ground arith in
      let low : leb b i ≡ true = ground arith in rw (miss, low) refl

  pub cost_high : t.completed ≡ 0 → i < b → cost i b j t ≡ to_multiple t.next_idx (2 ^ i)
  cost_high e lt =
      let miss : (t.completed == 1) ≡ false = ground arith in
      let high : leb b i ≡ false = ground arith in rw (miss, high) refl

double_mod : (c t : ℕ) → 2 * c % 2 ^ suc t ≡ 2 * (c % 2 ^ t)
double_mod c t =
    let q = c / 2 ^ t in
    let x = c % 2 ^ t in
    let split : 2 * c ≡ 2 * x + q * 2 ^ suc t =
      omega (
        arith,
        div-add-mod' c (2 ^ t),
        ap (λ (u : ℕ). q * u) (pow-suc 2 t),
        mul_assoc q (2 ^ t) 2,
      ) in
    ap (λ (u : ℕ). u % 2 ^ suc t) split
    ∙ add-mul-mod_self_right (2 * x) q (2 ^ suc t)
    ∙ mod-eq_of_lt (omega (arith, pow-suc 2 t, mod-lt c (one-le-pow t 2 (omega arith))))

odd_mod : (c t : ℕ) → (2 * c + 1) % 2 ^ suc t ≢ 0
odd_mod c t e =
    let q = (2 * c + 1) / 2 ^ suc t in
    omega (
      arith,
      div-add-mod' (2 * c + 1) (2 ^ suc t),
      ap (λ (u : ℕ). q * u) (pow-suc 2 t),
      mul_assoc q (2 ^ t) 2,
    )

module _ (fns : HashFns) (lengths : HasLengths fns) (p : Params) (ok : IsParams p)
    (sk_seed pub_seed : List ℕ) (sub : Addr) where
  abbrev PartOf : ℕ → ℕ → ℕ → ℕ → Stack → Type 0
  PartOf h j k q tail = Part fns lengths p ok sk_seed pub_seed sub h j k q tail

  -- A part is not whole.
  pub Part-bound :
      {h j k q : ℕ} {tail : Stack} (t : ℕ) → t + k ≡ h → PartOf h j k q tail → q < (j + 1) * 2 ^ t
  Part-bound {j = j} t e (no_leaf ek eq) =
      let none : t ≡ 0 = omega arith in omega (arith, ap (λ (u : ℕ). (j + 1) * 2 ^ u) none)
  Part-bound zero e (left_next c lt eq part) = absurd (omega arith)
  Part-bound zero e (right_next c lt eq part) = absurd (omega arith)
  Part-bound {j = j} (suc t) e (left_next c lt eq part) = omega (
    arith,
    Part-bound t (omega arith) part,
    ap (λ (u : ℕ). (j + 1) * u) (pow-suc 2 t),
    mul_assoc (j + 1) (2 ^ t) 2,
  )
  Part-bound {j = j} (suc t) e (right_next c lt eq part) = omega (
    arith,
    Part-bound t (omega arith) part,
    ap (λ (u : ℕ). (j + 1) * u) (pow-suc 2 t),
    mul_assoc (j + 1) (2 ^ t) 2,
  )

  -- A part without nodes below height `t + k` has whole subtrees of that height.
  pub Part-whole :
      (t : ℕ) {h j k q : ℕ} {tail : Stack}
      → t + k ≤ h
      → PartOf h j k q tail
      → Above (t + k) tail
      → q % 2 ^ t ≡ 0
  Part-whole zero le part a = omega arith
  Part-whole (suc t) le (no_leaf ek eq) a = absurd (omega arith)
  Part-whole (suc t) {k = k} le (left_next {s = s} c lt eq part) a =
      let up : suc t + k ≡ t + (k + 1) = omega arith in
      let rest = Part-whole t (omega arith) part (subst (λ u. Above u s) up a) in
      ap (λ (u : ℕ). u % 2 ^ suc t) eq ∙ double_mod c t ∙ omega arith
  Part-whole (suc t) le (right_next c lt eq part) a = absurd (omega arith)

  -- A part whose lowest node is below height `t + k` has not.
  pub Part-begun :
      (t : ℕ) {i j k q h : ℕ} {x : List ℕ} {rest : Stack}
      → PartOf i j k q ((h, x) ∷ rest)
      → h < t + k
      → q % 2 ^ t ≢ 0
  Part-begun zero part lt e =
      absurd (omega (arith, (Part-Above fns lengths p ok sk_seed pub_seed sub part).0))
  Part-begun (suc t) (left_next c lt' eq part) lt e =
      Part-begun t part (omega arith)
        (omega (arith, double_mod c t, ap (λ (u : ℕ). u % 2 ^ suc t) eq))
  Part-begun (suc t) (right_next c lt' eq part) lt e =
      odd_mod c t (sym (ap (λ (u : ℕ). u % 2 ^ suc t) eq) ∙ e)
