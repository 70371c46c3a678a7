-- ===== src/Wots/Digits.antt =====
-- wots.c: the digits of `chain_lengths`, their number and their range.
use xmss_reference.Base.{
  ℕ, zero, suc, ◌+◌, ◌-◌, ◌<◌, ◌≡◌, refl, ◌∙◌, sym, ap, ap₂, List, [], ◌∷◌, ◌++◌, arith, length,
  length-append, take, take_all, All, bit_and, bit_and_mask,
}
use xmss_reference.Params.{Params}
use xmss_reference.Params.Sets.{IsParams}
use xmss_reference.Wots.{base_w_loop, base_w, wots_checksum, chain_lengths}

abbrev pub IsDigit : Params → ℕ → Type 0
IsDigit p x = x < p.wots_w

All-append : (P : ℕ → Type 0) (xs ys : List ℕ) → All P xs → All P ys → All P (xs ++ ys)
All-append P [] ys hx hy = hy
All-append P (x ∷ xs) ys (h, hx) hy = (h, All-append P xs ys hx hy)

length-base_w_loop :
    (p : Params) (left total bits : ℕ) (input : List ℕ)
    → length (base_w_loop p left total bits input) ≡ left
unfolding base_w_loop
length-base_w_loop p zero total bits input = refl
length-base_w_loop p (suc left) total bits input = ap suc (length-base_w_loop p left _ _ _)

pub length-base_w : (p : Params) (left : ℕ) (input : List ℕ) → length (base_w p left input) ≡ left
unfolding base_w
length-base_w p left input = length-base_w_loop p left 0 0 input

module _ (p : Params) (ok : IsParams p) where
  masked : (x : ℕ) → bit_and x (p.wots_w - 1) < p.wots_w
  masked x = rw ok.w (omega (arith, bit_and_mask 4 x))

  base_w_loop-IsDigit :
      (left total bits : ℕ) (input : List ℕ) → All (IsDigit p) (base_w_loop p left total bits input)
  unfolding base_w_loop
  base_w_loop-IsDigit zero total bits input = tt
  base_w_loop-IsDigit (suc left) total bits input = (masked _, base_w_loop-IsDigit left _ _ _)

  base_w-IsDigit : (left : ℕ) (input : List ℕ) → All (IsDigit p) (base_w p left input)
  unfolding base_w
  base_w-IsDigit left input = base_w_loop-IsDigit left 0 0 input

  pub chain_lengths-IsDigit : (msg : List ℕ) → All (IsDigit p) (chain_lengths p msg)
  unfolding chain_lengths wots_checksum
  chain_lengths-IsDigit msg =
      All-append (IsDigit p) _ _ (base_w-IsDigit p.wots_len1 msg) (base_w-IsDigit p.wots_len2 _)

  pub length-chain_lengths : (msg : List ℕ) → length (chain_lengths p msg) ≡ p.wots_len
  unfolding chain_lengths wots_checksum
  length-chain_lengths msg =
      length-append (base_w p p.wots_len1 msg) _
      ∙ ap₂ ◌+◌ (length-base_w p p.wots_len1 msg) (length-base_w p p.wots_len2 _)
      ∙ sym ok.len

  -- The loops over `wots_len` digits read all of `lengths`.
  pub take-chain_lengths :
      (msg : List ℕ) → take p.wots_len (chain_lengths p msg) ≡ chain_lengths p msg
  take-chain_lengths msg = take_all p.wots_len (chain_lengths p msg) (length-chain_lengths msg)
