-- ===== src/Wots/Checksum.antt =====
-- wots.c: the checksum, and the chain lengths of two messages.
use xmss_reference.Base.{
  ℕ, zero, suc, ◌+◌, ◌-◌, ◌*◌, ◌/◌, ◌%◌, ◌≤◌, ◌<◌, ◌≡◌, refl, ◌∙◌, sym, ap, ap₂, List, [], ◌∷◌,
  ◌++◌, arith, length, All, IsByte, bit_and_mask,
}
use xmss_reference.Utils.{ull_to_bytes}
use xmss_reference.Params.{Params}
use xmss_reference.Params.Sets.{IsParams}
use xmss_reference.Wots.{base_w_loop, base_w, csum_loop, wots_checksum, chain_lengths}
use mathlib.Core.Path.{subst₂}

-- The two digits of each byte.
abbrev pub hex_digits : List ℕ → List ℕ
hex_digits [] = []
hex_digits (b ∷ bs) = b / 16 ∷ b % 16 ∷ hex_digits bs

-- Each element is at most the one at the same place.
abbrev pub Below : List ℕ → List ℕ → Type 0
Below [] [] = Unit
Below [] (y ∷ ys) = ⊥
Below (x ∷ xs) [] = ⊥
Below (x ∷ xs) (y ∷ ys) = (x ≤ y) × Below xs ys

abbrev gap_sum : List ℕ → ℕ
gap_sum [] = 0
gap_sum (d ∷ ds) = 15 - d + gap_sum ds

hex_digits_inj : (xs ys : List ℕ) → hex_digits xs ≡ hex_digits ys → xs ≡ ys
hex_digits_inj [] [] e = refl
hex_digits_inj [] (y ∷ ys) e = cc
hex_digits_inj (x ∷ xs) [] e = cc
hex_digits_inj (x ∷ xs) (y ∷ ys) e = ground (arith, hex_digits_inj xs ys)

gap_sum-Below :
    (xs ys : List ℕ)
    → All (λ d. d < 16) xs
    → All (λ d. d < 16) ys
    → Below xs ys
    → gap_sum ys ≤ gap_sum xs
gap_sum-Below [] [] hx hy b = omega arith
gap_sum-Below [] (y ∷ ys) hx hy b = absurd b
gap_sum-Below (x ∷ xs) [] hx hy b = absurd b
gap_sum-Below (x ∷ xs) (y ∷ ys) hx hy b = omega (arith, gap_sum-Below xs ys hx.1 hy.1 b.1)

-- If the sums agree the digits do.
Below-eq :
    (xs ys : List ℕ)
    → All (λ d. d < 16) xs
    → All (λ d. d < 16) ys
    → Below xs ys
    → gap_sum xs ≤ gap_sum ys
    → xs ≡ ys
Below-eq [] [] hx hy b h = refl
Below-eq [] (y ∷ ys) hx hy b h = absurd b
Below-eq (x ∷ xs) [] hx hy b h = absurd b
Below-eq (x ∷ xs) (y ∷ ys) hx hy b h =
    let tails = gap_sum-Below xs ys hx.1 hy.1 b.1 in
    ap₂ ◌∷◌ (omega arith) (Below-eq xs ys hx.1 hy.1 b.1 (omega arith))

Below-append :
    (xs ys us vs : List ℕ)
    → length xs ≡ length ys
    → Below (xs ++ us) (ys ++ vs)
    → Below xs ys × Below us vs
Below-append [] [] us vs l b = (tt, b)
Below-append [] (y ∷ ys) us vs l b = absurd (omega arith)
Below-append (x ∷ xs) [] us vs l b = absurd (omega arith)
Below-append (x ∷ xs) (y ∷ ys) us vs l (h, b) =
    let rest = Below-append xs ys us vs (omega arith) b in ((h, rest.0), rest.1)

hex_digits-lt : (bs : List ℕ) → All IsByte bs → All (λ d. d < 16) (hex_digits bs)
hex_digits-lt [] h = tt
hex_digits-lt (b ∷ bs) (h, hs) = (omega arith, (omega arith, hex_digits-lt bs hs))

length-hex_digits : (bs : List ℕ) → length (hex_digits bs) ≡ 2 * length bs
length-hex_digits [] = refl
length-hex_digits (b ∷ bs) = omega (arith, length-hex_digits bs)

gap_sum-le : (ds : List ℕ) → gap_sum ds ≤ 15 * length ds
gap_sum-le [] = omega arith
gap_sum-le (d ∷ ds) = omega (arith, gap_sum-le ds)

-- The three digits of a sum below 4096 order the sums.
digits_order :
    (c e : ℕ)
    → e < 4096
    → Below (c / 256 ∷ c / 16 % 16 ∷ c % 16 ∷ []) (e / 256 ∷ e / 16 % 16 ∷ e % 16 ∷ [])
    → c ≤ e
digits_order c e h b = omega arith

module _ (p : Params) (ok : IsParams p) where
  base_w_byte :
      (left total b : ℕ) (bs : List ℕ)
      → b < 256
      → base_w_loop p (suc (suc left)) total 0 (b ∷ bs)
        ≡ b / 16 ∷ b % 16 ∷ base_w_loop p left b 0 bs
  unfolding base_w_loop
  base_w_byte left total b bs h =
      simp (ok.w, ok.log_w) (ground (arith, bit_and_mask 4 (b / 16), bit_and_mask 4 (b / 1)))

  csum_loop-gap_sum :
      (left csum : ℕ) (ds : List ℕ)
      → length ds ≡ left
      → csum_loop p left csum ds ≡ csum + gap_sum ds
  unfolding csum_loop
  csum_loop-gap_sum zero csum [] l = omega arith
  csum_loop-gap_sum zero csum (d ∷ ds) l = absurd (omega arith)
  csum_loop-gap_sum (suc left) csum [] l = absurd (omega arith)
  csum_loop-gap_sum (suc left) csum (d ∷ ds) l =
      omega (arith, csum_loop-gap_sum left (csum + (p.wots_w - 1 - d)) ds (omega arith), ok.w)

  wots_checksum-digits :
      (ds : List ℕ)
      → length ds ≡ p.wots_len1
      → gap_sum ds < 4096
      → wots_checksum p ds ≡ gap_sum ds / 256 ∷ gap_sum ds / 16 % 16 ∷ gap_sum ds % 16 ∷ []
  unfolding wots_checksum base_w ull_to_bytes base_w_loop
  wots_checksum-digits ds l h =
      simp (ok.w, ok.len2, ok.log_w)
        (ground (
          arith,
          csum_loop-gap_sum p.wots_len1 0 ds l,
          bit_and_mask 8 (gap_sum ds * 16 / 256),
          bit_and_mask 8 (gap_sum ds * 16),
          bit_and_mask 4 (gap_sum ds * 16 / 256 % 256 / 16),
          bit_and_mask 4 (gap_sum ds * 16 / 256 % 256 / 1),
          bit_and_mask 4 (gap_sum ds * 16 % 256 / 16),
        ))

  base_w-hex_digits :
      (bs : List ℕ) (total : ℕ)
      → All IsByte bs
      → base_w_loop p (length (hex_digits bs)) total 0 bs ≡ hex_digits bs
  base_w-hex_digits [] total h = unfold base_w_loop in refl
  base_w-hex_digits (b ∷ bs) total (h, hs) =
      rw (base_w_byte (length (hex_digits bs)) total b bs h)
        (ap (λ t. b / 16 ∷ b % 16 ∷ t) (base_w-hex_digits bs b hs))

  -- The chain lengths of a message of `n` bytes: its digits, and the three of its checksum.
  chain_lengths-digits :
      (msg : List ℕ)
      → length msg ≡ p.n
      → All IsByte msg
      → let c = gap_sum (hex_digits msg) in
        (c < 4096) × (chain_lengths p msg ≡ hex_digits msg ++ (c / 256 ∷ c / 16 % 16 ∷ c % 16 ∷ []))
  unfolding chain_lengths base_w
  chain_lengths-digits msg l h = (
    small,
    rw digits (ap (λ t. hex_digits msg ++ t) (wots_checksum-digits (hex_digits msg) len small)),
  )
    where
      len : length (hex_digits msg) ≡ p.wots_len1
      len = omega (arith, length-hex_digits msg, ok.len1)

      n_max : p.n ≤ 64
      n_max = ground (arith, ok.hash_set)

      small : gap_sum (hex_digits msg) < 4096
      small = omega (arith, gap_sum-le (hex_digits msg), length-hex_digits msg)

      digits : base_w_loop p p.wots_len1 0 0 msg ≡ hex_digits msg
      digits = (λ j. base_w_loop p (sym len j) 0 0 msg) ∙ base_w-hex_digits msg 0 h

-- If, for the parameters of a set, no chain length of one `n`-byte message exceeds that of another
-- at the same place, checksum included, the messages are the same.
pub chain_lengths-Below :
    (p : Params) (ok : IsParams p) (msg msg' : List ℕ)
    → length msg ≡ p.n
    → length msg' ≡ p.n
    → All IsByte msg
    → All IsByte msg'
    → Below (chain_lengths p msg) (chain_lengths p msg')
    → msg ≡ msg'
chain_lengths-Below p ok msg msg' l l' h h' below =
    let (small, here) = chain_lengths-digits p ok msg l h in
    let (small', there) = chain_lengths-digits p ok msg' l' h' in
    let same_length : length (hex_digits msg) ≡ length (hex_digits msg') =
      omega (arith, length-hex_digits msg, length-hex_digits msg') in
    let parts =
      Below-append (hex_digits msg) (hex_digits msg') _ _ same_length
        (subst₂ Below here there below) in
    hex_digits_inj msg msg' (
      Below-eq (hex_digits msg) (hex_digits msg') (hex_digits-lt msg h) (hex_digits-lt msg' h')
        parts.0 (digits_order _ _ small' parts.1))
