-- ===== src/Core/Series.antt =====
-- xmss_core.c and xmss_commons.c: a series of signatures under one key pair.
use xmss_reference.Base.{
  ℕ, zero, suc, ◌+◌, ◌*◌, ◌^◌, ◌<◌, ◌≡◌, refl, sym, ap, ◌∙◌, All, List, [], ◌∷◌, ◌++◌, true, arith,
  length, drop, replicate, length-replicate, drop-append_length,
}
use mathlib.Core.List.{append-nil}
use xmss_reference.Utils.{ull_to_bytes_loop, ull_to_bytes}
use xmss_reference.Params.{Params}
use xmss_reference.Params.Sets.{IsParams}
use xmss_reference.Hash.{HashFns}
use xmss_reference.Hash.Lengths.{HasLengths}
use xmss_reference.Commons.{xmssmt_core_sign_open}
use xmss_reference.Core.{Signed, xmssmt_core_seed_keypair}
use xmss_reference.Core.Index.{key_at, sign_all, sign-IsNext}
use xmss_reference.Core.Correct.{sign_open-sign}

-- Each of the signed messages is accepted under the public key, and gives its message back.
abbrev pub AllOpen : HashFns → Params → List ℕ → List (List ℕ) → List Signed → Type 0
AllOpen fns p pk [] [] = Unit
AllOpen fns p pk [] (s ∷ ss) = ⊥
AllOpen fns p pk (m ∷ ms) [] = ⊥
AllOpen fns p pk (m ∷ ms) (s ∷ ss) =
    (xmssmt_core_sign_open fns p s.sm s.smlen pk ≡ record { ret = true; mlen = length m; m = m })
    × AllOpen fns p pk ms ss

zeros_snoc : (i : ℕ) (tail : List ℕ) → replicate i 0 ++ (0 ∷ tail) ≡ replicate (suc i) 0 ++ tail
zeros_snoc zero tail = refl
zeros_snoc (suc i) tail = ap (λ t. 0 ∷ t) (zeros_snoc i tail)

zeros_loop : (i : ℕ) (tail : List ℕ) → ull_to_bytes_loop i 0 tail ≡ replicate i 0 ++ tail
unfolding ull_to_bytes_loop
zeros_loop zero tail = refl
zeros_loop (suc i) tail = zeros_loop i (0 ∷ tail) ∙ zeros_snoc i tail

zeros : (i : ℕ) → ull_to_bytes i 0 ≡ replicate i 0
unfolding ull_to_bytes
zeros i = zeros_loop i [] ∙ append-nil (replicate i 0)

zeros_key :
    (p : Params) (rest : List ℕ)
    → replicate p.index_bytes 0 ++ rest
      ≡ key_at p 0 (drop p.index_bytes (replicate p.index_bytes 0 ++ rest))
zeros_key p rest =
    ap (λ t. t ++ rest) (sym (zeros p.index_bytes))
    ∙ ap (λ t. ull_to_bytes p.index_bytes 0 ++ t)
        (sym (
          drop-append_length p.index_bytes (replicate p.index_bytes 0) rest
            (length-replicate p.index_bytes 0)))

module _ (fns : HashFns) (lengths : HasLengths fns) (p : Params) (ok : IsParams p) (seed : List ℕ)
    (seed_length : length seed ≡ 3 * p.n) where
  abbrev pub keys : List ℕ
  keys = drop p.index_bytes (xmssmt_core_seed_keypair fns p seed).sk

  -- A new key has index 0.
  pub new_key : (xmssmt_core_seed_keypair fns p seed).sk ≡ key_at p 0 keys
  unfolding xmssmt_core_seed_keypair
  new_key = zeros_key p _

  from_index :
      (idx : ℕ) (ms : List (List ℕ))
      → idx + length ms < 2 ^ p.full_height
      → All (λ m. p.sig_bytes + length m < 2 ^ 64) ms
      → AllOpen fns p
          (xmssmt_core_seed_keypair fns p seed).pk
          ms
          (sign_all fns p (key_at p idx keys) ms)
  from_index idx [] h fits = tt
  from_index idx (m ∷ ms) h (fit, fits) =
      let next = sign-IsNext fns p ok idx keys m (omega arith) in
      (
        sign_open-sign fns lengths p ok seed m idx seed_length (omega arith) fit,
        rw next.key (from_index (idx + 1) ms (omega arith) fits),
      )

  -- For the parameters of a set and any seed of 3n bytes, when the messages of a list, fewer than the
  -- indices of the key, are signed one after the other, from the key that xmssmt_core_seed_keypair
  -- makes on, each with the key that the one before left, then xmssmt_core_sign_open accepts each of
  -- the signed messages under the public key and gives the message back. The lengths of the signed
  -- messages have to fit `unsigned long long`.
  pub sign_all-AllOpen :
      (ms : List (List ℕ))
      → length ms < 2 ^ p.full_height
      → All (λ m. p.sig_bytes + length m < 2 ^ 64) ms
      → AllOpen fns p
          (xmssmt_core_seed_keypair fns p seed).pk
          ms
          (sign_all fns p (xmssmt_core_seed_keypair fns p seed).sk ms)
  sign_all-AllOpen ms h fits = rw new_key (from_index 0 ms (omega arith) fits)
