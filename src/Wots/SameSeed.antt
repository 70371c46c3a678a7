-- ===== src/Wots/SameSeed.antt =====
-- wots.c and hash.c: a seed is read no further than its n bytes, so a copy of it serves as well as a
-- pointer into a key.
use xmss_reference.Base.{ℕ, zero, suc, ◌+◌, ◌≡◌, refl, ap, List, [], ◌∷◌, ◌++◌, take, drop}
use xmss_reference.Address.{Addr, set_chain_addr, set_hash_addr, set_key_and_mask, addr_to_bytes}
use xmss_reference.Utils.{ull_to_bytes}
use xmss_reference.Params.{Params}
use xmss_reference.Hash.{
  HashFns, prf_keygen, prf, written, core_hash, padding_prf, padding_prf_keygen,
}
use xmss_reference.Wots.{expand_seed_loop, expand_seed, sign_loop, wots_sign, chain_lengths}

module _ {ℓ} {A : Type ℓ} where
  pub take_twice : (n : ℕ) (xs : List A) → take n (take n xs) ≡ take n xs
  take_twice zero xs = refl
  take_twice (suc n) [] = refl
  take_twice (suc n) (x ∷ xs) = ap (λ ys. x ∷ ys) (take_twice n xs)

module _ (fns : HashFns) (p : Params) (k k' : List ℕ) (same : take p.n k ≡ take p.n k') where
  pub prf_key : (input : List ℕ) → prf fns p input k ≡ prf fns p input k'
  unfolding prf
  prf_key input =
      ap (λ t. core_hash fns p (ull_to_bytes p.padding_len padding_prf ++ (t ++ take 32 input)))
        same

  keygen_key : (input : List ℕ) → prf_keygen fns p input k ≡ prf_keygen fns p input k'
  unfolding prf_keygen
  keygen_key input =
      ap
        (λ t.
          core_hash fns p
            (ull_to_bytes p.padding_len padding_prf_keygen ++ (t ++ take (p.n + 32) input)))
        same

  expand_seed_loop_key :
      (left i : ℕ) (out pub_seed : List ℕ) (a : Addr)
      → expand_seed_loop fns p left i out k pub_seed a
        ≡ expand_seed_loop fns p left i out k' pub_seed a
  unfolding expand_seed_loop
  expand_seed_loop_key zero i out pub_seed a = refl
  expand_seed_loop_key (suc left) i out pub_seed a =
      let a' = set_chain_addr a i in
      let first = keygen_key (take p.n pub_seed ++ addr_to_bytes a') in
      let rest = expand_seed_loop_key left (i + 1) (drop p.n out) pub_seed a' in
      λ j. ((rest j).0, written (take p.n out) (first j) ++ (rest j).1)

  pub wots_sign_key :
      (sig msg pub_seed : List ℕ) (a : Addr)
      → wots_sign fns p sig msg k pub_seed a ≡ wots_sign fns p sig msg k' pub_seed a
  unfolding wots_sign expand_seed
  wots_sign_key sig msg pub_seed a =
      ap (λ r. sign_loop fns p (take p.wots_len (chain_lengths p msg)) 0 r.1 pub_seed r.0)
        (expand_seed_loop_key p.wots_len 0 sig pub_seed (set_key_and_mask (set_hash_addr a 0) 0))
