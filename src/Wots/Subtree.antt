-- ===== src/Wots/Subtree.antt =====
-- wots.c: the words of the address that name the subtree, which wots_sign leaves alone whatever the
-- buffers hold.
use xmss_reference.Base.{
  ℕ, zero, suc, ◌+◌, ◌≡◌, refl, ◌∙◌, List, [], ◌∷◌, take, drop, Bool-cases, inl, inr, ltb,
}
use xmss_reference.Address.{
  Addr, zero_addr, set_chain_addr, set_hash_addr, set_key_and_mask, copy_subtree_addr,
}
use xmss_reference.Params.{Params}
use xmss_reference.Hash.{HashFns, derive, thash_f}
use xmss_reference.Wots.{
  expand_seed_loop, expand_seed, gen_chain_loop, gen_chain, sign_loop, wots_sign, chain_lengths,
}

abbrev pub subtree_part : Addr → Addr
subtree_part a = copy_subtree_addr zero_addr a

module _ (fns : HashFns) (p : Params) (pub_seed : List ℕ) where
  expand_seed_loop-subtree :
      (left i : ℕ) (old inseed : List ℕ) (a : Addr)
      → subtree_part (expand_seed_loop fns p left i old inseed pub_seed a).0 ≡ subtree_part a
  unfolding expand_seed_loop copy_subtree_addr set_chain_addr
  expand_seed_loop-subtree zero i old inseed a = refl
  expand_seed_loop-subtree (suc left) i old inseed a =
      expand_seed_loop-subtree left (i + 1) (drop p.n old) inseed (set_chain_addr a i)

  gen_chain_loop-subtree :
      (left i : ℕ) (out : List ℕ) (a : Addr)
      → subtree_part (gen_chain_loop fns p left i out pub_seed a).0 ≡ subtree_part a
  unfolding gen_chain_loop copy_subtree_addr set_hash_addr set_key_and_mask thash_f derive
  gen_chain_loop-subtree zero i out a = refl
  gen_chain_loop-subtree (suc left) i out a = elim (Bool-cases (ltb i p.wots_w)) [
    | inl more ↦ rw more (gen_chain_loop-subtree left (i + 1) _ _)
    | inr over ↦ rw over refl
  ]

  sign_loop-subtree :
      (ls : List ℕ) (i : ℕ) (sig : List ℕ) (a : Addr)
      → subtree_part (sign_loop fns p ls i sig pub_seed a).0 ≡ subtree_part a
  unfolding sign_loop gen_chain copy_subtree_addr set_chain_addr
  sign_loop-subtree [] i sig a = refl
  sign_loop-subtree (steps ∷ ls) i sig a =
      sign_loop-subtree ls (i + 1) _ _
      ∙ gen_chain_loop-subtree steps 0 (take p.n (take p.n sig)) (set_chain_addr a i)

  pub wots_sign-subtree :
      (sig msg seed : List ℕ) (a : Addr)
      → subtree_part (wots_sign fns p sig msg seed pub_seed a).0 ≡ subtree_part a
  unfolding wots_sign expand_seed copy_subtree_addr set_hash_addr set_key_and_mask
  wots_sign-subtree sig msg seed a =
      let (a', keys) = expand_seed fns p sig seed pub_seed a in
      sign_loop-subtree (take p.wots_len (chain_lengths p msg)) 0 keys a'
      ∙ expand_seed_loop-subtree p.wots_len 0 sig seed (set_key_and_mask (set_hash_addr a 0) 0)
