-- ===== src/Wots/Chain.antt =====
-- The chaining function without its address: only the words up to the chain address matter, since
-- the loop sets the hash address and thash_f the last word.
use xmss_reference.Base.{ℕ, zero, suc, ◌+◌, ◌≤◌, ◌≡◌, refl, ◌∙◌, true, List, arith, length, ltb}
use xmss_reference.Address.{Addr, set_hash_addr, set_key_and_mask}
use xmss_reference.Params.{Params}
use xmss_reference.Hash.{HashFns, written, derive, thash_f}
use xmss_reference.Params.Sets.{IsHashSet}
use xmss_reference.Hash.Lengths.{HasLengths, length-written, thash_f-Writes}
use native.Mathlib.Nat.{add-zero, zero-add, suc-add}
use xmss_reference.Wots.{gen_chain_loop}

-- The address without the two words that the hash calls set.
abbrev pub chain_part : Addr → Addr
chain_part a = record a { w6 = 0; w7 = 0 }

suc_add_step : (i s : ℕ) → i + 1 + s ≡ i + suc s
suc_add_step i s = omega arith

module _ (fns : HashFns) (p : Params) (pub_seed : List ℕ) where
  -- One link: `thash_f` at hash address `i`.
  pub link : Addr → ℕ → List ℕ → List ℕ
  link a i x = written x (thash_f fns p x pub_seed (set_hash_addr a i)).1

  -- `steps` links from position `i` on, of a chain at one address.
  pub links : Addr → ℕ → ℕ → List ℕ → List ℕ
  links a i zero x = x
  links a i (suc steps) x = links a (i + 1) steps (link a i x)

  thash_f_addr :
      (x : List ℕ) (a : Addr) (i : ℕ)
      → chain_part (thash_f fns p x pub_seed (set_hash_addr a i)).0 ≡ chain_part a
  unfolding thash_f derive set_hash_addr set_key_and_mask
  thash_f_addr x a i = refl

  link-chain_part : (a : Addr) (i : ℕ) (x : List ℕ) → link a i x ≡ link (chain_part a) i x
  unfolding link thash_f derive set_hash_addr set_key_and_mask
  link-chain_part a i x = refl

  -- Within the chain's `wots_w` positions the loop goes all its steps.
  pub gen_chain_loop_lem :
      (steps i : ℕ) (x : List ℕ) (a : Addr)
      → i + steps ≤ p.wots_w
      → (chain_part (gen_chain_loop fns p steps i x pub_seed a).0 ≡ chain_part a)
        × ((gen_chain_loop fns p steps i x pub_seed a).1 ≡ links (chain_part a) i steps x)
  unfolding gen_chain_loop links link
  gen_chain_loop_lem zero i x a h = (refl, refl)
  gen_chain_loop_lem (suc steps) i x a h =
      let in_chain : ltb i p.wots_w ≡ true = ground arith in
      let rest = gen_chain_loop_lem steps (i + 1) (link a i x) _ (omega arith) in
      let same = thash_f_addr x a i in
      rw in_chain
        (rest.0 ∙ same, rest.1 ∙ (λ j. links (same j) (i + 1) steps (link-chain_part a i x j)))

  -- A chain of `s + t` links is a chain of `s` links continued for `t` more.
  pub links-links :
      (a : Addr) (i s t : ℕ) (x : List ℕ) → links a (i + s) t (links a i s x) ≡ links a i (s + t) x
  unfolding links
  links-links a i zero t x = rw (add-zero, zero-add)
  links-links a i (suc s) t x =
      rw (suc-add, ← suc_add_step i s) (links-links a (i + 1) s t (link a i x))

module _ (fns : HashFns) (lengths : HasLengths fns) (p : Params) (set : IsHashSet p.n p.func)
    (pub_seed : List ℕ) where
  length-link : (a : Addr) (i : ℕ) (x : List ℕ) → length (link fns p pub_seed a i x) ≡ p.n
  unfolding link
  length-link a i x = length-written p.n x (thash_f-Writes fns lengths p set x pub_seed _)

  pub length-links :
      (a : Addr) (i steps : ℕ) (x : List ℕ)
      → length x ≡ p.n
      → length (links fns p pub_seed a i steps x) ≡ p.n
  unfolding links
  length-links a i zero x h = h
  length-links a i (suc steps) x h = length-links a (i + 1) steps _ (length-link a i x)
