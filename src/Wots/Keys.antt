-- ===== src/Wots/Keys.antt =====
-- The key pairs of WOTS+: the chains of one address, and what `expand_seed` and `wots_pkgen` write.
use xmss_reference.Base.{
  ℕ, zero, suc, ◌+◌, ◌-◌, ◌*◌, ◌≤◌, ◌≡◌, refl, ◌∙◌, ap, ap₂, List, [], ◌∷◌, ◌++◌, arith, length,
  length-append, length-drop, take, drop, take_all, take-append_length, drop-append_length,
}
use xmss_reference.Address.{Addr, set_hash_addr, set_key_and_mask, set_chain_addr, addr_to_bytes}
use xmss_reference.Params.{Params}
use xmss_reference.Params.Sets.{IsParams}
use xmss_reference.Hash.{HashFns, written, prf_keygen}
use xmss_reference.Hash.Lengths.{HasLengths, length-written, written_any, prf_keygen-Writes}
use xmss_reference.Wots.{gen_chain, expand_seed_loop, expand_seed, pkgen_loop, wots_pkgen}
use xmss_reference.Wots.Chain.{chain_part, links, length-links, gen_chain_loop_lem}

-- The words of an OTS address that name the key pair: all but the chain, the hash and the mask.
abbrev pub ots_part : Addr → Addr
ots_part a = record a { w5 = 0; w6 = 0; w7 = 0 }

-- The address of chain `i`, with the hash address and the last word 0.
abbrev pub chain_addr : Addr → ℕ → Addr
chain_addr a i = chain_part (set_chain_addr a i)

chain_addr-ots_part :
    (a base : Addr) (i : ℕ) → ots_part a ≡ base → chain_addr a i ≡ chain_addr base i
unfolding set_chain_addr
chain_addr-ots_part a base i e = ap (λ b. chain_part (set_chain_addr b i)) e

ots_part-chain_part :
    (a b : Addr) (i : ℕ) → chain_part a ≡ chain_part (set_chain_addr b i) → ots_part a ≡ ots_part b
unfolding set_chain_addr
ots_part-chain_part a b i e = ap ots_part e

module _ (fns : HashFns) (lengths : HasLengths fns) (p : Params) (ok : IsParams p)
    (inseed pub_seed : List ℕ) (base : Addr) where
  -- The secret start of chain `i`.
  unfoldable pub seed : ℕ → List ℕ
  seed i =
      written [] (prf_keygen fns p (take p.n pub_seed ++ addr_to_bytes (chain_addr base i)) inseed)

  pub length-seed : (i : ℕ) → length (seed i) ≡ p.n
  unfolding seed
  length-seed i = length-written p.n [] (prf_keygen-Writes fns lengths p ok.hash_set _ inseed)

  -- The secret keys, the signatures for given digits, and the public keys, of the chains from `i` on.
  unfoldable pub seeds : ℕ → ℕ → List ℕ
  seeds zero i = []
  seeds (suc left) i = seed i ++ seeds left (i + 1)

  -- The value at position `steps` of chain `i`.
  unfoldable pub signed : ℕ → ℕ → List ℕ
  signed steps i = links fns p pub_seed (chain_addr base i) 0 steps (seed i)

  unfoldable pub publics : ℕ → ℕ → List ℕ
  publics zero i = []
  publics (suc left) i = signed (p.wots_w - 1) i ++ publics left (i + 1)

  pub gen_chain_lem :
      (x : List ℕ) (start steps i : ℕ) (a : Addr)
      → length x ≡ p.n
      → start + steps ≤ p.wots_w
      → ots_part a ≡ base
      → (ots_part (gen_chain fns p x start steps pub_seed (set_chain_addr a i)).0 ≡ base)
        × ((gen_chain fns p x start steps pub_seed (set_chain_addr a i)).1
            ≡ links fns p pub_seed (chain_addr base i) start steps x)
  unfolding gen_chain
  gen_chain_lem x start steps i a lx fits e = (
    ots_part-chain_part (gen_chain fns p x start steps pub_seed (set_chain_addr a i)).0 a i run.0
        ∙ e,
    run.1 ∙ (λ j.
        links fns p pub_seed (chain_addr-ots_part a base i e j) start steps (take_all p.n x lx j)),
  )
    where
      run :
          (chain_part (gen_chain fns p x start steps pub_seed (set_chain_addr a i)).0
            ≡ chain_part (set_chain_addr a i))
          × ((gen_chain fns p x start steps pub_seed (set_chain_addr a i)).1
              ≡ links fns p pub_seed (chain_part (set_chain_addr a i)) start steps (take p.n x))
      run = gen_chain_loop_lem fns p pub_seed steps start (take p.n x) (set_chain_addr a i) fits

  -- The first chunk of a buffer, and those behind it.
  pub take_chunk : (x rest : List ℕ) → length x ≡ p.n → take p.n (x ++ rest) ≡ x
  take_chunk x rest h = take-append_length p.n x rest h

  pub drop_chunk : (x rest : List ℕ) → length x ≡ p.n → drop p.n (x ++ rest) ≡ rest
  drop_chunk x rest h = drop-append_length p.n x rest h

  seed_in_place :
      (i : ℕ) (old : List ℕ) (a : Addr)
      → ots_part a ≡ base
      → written old (prf_keygen fns p (take p.n pub_seed ++ addr_to_bytes (chain_addr a i)) inseed)
        ≡ seed i
  unfolding seed
  seed_in_place i old a e =
      written_any p.n old [] (prf_keygen-Writes fns lengths p ok.hash_set _ inseed) ∙ (λ j.
        written [] (
          prf_keygen fns p (take p.n pub_seed ++ addr_to_bytes (chain_addr-ots_part a base i e j))
            inseed))

  expand_seed_loop_lem :
      (left i : ℕ) (old : List ℕ) (a : Addr)
      → length old ≡ left * p.n
      → ots_part a ≡ base
      → (ots_part (expand_seed_loop fns p left i old inseed pub_seed (chain_part a)).0 ≡ base)
        × ((expand_seed_loop fns p left i old inseed pub_seed (chain_part a)).1 ≡ seeds left i)
  unfolding expand_seed_loop seeds set_chain_addr
  expand_seed_loop_lem zero i [] a l e = (e, refl)
  expand_seed_loop_lem zero i (x ∷ old) a l e = absurd (omega arith)
  expand_seed_loop_lem (suc left) i old a l e =
      let rest =
        expand_seed_loop_lem left (i + 1) (drop p.n old) (set_chain_addr a i)
          (omega (arith, length-drop p.n old)) e in
      (rest.0, ap₂ ◌++◌ (seed_in_place i _ a e) rest.1)

  pkgen_loop_lem :
      (left i : ℕ) (a : Addr)
      → ots_part a ≡ base
      → (ots_part (pkgen_loop fns p left i (seeds left i) pub_seed a).0 ≡ base)
        × ((pkgen_loop fns p left i (seeds left i) pub_seed a).1 ≡ publics left i)
  unfolding pkgen_loop seeds publics signed
  pkgen_loop_lem zero i a e = (e, refl)
  pkgen_loop_lem (suc left) i a e =
      rw (take_chunk (seed i) _ (length-seed i), drop_chunk (seed i) _ (length-seed i))
        (let chain = gen_chain_lem (seed i) 0 (p.wots_w - 1) i a (length-seed i) (omega arith) e in
          let rest = pkgen_loop_lem left (i + 1) _ chain.0 in (rest.0, ap₂ ◌++◌ chain.1 rest.1))

  pub length-signed : (steps i : ℕ) → length (signed steps i) ≡ p.n
  unfolding signed
  length-signed steps i =
      length-links fns lengths p ok.hash_set pub_seed _ 0 steps _ (length-seed i)

  pub le-length-publics : (left i : ℕ) → 1 ≤ left → p.n ≤ length (publics left i)
  unfolding publics
  le-length-publics zero i h = absurd (omega arith)
  le-length-publics (suc left) i h = omega (
    arith,
    length-append (signed (p.wots_w - 1) i) (publics left (i + 1)),
    length-signed (p.wots_w - 1) i,
  )

  -- Key generation and signing start from the same chains.
  pub expand_seed_lem :
      (old : List ℕ) (a : Addr)
      → length old ≡ p.wots_len * p.n
      → ots_part a ≡ base
      → (ots_part (expand_seed fns p old inseed pub_seed a).0 ≡ base)
        × ((expand_seed fns p old inseed pub_seed a).1 ≡ seeds p.wots_len 0)
  unfolding expand_seed set_hash_addr set_key_and_mask
  expand_seed_lem old a l e = expand_seed_loop_lem p.wots_len 0 old a l e

  -- What `wots_pkgen` writes, whatever the buffer held.
  pub wots_pkgen_lem :
      (pk : List ℕ) (a : Addr)
      → length pk ≡ p.wots_len * p.n
      → ots_part a ≡ base
      → (ots_part (wots_pkgen fns p pk inseed pub_seed a).0 ≡ base)
        × ((wots_pkgen fns p pk inseed pub_seed a).1 ≡ publics p.wots_len 0)
  unfolding wots_pkgen
  wots_pkgen_lem pk a l e =
      let keys = expand_seed_lem pk a l e in rw keys.1 (pkgen_loop_lem p.wots_len 0 _ keys.0)
