-- ===== src/Wots/Correct.antt =====
-- wots.c: signing, and the public key computed from a signature.
use xmss_reference.Base.{
  ℕ, ◌+◌, ◌-◌, ◌*◌, ◌≡◌, refl, ◌∙◌, sym, ap, ap₂, List, [], ◌∷◌, ◌++◌, arith, length, length-append,
  All,
}
use mathlib.Core.List.{append_assoc}
use native.Mathlib.Nat.{suc-mul}
use xmss_reference.Address.{Addr}
use xmss_reference.Params.{Params}
use xmss_reference.Params.Sets.{IsParams}
use xmss_reference.Hash.{HashFns}
use xmss_reference.Hash.Lengths.{HasLengths}
use xmss_reference.Wots.{
  wots_pkgen, sign_loop, wots_sign, pk_from_sig_loop, wots_pk_from_sig, chain_lengths,
}
use xmss_reference.Wots.Chain.{links, links-links}
use xmss_reference.Wots.Digits.{
  IsDigit, chain_lengths-IsDigit, length-chain_lengths, take-chain_lengths,
}
use xmss_reference.Wots.Keys.{
  ots_part, chain_addr, seed, seeds, signed, publics, gen_chain_lem, take_chunk, drop_chunk,
  length-seed, length-signed, expand_seed_lem, wots_pkgen_lem,
}

module _ (fns : HashFns) (lengths : HasLengths fns) (p : Params) (ok : IsParams p)
    (inseed pub_seed : List ℕ) (base : Addr) where
  unfoldable pub signatures : List ℕ → ℕ → List ℕ
  signatures [] i = []
  signatures (steps ∷ ls) i =
      signed fns lengths p ok inseed pub_seed base steps i ++ signatures ls (i + 1)

  sign_loop_lem :
      (ls : List ℕ) (i : ℕ) (a : Addr)
      → All (IsDigit p) ls
      → ots_part a ≡ base
      → (ots_part
            (sign_loop fns p ls i
              (seeds fns lengths p ok inseed pub_seed base (length ls) i)
              pub_seed
              a).0
          ≡ base)
        × ((sign_loop fns p ls i
              (seeds fns lengths p ok inseed pub_seed base (length ls) i)
              pub_seed
              a).1
            ≡ signatures ls i)
  unfolding sign_loop seeds signatures signed
  sign_loop_lem [] i a h e = (e, refl)
  sign_loop_lem (steps ∷ ls) i a (h, hs) e =
      rw
        (
          take_chunk fns lengths p ok inseed pub_seed base
              (seed fns lengths p ok inseed pub_seed base i) _
              (length-seed fns lengths p ok inseed pub_seed base i),
          drop_chunk fns lengths p ok inseed pub_seed base
              (seed fns lengths p ok inseed pub_seed base i) _
              (length-seed fns lengths p ok inseed pub_seed base i),
        )
        (let chain =
            gen_chain_lem fns lengths p ok inseed pub_seed base
              (seed fns lengths p ok inseed pub_seed base i) 0 steps i a
              (length-seed fns lengths p ok inseed pub_seed base i) (omega arith) e in
          let rest = sign_loop_lem ls (i + 1) _ hs chain.0 in (rest.0, ap₂ ◌++◌ chain.1 rest.1))

  -- The rest of the chain, from a signature on, ends in the public value.
  signed_on :
      (start i : ℕ)
      → IsDigit p start
      → links fns p pub_seed
          (chain_addr base i)
          start
          (p.wots_w - 1 - start)
          (signed fns lengths p ok inseed pub_seed base start i)
        ≡ signed fns lengths p ok inseed pub_seed base (p.wots_w - 1) i
  unfolding signed
  signed_on start i h =
      (λ j. links fns p pub_seed (chain_addr base i) (from j) (p.wots_w - 1 - start) (
        links fns p pub_seed (chain_addr base i) 0 start
          (seed fns lengths p ok inseed pub_seed base i)))
      ∙ links-links fns p pub_seed (chain_addr base i) 0 start (p.wots_w - 1 - start)
          (seed fns lengths p ok inseed pub_seed base i)
      ∙ ap
          (λ t.
            links fns p pub_seed (chain_addr base i) 0 t
              (seed fns lengths p ok inseed pub_seed base i))
          total
    where
      from : start ≡ 0 + start
      from = omega arith

      total : start + (p.wots_w - 1 - start) ≡ p.wots_w - 1
      total = omega arith

  -- The bytes behind the signature are not read.
  pk_from_sig_loop_lem :
      (ls : List ℕ) (i : ℕ) (rest : List ℕ) (a : Addr)
      → All (IsDigit p) ls
      → ots_part a ≡ base
      → (ots_part (pk_from_sig_loop fns p ls i (signatures ls i ++ rest) pub_seed a).0 ≡ base)
        × ((pk_from_sig_loop fns p ls i (signatures ls i ++ rest) pub_seed a).1
            ≡ publics fns lengths p ok inseed pub_seed base (length ls) i)
  unfolding pk_from_sig_loop signatures publics
  pk_from_sig_loop_lem [] i more a h e = (e, refl)
  pk_from_sig_loop_lem (start ∷ ls) i more a (h, hs) e =
      rw
        (
          append_assoc (signed fns lengths p ok inseed pub_seed base start i)
              (signatures ls (i + 1)) more,
          take_chunk fns lengths p ok inseed pub_seed base
              (signed fns lengths p ok inseed pub_seed base start i) _
              (length-signed fns lengths p ok inseed pub_seed base start i),
          drop_chunk fns lengths p ok inseed pub_seed base
              (signed fns lengths p ok inseed pub_seed base start i) _
              (length-signed fns lengths p ok inseed pub_seed base start i),
        )
        (let chain =
            gen_chain_lem fns lengths p ok inseed pub_seed base
              (signed fns lengths p ok inseed pub_seed base start i) start (p.wots_w - 1 - start) i
              a (length-signed fns lengths p ok inseed pub_seed base start i) (omega arith) e in
          let rest = pk_from_sig_loop_lem ls (i + 1) more _ hs chain.0 in
          (rest.0, ap₂ ◌++◌ (chain.1 ∙ signed_on start i h) rest.1))

  length-signatures_loop : (ls : List ℕ) (i : ℕ) → length (signatures ls i) ≡ length ls * p.n
  unfolding signatures
  length-signatures_loop [] i = omega arith
  length-signatures_loop (steps ∷ ls) i = omega (
    arith,
    length-append (signed fns lengths p ok inseed pub_seed base steps i) (signatures ls (i + 1)),
    length-signed fns lengths p ok inseed pub_seed base steps i,
    length-signatures_loop ls (i + 1),
    suc-mul (length ls) p.n,
  )

  pub length-signatures :
      (msg : List ℕ) → length (signatures (chain_lengths p msg) 0) ≡ p.wots_sig_bytes
  length-signatures msg =
      length-signatures_loop (chain_lengths p msg) 0
      ∙ ap (λ t. t * p.n) (length-chain_lengths p ok msg)
      ∙ sym ok.sig_len

  pub wots_sign_lem :
      (sig msg : List ℕ) (a : Addr)
      → length sig ≡ p.wots_len * p.n
      → ots_part a ≡ base
      → (ots_part (wots_sign fns p sig msg inseed pub_seed a).0 ≡ base)
        × ((wots_sign fns p sig msg inseed pub_seed a).1 ≡ signatures (chain_lengths p msg) 0)
  unfolding wots_sign
  wots_sign_lem sig msg a l e =
      let keys = expand_seed_lem fns lengths p ok inseed pub_seed base sig a l e in
      let all_seeds = keys.1 ∙ (λ j.
        seeds fns lengths p ok inseed pub_seed base (sym (length-chain_lengths p ok msg) j) 0) in
      rw (all_seeds, take-chain_lengths p ok msg)
        (sign_loop_lem (chain_lengths p msg) 0 _ (chain_lengths-IsDigit p ok msg) keys.0)

  pub wots_pk_from_sig_lem :
      (msg rest : List ℕ) (a : Addr)
      → ots_part a ≡ base
      → let r =
          wots_pk_from_sig fns p (signatures (chain_lengths p msg) 0 ++ rest) msg pub_seed a in
        (ots_part r.0 ≡ base) × (r.1 ≡ publics fns lengths p ok inseed pub_seed base p.wots_len 0)
  unfolding wots_pk_from_sig
  wots_pk_from_sig_lem msg rest a e =
      let run =
        pk_from_sig_loop_lem (chain_lengths p msg) 0 rest a (chain_lengths-IsDigit p ok msg) e in
      rw (take-chain_lengths p ok msg) (
        run.0,
        run.1 ∙ (λ j.
            publics fns lengths p ok inseed pub_seed base (length-chain_lengths p ok msg j) 0),
      )

-- For the parameters of any set, `wots_pk_from_sig`, given a message and the signature that
-- `wots_sign` made of it, with any bytes behind it, writes the public key that `wots_pkgen` writes
-- for the same seeds. The three addresses need only agree in the words that name the key pair, and
-- the buffers for the signature and the key may hold anything.
pub pk_from_sig-sign :
    (fns : HashFns) (lengths : HasLengths fns) (p : Params) (ok : IsParams p)
    (seed pub_seed msg sig pk rest : List ℕ) (a b c : Addr)
    → length sig ≡ p.wots_sig_bytes
    → length pk ≡ p.wots_sig_bytes
    → ots_part a ≡ ots_part c
    → ots_part b ≡ ots_part c
    → (wots_pk_from_sig fns p
        ((wots_sign fns p sig msg seed pub_seed a).1 ++ rest)
        msg
        pub_seed
        b).1
      ≡ (wots_pkgen fns p pk seed pub_seed c).1
pk_from_sig-sign fns lengths p ok seed pub_seed msg sig pk rest a b c ls lp ea eb =
    ap (λ s. (wots_pk_from_sig fns p (s ++ rest) msg pub_seed b).1)
      (wots_sign_lem fns lengths p ok seed pub_seed (ots_part c) sig msg a (ls ∙ ok.sig_len) ea).1
    ∙ (wots_pk_from_sig_lem fns lengths p ok seed pub_seed (ots_part c) msg rest b eb).1
    ∙ sym (wots_pkgen_lem fns lengths p ok seed pub_seed (ots_part c) pk c (lp ∙ ok.sig_len) refl).1
