-- ===== src/Hash/Lengths.antt =====
-- hash.c: the return codes and the lengths of what the hash functions write.
use xmss_reference.Base.{ℕ, ◌≡◌, inl, inr, Option, some, List, length, length-take, take, arith}
use xmss_reference.Address.{Addr}
use xmss_reference.Params.{Params}
use xmss_reference.Params.Sets.{IsHashSet}
use xmss_reference.Hash.{HashFns, written, core_hash, prf_keygen, thash_h, thash_f}

-- The documented output lengths of the functions that hash.c calls.
pub record HasLengths (fns : HashFns) : Type 0 where
  pub sha256_length : (input : List ℕ) → length (fns.sha256 input) ≡ 32
  pub sha512_length : (input : List ℕ) → length (fns.sha512 input) ≡ 64
  pub shake128_length : (outlen : ℕ) (input : List ℕ) → length (fns.shake128 outlen input) ≡ outlen
  pub shake256_length : (outlen : ℕ) (input : List ℕ) → length (fns.shake256 outlen input) ≡ outlen

-- A call that returns 0 and writes `n` bytes.
abbrev pub Writes : ℕ → Option (List ℕ) → Type 0
Writes n o = (bytes : List ℕ) × (o ≡ some bytes) × (length bytes ≡ n)

module _ (fns : HashFns) (lengths : HasLengths fns) where
  -- For every pair of `n` and `func` that a parameter set has, `core_hash` returns 0 and writes `n`
  -- bytes.
  pub core_hash-Writes :
      (p : Params) (input : List ℕ) → IsHashSet p.n p.func → Writes p.n (core_hash fns p input)
  unfolding core_hash
  core_hash-Writes p input (inl (n24, inl f)) = (
    take 24 (fns.sha256 input),
    ground arith,
    omega (arith, length-take 24 (fns.sha256 input), lengths.sha256_length input),
  )
  core_hash-Writes p input (inl (n24, inr f)) =
      (fns.shake256 24 input, ground arith, omega (arith, lengths.shake256_length 24 input))
  core_hash-Writes p input (inr (inl (n32, inl f))) =
      (fns.sha256 input, ground arith, omega (arith, lengths.sha256_length input))
  core_hash-Writes p input (inr (inl (n32, inr (inl f)))) =
      (fns.shake128 32 input, ground arith, omega (arith, lengths.shake128_length 32 input))
  core_hash-Writes p input (inr (inl (n32, inr (inr f)))) =
      (fns.shake256 32 input, ground arith, omega (arith, lengths.shake256_length 32 input))
  core_hash-Writes p input (inr (inr (n64, inl f))) =
      (fns.sha512 input, ground arith, omega (arith, lengths.sha512_length input))
  core_hash-Writes p input (inr (inr (n64, inr f))) =
      (fns.shake256 64 input, ground arith, omega (arith, lengths.shake256_length 64 input))

  -- `prf_keygen`, `thash_f` and `thash_h` do so too.
  module _ (p : Params) (set : IsHashSet p.n p.func) where
    pub prf_keygen-Writes : (input key : List ℕ) → Writes p.n (prf_keygen fns p input key)
    unfolding prf_keygen
    prf_keygen-Writes input key = core_hash-Writes p _ set

    pub thash_f-Writes :
        (input pub_seed : List ℕ) (addr : Addr) → Writes p.n (thash_f fns p input pub_seed addr).1
    unfolding thash_f
    thash_f-Writes input pub_seed addr = core_hash-Writes p _ set

    pub thash_h-Writes :
        (input pub_seed : List ℕ) (addr : Addr) → Writes p.n (thash_h fns p input pub_seed addr).1
    unfolding thash_h
    thash_h-Writes input pub_seed addr = core_hash-Writes p _ set

pub length-written :
    (n : ℕ) (old : List ℕ) {o : Option (List ℕ)} → Writes n o → length (written old o) ≡ n
length-written n old (bytes, e, l) = rw e l

-- After a call that succeeds the old content does not show.
pub written_any :
    (n : ℕ) (old old' : List ℕ) {o : Option (List ℕ)} → Writes n o → written old o ≡ written old' o
written_any n old old' (bytes, e, l) = rw e
