-- ===== src/Hash.antt =====
-- hash.c: the keyed hash functions, over the functions of OpenSSL and of fips202.c.
pub mod Lengths
use xmss_reference.Base.{
  ℕ, ◌+◌, ◌*◌, Bool, ◌&&◌, Option, none, some, List, [], ◌∷◌, ◌++◌, bit_xor, take, replicate, ◌==◌,
  if◌then◌else◌,
}
use xmss_reference.Utils.{ull_to_bytes}
use xmss_reference.Address.{Addr, set_key_and_mask, addr_to_bytes}
use xmss_reference.Params.{Params}
use xmss_reference.Params.Table.{xmss_sha2, xmss_shake128, xmss_shake256}

-- `SHA256` and `SHA512` of OpenSSL, and `shake128` and `shake256` of fips202.c, which take the
-- length of the output first. Each returns the bytes that it writes.
pub record HashFns : Type 0 where
  pub sha256 : List ℕ → List ℕ
  pub sha512 : List ℕ → List ℕ
  pub shake128 : ℕ → List ℕ → List ℕ
  pub shake256 : ℕ → List ℕ → List ℕ

-- The values of XMSS_HASH_PADDING_F, _H, _HASH, _PRF and _PRF_KEYGEN.
abbrev pub padding_f : ℕ
padding_f = 0

abbrev pub padding_h : ℕ
padding_h = 1

abbrev pub padding_hash : ℕ
padding_hash = 2

abbrev pub padding_prf : ℕ
padding_prf = 3

abbrev pub padding_prf_keygen : ℕ
padding_prf_keygen = 4

-- What is in a buffer after a call that fills it, or fails and leaves it alone.
abbrev pub written : List ℕ → Option (List ℕ) → List ℕ
written old none = old
written old (some bytes) = bytes

-- The loop `out[i] = in[i] ^ bitmask[i]`.
unfoldable pub xor_bytes : List ℕ → List ℕ → List ℕ
xor_bytes [] ys = []
xor_bytes (x ∷ xs) [] = []
xor_bytes (x ∷ xs) (y ∷ ys) = bit_xor x y ∷ xor_bytes xs ys

module _ (fns : HashFns) where
  -- The bytes written to `out`; `none` is the return of -1, which writes nothing.
  unfoldable pub core_hash : Params → List ℕ → Option (List ℕ)
  core_hash params input =
      if params.n == 24 && params.func == xmss_sha2
      then some (take 24 (fns.sha256 input))
      else if params.n == 24 && params.func == xmss_shake256
      then some (fns.shake256 24 input)
      else if params.n == 32 && params.func == xmss_sha2
      then some (fns.sha256 input)
      else if params.n == 32 && params.func == xmss_shake128
      then some (fns.shake128 32 input)
      else if params.n == 32 && params.func == xmss_shake256
      then some (fns.shake256 32 input)
      else if params.n == 64 && params.func == xmss_sha2
      then some (fns.sha512 input)
      else if params.n == 64 && params.func == xmss_shake256
      then some (fns.shake256 64 input)
      else none

  unfoldable pub prf : Params → List ℕ → List ℕ → Option (List ℕ)
  prf params input key =
      core_hash params
        (ull_to_bytes params.padding_len padding_prf ++ (take params.n key ++ take 32 input))

  unfoldable pub prf_keygen : Params → List ℕ → List ℕ → Option (List ℕ)
  prf_keygen params input key = core_hash params (
      ull_to_bytes params.padding_len padding_prf_keygen
      ++ (take params.n key ++ take (params.n + 32) input))

  -- The prefix that is written in front of the message, where the caller left room for it, and the
  -- message.
  unfoldable pub hash_message : Params → List ℕ → List ℕ → ℕ → List ℕ → Option (List ℕ)
  hash_message params r root idx m = core_hash params (
      ull_to_bytes params.padding_len padding_hash
      ++ (take params.n r ++ (take params.n root ++ (ull_to_bytes params.n idx ++ m))))

  -- A key or a mask: `prf` of the address with `key_and_mask` set to `which`. The buffer is not
  -- initialised; its content if `prf` fails, which the code does not test, is taken to be 0.
  unfoldable pub derive : Params → List ℕ → Addr → ℕ → Addr × List ℕ
  derive params pub_seed addr which =
      let addr' = set_key_and_mask addr which in
      (addr', written (replicate params.n 0) (prf params (addr_to_bytes addr') pub_seed))

  unfoldable pub thash_h : Params → List ℕ → List ℕ → Addr → Addr × Option (List ℕ)
  thash_h params input pub_seed addr =
      let (addr0, key) = derive params pub_seed addr 0 in
      let (addr1, mask0) = derive params pub_seed addr0 1 in
      let (addr2, mask1) = derive params pub_seed addr1 2 in
      (
        addr2,
        core_hash params (
            ull_to_bytes params.padding_len padding_h
            ++ (key ++ xor_bytes (take (2 * params.n) input) (mask0 ++ mask1))),
      )

  unfoldable pub thash_f : Params → List ℕ → List ℕ → Addr → Addr × Option (List ℕ)
  thash_f params input pub_seed addr =
      let (addr0, key) = derive params pub_seed addr 0 in
      let (addr1, mask) = derive params pub_seed addr0 1 in
      (
        addr1,
        core_hash params (
            ull_to_bytes params.padding_len padding_f
            ++ (key ++ xor_bytes (take params.n input) mask)),
      )
