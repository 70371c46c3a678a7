-- ===== src/Xmss.antt =====
-- xmss.c: keys that begin with the OID of their parameter set. The implementation behind it is
-- xmss_core.c. `none` is a return of -1: the OID is not known.
pub mod Oid
pub mod Correct
use xmss_reference.Base.{
  ℕ, ◌+◌, ◌*◌, ◌/◌, ◌^◌, Option, none, some, ◌>>=◌, List, [], ◌∷◌, ◌++◌, bit_and, bit_or, get_or,
  take, drop, u32,
}
use xmss_reference.Params.{Params, xmss_parse_oid, xmssmt_parse_oid}
use xmss_reference.Hash.{HashFns}
use xmss_reference.Commons.{Opened, xmss_core_sign_open, xmssmt_core_sign_open}
use xmss_reference.Core.{
  KeyPair, Signed, core_sk_bytes, xmss_core_keypair, xmssmt_core_keypair, xmss_core_sign,
  xmssmt_core_sign,
}

-- XMSS_OID_LEN
abbrev pub oid_len : ℕ
oid_len = 4

-- The struct that is not initialised before an OID is parsed.
abbrev pub blank_params : Params
blank_params = record {
  func = 0;
  n = 0;
  padding_len = 0;
  wots_w = 0;
  wots_log_w = 0;
  wots_len1 = 0;
  wots_len2 = 0;
  wots_len = 0;
  wots_sig_bytes = 0;
  full_height = 0;
  tree_height = 0;
  d = 0;
  index_bytes = 0;
  sig_bytes = 0;
  pk_bytes = 0;
  sk_bytes = 0;
  bds_k = 0;
}

-- The loop that writes the OID in front of a key, `(oid >> (8 * i)) & 0xFF` at `3 - i`.
unfoldable pub oid_to_bytes : ℕ → List ℕ
oid_to_bytes oid =
    bit_and (oid / 2 ^ 24) 0xff
    ∷ bit_and (oid / 2 ^ 16) 0xff
    ∷ bit_and (oid / 2 ^ 8) 0xff
    ∷ bit_and (oid / 2 ^ 0) 0xff
    ∷ []

-- The loop that reads it back, `oid |= sk[3 - i] << (8 * i)`.
unfoldable pub oid_of_bytes : List ℕ → ℕ
oid_of_bytes key =
    let oid0 = bit_or 0 (u32 (get_or key 3 0 * 2 ^ 0)) in
    let oid1 = bit_or oid0 (u32 (get_or key 2 0 * 2 ^ 8)) in
    let oid2 = bit_or oid1 (u32 (get_or key 1 0 * 2 ^ 16)) in
    bit_or oid2 (u32 (get_or key 0 0 * 2 ^ 24))

-- A key pair with the OID in front of both keys.
abbrev pub with_oid : ℕ → KeyPair → KeyPair
with_oid oid keys = record { pk = oid_to_bytes oid ++ keys.pk; sk = oid_to_bytes oid ++ keys.sk }

-- The secret key behind its OID is the one that was updated.
abbrev pub behind_oid : List ℕ → Signed → Signed
behind_oid sk signed = record signed { sk = take oid_len sk ++ signed.sk }

module _ (fns : HashFns) where
  unfoldable pub xmss_keypair : (ℕ → List ℕ) → ℕ → Option KeyPair
  xmss_keypair randombytes oid = do
    p ← xmss_parse_oid core_sk_bytes blank_params oid
    some (with_oid oid (xmss_core_keypair fns randombytes p))

  unfoldable pub xmss_sign : List ℕ → List ℕ → Option Signed
  xmss_sign sk m = do
    p ← xmss_parse_oid core_sk_bytes blank_params (oid_of_bytes sk)
    some (behind_oid sk (xmss_core_sign fns p (drop oid_len sk) m))

  unfoldable pub xmss_sign_open : List ℕ → ℕ → List ℕ → Option Opened
  xmss_sign_open sm smlen pk = do
    p ← xmss_parse_oid core_sk_bytes blank_params (oid_of_bytes pk)
    some (xmss_core_sign_open fns p sm smlen (drop oid_len pk))

  unfoldable pub xmssmt_keypair : (ℕ → List ℕ) → ℕ → Option KeyPair
  xmssmt_keypair randombytes oid = do
    p ← xmssmt_parse_oid core_sk_bytes blank_params oid
    some (with_oid oid (xmssmt_core_keypair fns randombytes p))

  unfoldable pub xmssmt_sign : List ℕ → List ℕ → Option Signed
  xmssmt_sign sk m = do
    p ← xmssmt_parse_oid core_sk_bytes blank_params (oid_of_bytes sk)
    some (behind_oid sk (xmssmt_core_sign fns p (drop oid_len sk) m))

  unfoldable pub xmssmt_sign_open : List ℕ → ℕ → List ℕ → Option Opened
  xmssmt_sign_open sm smlen pk = do
    p ← xmssmt_parse_oid core_sk_bytes blank_params (oid_of_bytes pk)
    some (xmssmt_core_sign_open fns p sm smlen (drop oid_len pk))
