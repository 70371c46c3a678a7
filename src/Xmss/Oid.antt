-- ===== src/Xmss/Oid.antt =====
-- xmss.c: the OID in front of a key.
use xmss_reference.Base.{ℕ, ◌/◌, ◌%◌, ◌^◌, ◌<◌, ◌≡◌, List, ◌++◌, arith, bit_and_mask, bit_or_high}
use xmss_reference.Xmss.{oid_to_bytes, oid_of_bytes}

-- The OID that `xmss_keypair` or `xmssmt_keypair` writes in front of a key is the one that signing and
-- verification read, whatever follows it.
pub oid_of_bytes-oid_to_bytes :
    (oid : ℕ) (key : List ℕ) → oid < 2 ^ 32 → oid_of_bytes (oid_to_bytes oid ++ key) ≡ oid
unfolding oid_of_bytes oid_to_bytes
oid_of_bytes-oid_to_bytes oid key h = ground (
  arith,
  bit_and_mask 8 (oid / 2 ^ 24),
  bit_and_mask 8 (oid / 2 ^ 16),
  bit_and_mask 8 (oid / 2 ^ 8),
  bit_and_mask 8 (oid / 2 ^ 0),
  bit_or_high 0 (oid % 256) 0,
  bit_or_high 8 (oid / 2 ^ 8 % 256) (oid % 256),
  bit_or_high 16 (oid / 2 ^ 16 % 256) (oid % 2 ^ 16),
  bit_or_high 24 (oid / 2 ^ 24 % 256) (oid % 2 ^ 24),
)
