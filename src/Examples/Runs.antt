-- ===== src/Examples/Runs.antt =====
-- Runs of the model at inputs that can be followed in the source.
use xmss_reference.Base.{◌≡◌, refl, none, some, [], ◌∷◌, ◌++◌, replicate}
use xmss_reference.Utils.{ull_to_bytes, bytes_to_ull}
use xmss_reference.Params.{
  xmss_parse_oid, initialize_params, wots_constants, set_wots_lengths, set_sizes,
}
use xmss_reference.Params.Table.{xmss_func, xmss_n, xmss_height, one_of, xmss_str_to_oid}
use xmss_reference.Core.{core_sk_bytes}
use xmss_reference.Xmss.{blank_params}
use xmss_reference.Wots.{chain_lengths, wots_checksum, base_w}
use xmss_reference.Examples.Data.{small_set}

write_300 : ull_to_bytes 4 300 ≡ 0 ∷ 0 ∷ 1 ∷ 44 ∷ []
unfolding ull_to_bytes
write_300 = refl

read_300 : bytes_to_ull (0 ∷ 0 ∷ 1 ∷ 44 ∷ 9 ∷ []) 4 ≡ 300
unfolding bytes_to_ull
read_300 = refl

parse_13 : xmss_parse_oid core_sk_bytes blank_params 13 ≡ some small_set
unfolding xmss_parse_oid xmss_func xmss_n xmss_height one_of initialize_params wots_constants
    set_wots_lengths set_sizes core_sk_bytes
parse_13 = refl

name_13 : xmss_str_to_oid "XMSS-SHA2_10_192" ≡ some 13
unfolding xmss_str_to_oid
name_13 = refl

no_name : xmss_str_to_oid "XMSS-SHA3_10_192" ≡ none
unfolding xmss_str_to_oid
no_name = refl

-- 47 digits 0 and one 5: the checksum is 48 * 15 - 5 = 0x2cb.
lengths_of_5 :
    chain_lengths small_set (5 ∷ replicate 23 0)
    ≡ (0 ∷ 5 ∷ []) ++ (replicate 46 0 ++ (2 ∷ 12 ∷ 11 ∷ []))
unfolding chain_lengths wots_checksum base_w ull_to_bytes
lengths_of_5 = refl
