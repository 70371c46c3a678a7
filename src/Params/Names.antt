-- ===== src/Params/Names.antt =====
-- params.c: from the name of a parameter set over its OID to the parameters.
use xmss_reference.Base.{ℕ, ◌≡◌, refl, Option, none, some, ◌>>=◌}
use xmss_reference.Params.Table.{
  xmss_sha2, xmss_shake128, xmss_shake256, one_of, xmss_func, xmss_n, xmss_height, xmssmt_func,
  xmssmt_n, xmssmt_height, xmssmt_d, xmss_str_to_oid, xmssmt_str_to_oid,
}
use xmss_reference.Params.{
  Params, wots_constants, set_wots_lengths, set_sizes, initialize_params, xmss_parse_oid,
  xmssmt_parse_oid,
}
use Prim.Native.String.{String, ◌++◌}

-- The hash functions of RFC 8391 and NIST SP 800-208, with the bits of the output.
pub data Suite : Type 0 where
  sha2_192 sha2_256 sha2_512 shake_256 shake_512 shake256_192 shake256_256 : Suite

-- The heights of XMSS, and the heights and layers of XMSS^MT.
pub data Height : Type 0 where
  h10 h16 h20 : Height

pub data Layers : Type 0 where
  h20_d2 h20_d4 h40_d2 h40_d4 h40_d8 h60_d3 h60_d6 h60_d12 : Layers

-- How a name begins and ends.
abbrev family : Suite → String
family sha2_192 = "SHA2"
family sha2_256 = "SHA2"
family sha2_512 = "SHA2"
family shake_256 = "SHAKE"
family shake_512 = "SHAKE"
family shake256_192 = "SHAKE256"
family shake256_256 = "SHAKE256"

abbrev bits : Suite → String
bits sha2_192 = "192"
bits sha2_256 = "256"
bits sha2_512 = "512"
bits shake_256 = "256"
bits shake_512 = "512"
bits shake256_192 = "192"
bits shake256_256 = "256"

abbrev height_text : Height → String
height_text h10 = "10"
height_text h16 = "16"
height_text h20 = "20"

abbrev layers_text : Layers → String
layers_text h20_d2 = "20/2"
layers_text h20_d4 = "20/4"
layers_text h40_d2 = "40/2"
layers_text h40_d4 = "40/4"
layers_text h40_d8 = "40/8"
layers_text h60_d3 = "60/3"
layers_text h60_d6 = "60/6"
layers_text h60_d12 = "60/12"

abbrev pub xmss_name : Suite → Height → String
xmss_name s h = "XMSS-" ++ (family s ++ ("_" ++ (height_text h ++ ("_" ++ bits s))))

abbrev pub xmssmt_name : Suite → Layers → String
xmssmt_name s l = "XMSSMT-" ++ (family s ++ ("_" ++ (layers_text l ++ ("_" ++ bits s))))

-- The function behind a suite, and its output in bytes. SHAKE with 512 bits is SHAKE256.
abbrev pub function_of : Suite → ℕ
function_of sha2_192 = xmss_sha2
function_of sha2_256 = xmss_sha2
function_of sha2_512 = xmss_sha2
function_of shake_256 = xmss_shake128
function_of shake_512 = xmss_shake256
function_of shake256_192 = xmss_shake256
function_of shake256_256 = xmss_shake256

abbrev pub bytes_of : Suite → ℕ
bytes_of sha2_192 = 24
bytes_of sha2_256 = 32
bytes_of sha2_512 = 64
bytes_of shake_256 = 32
bytes_of shake_512 = 64
bytes_of shake256_192 = 24
bytes_of shake256_256 = 32

abbrev pub height_of : Height → ℕ
height_of h10 = 10
height_of h16 = 16
height_of h20 = 20

abbrev pub full_height_of : Layers → ℕ
full_height_of h20_d2 = 20
full_height_of h20_d4 = 20
full_height_of h40_d2 = 40
full_height_of h40_d4 = 40
full_height_of h40_d8 = 40
full_height_of h60_d3 = 60
full_height_of h60_d6 = 60
full_height_of h60_d12 = 60

abbrev pub d_of : Layers → ℕ
d_of h20_d2 = 2
d_of h20_d4 = 4
d_of h40_d2 = 2
d_of h40_d4 = 4
d_of h40_d8 = 8
d_of h60_d3 = 3
d_of h60_d6 = 6
d_of h60_d12 = 12

-- The call succeeds, with parameters of this function, output length, height and number of layers.
abbrev pub Sets : Suite → ℕ → ℕ → Option Params → Type 0
Sets s height d none = ⊥
Sets s height d (some p) =
    (p.func ≡ function_of s) × (p.n ≡ bytes_of s) × (p.full_height ≡ height) × (p.d ≡ d)

module _ (core_sk_bytes : Params → ℕ) (p : Params) where
  -- `xmss_str_to_oid` and then `xmss_parse_oid` take the name of each of the 21 parameter sets of XMSS
  -- to parameters with the hash function, the output length and the height that the name states, and
  -- one layer.
  pub xmss_parse_oid-xmss_str_to_oid :
      (s : Suite) (h : Height)
      → Sets s (height_of h) 1 (xmss_str_to_oid (xmss_name s h) >>= xmss_parse_oid core_sk_bytes p)
  unfolding xmss_str_to_oid xmss_parse_oid xmss_func xmss_n xmss_height one_of initialize_params
      wots_constants set_wots_lengths set_sizes
  xmss_parse_oid-xmss_str_to_oid sha2_192 h10 = (refl, refl, refl, refl)
  xmss_parse_oid-xmss_str_to_oid sha2_192 _ = (refl, refl, refl, refl)
  xmss_parse_oid-xmss_str_to_oid sha2_256 h10 = (refl, refl, refl, refl)
  xmss_parse_oid-xmss_str_to_oid sha2_256 _ = (refl, refl, refl, refl)
  xmss_parse_oid-xmss_str_to_oid sha2_512 h10 = (refl, refl, refl, refl)
  xmss_parse_oid-xmss_str_to_oid sha2_512 _ = (refl, refl, refl, refl)
  xmss_parse_oid-xmss_str_to_oid shake_256 h10 = (refl, refl, refl, refl)
  xmss_parse_oid-xmss_str_to_oid shake_256 _ = (refl, refl, refl, refl)
  xmss_parse_oid-xmss_str_to_oid shake_512 h10 = (refl, refl, refl, refl)
  xmss_parse_oid-xmss_str_to_oid shake_512 _ = (refl, refl, refl, refl)
  xmss_parse_oid-xmss_str_to_oid shake256_192 h10 = (refl, refl, refl, refl)
  xmss_parse_oid-xmss_str_to_oid shake256_192 _ = (refl, refl, refl, refl)
  xmss_parse_oid-xmss_str_to_oid shake256_256 h10 = (refl, refl, refl, refl)
  xmss_parse_oid-xmss_str_to_oid shake256_256 _ = (refl, refl, refl, refl)

  -- `xmssmt_str_to_oid` and then `xmssmt_parse_oid` take the name of each of the 56 parameter sets of
  -- XMSS^MT to parameters with the hash function, the output length, the full height and the number
  -- of layers that the name states.
  pub xmssmt_parse_oid-xmssmt_str_to_oid :
      (s : Suite) (l : Layers)
      → Sets s
          (full_height_of l)
          (d_of l)
          (xmssmt_str_to_oid (xmssmt_name s l) >>= xmssmt_parse_oid core_sk_bytes p)
  unfolding xmssmt_str_to_oid xmssmt_parse_oid xmssmt_func xmssmt_n xmssmt_height xmssmt_d one_of
      initialize_params wots_constants set_wots_lengths set_sizes
  xmssmt_parse_oid-xmssmt_str_to_oid sha2_192 h20_d2 = (refl, refl, refl, refl)
  xmssmt_parse_oid-xmssmt_str_to_oid sha2_192 _ = (refl, refl, refl, refl)
  xmssmt_parse_oid-xmssmt_str_to_oid sha2_256 h20_d2 = (refl, refl, refl, refl)
  xmssmt_parse_oid-xmssmt_str_to_oid sha2_256 _ = (refl, refl, refl, refl)
  xmssmt_parse_oid-xmssmt_str_to_oid sha2_512 h20_d2 = (refl, refl, refl, refl)
  xmssmt_parse_oid-xmssmt_str_to_oid sha2_512 _ = (refl, refl, refl, refl)
  xmssmt_parse_oid-xmssmt_str_to_oid shake_256 h20_d2 = (refl, refl, refl, refl)
  xmssmt_parse_oid-xmssmt_str_to_oid shake_256 _ = (refl, refl, refl, refl)
  xmssmt_parse_oid-xmssmt_str_to_oid shake_512 h20_d2 = (refl, refl, refl, refl)
  xmssmt_parse_oid-xmssmt_str_to_oid shake_512 _ = (refl, refl, refl, refl)
  xmssmt_parse_oid-xmssmt_str_to_oid shake256_192 h20_d2 = (refl, refl, refl, refl)
  xmssmt_parse_oid-xmssmt_str_to_oid shake256_192 _ = (refl, refl, refl, refl)
  xmssmt_parse_oid-xmssmt_str_to_oid shake256_256 h20_d2 = (refl, refl, refl, refl)
  xmssmt_parse_oid-xmssmt_str_to_oid shake256_256 _ = (refl, refl, refl, refl)
