-- ===== src/Examples/Data.antt =====
-- A parameter set and stand-ins for the hash functions, for the examples.
use xmss_reference.Base.{ℕ, ◌+◌, ◌%◌, List, [], ◌∷◌, length-replicate, replicate, arith}
use xmss_reference.Params.{Params}
use xmss_reference.Params.Sets.{IsParams}
use xmss_reference.Hash.{HashFns}
use xmss_reference.Hash.Lengths.{HasLengths}

abbrev pub byte_sum : List ℕ → ℕ
byte_sum [] = 0
byte_sum (b ∷ bs) = b + byte_sum bs

-- The sum of the input's bytes, as often as the output has bytes.
abbrev pub toy_fns : HashFns
toy_fns = record {
  sha256 = λ input. replicate 32 (byte_sum input % 256);
  sha512 = λ input. replicate 64 (byte_sum input % 256);
  shake128 = λ outlen input. replicate outlen (byte_sum input % 256);
  shake256 = λ outlen input. replicate outlen (byte_sum input % 256);
}

pub toy_fns-HasLengths : HasLengths toy_fns
toy_fns-HasLengths = record {
  sha256_length = λ input. length-replicate 32 (byte_sum input % 256);
  sha512_length = λ input. length-replicate 64 (byte_sum input % 256);
  shake128_length = λ outlen input. length-replicate outlen (byte_sum input % 256);
  shake256_length = λ outlen input. length-replicate outlen (byte_sum input % 256);
}

-- XMSS-SHA2_10_192
abbrev pub small_set : Params
small_set = record {
  func = 0;
  n = 24;
  padding_len = 4;
  wots_w = 16;
  wots_log_w = 4;
  wots_len1 = 48;
  wots_len2 = 3;
  wots_len = 51;
  wots_sig_bytes = 1224;
  full_height = 10;
  tree_height = 10;
  d = 1;
  index_bytes = 4;
  sig_bytes = 1492;
  pk_bytes = 48;
  sk_bytes = 100;
  bds_k = 0;
}

pub small_set-IsParams : IsParams small_set
small_set-IsParams = ground arith

-- XMSSMT-SHA2_40/8_192
abbrev pub full_set : Params
full_set = record {
  func = 0;
  n = 24;
  padding_len = 4;
  wots_w = 16;
  wots_log_w = 4;
  wots_len1 = 48;
  wots_len2 = 3;
  wots_len = 51;
  wots_sig_bytes = 1224;
  full_height = 40;
  tree_height = 5;
  d = 8;
  index_bytes = 5;
  sig_bytes = 10781;
  pk_bytes = 48;
  sk_bytes = 101;
  bds_k = 0;
}

pub full_set-IsParams : IsParams full_set
full_set-IsParams = ground arith
