-- ===== src/Params/Table.antt =====
-- params.c: the tables that take the name of a parameter set to its OID, and an OID to the values
-- that identify the set. Each `switch` of xmss_parse_oid and xmssmt_parse_oid is a function of its
-- own here; `none` is the `default`, a return of -1.
use xmss_reference.Base.{ℕ, Bool, false, ◌||◌, Option, none, some, List, [], ◌∷◌}
use xmss_reference.Base.{◌==◌, if◌then◌else◌}
use Prim.Native.String.{String}
use text.Mathlib.Text.{◌==◌ as str_eq}

-- The values of XMSS_SHA2, XMSS_SHAKE128 and XMSS_SHAKE256.
abbrev pub xmss_sha2 : ℕ
xmss_sha2 = 0

abbrev pub xmss_shake128 : ℕ
xmss_shake128 = 1

abbrev pub xmss_shake256 : ℕ
xmss_shake256 = 2

-- The labels of one group of cases.
unfoldable pub one_of : ℕ → List ℕ → Bool
one_of x [] = false
one_of x (y ∷ ys) = x == y || one_of x ys

unfoldable pub xmss_func : ℕ → Option ℕ
xmss_func oid =
    if one_of oid (1 ∷ 2 ∷ 3 ∷ 4 ∷ 5 ∷ 6 ∷ 13 ∷ 14 ∷ 15 ∷ [])
    then some xmss_sha2
    else if one_of oid (7 ∷ 8 ∷ 9 ∷ [])
    then some xmss_shake128
    else if one_of oid (10 ∷ 11 ∷ 12 ∷ 16 ∷ 17 ∷ 18 ∷ 19 ∷ 20 ∷ 21 ∷ [])
    then some xmss_shake256
    else none

unfoldable pub xmss_n : ℕ → Option (ℕ × ℕ)
xmss_n oid =
    if one_of oid (13 ∷ 14 ∷ 15 ∷ 19 ∷ 20 ∷ 21 ∷ [])
    then some (24, 4)
    else if one_of oid (1 ∷ 2 ∷ 3 ∷ 7 ∷ 8 ∷ 9 ∷ 16 ∷ 17 ∷ 18 ∷ [])
    then some (32, 32)
    else if one_of oid (4 ∷ 5 ∷ 6 ∷ 10 ∷ 11 ∷ 12 ∷ [])
    then some (64, 64)
    else none

unfoldable pub xmss_height : ℕ → Option ℕ
xmss_height oid =
    if one_of oid (1 ∷ 4 ∷ 7 ∷ 10 ∷ 13 ∷ 16 ∷ 19 ∷ [])
    then some 10
    else if one_of oid (2 ∷ 5 ∷ 8 ∷ 11 ∷ 14 ∷ 17 ∷ 20 ∷ [])
    then some 16
    else if one_of oid (3 ∷ 6 ∷ 9 ∷ 12 ∷ 15 ∷ 18 ∷ 21 ∷ [])
    then some 20
    else none

unfoldable pub xmssmt_func : ℕ → Option ℕ
xmssmt_func oid =
    if one_of oid (
      1 ∷ 2 ∷ 3 ∷ 4 ∷ 5 ∷ 6 ∷ 7 ∷ 8 ∷ 9 ∷ 10 ∷ 11 ∷ 12 ∷ 13 ∷ 14 ∷ 15 ∷ 16 ∷ 33 ∷ 34 ∷ 35 ∷ 36 ∷ 37
      ∷ 38 ∷ 39 ∷ 40 ∷ [])
    then some xmss_sha2
    else if one_of oid (17 ∷ 18 ∷ 19 ∷ 20 ∷ 21 ∷ 22 ∷ 23 ∷ 24 ∷ [])
    then some xmss_shake128
    else if one_of oid (
        25 ∷ 26 ∷ 27 ∷ 28 ∷ 30 ∷ 29 ∷ 31 ∷ 32 ∷ 41 ∷ 42 ∷ 43 ∷ 44 ∷ 45 ∷ 46 ∷ 47 ∷ 48 ∷ 49 ∷ 50 ∷ 51
        ∷ 52 ∷ 53 ∷ 54 ∷ 55 ∷ 56 ∷ [])
    then some xmss_shake256
    else none

unfoldable pub xmssmt_n : ℕ → Option (ℕ × ℕ)
xmssmt_n oid =
    if one_of oid
      (33 ∷ 34 ∷ 35 ∷ 36 ∷ 37 ∷ 38 ∷ 39 ∷ 40 ∷ 49 ∷ 50 ∷ 51 ∷ 52 ∷ 53 ∷ 54 ∷ 55 ∷ 56 ∷ [])
    then some (24, 4)
    else if one_of oid (
        1 ∷ 2 ∷ 3 ∷ 4 ∷ 5 ∷ 6 ∷ 7 ∷ 8 ∷ 17 ∷ 18 ∷ 19 ∷ 20 ∷ 21 ∷ 22 ∷ 23 ∷ 24 ∷ 41 ∷ 42 ∷ 43 ∷ 44
        ∷ 45 ∷ 46 ∷ 47 ∷ 48 ∷ [])
    then some (32, 32)
    else if one_of oid
        (9 ∷ 10 ∷ 11 ∷ 12 ∷ 13 ∷ 14 ∷ 15 ∷ 16 ∷ 25 ∷ 26 ∷ 27 ∷ 28 ∷ 29 ∷ 30 ∷ 31 ∷ 32 ∷ [])
    then some (64, 64)
    else none

unfoldable pub xmssmt_height : ℕ → Option ℕ
xmssmt_height oid =
    if one_of oid (1 ∷ 2 ∷ 9 ∷ 10 ∷ 17 ∷ 18 ∷ 25 ∷ 26 ∷ 33 ∷ 34 ∷ 41 ∷ 42 ∷ 49 ∷ 50 ∷ [])
    then some 20
    else if one_of oid (
        3 ∷ 4 ∷ 5 ∷ 11 ∷ 12 ∷ 13 ∷ 19 ∷ 20 ∷ 21 ∷ 27 ∷ 28 ∷ 29 ∷ 35 ∷ 36 ∷ 37 ∷ 43 ∷ 44 ∷ 45 ∷ 51
        ∷ 52 ∷ 53 ∷ [])
    then some 40
    else if one_of oid (
        6 ∷ 7 ∷ 8 ∷ 14 ∷ 15 ∷ 16 ∷ 22 ∷ 23 ∷ 24 ∷ 30 ∷ 31 ∷ 32 ∷ 38 ∷ 39 ∷ 40 ∷ 46 ∷ 47 ∷ 48 ∷ 54
        ∷ 55 ∷ 56 ∷ [])
    then some 60
    else none

unfoldable pub xmssmt_d : ℕ → Option ℕ
xmssmt_d oid =
    if one_of oid (1 ∷ 3 ∷ 9 ∷ 11 ∷ 17 ∷ 19 ∷ 25 ∷ 27 ∷ 33 ∷ 35 ∷ 41 ∷ 43 ∷ 49 ∷ 51 ∷ [])
    then some 2
    else if one_of oid (2 ∷ 4 ∷ 10 ∷ 12 ∷ 18 ∷ 20 ∷ 26 ∷ 28 ∷ 34 ∷ 36 ∷ 42 ∷ 44 ∷ 50 ∷ 52 ∷ [])
    then some 4
    else if one_of oid (5 ∷ 13 ∷ 21 ∷ 29 ∷ 37 ∷ 45 ∷ 53 ∷ [])
    then some 8
    else if one_of oid (6 ∷ 14 ∷ 22 ∷ 30 ∷ 38 ∷ 46 ∷ 54 ∷ [])
    then some 3
    else if one_of oid (7 ∷ 15 ∷ 23 ∷ 31 ∷ 39 ∷ 47 ∷ 55 ∷ [])
    then some 6
    else if one_of oid (8 ∷ 16 ∷ 24 ∷ 32 ∷ 40 ∷ 48 ∷ 56 ∷ [])
    then some 12
    else none

-- `strcmp` down a chain of `else if`: the first name that matches decides.
unfoldable pub lookup : String → List (String × ℕ) → Option ℕ
lookup s [] = none
lookup s ((name, oid) ∷ rest) = if str_eq s name then some oid else lookup s rest

abbrev pub xmss_names : List (String × ℕ)
xmss_names =
    ("XMSS-SHA2_10_256", 1)
    ∷ ("XMSS-SHA2_16_256", 2)
    ∷ ("XMSS-SHA2_20_256", 3)
    ∷ ("XMSS-SHA2_10_512", 4)
    ∷ ("XMSS-SHA2_16_512", 5)
    ∷ ("XMSS-SHA2_20_512", 6)
    ∷ ("XMSS-SHAKE_10_256", 7)
    ∷ ("XMSS-SHAKE_16_256", 8)
    ∷ ("XMSS-SHAKE_20_256", 9)
    ∷ ("XMSS-SHAKE_10_512", 10)
    ∷ ("XMSS-SHAKE_16_512", 11)
    ∷ ("XMSS-SHAKE_20_512", 12)
    ∷ ("XMSS-SHA2_10_192", 13)
    ∷ ("XMSS-SHA2_16_192", 14)
    ∷ ("XMSS-SHA2_20_192", 15)
    ∷ ("XMSS-SHAKE256_10_256", 16)
    ∷ ("XMSS-SHAKE256_16_256", 17)
    ∷ ("XMSS-SHAKE256_20_256", 18)
    ∷ ("XMSS-SHAKE256_10_192", 19)
    ∷ ("XMSS-SHAKE256_16_192", 20)
    ∷ ("XMSS-SHAKE256_20_192", 21)
    ∷ []

unfoldable pub xmss_str_to_oid : String → Option ℕ
unfolding lookup
xmss_str_to_oid s = lookup s xmss_names

abbrev pub xmssmt_names : List (String × ℕ)
xmssmt_names =
    ("XMSSMT-SHA2_20/2_256", 1)
    ∷ ("XMSSMT-SHA2_20/4_256", 2)
    ∷ ("XMSSMT-SHA2_40/2_256", 3)
    ∷ ("XMSSMT-SHA2_40/4_256", 4)
    ∷ ("XMSSMT-SHA2_40/8_256", 5)
    ∷ ("XMSSMT-SHA2_60/3_256", 6)
    ∷ ("XMSSMT-SHA2_60/6_256", 7)
    ∷ ("XMSSMT-SHA2_60/12_256", 8)
    ∷ ("XMSSMT-SHA2_20/2_512", 9)
    ∷ ("XMSSMT-SHA2_20/4_512", 10)
    ∷ ("XMSSMT-SHA2_40/2_512", 11)
    ∷ ("XMSSMT-SHA2_40/4_512", 12)
    ∷ ("XMSSMT-SHA2_40/8_512", 13)
    ∷ ("XMSSMT-SHA2_60/3_512", 14)
    ∷ ("XMSSMT-SHA2_60/6_512", 15)
    ∷ ("XMSSMT-SHA2_60/12_512", 16)
    ∷ ("XMSSMT-SHAKE_20/2_256", 17)
    ∷ ("XMSSMT-SHAKE_20/4_256", 18)
    ∷ ("XMSSMT-SHAKE_40/2_256", 19)
    ∷ ("XMSSMT-SHAKE_40/4_256", 20)
    ∷ ("XMSSMT-SHAKE_40/8_256", 21)
    ∷ ("XMSSMT-SHAKE_60/3_256", 22)
    ∷ ("XMSSMT-SHAKE_60/6_256", 23)
    ∷ ("XMSSMT-SHAKE_60/12_256", 24)
    ∷ ("XMSSMT-SHAKE_20/2_512", 25)
    ∷ ("XMSSMT-SHAKE_20/4_512", 26)
    ∷ ("XMSSMT-SHAKE_40/2_512", 27)
    ∷ ("XMSSMT-SHAKE_40/4_512", 28)
    ∷ ("XMSSMT-SHAKE_40/8_512", 29)
    ∷ ("XMSSMT-SHAKE_60/3_512", 30)
    ∷ ("XMSSMT-SHAKE_60/6_512", 31)
    ∷ ("XMSSMT-SHAKE_60/12_512", 32)
    ∷ ("XMSSMT-SHA2_20/2_192", 33)
    ∷ ("XMSSMT-SHA2_20/4_192", 34)
    ∷ ("XMSSMT-SHA2_40/2_192", 35)
    ∷ ("XMSSMT-SHA2_40/4_192", 36)
    ∷ ("XMSSMT-SHA2_40/8_192", 37)
    ∷ ("XMSSMT-SHA2_60/3_192", 38)
    ∷ ("XMSSMT-SHA2_60/6_192", 39)
    ∷ ("XMSSMT-SHA2_60/12_192", 40)
    ∷ ("XMSSMT-SHAKE256_20/2_256", 41)
    ∷ ("XMSSMT-SHAKE256_20/4_256", 42)
    ∷ ("XMSSMT-SHAKE256_40/2_256", 43)
    ∷ ("XMSSMT-SHAKE256_40/4_256", 44)
    ∷ ("XMSSMT-SHAKE256_40/8_256", 45)
    ∷ ("XMSSMT-SHAKE256_60/3_256", 46)
    ∷ ("XMSSMT-SHAKE256_60/6_256", 47)
    ∷ ("XMSSMT-SHAKE256_60/12_256", 48)
    ∷ ("XMSSMT-SHAKE256_20/2_192", 49)
    ∷ ("XMSSMT-SHAKE256_20/4_192", 50)
    ∷ ("XMSSMT-SHAKE256_40/2_192", 51)
    ∷ ("XMSSMT-SHAKE256_40/4_192", 52)
    ∷ ("XMSSMT-SHAKE256_40/8_192", 53)
    ∷ ("XMSSMT-SHAKE256_60/3_192", 54)
    ∷ ("XMSSMT-SHAKE256_60/6_192", 55)
    ∷ ("XMSSMT-SHAKE256_60/12_192", 56)
    ∷ []

unfoldable pub xmssmt_str_to_oid : String → Option ℕ
unfolding lookup
xmssmt_str_to_oid s = lookup s xmssmt_names
