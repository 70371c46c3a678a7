-- ===== src/Examples/Witnesses.antt =====
-- Each theorem that has hypotheses, at an input that meets them.
use xmss_reference.Base.{
  ℕ, ◌<◌, ◌≡◌, ◌⊎◌, List, [], ◌∷◌, ◌++◌, length-replicate, replicate, drop, length, ◌≤◌, All, some,
  ◌>>=◌, refl, true, arith,
}
use xmss_reference.Utils.{ull_to_bytes, bytes_to_ull}
use xmss_reference.Utils.RoundTrip.{bytes_to_ull-ull_to_bytes, ull_to_bytes-bytes_to_ull}
use xmss_reference.Address.{Addr, zero_addr, addr_type_hashtree, set_type, copy_subtree_addr}
use xmss_reference.Address.Encoding.{addr_to_bytes_inj}
use xmss_reference.Params.{
  xmss_parse_oid, xmssmt_parse_oid, initialize_params, wots_constants, set_wots_lengths, set_sizes,
}
use xmss_reference.Params.Sets.{Answers, xmss_parse_oid-Answers, xmssmt_parse_oid-Answers}
use xmss_reference.Params.Names.{
  Sets, xmss_parse_oid-xmss_str_to_oid, xmssmt_parse_oid-xmssmt_str_to_oid, sha2_256, h10,
  shake_512, h60_d6,
}
use xmss_reference.Params.Table.{
  xmss_str_to_oid, xmssmt_str_to_oid, xmss_func, xmss_n, xmss_height, xmssmt_func, xmssmt_n,
  xmssmt_height, xmssmt_d, one_of,
}
use xmss_reference.Hash.{core_hash}
use xmss_reference.Hash.Lengths.{Writes, core_hash-Writes}
use xmss_reference.Wots.{
  wots_pk_from_sig, wots_sign, wots_pkgen, chain_lengths, wots_checksum, base_w,
}
use xmss_reference.Wots.Correct.{pk_from_sig-sign}
use xmss_reference.Wots.Checksum.{Below, chain_lengths-Below}
use xmss_reference.Wots.Keys.{ots_part}
use xmss_reference.Commons.{compute_root, l_tree, l_tree_loop, xmssmt_core_sign_open}
use xmss_reference.Commons.Tree.{typed_addr, node, auth_nodes}
use xmss_reference.Commons.Root.{compute_root_lem}
use xmss_reference.Core.{
  KeyPair, Signed, core_sk_bytes, blank_path, flatten_nodes, treehash, treehash_loop,
  xmssmt_core_seed_keypair, xmssmt_core_sign,
}
use xmss_reference.Core.TreeHash.{initial, treehash_lem, treehash_loop-length}
use xmss_reference.Core.Series.{AllOpen, sign_all-AllOpen}
use xmss_reference.Commons.Ltree.{l_tree_loop_fuel}
use xmss_reference.Commons.Rows.{rows}
use xmss_reference.Commons.InPlace.{l_tree_lem}
use xmss_reference.Core.Correct.{sign_open-sign}
use xmss_reference.Core.UsedUp.{Wiped, IsRefused, AllRefused, sign_all-AllRefused}
use xmss_reference.Core.Index.{
  key_at, IsNext, Successive, sign_all, sign-IsNext, sign_all-Successive, last_signature_same,
  sign_never_refused,
}
use xmss_reference.Xmss.{
  oid_to_bytes, oid_of_bytes, blank_params, xmss_keypair, xmss_sign, xmss_sign_open, xmssmt_keypair,
  xmssmt_sign, xmssmt_sign_open,
}
use xmss_reference.Xmss.Correct.{sign_many, xmss_sign_open-xmss_sign, xmssmt_sign_open-xmssmt_sign}
use xmss_reference.Xmss.Oid.{oid_of_bytes-oid_to_bytes}
use xmss_reference.Examples.Data.{
  toy_fns, toy_fns-HasLengths, small_set, small_set-IsParams, full_set, full_set-IsParams,
}

bytes_to_ull-ull_to_bytes_example : bytes_to_ull (ull_to_bytes 3 70000 ++ (7 ∷ [])) 3 ≡ 70000
bytes_to_ull-ull_to_bytes_example =
    bytes_to_ull-ull_to_bytes 3 70000 (7 ∷ []) (omega arith) (omega arith)

ull_to_bytes-bytes_to_ull_example : ull_to_bytes 2 (bytes_to_ull (1 ∷ 200 ∷ []) 2) ≡ 1 ∷ 200 ∷ []
ull_to_bytes-bytes_to_ull_example =
    ull_to_bytes-bytes_to_ull (1 ∷ 200 ∷ []) (omega arith) (omega arith)

addr_to_bytes_inj_example : zero_addr ≡ zero_addr
addr_to_bytes_inj_example = addr_to_bytes_inj zero_addr zero_addr (omega arith) (omega arith) refl

xmss_parse_oid-Answers_example : Answers 21 13 (xmss_parse_oid core_sk_bytes blank_params 13)
xmss_parse_oid-Answers_example = xmss_parse_oid-Answers core_sk_bytes blank_params 13

xmssmt_parse_oid-Answers_example : Answers 56 60 (xmssmt_parse_oid core_sk_bytes blank_params 60)
xmssmt_parse_oid-Answers_example = xmssmt_parse_oid-Answers core_sk_bytes blank_params 60

xmss_parse_oid-xmss_str_to_oid_example :
    Sets sha2_256 10 1 (xmss_parse_oid core_sk_bytes blank_params 1)
unfolding xmss_str_to_oid
xmss_parse_oid-xmss_str_to_oid_example =
    xmss_parse_oid-xmss_str_to_oid core_sk_bytes blank_params sha2_256 h10

xmssmt_parse_oid-xmssmt_str_to_oid_example :
    Sets shake_512 60 6 (xmssmt_parse_oid core_sk_bytes blank_params 31)
unfolding xmssmt_str_to_oid
xmssmt_parse_oid-xmssmt_str_to_oid_example =
    xmssmt_parse_oid-xmssmt_str_to_oid core_sk_bytes blank_params shake_512 h60_d6

oid_of_bytes-oid_to_bytes_example : oid_of_bytes (oid_to_bytes 56 ++ (1 ∷ 2 ∷ [])) ≡ 56
oid_of_bytes-oid_to_bytes_example = oid_of_bytes-oid_to_bytes 56 (1 ∷ 2 ∷ []) (omega arith)

core_hash-Writes_example : Writes 24 (core_hash toy_fns small_set (1 ∷ 2 ∷ []))
core_hash-Writes_example =
    core_hash-Writes toy_fns toy_fns-HasLengths small_set (1 ∷ 2 ∷ []) (ground arith)

abbrev seed_a : List ℕ
seed_a = replicate 24 1

abbrev seed_b : List ℕ
seed_b = replicate 24 2

abbrev digest : List ℕ
digest = replicate 24 90

abbrev blank : List ℕ
blank = replicate 1224 0

pk_from_sig-sign_example :
    (wots_pk_from_sig toy_fns small_set
      ((wots_sign toy_fns small_set blank digest seed_a seed_b zero_addr).1 ++ (1 ∷ 2 ∷ []))
      digest
      seed_b
      zero_addr).1
    ≡ (wots_pkgen toy_fns small_set blank seed_a seed_b zero_addr).1
pk_from_sig-sign_example =
    pk_from_sig-sign toy_fns toy_fns-HasLengths small_set small_set-IsParams seed_a seed_b digest
      blank blank (1 ∷ 2 ∷ []) zero_addr zero_addr zero_addr (length-replicate {A = ℕ} 1224 0)
      (length-replicate {A = ℕ} 1224 0) refl refl

digest-Below : Below (chain_lengths small_set digest) (chain_lengths small_set digest)
unfolding chain_lengths wots_checksum base_w ull_to_bytes
digest-Below = omega arith

chain_lengths-Below_example : digest ≡ digest
chain_lengths-Below_example =
    chain_lengths-Below small_set small_set-IsParams digest digest refl refl (omega arith)
      (omega arith) digest-Below

abbrev keys : List ℕ
keys = replicate 96 3

sign-IsNext_example :
    IsNext small_set 7 keys
      (5 ∷ [])
      (xmssmt_core_sign toy_fns small_set (key_at small_set 7 keys) (5 ∷ []))
sign-IsNext_example = sign-IsNext toy_fns small_set small_set-IsParams 7 keys (5 ∷ []) (omega arith)

last_key : bytes_to_ull (key_at small_set 1023 keys) 4 ≡ 1023
last_key = bytes_to_ull-ull_to_bytes 4 1023 keys (omega arith) (omega arith)

sign_all-AllRefused_example :
    let sk = key_at small_set 1023 keys in
    let s = xmssmt_core_sign toy_fns small_set sk (5 ∷ []) in
    ((bytes_to_ull sk 4 ≡ 1023) × (s.ret ≡ true) × Wiped small_set s.sk
      ⊎ (1023 < bytes_to_ull sk 4) × IsRefused small_set (5 ∷ []) s)
    × AllRefused small_set
        ((6 ∷ []) ∷ [] ∷ (7 ∷ []) ∷ [])
        (sign_all toy_fns small_set s.sk ((6 ∷ []) ∷ [] ∷ (7 ∷ []) ∷ []))
sign_all-AllRefused_example =
    sign_all-AllRefused small_set small_set-IsParams (omega arith) (omega arith) toy_fns
      (key_at small_set 1023 keys) (5 ∷ []) ((6 ∷ []) ∷ [] ∷ (7 ∷ []) ∷ [])
      (omega (arith, last_key))

sign_all-Successive_example :
    Successive small_set 7
      (sign_all toy_fns small_set (key_at small_set 7 keys) ((5 ∷ []) ∷ [] ∷ []))
sign_all-Successive_example =
    sign_all-Successive toy_fns small_set small_set-IsParams 7 keys ((5 ∷ []) ∷ [] ∷ [])
      (omega arith)

abbrev other_keys : List ℕ
other_keys = replicate 96 4

last_signature_same_example :
    xmssmt_core_sign toy_fns small_set (key_at small_set 1023 keys) (5 ∷ [])
    ≡ xmssmt_core_sign toy_fns small_set (key_at small_set 1023 other_keys) (5 ∷ [])
last_signature_same_example =
    last_signature_same toy_fns small_set small_set-IsParams (key_at small_set 1023 keys)
      (key_at small_set 1023 other_keys) (5 ∷ [])
      (bytes_to_ull-ull_to_bytes 4 1023 keys (omega arith) (omega arith))
      (bytes_to_ull-ull_to_bytes 4 1023 other_keys (omega arith) (omega arith))

sign_never_refused_example :
    (xmssmt_core_sign toy_fns full_set (replicate 5 255 ++ keys) (5 ∷ [])).ret ≡ true
sign_never_refused_example =
    sign_never_refused toy_fns full_set full_set-IsParams (replicate 5 255) keys (5 ∷ []) refl refl
      (omega arith)

abbrev pair : KeyPair
pair = xmssmt_core_seed_keypair toy_fns full_set (replicate 72 7)

abbrev third : Signed
third = xmssmt_core_sign toy_fns full_set (key_at full_set 3 (drop 5 pair.sk)) (104 ∷ 105 ∷ [])

sign_open-sign_example :
    xmssmt_core_sign_open toy_fns full_set third.sm third.smlen pair.pk
    ≡ record { ret = true; mlen = 2; m = 104 ∷ 105 ∷ [] }
sign_open-sign_example =
    sign_open-sign toy_fns toy_fns-HasLengths full_set full_set-IsParams (replicate 72 7)
      (104 ∷ 105 ∷ []) 3 (length-replicate {A = ℕ} 72 7) (omega arith) (omega arith)

abbrev tree_node : ℕ → ℕ → List ℕ
tree_node h j =
    node toy_fns toy_fns-HasLengths small_set small_set-IsParams seed_a seed_b zero_addr h j

abbrev tree_path : ℕ → List (List ℕ)
tree_path leaf_idx =
    auth_nodes toy_fns toy_fns-HasLengths small_set small_set-IsParams seed_a seed_b zero_addr
      leaf_idx 10 0

treehash_lem_example :
    ((treehash toy_fns small_set (blank_path small_set) seed_a seed_b 5 zero_addr).0
      ≡ tree_node 10 0)
    × ((treehash toy_fns small_set (blank_path small_set) seed_a seed_b 5 zero_addr).1
        ≡ tree_path 5)
treehash_lem_example =
    treehash_lem toy_fns toy_fns-HasLengths small_set small_set-IsParams seed_a seed_b zero_addr 5
      (blank_path small_set) zero_addr refl (omega arith) refl

abbrev tree_addr : Addr
tree_addr = typed_addr zero_addr addr_type_hashtree

compute_root_lem_example :
    (ots_part
        (compute_root toy_fns small_set digest
          (tree_node 0 5)
          5
          (flatten_nodes (tree_path 5) ++ (1 ∷ []))
          seed_b
          tree_addr).0
      ≡ tree_addr)
    × ((compute_root toy_fns small_set digest
          (tree_node 0 5)
          5
          (flatten_nodes (tree_path 5) ++ (1 ∷ []))
          seed_b
          tree_addr).1
        ≡ tree_node 10 0)
unfolding set_type copy_subtree_addr
compute_root_lem_example =
    compute_root_lem toy_fns toy_fns-HasLengths small_set small_set-IsParams seed_a seed_b zero_addr
      5 digest (tree_node 0 5) (1 ∷ []) tree_addr (omega arith) refl refl

abbrev messages : List (List ℕ)
messages = (104 ∷ 105 ∷ []) ∷ ([] ∷ [])

sign_all-AllOpen_example :
    AllOpen toy_fns full_set pair.pk messages (sign_all toy_fns full_set pair.sk messages)
sign_all-AllOpen_example =
    sign_all-AllOpen toy_fns toy_fns-HasLengths full_set full_set-IsParams (replicate 72 7)
      (length-replicate {A = ℕ} 72 7) messages (omega arith) (omega arith, (omega arith, tt))

-- Before leaf 7 there are at most 10 nodes.
treehash_loop-length_example :
    length
      (treehash_loop toy_fns small_set seed_a seed_b 5 7 0
        (initial (blank_path small_set) zero_addr)).stack
    ≤ 10
treehash_loop-length_example =
    treehash_loop-length toy_fns toy_fns-HasLengths small_set small_set-IsParams seed_a seed_b
      zero_addr 5 7 (blank_path small_set) zero_addr refl refl (omega arith)

-- 51 nodes, with the fuel of l_tree and with less.
l_tree_loop_fuel_example :
    l_tree_loop toy_fns small_set 51 51 0 blank seed_b zero_addr
    ≡ l_tree_loop toy_fns small_set 50 51 0 blank seed_b zero_addr
l_tree_loop_fuel_example =
    l_tree_loop_fuel toy_fns small_set seed_b 51 50 51 0 blank zero_addr (omega arith) (omega arith)

abbrev sevens : ℕ → List ℕ
sevens k = replicate k 7

parse_13 : xmss_parse_oid core_sk_bytes blank_params 13 ≡ some small_set
unfolding xmss_parse_oid xmss_func xmss_n xmss_height one_of initialize_params wots_constants
    set_wots_lengths set_sizes core_sk_bytes
parse_13 = refl

xmss_sign_open-xmss_sign_example :
    (do
      pair ← xmss_keypair toy_fns sevens 13
      sk ← sign_many (xmss_sign toy_fns) pair.sk messages
      s ← xmss_sign toy_fns sk (104 ∷ 111 ∷ [])
      xmss_sign_open toy_fns s.sm s.smlen pair.pk)
    ≡ some (record { ret = true; mlen = 2; m = 104 ∷ 111 ∷ [] })
xmss_sign_open-xmss_sign_example =
    xmss_sign_open-xmss_sign toy_fns toy_fns-HasLengths sevens (λ k. length-replicate k 7) 13
      small_set parse_13 messages (104 ∷ 111 ∷ []) (omega arith) (omega arith)

parse_mt : xmssmt_parse_oid core_sk_bytes blank_params 37 ≡ some full_set
unfolding xmssmt_parse_oid xmssmt_func xmssmt_n xmssmt_height xmssmt_d one_of initialize_params
    wots_constants set_wots_lengths set_sizes core_sk_bytes
parse_mt = refl

xmssmt_sign_open-xmssmt_sign_example :
    (do
      pair ← xmssmt_keypair toy_fns sevens 37
      sk ← sign_many (xmssmt_sign toy_fns) pair.sk messages
      s ← xmssmt_sign toy_fns sk (104 ∷ 111 ∷ [])
      xmssmt_sign_open toy_fns s.sm s.smlen pair.pk)
    ≡ some (record { ret = true; mlen = 2; m = 104 ∷ 111 ∷ [] })
xmssmt_sign_open-xmssmt_sign_example =
    xmssmt_sign_open-xmssmt_sign toy_fns toy_fns-HasLengths sevens (λ k. length-replicate k 7) 37
      full_set parse_mt messages (104 ∷ 111 ∷ []) (omega arith) (omega arith)

abbrev key_nodes : List (List ℕ)
key_nodes = replicate 51 (replicate 24 3)

key_nodes-All : All (λ x. length x ≡ 24) key_nodes
key_nodes-All = ground arith

l_tree_lem_example :
    (l_tree toy_fns small_set (flatten_nodes key_nodes ++ (9 ∷ [])) seed_b zero_addr).1
    ≡ rows toy_fns small_set seed_b zero_addr 51 0 key_nodes
l_tree_lem_example =
    l_tree_lem toy_fns toy_fns-HasLengths small_set small_set-IsParams seed_b zero_addr key_nodes
      (9 ∷ []) refl key_nodes-All
