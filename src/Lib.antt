-- ===== src/Lib.antt =====
-- A model of the XMSS and XMSS^MT reference implementation (RFC 8391), with theorems about it.
--
-- The program. A parameter set (params.c) gives the sizes of everything. A WOTS+ key pair (wots.c)
-- signs one message of n bytes: the message's base-w digits, and those of their checksum, say how
-- far each of wots_len hash chains is walked. The l-tree (xmss_commons.c) hashes a WOTS+ public key
-- to one leaf, and TreeHash (xmss_core.c) hashes 2^tree_height leaves to a root, keeping the
-- authentication path of one leaf on the way. A signature has, for each of the d layers of trees, a
-- WOTS+ signature of the root below (of the message's hash on the bottom layer) and an
-- authentication path. The verifier (xmss_commons.c) goes the same way up from the leaf and compares
-- the root. Every hash goes through hash.c, which makes keys and bitmasks from an address
-- (hash_address.c); the key's state is the index in front of the secret key, which signing moves on.
-- The functions of xmss.c put the OID of the parameter set in front of the keys.
--
-- The files, and the code they are about:
--   Base          lists, tests and bits the parts share
--   Utils         utils.c: ull_to_bytes, bytes_to_ull
--   Address       hash_address.c: the eight words of an address as a record, one field per word
--   Params        params.c and params.h: the OID tables, by the switch cases, and the derived sizes
--   Hash          hash.c: core_hash with its padding, prf, hash_message, thash_h, thash_f
--   Wots          wots.c: chains, checksum, key generation, signing, the key of a signature
--   Commons       xmss_commons.c: l_tree, compute_root, gen_leaf_wots, xmssmt_core_sign_open; in
--                 Commons.Tree the Merkle tree as a recursive definition, the specification
--   Core          xmss_core.c: treehash, the key pair from a seed, xmssmt_core_sign
--   Fast          xmss_core_fast.c, the other implementation of xmss_core.h: the state of the BDS
--                 traversal and its bytes in the secret key (Fast), its operations (Fast.Update,
--                 Fast.Round), key generation and signing (Fast.Sign for XMSS, Fast.SignMt for
--                 XMSS^MT). The other children are about the path of the next leaf (Carry,
--                 NextPath), the state that a tree starts with (Saved, Build, Ready, Leaf, Init,
--                 NextTree), the stack that the instances share (Tail, Advance, Shared, Choice, Lows,
--                 Chosen, Updates, Restart, Frames, RoundShared), the number of updates that they
--                 take (Debt, Spend, Credit, Start, Charge, Timely), the bytes of a state (RoundTrip,
--                 Fits, FitsRound), and all of it together (Live, KeyPair, Refines, Series)
--   Xmss          xmss.c: the OID in front of the keys, and dispatch on it
--   Examples      a small parameter set and a toy hash, runs of the model, the witnesses
--
-- How code becomes a definition. A byte is a number below 256 and a buffer a list; `unsigned int` and
-- `unsigned long long` are numbers, reduced by u32 and u64 where the source's arithmetic can wrap. A
-- function that writes through a pointer gives the new contents, and one that changes an address
-- gives the address. A buffer that the source leaves uninitialised starts as zeros; where the source
-- leaves it unwritten because of an error, `written` keeps what stood there. Pointers into the middle
-- of a buffer are suffixes of the list, or the list and an offset. The return code 0 of the functions
-- that can fail is `some`, or `true` in Core.
--
-- The compression functions SHA-256, SHA-512 (OpenSSL) and SHAKE128, SHAKE256 (fips202.c, a copy of a
-- public implementation) are the fields of the record HashFns, an argument of everything that hashes.
-- The theorems that need the length of a digest have HasLengths as a hypothesis: each of the functions
-- gives as many bytes as it documents. Random bytes are an argument of the key generation.
--
-- Loops. Loops over a counter are structural on the rounds left. The loop of l_tree runs while l > 1
-- and about halves l each round, so wots_len rounds of fuel are enough. TreeHash keeps its stack as a
-- list of heights and nodes, the top first, and its inner loop is structural on that list. In Fast the
-- stack is the two arrays of the source, and the inner loop takes the offset as its fuel, which each
-- round lowers by one. The loop of bds_treehash_update is structural on the updates.
--
-- The traversal. The buffers of a BDS state are regions of the secret key; here a state holds their
-- contents, which serializing puts back where they stand, and what the source does to the key as a
-- whole (erasing it) is done to the states as well. bds_k is 0 in every parameter set, and the theorems
-- on the traversal are about those; the definitions have `retain` all the same. `char` is taken to be
-- signed where bds_treehash_update returns one.
--
-- Not modelled: fips202.c, randombytes.c, the command line programs of ui and the programs of test.
mod Base
pub mod Utils
pub mod Address
pub mod Params
pub mod Hash
pub mod Wots
pub mod Commons
pub mod Core
pub mod Fast
pub mod Xmss
mod Examples
