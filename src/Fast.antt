-- ===== src/Fast.antt =====
-- xmss_core_fast.c: the state of the BDS traversal, and how it stands in the secret key. In the source
-- the buffers of a state are regions of the secret key; here a state holds their contents, arrays of
-- nodes as lists of nodes, and what serializing writes has them where they stand.
pub mod Update
pub mod Round
pub mod Sign
pub mod SignMt
pub mod RoundTrip
pub mod Carry
pub mod NextPath
pub mod Saved
pub mod Build
pub mod Leaf
pub mod NextTree
pub mod Tail
pub mod Advance
pub mod Shared
pub mod Choice
pub mod Lows
pub mod Chosen
pub mod Updates
pub mod Restart
pub mod Frames
pub mod RoundShared
pub mod Debt
pub mod Spend
pub mod Credit
pub mod Start
pub mod Charge
pub mod Timely
pub mod Live
pub mod IndexBytes
pub mod Refines
pub mod Fits
pub mod FitsRound
pub mod Series
pub mod Ready
pub mod KeyPair
pub mod Init
use xmss_reference.Base.{
  ℕ, zero, suc, ◌+◌, ◌-◌, ◌*◌, ◌/◌, ◌^◌, List, [], ◌∷◌, ◌++◌, length, get_or, set, take, drop,
  replicate, u8, u32,
}
use xmss_reference.Utils.{ull_to_bytes, bytes_to_ull}
use xmss_reference.Params.{Params}
use xmss_reference.Core.{flatten_nodes}

pub record TreehashInst : Type 0 where
  pub h : ℕ
  pub next_idx : ℕ
  pub stackusage : ℕ
  pub completed : ℕ
  pub node : List ℕ

pub record BdsState : Type 0 where
  pub stack : List (List ℕ)
  pub stackoffset : ℕ
  pub stacklevels : List ℕ
  pub auth : List (List ℕ)
  pub keep : List (List ℕ)
  pub treehash : List TreehashInst
  pub retain : List (List ℕ)
  pub next_leaf : ℕ

abbrev pub blank_inst : TreehashInst
blank_inst = record { h = 0; next_idx = 0; stackusage = 0; completed = 0; node = [] }

-- The number of instances of a state, and of nodes in `retain`.
abbrev pub instances : Params → ℕ
instances p = p.tree_height - p.bds_k

abbrev pub retained : Params → ℕ
retained p = 2 ^ p.bds_k - p.bds_k - 1

-- The loop over the instances, and behind it `rest`.
pub serialize_insts : List TreehashInst → List ℕ → List ℕ
serialize_insts [] rest = rest
serialize_insts (t ∷ ts) rest =
    ull_to_bytes 1 t.h
    ++ (ull_to_bytes 4 t.next_idx
        ++ (ull_to_bytes 1 t.stackusage
            ++ (ull_to_bytes 1 t.completed ++ (t.node ++ serialize_insts ts rest))))

-- One round of the loop over the states.
unfoldable pub serialize_state : BdsState → List ℕ → List ℕ
unfolding serialize_insts
serialize_state s rest =
    flatten_nodes s.stack
    ++ (ull_to_bytes 4 s.stackoffset
        ++ (s.stacklevels
            ++ (flatten_nodes s.auth
                ++ (flatten_nodes s.keep
                    ++ serialize_insts s.treehash
                        (flatten_nodes s.retain ++ (ull_to_bytes 4 s.next_leaf ++ rest))))))

-- What is behind the regular secret key: the states, and `rest`, which is not touched.
unfoldable pub xmssmt_serialize_state : List BdsState → List ℕ → List ℕ
xmssmt_serialize_state [] rest = rest
xmssmt_serialize_state (s ∷ states) rest = serialize_state s (xmssmt_serialize_state states rest)

-- The `count` nodes of `n` bytes at `sk`.
unfoldable pub chunks : ℕ → ℕ → List ℕ → List (List ℕ)
chunks zero n sk = []
chunks (suc count) n sk = take n sk ∷ chunks count n (drop n sk)

-- The loop over the instances, with `left` to go, and what `sk` points to behind it.
pub deserialize_insts : Params → ℕ → List ℕ → List TreehashInst × List ℕ
deserialize_insts p zero sk = ([], sk)
deserialize_insts p (suc left) sk =
    let sk1 = drop 1 sk in
    let sk2 = drop 4 sk1 in
    let sk3 = drop 1 sk2 in
    let sk4 = drop 1 sk3 in
    let (ts, rest) = deserialize_insts p left (drop p.n sk4) in
    (
      record {
        h = u8 (bytes_to_ull sk 1);
        next_idx = bytes_to_ull sk1 4;
        stackusage = u8 (bytes_to_ull sk2 1);
        completed = u8 (bytes_to_ull sk3 1);
        node = take p.n sk4;
      }
          ∷ ts,
      rest,
    )

-- One round of the loop over the states.
unfoldable pub deserialize_state : Params → List ℕ → BdsState × List ℕ
unfolding deserialize_insts
deserialize_state p sk =
    let sk1 = drop ((p.tree_height + 1) * p.n) sk in
    let sk2 = drop 4 sk1 in
    let sk3 = drop (p.tree_height + 1) sk2 in
    let sk4 = drop (p.tree_height * p.n) sk3 in
    let sk5 = drop (p.tree_height / 2 * p.n) sk4 in
    let (ts, sk6) = deserialize_insts p (instances p) sk5 in
    let sk7 = drop (retained p * p.n) sk6 in
    (
      record {
        stack = chunks (p.tree_height + 1) p.n sk;
        stackoffset = u32 (bytes_to_ull sk1 4);
        stacklevels = take (p.tree_height + 1) sk2;
        auth = chunks p.tree_height p.n sk3;
        keep = chunks (p.tree_height / 2) p.n sk4;
        treehash = ts;
        retain = chunks (retained p) p.n sk6;
        next_leaf = u32 (bytes_to_ull sk7 4);
      },
      drop 4 sk7,
    )

-- The states at `sk`, `count` of them, and `*wots_sigs`, what stands behind them.
unfoldable pub xmssmt_deserialize_state : Params → ℕ → List ℕ → List BdsState × List ℕ
xmssmt_deserialize_state p zero sk = ([], sk)
xmssmt_deserialize_state p (suc count) sk =
    let (s, sk') = deserialize_state p sk in
    let (states, rest) = xmssmt_deserialize_state p count sk' in (s ∷ states, rest)

-- The one state of an XMSS key. A value of `d` other than 1 is not met.
abbrev pub xmss_serialize_state : BdsState → List ℕ → List ℕ
xmss_serialize_state s rest = xmssmt_serialize_state (s ∷ []) rest

abbrev pub xmss_deserialize_state : Params → List ℕ → BdsState
xmss_deserialize_state p sk = (deserialize_state p sk).0

-- The contents of the two states change places.
unfoldable pub deep_state_swap : BdsState → BdsState → BdsState × BdsState
deep_state_swap a b = (b, a)
