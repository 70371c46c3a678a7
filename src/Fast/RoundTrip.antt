-- ===== src/Fast/RoundTrip.antt =====
-- xmss_core_fast.c: xmssmt_serialize_state and xmssmt_deserialize_state together.
use xmss_reference.Base.{
  ℕ, ◌+◌, ◌*◌, ◌/◌, ◌^◌, ◌<◌, ◌≡◌, refl, sym, ap, ◌∙◌, arith, List, [], ◌∷◌, ◌++◌, All, length,
  length-append, drop, take-append_length, drop-append_length, u8, u32,
}
use mathlib.Core.List.{append_assoc}
use native.Mathlib.Nat.{mod-eq_of_lt, suc-mul}
use xmss_reference.Utils.{ull_to_bytes, bytes_to_ull}
use xmss_reference.Utils.RoundTrip.{bytes_to_ull-ull_to_bytes, length-ull_to_bytes}
use xmss_reference.Params.{Params}
use xmss_reference.Core.{flatten_nodes}
use xmss_reference.Fast.{
  TreehashInst, BdsState, instances, retained, serialize_insts, serialize_state, chunks,
  xmssmt_serialize_state, deserialize_insts, deserialize_state, xmssmt_deserialize_state,
}

-- `count` nodes of `n` bytes.
pub record Nodes (n count : ℕ) (nodes : List (List ℕ)) : Type 0 where
  pub count_nodes : length nodes ≡ count
  pub sizes : All (λ x. length x ≡ n) nodes

-- The fields of an instance fit what they are written to.
pub record InstFits (p : Params) (t : TreehashInst) : Type 0 where
  pub h : t.h < 2 ^ 8
  pub next_idx : t.next_idx < 256 ^ 4
  pub stackusage : t.stackusage < 2 ^ 8
  pub completed : t.completed < 2 ^ 8
  pub node : length t.node ≡ p.n

-- So do the fields of a state, whose arrays have the sizes they are declared with.
pub record StateFits (p : Params) (s : BdsState) : Type 0 where
  pub stack : Nodes p.n (p.tree_height + 1) s.stack
  pub stackoffset : s.stackoffset < 256 ^ 4
  pub stacklevels : length s.stacklevels ≡ p.tree_height + 1
  pub auth : Nodes p.n p.tree_height s.auth
  pub keep : Nodes p.n (p.tree_height / 2) s.keep
  pub treehash : All (InstFits p) s.treehash
  pub count_insts : length s.treehash ≡ instances p
  pub retain : Nodes p.n (retained p) s.retain
  pub next_leaf : s.next_leaf < 256 ^ 4

length-flatten :
    (n : ℕ) (nodes : List (List ℕ))
    → All (λ x. length x ≡ n) nodes
    → length (flatten_nodes nodes) ≡ length nodes * n
length-flatten n [] h = omega arith
length-flatten n (x ∷ nodes) (l, h) = omega (
  arith,
  length-append x (flatten_nodes nodes),
  length-flatten n nodes h,
  suc-mul (length nodes) n,
)

chunks-flatten :
    (n : ℕ) (nodes : List (List ℕ)) (rest : List ℕ)
    → All (λ x. length x ≡ n) nodes
    → chunks (length nodes) n (flatten_nodes nodes ++ rest) ≡ nodes
unfolding chunks
chunks-flatten n [] rest h = refl
chunks-flatten n (x ∷ nodes) rest (l, h) =
    rw
      (
        append_assoc x (flatten_nodes nodes) rest,
        take-append_length n x (flatten_nodes nodes ++ rest) l,
        drop-append_length n x (flatten_nodes nodes ++ rest) l,
      )
      (ap (λ t. x ∷ t) (chunks-flatten n nodes rest h))

module _ (n count : ℕ) (nodes : List (List ℕ)) (fits : Nodes n count nodes) (rest : List ℕ) where
  read_nodes : chunks count n (flatten_nodes nodes ++ rest) ≡ nodes
  read_nodes =
      (λ j. chunks (sym fits.count_nodes j) n (flatten_nodes nodes ++ rest))
      ∙ chunks-flatten n nodes rest fits.sizes

  skip_nodes : drop (count * n) (flatten_nodes nodes ++ rest) ≡ rest
  skip_nodes =
      drop-append_length (count * n) (flatten_nodes nodes) rest
        (length-flatten n nodes fits.sizes ∙ ap (λ t. t * n) fits.count_nodes)

module _ (len x : ℕ) (rest : List ℕ) where
  skip_bytes : drop len (ull_to_bytes len x ++ rest) ≡ rest
  skip_bytes = drop-append_length len (ull_to_bytes len x) rest (length-ull_to_bytes len x)

read_u8 : (x : ℕ) (rest : List ℕ) → x < 2 ^ 8 → u8 (bytes_to_ull (ull_to_bytes 1 x ++ rest) 1) ≡ x
read_u8 x rest h =
    ap u8 (bytes_to_ull-ull_to_bytes 1 x rest (omega arith) (omega arith)) ∙ mod-eq_of_lt h

read_u32 :
    (x : ℕ) (rest : List ℕ) → x < 256 ^ 4 → u32 (bytes_to_ull (ull_to_bytes 4 x ++ rest) 4) ≡ x
read_u32 x rest h =
    ap u32 (bytes_to_ull-ull_to_bytes 4 x rest (omega arith) h) ∙ mod-eq_of_lt (omega arith)

module _ (p : Params) where
  insts_lem :
      (ts : List TreehashInst) (rest : List ℕ)
      → All (InstFits p) ts
      → deserialize_insts p (length ts) (serialize_insts ts rest) ≡ (ts, rest)
  unfolding deserialize_insts serialize_insts
  insts_lem [] rest h = refl
  insts_lem (t ∷ ts) rest (f, h) =
      let node_on = t.node ++ serialize_insts ts rest in
      let completed_on = ull_to_bytes 1 t.completed ++ node_on in
      let usage_on = ull_to_bytes 1 t.stackusage ++ completed_on in
      let idx_on = ull_to_bytes 4 t.next_idx ++ usage_on in
      rw
        (
          skip_bytes 1 t.h idx_on,
          skip_bytes 4 t.next_idx usage_on,
          skip_bytes 1 t.stackusage completed_on,
          skip_bytes 1 t.completed node_on,
          take-append_length p.n t.node (serialize_insts ts rest) f.node,
          drop-append_length p.n t.node (serialize_insts ts rest) f.node,
          read_u8 t.h idx_on f.h,
          bytes_to_ull-ull_to_bytes 4 t.next_idx usage_on (omega arith) f.next_idx,
          read_u8 t.stackusage completed_on f.stackusage,
          read_u8 t.completed node_on f.completed,
          insts_lem ts rest h,
        )
        refl

  pub state_lem :
      (s : BdsState) (rest : List ℕ)
      → StateFits p s
      → deserialize_state p (serialize_state s rest) ≡ (s, rest)
  unfolding deserialize_state serialize_state
  state_lem s rest f =
      let leaf_on = ull_to_bytes 4 s.next_leaf ++ rest in
      let retain_on = flatten_nodes s.retain ++ leaf_on in
      let insts_on = serialize_insts s.treehash retain_on in
      let keep_on = flatten_nodes s.keep ++ insts_on in
      let auth_on = flatten_nodes s.auth ++ keep_on in
      let levels_on = s.stacklevels ++ auth_on in
      let offset_on = ull_to_bytes 4 s.stackoffset ++ levels_on in
      rw
        (
          read_nodes p.n (p.tree_height + 1) s.stack f.stack offset_on,
          skip_nodes p.n (p.tree_height + 1) s.stack f.stack offset_on,
          read_u32 s.stackoffset levels_on f.stackoffset,
          skip_bytes 4 s.stackoffset levels_on,
          take-append_length (p.tree_height + 1) s.stacklevels auth_on f.stacklevels,
          drop-append_length (p.tree_height + 1) s.stacklevels auth_on f.stacklevels,
          read_nodes p.n p.tree_height s.auth f.auth keep_on,
          skip_nodes p.n p.tree_height s.auth f.auth keep_on,
          read_nodes p.n (p.tree_height / 2) s.keep f.keep insts_on,
          skip_nodes p.n (p.tree_height / 2) s.keep f.keep insts_on,
          (λ j. deserialize_insts p (sym f.count_insts j) insts_on)
              ∙ insts_lem s.treehash retain_on f.treehash,
          read_nodes p.n (retained p) s.retain f.retain leaf_on,
          skip_nodes p.n (retained p) s.retain f.retain leaf_on,
          read_u32 s.next_leaf rest f.next_leaf,
          skip_bytes 4 s.next_leaf rest,
        )
        refl

  -- Reading as many states as were written gives these states, and leaves what stands behind them, if
  -- the arrays of each state have the declared sizes and the numbers fit the bytes they are written to.
  pub deserialize_state-serialize_state :
      (states : List BdsState) (rest : List ℕ)
      → All (StateFits p) states
      → xmssmt_deserialize_state p (length states) (xmssmt_serialize_state states rest)
        ≡ (states, rest)
  unfolding xmssmt_deserialize_state xmssmt_serialize_state
  deserialize_state-serialize_state [] rest h = refl
  deserialize_state-serialize_state (s ∷ states) rest (f, h) =
      rw
        (
          state_lem s (xmssmt_serialize_state states rest) f,
          deserialize_state-serialize_state states rest h,
        )
        refl
