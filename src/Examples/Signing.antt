-- ===== src/Examples/Signing.antt =====
-- The theorem on the signatures of xmss_core_fast.c and xmss_core.c, at a state for leaf 0 of the tree
-- of some seeds.
use xmss_reference.Base.{
  ℕ, zero, suc, ◌+◌, ◌%◌, ◌^◌, ◌<◌, ◌≡◌, refl, ap, ◌∙◌, arith, List, [], ◌∷◌, All, All-replicate,
  length, get_or, take, drop, replicate, length-replicate,
}
use native.Mathlib.Nat.{zero-div}
use xmss_reference.Address.{zero_addr}
use xmss_reference.Commons.Tree.{node, sibling, length-node}
use xmss_reference.Core.{xmss_core_sign}
use xmss_reference.Core.Index.{key_at}
use xmss_reference.Fast.{BdsState, TreehashInst, blank_inst}
use xmss_reference.Fast.Sign.{xmss_fast_sign}
use xmss_reference.Fast.RoundTrip.{InstFits, StateFits}
use xmss_reference.Fast.Ready.{Initial}
use xmss_reference.Fast.Live.{Live, Initial-Live}
use xmss_reference.Fast.Series.{fast_signed, core_signed, fast_signed-core_signed}
use xmss_reference.Fast.Refines.{fast_key, Agreed, xmss_fast_sign-Agreed}
use xmss_reference.Examples.Data.{toy_fns, toy_fns-HasLengths, small_set, small_set-IsParams}

module _ {ℓ} {A : Type ℓ} (f : ℕ → A) where
  -- `f i`, and what follows, `left` of them.
  table : ℕ → ℕ → List A
  table zero i = []
  table (suc left) i = f i ∷ table left (i + 1)

  length-table : (left i : ℕ) → length (table left i) ≡ left
  unfolding table
  length-table zero i = refl
  length-table (suc left) i = ap suc (length-table left (i + 1))

  get_or-table : (left i k : ℕ) (none : A) → k < left → get_or (table left i) k none ≡ f (k + i)
  unfolding table
  get_or-table zero i k none lt = absurd (omega arith)
  get_or-table (suc left) i zero none lt = ap f (omega arith)
  get_or-table (suc left) i (suc k) none lt =
      get_or-table left (i + 1) k none (omega arith) ∙ ap f (omega arith)

  All-table {κ} : (P : A → Type κ) (left i : ℕ) → ((k : ℕ) → P (f k)) → All P (table left i)
  unfolding table
  All-table P zero i h = tt
  All-table P (suc left) i h = (h i, All-table P left (i + 1) h)

abbrev keys : List ℕ
keys = replicate 96 7

abbrev sk_seed : List ℕ
sk_seed = take 24 keys

abbrev pub_seed : List ℕ
pub_seed = take 24 (drop 72 keys)

abbrev at : ℕ → ℕ → List ℕ
at h j = node toy_fns toy_fns-HasLengths small_set small_set-IsParams sk_seed pub_seed zero_addr h j

abbrev blank_node : List ℕ
blank_node = replicate 24 0

abbrev ready_inst : ℕ → TreehashInst
ready_inst h = record { h = 0; next_idx = 0; stackusage = 0; completed = 1; node = at h 3 }

-- The path of leaf 0, and the nodes that are needed first.
abbrev ready : BdsState
ready = record {
  stack = replicate 11 blank_node;
  stackoffset = 0;
  stacklevels = replicate 11 0;
  auth = table (λ h. at h (sibling 0 h)) 10 0;
  keep = replicate 5 blank_node;
  treehash = table ready_inst 10 0;
  retain = [];
  next_leaf = 0;
}

length-at : (h j : ℕ) → length (at h j) ≡ 24
length-at h j =
    length-node toy_fns toy_fns-HasLengths small_set small_set-IsParams sk_seed pub_seed zero_addr h
      j

ready-StateFits : StateFits small_set ready
ready-StateFits = record {
  stack = record {
    count_nodes = refl;
    sizes = All-replicate (λ x. length x ≡ 24) 11 blank_node refl;
  };
  stackoffset = omega arith;
  stacklevels = refl;
  auth = record {
    count_nodes = length-table (λ h. at h (sibling 0 h)) 10 0;
    sizes =
        All-table (λ h. at h (sibling 0 h)) (λ x. length x ≡ 24) 10 0
          (λ h. length-at h (sibling 0 h));
  };
  keep = record {
    count_nodes = refl;
    sizes = All-replicate (λ x. length x ≡ 24) 5 blank_node refl;
  };
  treehash = All-table ready_inst (InstFits small_set) 10 0 (λ h. record {
    h = omega arith;
    next_idx = omega arith;
    stackusage = omega arith;
    completed = omega arith;
    node = length-at h 3;
  });
  count_insts = length-table ready_inst 10 0;
  retain = record { count_nodes = refl; sizes = tt };
  next_leaf = omega arith;
}

same_index : (h : ℕ) → h + 0 ≡ h
same_index h = omega arith

ready-Initial :
    Initial toy_fns toy_fns-HasLengths small_set small_set-IsParams sk_seed pub_seed zero_addr
      (λ h. 1)
      ready
ready-Initial = record {
  traversing = record {
    auth_len = length-table (λ h. at h (sibling 0 h)) 10 0;
    auth = λ h lt.
        get_or-table (λ u. at u (sibling 0 u)) 10 0 h [] lt
        ∙ ap (λ u. at u (sibling 0 u)) (same_index h);
    keep_len = refl;
    keep = λ h lt odd even.
        absurd (omega (arith, zero-div (2 ^ h), ap (λ (u : ℕ). u % 2) (zero-div (2 ^ h))));
  };
  insts = λ i lt.
      ap (λ t. t.node) (get_or-table ready_inst 10 0 i blank_inst (omega arith))
      ∙ ap (λ u. at u 3) (same_index i);
  done = λ i lt. ap (λ t. t.completed) (get_or-table ready_inst 10 0 i blank_inst lt);
  inst_len = length-table ready_inst 10 0;
}

ready-Live :
    Live toy_fns toy_fns-HasLengths small_set small_set-IsParams sk_seed pub_seed zero_addr 0 ready
ready-Live =
    Initial-Live toy_fns toy_fns-HasLengths small_set small_set-IsParams sk_seed pub_seed zero_addr
      ready ready-Initial refl refl refl

xmss_fast_sign-Agreed_example :
    Agreed toy_fns toy_fns-HasLengths small_set small_set-IsParams refl refl keys refl 0
      (omega arith)
      ready
      (5 ∷ (6 ∷ []))
      (xmss_fast_sign toy_fns small_set (fast_key 0 keys ready) (5 ∷ (6 ∷ [])))
      (xmss_core_sign toy_fns small_set (key_at small_set 0 keys) (5 ∷ (6 ∷ [])))
xmss_fast_sign-Agreed_example =
    xmss_fast_sign-Agreed toy_fns toy_fns-HasLengths small_set small_set-IsParams refl refl keys
      refl 0 (omega arith) ready (5 ∷ (6 ∷ [])) ready-StateFits ready-Live

fast_signed-core_signed_example :
    fast_signed toy_fns small_set (fast_key 0 keys ready) (replicate 300 (5 ∷ (6 ∷ [])))
    ≡ core_signed toy_fns small_set (key_at small_set 0 keys) (replicate 300 (5 ∷ (6 ∷ [])))
fast_signed-core_signed_example =
    fast_signed-core_signed toy_fns toy_fns-HasLengths small_set small_set-IsParams refl refl keys
      refl (replicate 300 (5 ∷ (6 ∷ []))) 0 ready
      (omega (arith, length-replicate {A = List ℕ} 300 (5 ∷ (6 ∷ [])))) ready-StateFits ready-Live
