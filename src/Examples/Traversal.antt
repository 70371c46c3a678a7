-- ===== src/Examples/Traversal.antt =====
-- The theorems on xmss_core_fast.c, at inputs that meet their hypotheses.
use xmss_reference.Base.{
  ℕ, zero, suc, ◌+◌, ◌/◌, ◌%◌, ◌^◌, ◌<◌, ◌≤◌, ◌≡◌, ◌⊎◌, inl, inr, get_or, refl, ap, ◌∙◌, sym, arith,
  List, [], ◌∷◌, ◌++◌, All, All-replicate, length, length-replicate, replicate,
}
use mathlib.Core.Path.{subst}
use native.Mathlib.Nat.{pow-suc, one-le-pow, mod-eq_of_lt}
use xmss_reference.Address.{zero_addr}
use xmss_reference.Commons.Tree.{node}
use xmss_reference.Core.{xmss_core_keypair, xmssmt_core_keypair, treehash, blank_path}
use xmss_reference.Fast.{
  BdsState, TreehashInst, blank_inst, xmssmt_serialize_state, xmssmt_deserialize_state,
}
use xmss_reference.Fast.Update.{get_inst, treehash_init, bds_treehash_update}
use xmss_reference.Fast.Round.{bds_round, round_at, find_tau, keep_node}
use xmss_reference.Fast.Sign.{xmss_fast_keypair}
use xmss_reference.Fast.SignMt.{xmssmt_fast_keypair}
use xmss_reference.Fast.RoundTrip.{InstFits, StateFits, deserialize_state-serialize_state}
use xmss_reference.Fast.NextPath.{Traversing, InstsReady, bds_round-Traversing}
use xmss_reference.Fast.Ready.{Initial}
use xmss_reference.Fast.Init.{treehash_init_lem}
use xmss_reference.Fast.NextTree.{update_times, flags_of, SomeWhole, update_times-Whole}
use xmss_reference.Fast.Shared.{Shared}
use xmss_reference.Fast.Restart.{want, Initial-Shared}
use xmss_reference.Fast.RoundShared.{AllDone, bds_round-Shared}
use xmss_reference.Fast.Updates.{Updated, bds_treehash_update-Updated}
use xmss_reference.Fast.Live.{traverse, auth-traverse}
use xmss_reference.Fast.KeyPair.{xmss_fast_keypair-pk, xmssmt_fast_keypair-pk}
use xmss_reference.Examples.Data.{
  toy_fns, toy_fns-HasLengths, small_set, small_set-IsParams, full_set, full_set-IsParams,
}

abbrev some_node : List ℕ
some_node = replicate 24 5

abbrev some_inst : TreehashInst
some_inst = record { h = 3; next_idx = 70000; stackusage = 2; completed = 0; node = some_node }

-- A state of XMSS-SHA2_10_192.
abbrev some_state : BdsState
some_state = record {
  stack = replicate 11 some_node;
  stackoffset = 0;
  stacklevels = replicate 11 0;
  auth = replicate 10 some_node;
  keep = replicate 5 some_node;
  treehash = replicate 10 some_inst;
  retain = [];
  next_leaf = 0;
}

some_nodes : (count : ℕ) → All (λ x. length x ≡ 24) (replicate count some_node)
some_nodes count = All-replicate (λ x. length x ≡ 24) count some_node refl

some_state-StateFits : StateFits small_set some_state
some_state-StateFits = record {
  stack = record { count_nodes = refl; sizes = some_nodes 11 };
  stackoffset = omega arith;
  stacklevels = refl;
  auth = record { count_nodes = refl; sizes = some_nodes 10 };
  keep = record { count_nodes = refl; sizes = some_nodes 5 };
  treehash = All-replicate (InstFits small_set) 10 some_inst (record {
    h = omega arith;
    next_idx = omega arith;
    stackusage = omega arith;
    completed = omega arith;
    node = refl;
  });
  count_insts = refl;
  retain = record { count_nodes = refl; sizes = tt };
  next_leaf = omega arith;
}

deserialize_state-serialize_state_example :
    xmssmt_deserialize_state small_set 2
      (xmssmt_serialize_state (some_state ∷ some_state ∷ []) (9 ∷ []))
    ≡ (some_state ∷ some_state ∷ [], 9 ∷ [])
deserialize_state-serialize_state_example =
    deserialize_state-serialize_state small_set (some_state ∷ some_state ∷ []) (9 ∷ [])
      (some_state-StateFits, (some_state-StateFits, tt))

abbrev seed_a : List ℕ
seed_a = replicate 24 1

abbrev seed_b : List ℕ
seed_b = replicate 24 2

abbrev made : List ℕ × BdsState
made = treehash_init toy_fns small_set 10 0 some_state seed_a seed_b zero_addr

treehash_init_lem_example :
    (made.0
      ≡ node toy_fns toy_fns-HasLengths small_set small_set-IsParams seed_a seed_b zero_addr 10 0)
    × Initial toy_fns toy_fns-HasLengths small_set small_set-IsParams seed_a seed_b zero_addr
        (λ h. 1)
        made.1
treehash_init_lem_example =
    treehash_init_lem toy_fns toy_fns-HasLengths small_set small_set-IsParams seed_a seed_b
      zero_addr some_state zero_addr refl refl refl refl

abbrev second : BdsState
second = bds_round toy_fns small_set made.1 0 seed_a seed_b zero_addr

abbrev At : ℕ → BdsState → Type 0
At leaf_idx s =
    Traversing toy_fns toy_fns-HasLengths small_set small_set-IsParams seed_a seed_b zero_addr
      leaf_idx s

abbrev Ready : ℕ → BdsState → Type 0
Ready leaf_idx s =
    InstsReady toy_fns toy_fns-HasLengths small_set small_set-IsParams seed_a seed_b zero_addr
      leaf_idx s

digits : (i : ℕ) → i ≡ 0 ⊎ 4 ≤ 2 ^ (i + 1)
digits zero = inl refl
digits (suc i) =
    let next : suc i + 1 ≡ suc (suc i) = omega arith in
    inr (rw next (omega (arith, pow-suc 2 (suc i), pow-suc 2 i, one-le-pow i 2)))

small_mod : (x m : ℕ) → x < m → x % m ≡ x
small_mod x m h = mod-eq_of_lt h

made-Ready : Ready 0 made.1
made-Ready i due lt = elim (digits i) [
  | inl first ↦ absurd (omega (arith, ap (λ (u : ℕ). 1 % 2 ^ (u + 1)) first))
  | inr high ↦ absurd (omega (arith, small_mod 1 (2 ^ (i + 1)) (omega arith)))
]

second-At : At 1 second
second-At =
    bds_round-Traversing toy_fns toy_fns-HasLengths small_set small_set-IsParams seed_a seed_b
      zero_addr 0 made.1 zero_addr refl (omega arith) treehash_init_lem_example.1.traversing
      made-Ready

-- The round for leaf 0 does not touch the instances.
second-treehash : second.treehash ≡ made.1.treehash
unfolding bds_round round_at find_tau keep_node
second-treehash = refl

second-Ready : Ready 1 second
second-Ready i due lt = elim (digits i) [
  | inl first ↦
      subst
        (λ u.
          (get_inst second u).node
          ≡ node toy_fns toy_fns-HasLengths small_set small_set-IsParams seed_a seed_b zero_addr u
              (2 / 2 ^ u + 1))
        (sym first)
        (ap (λ ts. (get_or ts 0 blank_inst).node) second-treehash
          ∙ treehash_init_lem_example.1.insts 0 (omega arith))
  | inr high ↦ absurd (omega (arith, small_mod 2 (2 ^ (i + 1)) (omega arith)))
]

bds_round-Traversing_example : At 2 (bds_round toy_fns small_set second 1 seed_a seed_b zero_addr)
bds_round-Traversing_example =
    bds_round-Traversing toy_fns toy_fns-HasLengths small_set small_set-IsParams seed_a seed_b
      zero_addr 1 second zero_addr refl (omega arith) second-At second-Ready

update_times-Whole_example :
    SomeWhole toy_fns toy_fns-HasLengths small_set small_set-IsParams seed_a seed_b zero_addr
      zero_addr
      (flags_of some_state)
      (update_times toy_fns 1024 small_set some_state seed_a seed_b zero_addr)
update_times-Whole_example =
    update_times-Whole toy_fns toy_fns-HasLengths small_set small_set-IsParams seed_a seed_b
      zero_addr some_state zero_addr refl
      (record {
        stackoffset = refl;
        next_leaf = refl;
        stack_len = refl;
        levels_len = refl;
        auth_len = refl;
        keep_len = refl;
        inst_len = refl;
      })

abbrev random : ℕ → ℕ → List ℕ
random call len = replicate len (call + 1)

xmss_fast_keypair-pk_example :
    (xmss_fast_keypair toy_fns random small_set (replicate 1500 9)).pk
    ≡ (xmss_core_keypair toy_fns (λ len. random 0 48 ++ random 1 24) small_set).pk
xmss_fast_keypair-pk_example =
    xmss_fast_keypair-pk toy_fns toy_fns-HasLengths small_set small_set-IsParams random
      (λ len. random 0 48 ++ random 1 24) (replicate 1500 9) refl (length-replicate {A = ℕ} 48 1)
      (length-replicate {A = ℕ} 24 2) refl

xmssmt_fast_keypair-pk_example :
    (xmssmt_fast_keypair toy_fns random full_set (replicate 100 9)).pk
    ≡ (xmssmt_core_keypair toy_fns (λ len. random 0 48 ++ random 1 24) full_set).pk
xmssmt_fast_keypair-pk_example =
    xmssmt_fast_keypair-pk toy_fns toy_fns-HasLengths full_set full_set-IsParams random
      (λ len. random 0 48 ++ random 1 24) (replicate 100 9) (length-replicate {A = ℕ} 48 1)
      (length-replicate {A = ℕ} 24 2) refl

abbrev InOrder : ℕ → BdsState → Type 0
InOrder leaf_idx s =
    Shared toy_fns toy_fns-HasLengths small_set small_set-IsParams seed_a seed_b zero_addr
      (want leaf_idx) s

made-stack :
    (made.1.stackoffset ≡ 0)
    × (made.1.stack ≡ some_state.stack)
    × (made.1.stacklevels ≡ some_state.stacklevels)
unfolding treehash_init
made-stack = (refl, refl, refl)

made-InOrder : InOrder 0 made.1
made-InOrder =
    Initial-Shared toy_fns toy_fns-HasLengths small_set small_set-IsParams seed_a seed_b zero_addr
      made.1 treehash_init_lem_example.1 made-stack.0 (ap length made-stack.1)
      (ap length made-stack.2)

made-AllDone : AllDone small_set 0 made.1
made-AllDone i due lt = treehash_init_lem_example.1.done i (omega arith)

second-InOrder : InOrder 1 second
second-InOrder =
    bds_round-Shared toy_fns toy_fns-HasLengths small_set small_set-IsParams seed_a seed_b zero_addr
      0 made.1 zero_addr (omega arith) made-InOrder made-AllDone

second-AllDone : AllDone small_set 1 second
second-AllDone i due lt =
    ap (λ ts. (get_or ts i blank_inst).completed) second-treehash
    ∙ treehash_init_lem_example.1.done i (omega arith)

-- The round for leaf 1 starts the first instance.
abbrev third : BdsState
third = bds_round toy_fns small_set second 1 seed_a seed_b zero_addr

third-InOrder : InOrder 2 third
third-InOrder =
    bds_round-Shared toy_fns toy_fns-HasLengths small_set small_set-IsParams seed_a seed_b zero_addr
      1 second zero_addr (omega arith) second-InOrder second-AllDone

bds_treehash_update-Updated_example :
    Updated toy_fns toy_fns-HasLengths small_set small_set-IsParams seed_a seed_b zero_addr
      (want 2)
      5
      third
      (bds_treehash_update toy_fns small_set third 5 seed_a seed_b zero_addr)
bds_treehash_update-Updated_example =
    bds_treehash_update-Updated toy_fns toy_fns-HasLengths small_set small_set-IsParams seed_a
      seed_b zero_addr (want 2) 5 third zero_addr refl (omega arith) third-InOrder

auth-traverse_example :
    (traverse toy_fns toy_fns-HasLengths small_set small_set-IsParams seed_a seed_b zero_addr
      (λ k. zero_addr)
      37
      made.1).auth
    ≡ (treehash toy_fns small_set (blank_path small_set) seed_a seed_b 37 zero_addr).1
auth-traverse_example =
    auth-traverse toy_fns toy_fns-HasLengths small_set small_set-IsParams seed_a seed_b zero_addr
      some_state zero_addr (λ k. zero_addr) (blank_path small_set) 37 refl (λ k. refl) refl refl
      refl refl refl refl refl (omega arith)
