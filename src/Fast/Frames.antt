-- ===== src/Fast/Frames.antt =====
-- xmss_core_fast.c: what the steps of bds_round leave alone.
use xmss_reference.Base.{
  ℕ, zero, suc, ◌+◌, ◌-◌, ◌/◌, ◌^◌, ◌≤◌, ◌<◌, ◌≡◌, inl, inr, refl, ap, ◌∙◌, arith, true, Bool-cases,
  ltb, ◌==◌, ◌&&◌, bit_and, List, length, get_or,
}
use xmss_reference.Address.{Addr}
use xmss_reference.Params.{Params}
use xmss_reference.Hash.{HashFns}
use xmss_reference.Fast.{BdsState, blank_inst, instances}
use xmss_reference.Fast.Round.{refill_auth, restart_insts, keep_node, round_at}
use xmss_reference.Fast.Restart.{Restarted, startidx, start_inst, start_one, restart_insts_lem}

-- The stack of a state is that of another one.
pub record SameStack (s r : BdsState) : Type 0 where
  pub stack : r.stack ≡ s.stack
  pub levels : r.stacklevels ≡ s.stacklevels
  pub offset : r.stackoffset ≡ s.stackoffset

keep_node-SameStack :
    (p : Params) (leaf_idx tau : ℕ) (s : BdsState)
    → SameStack s (keep_node p leaf_idx tau s)
      × ((keep_node p leaf_idx tau s).treehash ≡ s.treehash)
unfolding keep_node
keep_node-SameStack p leaf_idx tau s =
    elim (Bool-cases (bit_and (leaf_idx / 2 ^ (tau + 1)) 1 == 0 && ltb tau (p.tree_height - 1))) [
      | inl hit ↦ rw hit (record { stack = refl; levels = refl; offset = refl }, refl)
      | inr miss ↦ rw miss (record { stack = refl; levels = refl; offset = refl }, refl)
    ]

refill_auth-SameStack :
    (p : Params) (leaf_idx left i : ℕ) (s : BdsState)
    → SameStack s (refill_auth p leaf_idx left i s)
      × ((refill_auth p leaf_idx left i s).treehash ≡ s.treehash)
unfolding refill_auth
refill_auth-SameStack p leaf_idx zero i s =
    (record { stack = refl; levels = refl; offset = refl }, refl)
refill_auth-SameStack p leaf_idx (suc left) i s =
    let r = refill_auth-SameStack p leaf_idx left (i + 1) _ in
    (record { stack = r.0.stack; levels = r.0.levels; offset = r.0.offset }, r.1)

start_one-SameStack :
    (p : Params) (leaf_idx i : ℕ) (s : BdsState) → SameStack s (start_one p leaf_idx i s)
start_one-SameStack p leaf_idx i s =
    elim (Bool-cases (ltb (startidx leaf_idx i) (2 ^ p.tree_height))) [
      | inl hit ↦ rw hit (record { stack = refl; levels = refl; offset = refl })
      | inr miss ↦ rw miss (record { stack = refl; levels = refl; offset = refl })
    ]

restart_insts-SameStack :
    (p : Params) (leaf_idx left i : ℕ) (s : BdsState)
    → SameStack s (restart_insts p leaf_idx left i s)
unfolding restart_insts
restart_insts-SameStack p leaf_idx zero i s = record { stack = refl; levels = refl; offset = refl }
restart_insts-SameStack p leaf_idx (suc left) i s =
    let one = start_one-SameStack p leaf_idx i s in
    let r = restart_insts-SameStack p leaf_idx left (i + 1) (start_one p leaf_idx i s) in
    record {
      stack = r.stack ∙ one.stack;
      levels = r.levels ∙ one.levels;
      offset = r.offset ∙ one.offset;
    }

-- The last two loops, from a state with the stack and the instances of `s`.
finish_round :
    (p : Params) (leaf_idx tau : ℕ) (s climbed : BdsState)
    → SameStack s climbed
    → climbed.treehash ≡ s.treehash
    → tau ≤ length climbed.treehash
    → let r = restart_insts p leaf_idx tau 0 (refill_auth p leaf_idx tau 0 climbed) in
      SameStack s r × Restarted p leaf_idx tau 0 s r
finish_round p leaf_idx tau s climbed same et fits =
    let filled = refill_auth-SameStack p leaf_idx tau 0 climbed in
    let all : (refill_auth p leaf_idx tau 0 climbed).treehash ≡ s.treehash = filled.1 ∙ et in
    let inst = λ (b : ℕ). ap (λ ts. get_or ts b blank_inst) all in
    let started = restart_insts-SameStack p leaf_idx tau 0 (refill_auth p leaf_idx tau 0 climbed) in
    let r =
      restart_insts_lem p leaf_idx tau 0 (refill_auth p leaf_idx tau 0 climbed)
        (omega (arith, ap length filled.1)) in
    (
      record {
        stack = started.stack ∙ filled.0.stack ∙ same.stack;
        levels = started.levels ∙ filled.0.levels ∙ same.levels;
        offset = started.offset ∙ filled.0.offset ∙ same.offset;
      },
      record {
        inst_len = r.inst_len ∙ ap length all;
        outside = λ b out. r.outside b out ∙ inst b;
        late = λ b le lt over. r.late b le lt over ∙ inst b;
        started = λ b le lt exists. r.started b le lt exists ∙ ap (start_inst leaf_idx b) (inst b);
      },
    )

module _ (fns : HashFns) (p : Params) (sk_seed pub_seed : List ℕ) (addr : Addr) where
  -- What a round does to the stack and the instances.
  pub round_at-Restarted :
      (leaf_idx tau : ℕ) (s : BdsState)
      → tau < instances p
      → length s.treehash ≡ instances p
      → let r = round_at fns p leaf_idx tau s sk_seed pub_seed addr in
        SameStack s r × Restarted p leaf_idx tau 0 s r
  unfolding round_at
  round_at-Restarted leaf_idx zero s lt len =
      let kept = keep_node-SameStack p leaf_idx 0 s in
      (
        record { stack = kept.0.stack; levels = kept.0.levels; offset = kept.0.offset },
        record {
          inst_len = ap length kept.1;
          outside = λ b out. ap (λ ts. get_or ts b blank_inst) kept.1;
          late = λ b le lt' over. absurd (omega arith);
          started = λ b le lt' exists. absurd (omega arith);
        },
      )
  round_at-Restarted leaf_idx (suc below) s lt len =
      let tau = suc below in
      let kept = keep_node-SameStack p leaf_idx tau s in
      let all : ltb tau (instances p) ≡ true = ground arith in
      rw all (
        finish_round p leaf_idx tau s _
          (record { stack = kept.0.stack; levels = kept.0.levels; offset = kept.0.offset }) kept.1
          (omega (arith, ap length kept.1)))
