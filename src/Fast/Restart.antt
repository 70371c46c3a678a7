-- ===== src/Fast/Restart.antt =====
-- xmss_core_fast.c: what bds_round does to the treehash instances.
use xmss_reference.Base.{
  ℕ, zero, suc, ◌+◌, ◌*◌, ◌/◌, ◌^◌, ◌≤◌, ◌<◌, ◌≡◌, ◌≢◌, ◌⊎◌, inl, inr, refl, sym, ap, ◌∙◌, arith,
  true, false, Bool-cases, ltb, u8, u32, List, [], length, length-set, get_or-set, get_or_other,
  if◌then◌else◌,
}
use mathlib.Core.Path.{subst}
use native.Mathlib.Decide.{dec_lt}
use native.Mathlib.Nat.{pow-suc, one-le-pow, zero-div, pow-le-pow_right}
use xmss_reference.Address.{Addr}
use xmss_reference.Params.{Params}
use xmss_reference.Params.Sets.{IsParams}
use xmss_reference.Hash.{HashFns}
use xmss_reference.Hash.Lengths.{HasLengths}
use xmss_reference.Commons.Tree.{node}
use xmss_reference.Core.{Stack}
use xmss_reference.Fast.{BdsState, TreehashInst, blank_inst, instances}
use xmss_reference.Fast.Update.{get_inst, set_inst}
use xmss_reference.Fast.Round.{restart_insts}
use xmss_reference.Fast.Build.{OnStack}
use xmss_reference.Fast.Tail.{Part, no_leaf, left_next}
use xmss_reference.Fast.Ready.{Initial}
use xmss_reference.Fast.Shared.{joined, Shared}

-- The node of height `i` that the instance is to have at the next leaf at which it is due, from
-- `leaf_idx` on.
abbrev pub want : ℕ → ℕ → ℕ
want leaf_idx i = 2 * (leaf_idx / 2 ^ (i + 1)) + 3

first_want : (i : ℕ) → want 0 i ≡ 3
first_want i = omega (arith, zero-div (2 ^ (i + 1)))

joined_none : (left i : ℕ) → joined (λ b. []) left i ≡ []
joined_none zero i = refl
joined_none (suc left) i = joined_none left (i + 1)

-- The index of the leaf that an instance starts with.
abbrev pub startidx : ℕ → ℕ → ℕ
startidx leaf_idx i = u32 (leaf_idx + 1 + 3 * 2 ^ i)

abbrev pub start_inst : ℕ → ℕ → TreehashInst → TreehashInst
start_inst leaf_idx i t = record t {
  h = u8 i;
  next_idx = startidx leaf_idx i;
  completed = 0;
  stackusage = 0;
}

-- One round of the loop that starts instances.
abbrev pub start_one : Params → ℕ → ℕ → BdsState → BdsState
start_one p leaf_idx i s =
    if ltb (startidx leaf_idx i) (2 ^ p.tree_height)
    then set_inst s i (start_inst leaf_idx i (get_inst s i))
    else s

-- What the loop leaves: the instances from `i` on, `left` of them, are started if their leaf exists.
pub record Restarted (p : Params) (leaf_idx left i : ℕ) (s r : BdsState) : Type 0 where
  pub inst_len : length r.treehash ≡ length s.treehash
  pub outside : (b : ℕ) → b < i ⊎ left + i ≤ b → get_inst r b ≡ get_inst s b
  pub late :
      (b : ℕ)
      → i ≤ b
      → b < left + i
      → 2 ^ p.tree_height ≤ startidx leaf_idx b
      → get_inst r b ≡ get_inst s b
  pub started :
      (b : ℕ)
      → i ≤ b
      → b < left + i
      → startidx leaf_idx b < 2 ^ p.tree_height
      → get_inst r b ≡ start_inst leaf_idx b (get_inst s b)

module _ (p : Params) (leaf_idx i : ℕ) (s : BdsState) where
  start_one-treehash : length (start_one p leaf_idx i s).treehash ≡ length s.treehash
  start_one-treehash =
      ground (arith, length-set s.treehash i (start_inst leaf_idx i (get_inst s i)))

  start_one-other : (b : ℕ) → b ≢ i → get_inst (start_one p leaf_idx i s) b ≡ get_inst s b
  start_one-other b other = elim (Bool-cases (ltb (startidx leaf_idx i) (2 ^ p.tree_height))) [
    | inl hit ↦ rw hit (
        get_or_other s.treehash i b (start_inst leaf_idx i (get_inst s i)) blank_inst
          (ground arith))
    | inr miss ↦ rw miss refl
  ]

  start_one-late :
      2 ^ p.tree_height ≤ startidx leaf_idx i → get_inst (start_one p leaf_idx i s) i ≡ get_inst s i
  start_one-late le =
      let miss : ltb (startidx leaf_idx i) (2 ^ p.tree_height) ≡ false = ground arith in
      rw miss refl

  start_one-started :
      startidx leaf_idx i < 2 ^ p.tree_height
      → i < length s.treehash
      → get_inst (start_one p leaf_idx i s) i ≡ start_inst leaf_idx i (get_inst s i)
  start_one-started lt fits =
      let hit : ltb (startidx leaf_idx i) (2 ^ p.tree_height) ≡ true = ground arith in
      rw hit (get_or-set s.treehash i (start_inst leaf_idx i (get_inst s i)) blank_inst fits)

pub restart_insts_lem :
    (p : Params) (leaf_idx left i : ℕ) (s : BdsState)
    → left + i ≤ length s.treehash
    → Restarted p leaf_idx left i s (restart_insts p leaf_idx left i s)
unfolding restart_insts
restart_insts_lem p leaf_idx zero i s fits = record {
  inst_len = refl;
  outside = λ b out. refl;
  late = λ b le lt over. absurd (omega arith);
  started = λ b le lt fits'. absurd (omega arith);
}
restart_insts_lem p leaf_idx (suc left) i s fits =
    let s1 = start_one p leaf_idx i s in
    let r =
      restart_insts_lem p leaf_idx left (i + 1) s1
        (omega (arith, start_one-treehash p leaf_idx i s)) in
    record {
      inst_len = r.inst_len ∙ start_one-treehash p leaf_idx i s;
      outside = λ b out. elim out [
        | inl below ↦
            r.outside b (inl (omega arith)) ∙ start_one-other p leaf_idx i s b (omega arith)
        | inr above ↦
            r.outside b (inr (omega arith)) ∙ start_one-other p leaf_idx i s b (omega arith)
      ];
      late = λ b le lt over. elim (dec_lt i b) [
        | yes behind ↦
            r.late b (omega arith) (omega arith) over
            ∙ start_one-other p leaf_idx i s b (omega arith)
        | no here ↦
            let same : i ≡ b = omega arith in
            r.outside b (inl (omega arith))
            ∙ subst (λ u. 2 ^ p.tree_height ≤ startidx leaf_idx u → get_inst s1 u ≡ get_inst s u)
                same (start_one-late p leaf_idx i s) over
      ];
      started = λ b le lt exists. elim (dec_lt i b) [
        | yes behind ↦
            r.started b (omega arith) (omega arith) exists
            ∙ ap (start_inst leaf_idx b) (start_one-other p leaf_idx i s b (omega arith))
        | no here ↦
            let same : i ≡ b = omega arith in
            r.outside b (inl (omega arith))
            ∙ subst
                (λ u.
                  startidx leaf_idx u < 2 ^ p.tree_height
                  → get_inst s1 u ≡ start_inst leaf_idx u (get_inst s u))
                same (λ e. start_one-started p leaf_idx i s e (omega arith)) exists
      ];
    }

module _ (fns : HashFns) (lengths : HasLengths fns) (p : Params) (ok : IsParams p)
    (sk_seed pub_seed : List ℕ) (sub : Addr) where
  abbrev PartOf : ℕ → ℕ → ℕ → ℕ → Stack → Type 0
  PartOf h j k q tail = Part fns lengths p ok sk_seed pub_seed sub h j k q tail

  -- Without leaves, under node `j` of height `k + t`.
  pub part_start : (t j k h q : ℕ) → t + k ≡ h → q ≡ j * 2 ^ t → PartOf h j k q []
  part_start zero j k h q e eq = no_leaf (omega arith) (omega arith)
  part_start (suc t) j k h q e eq =
      left_next (j * 2 ^ t) (omega arith) (omega (arith, ap (λ (u : ℕ). j * u) (pow-suc 2 t)))
        (part_start t j (k + 1) h (j * 2 ^ t) (omega arith) refl)

  low_height : (i : ℕ) → 4 * 2 ^ i ≤ 2 ^ p.tree_height → i + 1 < p.tree_height
  low_height i le = elim (dec_lt (i + 1) p.tree_height) [
    | yes lt ↦ lt
    | no over ↦ absurd (
        omega (
          arith,
          pow-le-pow_right {n = 2} (omega arith) {i = p.tree_height} {j = suc i} (omega arith),
          pow-suc 2 i,
          one-le-pow i 2,
        ))
  ]

  -- The state that key generation leaves, with an empty stack.
  pub Initial-Shared :
      (s : BdsState)
      → Initial fns lengths p ok sk_seed pub_seed sub (λ h. 1) s
      → s.stackoffset ≡ 0
      → length s.stack ≡ p.tree_height + 1
      → length s.stacklevels ≡ p.tree_height + 1
      → Shared fns lengths p ok sk_seed pub_seed sub (want 0) s
  Initial-Shared s ini eo sl ll =
      let none = joined_none (instances p) 0 in
      record {
        arrays = record { stack_len = sl; levels_len = ll; inst_len = ini.inst_len };
        tails = λ b. [];
        on = subst (λ t. OnStack s.stack s.stacklevels t) (sym none) tt;
        offset = eo ∙ ap length (sym none);
        order = λ a b lt lt' pos. tt;
        insts = λ i lt. inr (record {
          completed = ini.done i lt;
          empty = refl;
          node = λ le.
              ini.insts i (
                low_height i (
                  omega
                    (arith, subst (λ u. (u + 1) * 2 ^ i ≤ 2 ^ p.tree_height) (first_want i) le)))
              ∙ ap (λ u. node fns lengths p ok sk_seed pub_seed sub i u) (sym (first_want i));
        });
      }
