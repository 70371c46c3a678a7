-- ===== src/Fast/Ready.antt =====
-- xmss_core_fast.c: the state that the traversal of a tree starts from, and how it comes of a state
-- that has all the leaves of the tree.
use xmss_reference.Base.{
  ℕ, suc, ◌+◌, ◌-◌, ◌/◌, ◌^◌, ◌<◌, ◌≡◌, inr, refl, sym, ap, ◌∙◌, arith, List, [], ◌∷◌, length,
  get_or, pow_over, bit_xor_one,
}
use native.Mathlib.Nat.{add-zero, zero-div, one-le-pow, mul-div_cancel, pow-suc}
use xmss_reference.Address.{Addr}
use xmss_reference.Params.{Params}
use xmss_reference.Params.Sets.{IsParams}
use xmss_reference.Hash.{HashFns}
use xmss_reference.Hash.Lengths.{HasLengths}
use xmss_reference.Commons.Tree.{sibling, node}
use xmss_reference.Core.{Stack, bottom}
use xmss_reference.Core.Merge.{Forest, none_yet, paired, single}
use xmss_reference.Core.TreeHash.{forest_full}
use xmss_reference.Fast.{BdsState, instances}
use xmss_reference.Fast.Update.{get_inst}
use xmss_reference.Fast.NextPath.{Traversing}
use xmss_reference.Fast.Saved.{Saved}
use xmss_reference.Fast.Build.{OnStack, Grown}

-- The bottom of the stack is the first node of the array.
bottom-OnStack :
    (nodes : List (List ℕ)) (levels : List ℕ) (s : Stack)
    → 0 < length s
    → OnStack nodes levels s
    → get_or nodes 0 [] ≡ bottom s
bottom-OnStack nodes levels [] pos on = absurd (omega arith)
bottom-OnStack nodes levels ((h, x) ∷ []) pos on = on.0
bottom-OnStack nodes levels ((h, x) ∷ (y ∷ ys)) pos on =
    bottom-OnStack nodes levels (y ∷ ys) (omega arith) on.2

module _ (fns : HashFns) (lengths : HasLengths fns) (p : Params) (ok : IsParams p)
    (sk_seed pub_seed : List ℕ) (sub : Addr) (flags : ℕ → ℕ) where
  abbrev at : ℕ → ℕ → List ℕ
  at h j = node fns lengths p ok sk_seed pub_seed sub h j

  length-Forest :
      {k m : ℕ} {s : Stack}
      → Forest fns lengths p ok sk_seed pub_seed sub 0 k m s
      → 0 < m
      → 0 < length s
  length-Forest none_yet pos = absurd (omega arith)
  length-Forest (paired c e f) pos = length-Forest f (omega arith)
  length-Forest (single c e f) pos = omega arith

  -- What the traversal of a tree starts from: the path of leaf 0, and in the instances the nodes that
  -- are needed first.
  pub record Initial (s : BdsState) : Type 0 where
    pub traversing : Traversing fns lengths p ok sk_seed pub_seed sub 0 s
    pub insts : (i : ℕ) → i + 1 < p.tree_height → (get_inst s i).node ≡ at i 3
    pub done : (i : ℕ) → i < instances p → (get_inst s i).completed ≡ flags i
    pub inst_len : length s.treehash ≡ instances p

  -- All nodes of height `h` with a number below that of the last one were passed.
  all_nodes : (h t : ℕ) → t + h ≡ p.tree_height → 2 ^ p.tree_height / 2 ^ h ≡ 2 ^ t
  all_nodes h t e =
      ap (λ (u : ℕ). 2 ^ u / 2 ^ h) (sym e)
      ∙ ap (λ x. x / 2 ^ h) (pow_over t h)
      ∙ mul-div_cancel (2 ^ t) (one-le-pow h 2 (omega arith))

  first_passed : (h : ℕ) → h < p.tree_height → 1 < 2 ^ p.tree_height / 2 ^ h
  first_passed h lt =
      let t = p.tree_height - suc h in
      omega (arith, all_nodes h (suc t) (omega arith), pow-suc 2 t, one-le-pow t 2)

  third_passed : (h : ℕ) → h + 1 < p.tree_height → 3 < 2 ^ p.tree_height / 2 ^ h
  third_passed h lt =
      let t = p.tree_height - suc (suc h) in
      omega (
        arith,
        all_nodes h (suc (suc t)) (omega arith),
        pow-suc 2 (suc t),
        pow-suc 2 t,
        one-le-pow t 2,
      )

  first_sibling : (h : ℕ) → sibling 0 h ≡ 1
  first_sibling h = omega (arith, bit_xor_one (0 / 2 ^ h), zero-div (2 ^ h))

  pub initial :
      (s : BdsState)
      → Saved fns lengths p ok sk_seed pub_seed sub flags (2 ^ p.tree_height) 0 s
      → Initial s
  initial s b = record {
    traversing = record {
      auth_len = b.auth_len;
      auth =
          λ h lt. b.auth h lt (inr (first_passed h lt)) ∙ ap (λ j. at h j) (sym (first_sibling h));
      keep_len = b.keep_len;
      keep = λ h lt odd even. absurd (omega (arith, zero-div (2 ^ h)));
    };
    insts = λ i lt. b.inst i (omega arith) (inr (third_passed i lt));
    done = b.done;
    inst_len = b.inst_len;
  }

  -- The traversal does not hang on the stack.
  pub restacked :
      (s state : BdsState)
      → Initial s
      → Initial (record s {
        stack = state.stack;
        stacklevels = state.stacklevels;
        stackoffset = state.stackoffset;
      })
  restacked s state ini =
      let t = ini.traversing in
      record {
        traversing = record {
          auth_len = t.auth_len;
          auth = t.auth;
          keep_len = t.keep_len;
          keep = t.keep;
        };
        insts = ini.insts;
        done = ini.done;
        inst_len = ini.inst_len;
      }

  -- A state whose tree has all its leaves: its root is at the bottom of the stack.
  pub root_at_bottom :
      (s : BdsState) (a : Addr)
      → Grown fns lengths p ok sk_seed pub_seed sub flags
          (2 ^ p.tree_height)
          0
          (2 ^ p.tree_height)
          s
          a
      → get_or s.stack 0 [] ≡ at p.tree_height 0
  root_at_bottom s a g =
      bottom-OnStack s.stack s.stacklevels g.trees
        (length-Forest g.forest (omega (arith, one-le-pow p.tree_height 2))) g.on
      ∙ forest_full fns lengths p ok sk_seed pub_seed sub 0 p.tree_height g.forest refl
      ∙ ap (λ h. at h 0) (add-zero p.tree_height)
