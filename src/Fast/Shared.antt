-- ===== src/Fast/Shared.antt =====
-- xmss_core_fast.c: the stack that the treehash instances of a state share.
use xmss_reference.Base.{
  ℕ, zero, suc, ◌+◌, ◌-◌, ◌*◌, ◌^◌, ◌≤◌, ◌<◌, ◌≡◌, ◌⊎◌, refl, sym, ap, ap₂, ◌∙◌, arith, List, [],
  ◌∷◌, ◌++◌, length,
}
use native.Mathlib.Decide.{dec_lt}
use xmss_reference.Address.{Addr}
use xmss_reference.Params.{Params}
use xmss_reference.Params.Sets.{IsParams}
use xmss_reference.Hash.{HashFns}
use xmss_reference.Hash.Lengths.{HasLengths}
use xmss_reference.Commons.Tree.{node}
use xmss_reference.Core.{Stack}
use xmss_reference.Fast.{BdsState, TreehashInst, instances}
use xmss_reference.Fast.Update.{get_inst}
use xmss_reference.Fast.Build.{OnStack}
use xmss_reference.Fast.Tail.{Above, Above-less, Part, no_leaf, left_next, right_next, Part-Above}
use xmss_reference.Fast.Advance.{Arrays, Working}

-- The nodes of the instances from `i` on, `left` of them, those of the first on top.
abbrev pub joined : (ℕ → Stack) → ℕ → ℕ → Stack
joined tails zero i = []
joined tails (suc left) i = tails i ++ joined tails left (i + 1)

pub Above-append : (k : ℕ) (s t : Stack) → Above k s → Above k t → Above k (s ++ t)
Above-append k [] t a b = b
Above-append k ((h, y) ∷ s) t a b = (a.0, Above-append k s t a.1 b)

pub joined-Above :
    (tails : ℕ → Stack) (k left i : ℕ)
    → ((b : ℕ) → i ≤ b → b < left + i → Above k (tails b))
    → Above k (joined tails left i)
joined-Above tails k zero i h = tt
joined-Above tails k (suc left) i h =
    Above-append k (tails i) (joined tails left (i + 1)) (h i (omega arith) (omega arith))
      (joined-Above tails k left (i + 1) (λ b le lt. h b (omega arith) (omega arith)))

pub joined_same :
    (tails tails' : ℕ → Stack) (left i : ℕ)
    → ((b : ℕ) → i ≤ b → tails b ≡ tails' b)
    → joined tails left i ≡ joined tails' left i
joined_same tails tails' zero i h = refl
joined_same tails tails' (suc left) i h =
    ap₂ (λ s t. s ++ t) (h i (omega arith))
      (joined_same tails tails' left (i + 1) (λ b le. h b (omega arith)))

-- Without nodes of lower instances, those of `level` are on top.
pub joined_from :
    (tails : ℕ → Stack) (level left i : ℕ)
    → i ≤ level
    → level < left + i
    → ((a : ℕ) → i ≤ a → a < level → tails a ≡ [])
    → joined tails left i ≡ tails level ++ joined tails (left + i - (level + 1)) (level + 1)
joined_from tails level zero i le lt none = absurd (omega arith)
joined_from tails level (suc left) i le lt none = elim (dec_lt i level) [
  | yes before ↦
      let same : left + (i + 1) - (level + 1) ≡ suc left + i - (level + 1) = omega arith in
      ap (λ t. t ++ joined tails left (i + 1)) (none i (omega arith) before)
      ∙ joined_from tails level left (i + 1) (omega arith) (omega arith)
          (λ a le' lt'. none a (omega arith) lt')
      ∙ ap (λ n. tails level ++ joined tails n (level + 1)) same
  | no here ↦
      let e : i ≡ level = omega arith in
      let same : left ≡ suc left + level - (level + 1) = omega arith in
      ap (λ u. tails u ++ joined tails left (u + 1)) e
      ∙ ap (λ n. tails level ++ joined tails n (level + 1)) same
      ∙ ap (λ u. tails level ++ joined tails (suc left + u - (level + 1)) (level + 1)) (sym e)
]

-- Either no instance below `n` has nodes, or there is a first one that has.
pub data FirstBusy (tails : ℕ → Stack) (n : ℕ) : Type 0 where
  none_busy : ((a : ℕ) → a < n → tails a ≡ []) → FirstBusy tails n
  first_busy :
      (a h : ℕ) (x : List ℕ) (rest : Stack)
      → a < n
      → tails a ≡ (h, x) ∷ rest
      → ((c : ℕ) → c < a → tails c ≡ [])
      → FirstBusy tails n

pub find_busy : (tails : ℕ → Stack) (n : ℕ) → FirstBusy tails n
find_busy tails zero = none_busy (λ a lt. absurd (omega arith))
find_busy tails (suc n) = go (find_busy tails n) (tails n) refl
  where
    go : FirstBusy tails n → (last : Stack) → tails n ≡ last → FirstBusy tails (suc n)
    go (first_busy a h x rest lt e none) last el = first_busy a h x rest (omega arith) e none
    go (none_busy none) [] el = none_busy (λ a lt. elim (dec_lt a n) [
      | yes before ↦ none a before
      | no here ↦ let same : a ≡ n = omega arith in ap tails same ∙ el
    ])
    go (none_busy none) ((h, x) ∷ rest) el = first_busy n h x rest (omega arith) el none

module _ (fns : HashFns) (lengths : HasLengths fns) (p : Params) (ok : IsParams p)
    (sk_seed pub_seed : List ℕ) (sub : Addr) where
  abbrev PartOf : ℕ → ℕ → ℕ → ℕ → Stack → Type 0
  PartOf h j k q tail = Part fns lengths p ok sk_seed pub_seed sub h j k q tail

  -- An instance that is not to be updated has its node, if there is such a node in the tree.
  pub record Idle (i j : ℕ) (t : TreehashInst) (tail : Stack) : Type 0 where
    pub completed : t.completed ≡ 1
    pub empty : tail ≡ []
    pub node :
        (j + 1) * 2 ^ i ≤ 2 ^ p.tree_height
        → t.node ≡ node fns lengths p ok sk_seed pub_seed sub i j

  abbrev pub InstIs : ℕ → ℕ → TreehashInst → Stack → Type 0
  InstIs i j t tail = Working fns lengths p ok sk_seed pub_seed sub i j t tail ⊎ Idle i j t tail

  -- Each instance has, or is on its way to, the node of its height that `jobs` says; the nodes of the
  -- instances that are on their way follow each other on the stack, and under those of an instance
  -- there are none below its height.
  pub record Shared (jobs : ℕ → ℕ) (s : BdsState) : Type 0 where
    pub arrays : Arrays p s
    pub tails : ℕ → Stack
    pub on : OnStack s.stack s.stacklevels (joined tails (instances p) 0)
    pub offset : s.stackoffset ≡ length (joined tails (instances p) 0)
    pub order : (a b : ℕ) → a < b → b < instances p → 0 < length (tails a) → Above a (tails b)
    pub insts : (i : ℕ) → i < instances p → InstIs i (jobs i) (get_inst s i) (tails i)

  -- The nodes of a part lie between any bound of theirs and the height of the part.
  pub length-Part_above :
      {h j k q : ℕ} {tail : Stack} (low : ℕ)
      → PartOf h j k q tail
      → Above low tail
      → low ≤ h
      → length tail + low ≤ h
  length-Part_above low (no_leaf e e') a le = omega arith
  length-Part_above low (left_next c lt e t) a le = length-Part_above low t a le
  length-Part_above {k = k} low (right_next {s = s} c lt e t) a le = omega (
    arith,
    length-Part_above (k + 1) t (Part-Above fns lengths p ok sk_seed pub_seed sub t) (omega arith),
  )

  -- The top of a part is lower than the rest of it.
  pub Part-top :
      {i j k q h : ℕ} {x : List ℕ} {rest : Stack}
      → PartOf i j k q ((h, x) ∷ rest)
      → (h < i) × Above h rest
  Part-top (left_next c lt e t) = Part-top t
  Part-top {k = k} (right_next {s = s} c lt e t) = (
    lt,
    Above-less (k + 1) k s (omega arith) (Part-Above fns lengths p ok sk_seed pub_seed sub t),
  )
