-- ===== src/Fast/Chosen.antt =====
-- xmss_core_fast.c: the nodes of the instance that bds_treehash_update takes are on top of the stack.
use xmss_reference.Base.{ℕ, ◌≤◌, ◌<◌, ◌≡◌, inl, inr, refl, sym, ap, arith, List, [], ◌∷◌, length}
use mathlib.Core.Path.{subst}
use native.Mathlib.Decide.{dec_lt}
use xmss_reference.Address.{Addr}
use xmss_reference.Params.{Params}
use xmss_reference.Params.Sets.{IsParams}
use xmss_reference.Hash.{HashFns}
use xmss_reference.Hash.Lengths.{HasLengths}
use xmss_reference.Core.{Stack}
use xmss_reference.Fast.{BdsState, instances}
use xmss_reference.Fast.Update.{get_inst, low_of}
use xmss_reference.Fast.Tail.{Above, Above-less}
use xmss_reference.Fast.Advance.{Working}
use xmss_reference.Fast.Choice.{Least}
use xmss_reference.Fast.Lows.{low_idle, low_fresh, low_busy, top_lower, later-Above}
use xmss_reference.Fast.Shared.{FirstBusy, none_busy, first_busy, find_busy, Shared}

module _ (fns : HashFns) (lengths : HasLengths fns) (p : Params) (ok : IsParams p)
    (sk_seed pub_seed : List ℕ) (sub : Addr) (jobs : ℕ → ℕ) (s : BdsState)
    (sh : Shared fns lengths p ok sk_seed pub_seed sub jobs s) where
  -- Instance `level` is at work, those before it have no nodes, and those behind it none that is
  -- lower than it is.
  pub record Chosen (level : ℕ) : Type 0 where
    pub below : level < instances p
    pub working :
        Working fns lengths p ok sk_seed pub_seed sub level
          (jobs level)
          (get_inst s level)
          (sh.tails level)
    pub before : (c : ℕ) → c < level → sh.tails c ≡ []
    pub behind : (b : ℕ) → level < b → b < instances p → Above level (sh.tails b)

  chosen-Working :
      (level : ℕ)
      → Least (low_of p s) p.tree_height (instances p) level
      → Working fns lengths p ok sk_seed pub_seed sub level
          (jobs level)
          (get_inst s level)
          (sh.tails level)
  chosen-Working level l = elim (sh.insts level l.below) [
    | inl w ↦ w
    | inr idle ↦ absurd (
        omega (
          arith,
          l.under,
          low_idle fns lengths p ok sk_seed pub_seed sub jobs s sh level idle.completed,
        ))
  ]

  module _ (a h : ℕ) (x : List ℕ) (rest : Stack) (lt : a < instances p)
      (e : sh.tails a ≡ (h, x) ∷ rest) (none : (c : ℕ) → c < a → sh.tails c ≡ []) (level : ℕ)
      (l : Least (low_of p s) p.tree_height (instances p) level) where
    busy_low : low_of p s a ≡ h
    busy_low = elim (sh.insts a lt) [
      | inl w ↦
          low_busy fns lengths p ok sk_seed pub_seed sub jobs s sh a h x rest lt e none a lt w
            (omega (arith, ap length e))
      | inr idle ↦ absurd (omega (arith, ap length e, ap length idle.empty))
    ]

    under : (h < a) × Above h rest
    under = top_lower fns lengths p ok sk_seed pub_seed sub jobs s sh a h x rest lt e none

    -- A new instance is not higher than the lowest node.
    chosen_fresh : sh.tails level ≡ [] → Chosen level
    chosen_fresh el =
        let w = chosen-Working level l in
        let low = low_fresh fns lengths p ok sk_seed pub_seed sub jobs s sh level w el in
        let le : level ≤ h = omega (arith, l.least a lt, busy_low) in
        record {
          below = l.below;
          working = w;
          before = λ c lt'. none c (omega (arith, under.0));
          behind = λ b lt' lt''. elim (dec_lt b a) [
            | yes before ↦ subst (Above level) (sym (none b before)) tt
            | no not_before ↦ elim (dec_lt a b) [
              | yes after ↦ Above-less h level (sh.tails b) le (
                  later-Above fns lengths p ok sk_seed pub_seed sub jobs s sh a h x rest lt e none b
                    after lt'')
              | no here ↦
                  let same : a ≡ b = omega arith in
                  subst (λ u. Above level (sh.tails u)) same
                    (subst (Above level) (sym e) (le, Above-less h level rest le under.1))
            ]
          ];
        }

    -- An instance with nodes is the first one that has some.
    chosen_busy : 0 < length (sh.tails level) → Chosen level
    chosen_busy pos =
        let w = chosen-Working level l in
        let low =
          low_busy fns lengths p ok sk_seed pub_seed sub jobs s sh a h x rest lt e none level
            l.below w pos in
        let le : level ≤ a = l.first a lt (omega (arith, busy_low)) in
        record {
          below = l.below;
          working = w;
          before = λ c lt'. none c (omega arith);
          behind = λ b lt' lt''. sh.order level b lt' lt'' pos;
        }

  -- The instance with the least `low`.
  pub Least-Chosen :
      (level : ℕ) → Least (low_of p s) p.tree_height (instances p) level → Chosen level
  Least-Chosen level l = go (find_busy sh.tails (instances p)) (sh.tails level) refl
    where
      go : FirstBusy sh.tails (instances p) → (tail : Stack) → sh.tails level ≡ tail → Chosen level
      go (none_busy none) tail el = record {
        below = l.below;
        working = chosen-Working level l;
        before = λ c lt. none c (omega (arith, l.below));
        behind = λ b lt lt'. subst (Above level) (sym (none b lt')) tt;
      }
      go (first_busy a h x rest lt e none) [] el = chosen_fresh a h x rest lt e none level l el
      go (first_busy a h x rest lt e none) (y ∷ tail) el =
          chosen_busy a h x rest lt e none level l (omega (arith, ap length el))

  -- An instance at work is below the height of the tree.
  Working-low :
      (i : ℕ)
      → i < instances p
      → Working fns lengths p ok sk_seed pub_seed sub i (jobs i) (get_inst s i) (sh.tails i)
      → low_of p s i < p.tree_height
  Working-low i lt w = go (find_busy sh.tails (instances p)) (sh.tails i) refl
    where
      go :
          FirstBusy sh.tails (instances p)
          → (tail : Stack) → sh.tails i ≡ tail
          → low_of p s i < p.tree_height
      go busy [] e = omega (arith, low_fresh fns lengths p ok sk_seed pub_seed sub jobs s sh i w e)
      go (none_busy none) (y ∷ tail) e = absurd (omega (arith, ap length e, ap length (none i lt)))
      go (first_busy a h x rest la ea none) (y ∷ tail) e = omega (
        arith,
        (top_lower fns lengths p ok sk_seed pub_seed sub jobs s sh a h x rest la ea none).0,
        low_busy fns lengths p ok sk_seed pub_seed sub jobs s sh a h x rest la ea none i lt w
            (omega (arith, ap length e)),
      )

  -- If there is no instance to take, all are completed.
  pub none_working :
      ((c : ℕ) → c < instances p → p.tree_height ≤ low_of p s c)
      → (i : ℕ) → i < instances p
      → (get_inst s i).completed ≡ 1
  none_working over i lt = elim (sh.insts i lt) [
    | inl w ↦ absurd (omega (arith, Working-low i lt w, over i lt))
    | inr idle ↦ idle.completed
  ]
