-- ===== src/Fast/Choice.antt =====
-- xmss_core_fast.c: which instance bds_treehash_update takes.
use xmss_reference.Base.{
  ℕ, zero, suc, ◌+◌, ◌-◌, ◌≤◌, ◌<◌, ◌≡◌, ◌⊎◌, inl, inr, refl, ap, ◌∙◌, arith, true, false,
  Bool-cases, ltb, List, [], ◌∷◌, length, get_or,
}
use mathlib.Core.Path.{subst}
use native.Mathlib.Decide.{dec_lt}
use xmss_reference.Params.{Params}
use xmss_reference.Core.{Stack}
use xmss_reference.Fast.{BdsState, instances}
use xmss_reference.Fast.Update.{minheight_loop, low_of, find_level}
use xmss_reference.Fast.Build.{OnStack}
use xmss_reference.Fast.Tail.{Above}

-- If no node that is looked at is lower, the minimum stays.
minheight_stays :
    (s : BdsState) (left i r : ℕ) (rest : Stack)
    → s.stackoffset ≡ i + length rest
    → OnStack s.stack s.stacklevels rest
    → left ≤ length rest
    → Above r rest
    → minheight_loop s left i r ≡ r
unfolding minheight_loop
minheight_stays s zero i r rest eo on le a = refl
minheight_stays s (suc left) i r [] eo on le a = absurd (omega arith)
minheight_stays s (suc left) i r ((h, x) ∷ rest) eo on le a =
    let here : s.stackoffset - i - 1 ≡ length rest = omega arith in
    let level : get_or s.stacklevels (s.stackoffset - i - 1) 0 ≡ h =
      ap (λ (t : ℕ). get_or s.stacklevels t 0) here ∙ on.1 in
    let not_lower : ltb (get_or s.stacklevels (s.stackoffset - i - 1) 0) r ≡ false =
      ground (arith, level, a.0) in
    rw not_lower (minheight_stays s left (i + 1) r rest (omega arith) on.2 (omega arith) a.1)

-- The minimum over any nodes from the top on is the height of the top one.
pub minheight-top :
    (s : BdsState) (usage t h : ℕ) (x : List ℕ) (rest : Stack)
    → 0 < usage
    → usage ≤ suc (length rest)
    → h < t
    → s.stackoffset ≡ suc (length rest)
    → OnStack s.stack s.stacklevels ((h, x) ∷ rest)
    → Above h rest
    → minheight_loop s usage 0 t ≡ h
unfolding minheight_loop
minheight-top s zero t h x rest pos le lt eo on a = absurd (omega arith)
minheight-top s (suc usage) t h x rest pos le lt eo on a =
    let here : s.stackoffset - 0 - 1 ≡ length rest = omega arith in
    let level : get_or s.stacklevels (s.stackoffset - 0 - 1) 0 ≡ h =
      ap (λ (u : ℕ). get_or s.stacklevels u 0) here ∙ on.1 in
    let lower : ltb (get_or s.stacklevels (s.stackoffset - 0 - 1) 0) t ≡ true =
      ground (arith, level) in
    rw (lower, level) (minheight_stays s usage 1 h rest (omega arith) on.2 (omega arith) a)

-- The instance `level` has the least `low`, and the least number of those that have it; or no instance
-- below `n` has a `low` under `top`.
pub record Least (low : ℕ → ℕ) (top n level : ℕ) : Type 0 where
  pub below : level < n
  pub under : low level < top
  pub least : (i : ℕ) → i < n → low level ≤ low i
  pub first : (i : ℕ) → i < n → low i ≡ low level → level ≤ i

pub find_level_from :
    (p : Params) (s : BdsState) (left i level l_min : ℕ)
    → left + i ≡ instances p
    → (Least (low_of p s) p.tree_height i level × l_min ≡ low_of p s level)
      ⊎ ((level ≡ instances p)
          × (l_min ≡ p.tree_height)
          × ((c : ℕ) → c < i → p.tree_height ≤ low_of p s c))
    → let r = find_level p s left i level l_min in
      Least (low_of p s) p.tree_height (instances p) r
      ⊎ ((r ≡ instances p) × ((c : ℕ) → c < instances p → p.tree_height ≤ low_of p s c))
unfolding find_level
find_level_from p s zero i level l_min e (inl (b, el)) =
    let all : i ≡ instances p = omega arith in
    inl (subst (λ n. Least (low_of p s) p.tree_height n level) all b)
find_level_from p s zero i level l_min e (inr (none, el, over)) =
    inr (none, λ c lt. over c (omega arith))
find_level_from p s (suc left) i level l_min e (inl (b, el)) =
    elim (Bool-cases (ltb (low_of p s i) l_min)) [
      | inl lower ↦ rw lower (
          find_level_from p s left (i + 1) i (low_of p s i) (omega arith) (
            inl (
              record {
                below = omega arith;
                under = ground (arith, b.under);
                least = λ c lt. elim (dec_lt c i) [
                  | yes before ↦ ground (arith, b.least c before)
                  | no here ↦ let same : c ≡ i = omega arith in omega (arith, ap (low_of p s) same)
                ];
                first = λ c lt same. elim (dec_lt c i) [
                  | yes before ↦ absurd (ground (arith, b.least c before))
                  | no here ↦ omega arith
                ];
              },
              refl,
            )))
      | inr higher ↦ rw higher (
          find_level_from p s left (i + 1) level l_min (omega arith) (
            inl (
              record {
                below = omega (arith, b.below);
                under = b.under;
                least = λ c lt. elim (dec_lt c i) [
                  | yes before ↦ b.least c before
                  | no here ↦ let same : c ≡ i = omega arith in ground (arith, ap (low_of p s) same)
                ];
                first = λ c lt same. elim (dec_lt c i) [
                  | yes before ↦ b.first c before same
                  | no here ↦ omega (arith, b.below)
                ];
              },
              el,
            )))
    ]
find_level_from p s (suc left) i level l_min e (inr (none, el, over)) =
    elim (Bool-cases (ltb (low_of p s i) l_min)) [
      | inl lower ↦ rw lower (
          find_level_from p s left (i + 1) i (low_of p s i) (omega arith) (
            inl (
              record {
                below = omega arith;
                under = ground arith;
                least = λ c lt. elim (dec_lt c i) [
                  | yes before ↦ ground (arith, over c before)
                  | no here ↦ let same : c ≡ i = omega arith in omega (arith, ap (low_of p s) same)
                ];
                first = λ c lt same. elim (dec_lt c i) [
                  | yes before ↦ absurd (ground (arith, over c before))
                  | no here ↦ omega arith
                ];
              },
              refl,
            )))
      | inr higher ↦ rw higher (
          find_level_from p s left (i + 1) level l_min (omega arith) (
            inr (
              none,
              el,
              λ c lt. elim (dec_lt c i) [
                | yes before ↦ over c before
                | no here ↦ let same : c ≡ i = omega arith in ground (arith, ap (low_of p s) same)
              ],
            )))
    ]
