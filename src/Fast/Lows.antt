-- ===== src/Fast/Lows.antt =====
-- xmss_core_fast.c: what bds_treehash_update compares, for instances that share the stack.
use xmss_reference.Base.{
  ℕ, zero, suc, ◌+◌, ◌-◌, ◌≤◌, ◌<◌, ◌≡◌, inl, inr, refl, ap, ◌∙◌, arith, true, false, ◌==◌, List,
  [], ◌∷◌, ◌++◌, length, length-append,
}
use mathlib.Core.Path.{subst}
use native.Mathlib.Decide.{dec_lt}
use xmss_reference.Address.{Addr}
use xmss_reference.Params.{Params}
use xmss_reference.Params.Sets.{IsParams}
use xmss_reference.Hash.{HashFns}
use xmss_reference.Hash.Lengths.{HasLengths}
use xmss_reference.Core.{Stack}
use xmss_reference.Fast.{BdsState, instances}
use xmss_reference.Fast.Update.{get_inst, low_of}
use xmss_reference.Fast.Build.{OnStack}
use xmss_reference.Fast.Tail.{Above, Above-less, Part}
use xmss_reference.Fast.Advance.{Working}
use xmss_reference.Fast.Choice.{minheight-top}
use xmss_reference.Fast.Shared.{joined, joined_from, joined-Above, Above-append, Shared, Part-top}

length-joined :
    (tails : ℕ → Stack) (a left i : ℕ)
    → i ≤ a
    → a < left + i
    → length (tails a) ≤ length (joined tails left i)
length-joined tails a zero i le lt = absurd (omega arith)
length-joined tails a (suc left) i le lt =
    let size = length-append (tails i) (joined tails left (i + 1)) in
    elim (dec_lt i a) [
      | yes behind ↦ omega (arith, length-joined tails a left (i + 1) (omega arith) (omega arith))
      | no here ↦ let same : i ≡ a = omega arith in omega (arith, ap (λ u. length (tails u)) same)
    ]

module _ (fns : HashFns) (lengths : HasLengths fns) (p : Params) (ok : IsParams p)
    (sk_seed pub_seed : List ℕ) (sub : Addr) (jobs : ℕ → ℕ) (s : BdsState)
    (sh : Shared fns lengths p ok sk_seed pub_seed sub jobs s) where
  abbrev WorkingAt : ℕ → Type 0
  WorkingAt i = Working fns lengths p ok sk_seed pub_seed sub i (jobs i) (get_inst s i) (sh.tails i)

  pub low_idle : (i : ℕ) → (get_inst s i).completed ≡ 1 → low_of p s i ≡ p.tree_height
  unfolding low_of
  low_idle i e = let done : ((get_inst s i).completed == 0) ≡ false = ground arith in rw done refl

  pub low_fresh : (i : ℕ) → WorkingAt i → sh.tails i ≡ [] → low_of p s i ≡ i
  unfolding low_of
  low_fresh i w e =
      let active : ((get_inst s i).completed == 0) ≡ true = ground (arith, w.active) in
      let fresh : ((get_inst s i).stackusage == 0) ≡ true = ground (arith, w.usage, ap length e) in
      rw (active, fresh) refl

  -- The lowest node of the stack belongs to the first instance that has nodes.
  module _ (a h : ℕ) (x : List ℕ) (rest : Stack) (lt : a < instances p)
      (e : sh.tails a ≡ (h, x) ∷ rest) (none : (c : ℕ) → c < a → sh.tails c ≡ []) where
    below : Stack
    below = joined sh.tails (instances p + 0 - (a + 1)) (a + 1)

    whole : joined sh.tails (instances p) 0 ≡ (h, x) ∷ (rest ++ below)
    unfolding below
    whole =
        joined_from sh.tails a (instances p) 0 (omega arith) (omega arith) (λ c le. none c)
        ∙ ap (λ t. t ++ below) e

    pub top_lower : (h < a) × Above h rest
    top_lower = elim (sh.insts a lt) [
      | inl w ↦ Part-top fns lengths p ok sk_seed pub_seed sub (
          subst
            (λ t. Part fns lengths p ok sk_seed pub_seed sub a (jobs a) 0 (get_inst s a).next_idx t)
            e w.part)
      | inr idle ↦ absurd (omega (arith, ap length e, ap length idle.empty))
    ]

    pub later-Above : (b : ℕ) → a < b → b < instances p → Above h (sh.tails b)
    later-Above b after lt' =
        Above-less a h (sh.tails b) (omega (arith, top_lower.0))
          (sh.order a b after lt' (omega (arith, ap length e)))

    pub low_busy :
        (i : ℕ) → i < instances p → WorkingAt i → 0 < length (sh.tails i) → low_of p s i ≡ h
    unfolding low_of below
    low_busy i lt' w pos =
        let active : ((get_inst s i).completed == 0) ≡ true = ground (arith, w.active) in
        let busy : ((get_inst s i).stackusage == 0) ≡ false = ground (arith, w.usage) in
        rw (active, busy)
          (minheight-top s (get_inst s i).stackusage p.tree_height h x (rest ++ below)
            (omega (arith, w.usage))
            (omega (
              arith,
              w.usage,
              length-joined sh.tails i (instances p) 0 (omega arith) (omega arith),
              ap length whole,
            ))
            (omega (arith, top_lower.0)) (sh.offset ∙ ap length whole)
            (subst (λ t. OnStack s.stack s.stacklevels t) whole sh.on)
            (Above-append h rest below top_lower.1 (
              joined-Above sh.tails h (instances p + 0 - (a + 1)) (a + 1)
                (λ b le lt''. later-Above b (omega arith) (omega arith)))))
