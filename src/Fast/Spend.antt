-- ===== src/Fast/Spend.antt =====
-- xmss_core_fast.c: each update of bds_treehash_update brings the instances at work nearer to their end.
use xmss_reference.Base.{
  ℕ, zero, suc, ◌+◌, ◌-◌, ◌/◌, ◌%◌, ◌^◌, ◌≤◌, ◌<◌, ◌≡◌, ◌≢◌, ◌⊎◌, inl, inr, refl, sym, ap, ◌∙◌,
  arith, true, false, ◌==◌, List, [], ◌∷◌, length,
}
use mathlib.Core.Path.{subst}
use native.Mathlib.Decide.{dec_lt}
use native.Mathlib.Nat.{
  mod-eq_of_lt, one-le-pow, mod-lt, div-add-mod', add-mul-mod_self_right, mul-mod_left, suc-mul,
}
use xmss_reference.Address.{Addr, zero_addr, copy_subtree_addr}
use xmss_reference.Params.{Params}
use xmss_reference.Params.Sets.{IsParams}
use xmss_reference.Hash.{HashFns}
use xmss_reference.Hash.Lengths.{HasLengths}
use xmss_reference.Core.{Stack}
use xmss_reference.Core.AuthPath.{trichotomy}
use xmss_reference.Fast.{BdsState, TreehashInst, instances}
use xmss_reference.Fast.Update.{get_inst, low_of, find_level, treehash_update, update_rounds}
use xmss_reference.Fast.Tail.{Part}
use xmss_reference.Fast.Advance.{Working, Advanced}
use xmss_reference.Fast.Choice.{Least, find_level_from}
use xmss_reference.Fast.Lows.{low_fresh, low_busy}
use xmss_reference.Fast.Chosen.{Chosen, Least-Chosen, none_working}
use xmss_reference.Fast.Shared.{Shared}
use xmss_reference.Fast.Updates.{update-Advanced, update_shared, below}
use xmss_reference.Fast.Debt.{
  total, total_lt, cost, cost_done, cost_low, cost_high, to_multiple, Part-bound, Part-begun,
}

-- A number behind a multiple of `m` is nearer to the next one.
mod_next : (n m : ℕ) → n % m ≢ 0 → 0 < m → to_multiple (n + 1) m < m - n % m
mod_next n m begun pos =
    let q = n / m in
    let x = n % m in
    let split = div-add-mod' n m in
    let lt = mod-lt n pos in
    elim (dec_lt (x + 1) m) [
      | yes more ↦
          let next : (n + 1) % m ≡ x + 1 =
            ap (λ (u : ℕ). u % m) (omega arith)
            ∙ add-mul-mod_self_right (x + 1) q m
            ∙ mod-eq_of_lt more in
          ground arith
      | no full ↦
          let next : (n + 1) % m ≡ 0 =
            ap (λ (u : ℕ). u % m) (omega (arith, suc-mul q m)) ∙ mul-mod_left (suc q) m in
          ground arith
    ]

module _ (fns : HashFns) (lengths : HasLengths fns) (p : Params) (ok : IsParams p)
    (sk_seed pub_seed : List ℕ) (sub : Addr) (jobs : ℕ → ℕ) where
  abbrev WorkingAt : ℕ → TreehashInst → Stack → Type 0
  WorkingAt i t tail = Working fns lengths p ok sk_seed pub_seed sub i (jobs i) t tail

  -- What is to be done before instance `i` has its node.
  abbrev pub debt : ℕ → BdsState → ℕ
  debt i s = total (λ b. cost i b (jobs b) (get_inst s b)) (instances p)

  -- An instance of a higher one is taken only if it has begun a lower subtree.
  chosen_begun :
      (s : BdsState) (sh : Shared fns lengths p ok sk_seed pub_seed sub jobs s) (i level : ℕ)
      → Least (low_of p s) p.tree_height (instances p) level
      → i < level
      → WorkingAt i (get_inst s i) (sh.tails i)
      → (get_inst s level).next_idx % 2 ^ i ≢ 0
  chosen_begun s sh i level l lt w = go (sh.tails level) refl
    where
      ch : Chosen fns lengths p ok sk_seed pub_seed sub jobs s sh level
      ch = Least-Chosen fns lengths p ok sk_seed pub_seed sub jobs s sh level l

      low_i : low_of p s i ≡ i
      low_i = low_fresh fns lengths p ok sk_seed pub_seed sub jobs s sh i w (ch.before i lt)

      go : (tail : Stack) → sh.tails level ≡ tail → (get_inst s level).next_idx % 2 ^ i ≢ 0
      go [] e = absurd (
          omega (
            arith,
            low_i,
            low_fresh fns lengths p ok sk_seed pub_seed sub jobs s sh level ch.working e,
            l.least i (omega (arith, l.below)),
          ))
      go ((h, x) ∷ tail) e =
          let low =
            low_busy fns lengths p ok sk_seed pub_seed sub jobs s sh level h x tail l.below e
              ch.before level l.below ch.working (omega (arith, ap length e)) in
          let part =
            subst
              (λ t.
                Part fns lengths p ok sk_seed pub_seed sub level (jobs level) 0
                  (get_inst s level).next_idx t)
              e ch.working.part in
          Part-begun fns lengths p ok sk_seed pub_seed sub i part (elim (dec_lt h i) [
            | yes lower ↦ omega arith
            | no not_lower ↦
                let le = l.least i (omega (arith, l.below)) in
                let first = l.first i (omega (arith, l.below)) (omega (arith, low_i, low, le)) in
                absurd (omega arith)
          ])

  -- The cost of the instance that is taken becomes less.
  cost_less :
      (s : BdsState) (sh : Shared fns lengths p ok sk_seed pub_seed sub jobs s) (i level : ℕ)
      → Least (low_of p s) p.tree_height (instances p) level
      → WorkingAt level (get_inst s level) (sh.tails level)
      → WorkingAt i (get_inst s i) (sh.tails i)
      → (t : TreehashInst)
      → (t.completed ≡ 1) ⊎ ((t.completed ≡ 0) × (t.next_idx ≡ (get_inst s level).next_idx + 1))
      → cost i level (jobs level) t < cost i level (jobs level) (get_inst s level)
  cost_less s sh i level l wl w t next = elim (dec_lt i level) [
    | yes high ↦
        let begun = chosen_begun s sh i level l high w in
        let old = cost_high i level (jobs level) (get_inst s level) wl.active high in
        let q = (get_inst s level).next_idx in
        let before : to_multiple q (2 ^ i) ≡ 2 ^ i - q % 2 ^ i = ground arith in
        let room = mod-lt q (one-le-pow i 2 (omega arith)) in
        elim next [
          | inl done ↦ omega (arith, cost_done i level (jobs level) t done)
          | inr (active, one) ↦
              let after =
                cost_high i level (jobs level) t active high
                ∙ ap (λ (u : ℕ). to_multiple u (2 ^ i)) one in
              omega (arith, mod_next q (2 ^ i) begun (one-le-pow i 2 (omega arith)))
        ]
    | no low ↦
        let old = cost_low i level (jobs level) (get_inst s level) wl.active (omega arith) in
        let bound = Part-bound fns lengths p ok sk_seed pub_seed sub level (omega arith) wl.part in
        elim next [
          | inl done ↦ omega (arith, cost_done i level (jobs level) t done)
          | inr (active, one) ↦ omega (arith, cost_low i level (jobs level) t active (omega arith))
        ]
  ]

  module _ (s : BdsState) (sh : Shared fns lengths p ok sk_seed pub_seed sub jobs s) (i level : ℕ)
      (l : Least (low_of p s) p.tree_height (instances p) level) (addr : Addr)
      (same : copy_subtree_addr zero_addr addr ≡ copy_subtree_addr zero_addr sub) where
    ch : Chosen fns lengths p ok sk_seed pub_seed sub jobs s sh level
    ch = Least-Chosen fns lengths p ok sk_seed pub_seed sub jobs s sh level l

    adv :
        Advanced fns lengths p ok sk_seed pub_seed sub level
          (jobs level)
          (below fns lengths p ok sk_seed pub_seed sub jobs s sh level ch)
          s
          (treehash_update fns p level s sk_seed pub_seed addr)
    adv = update-Advanced fns lengths p ok sk_seed pub_seed sub jobs s sh level ch addr same

    here :
        ((get_inst (treehash_update fns p level s sk_seed pub_seed addr) level).completed ≡ 1)
        ⊎ (((get_inst (treehash_update fns p level s sk_seed pub_seed addr) level).completed ≡ 0)
            × ((get_inst (treehash_update fns p level s sk_seed pub_seed addr) level).next_idx
                ≡ (get_inst s level).next_idx + 1))
    here = elim (adv.here) [
      | inl still ↦ inr (still.working.active, still.next_idx)
      | inr over ↦ inl over.finished.completed
    ]

    spend_one :
        i < instances p
        → (get_inst s i).completed ≡ 0
        → debt i (treehash_update fns p level s sk_seed pub_seed addr) < debt i s
    spend_one lt active = elim (sh.insts i lt) [
      | inl w ↦
          let less =
            cost_less s sh i level l ch.working w
              (get_inst (treehash_update fns p level s sk_seed pub_seed addr) level) here in
          total_lt
            (λ b.
              cost i b (jobs b) (get_inst (treehash_update fns p level s sk_seed pub_seed addr) b))
            (λ b. cost i b (jobs b) (get_inst s b)) (instances p) level ch.below
            (λ b lt'. elim (trichotomy b level) [
              | inl before ↦ omega (arith, ap (cost i b (jobs b)) (adv.others b (omega arith)))
              | inr (inl same') ↦
                  subst
                    (λ u.
                      cost i u (jobs u)
                        (get_inst (treehash_update fns p level s sk_seed pub_seed addr) u)
                      ≤ cost i u (jobs u) (get_inst s u))
                    (sym same') (omega arith)
              | inr (inr after) ↦ omega (arith, ap (cost i b (jobs b)) (adv.others b (omega arith)))
            ])
            less
      | inr idle ↦ absurd (omega (arith, idle.completed))
    ]

    -- A completed instance is not touched.
    stays_done :
        (get_inst s i).completed ≡ 1
        → (get_inst (treehash_update fns p level s sk_seed pub_seed addr) i).completed ≡ 1
    stays_done done =
        ap (λ (t : TreehashInst). t.completed)
          (adv.others i
            (λ e. omega (arith, ap (λ u. (get_inst s u).completed) e, ch.working.active, done)))
        ∙ done

  -- All updates are spent while instance `i` is at work.
  pub record Spent (i updates : ℕ) (s r : BdsState) : Type 0 where
    pub stays : (get_inst s i).completed ≡ 1 → (get_inst r i).completed ≡ 1
    pub spent :
        (get_inst s i).completed ≡ 0 → (get_inst r i).completed ≡ 0 → debt i r + updates ≤ debt i s

  pub rounds-Spent :
      (updates : ℕ) (s : BdsState) (i : ℕ) (addr : Addr)
      → copy_subtree_addr zero_addr addr ≡ copy_subtree_addr zero_addr sub
      → i < instances p
      → Shared fns lengths p ok sk_seed pub_seed sub jobs s
      → Spent i updates s (update_rounds fns p updates s sk_seed pub_seed addr).0
  unfolding update_rounds
  rounds-Spent zero s i addr same lt sh = record { stays = λ e. e; spent = λ e e'. omega arith }
  rounds-Spent (suc updates) s i addr same lt sh =
      elim (find_level_from p s (instances p) 0 (instances p) p.tree_height (omega arith)
        (inr (refl, refl, λ c lt'. absurd (omega arith)))) [
          | inl l ↦
              let level = find_level p s (instances p) 0 (instances p) p.tree_height in
              let found : (level == instances p) ≡ false = ground (arith, l.below) in
              let ch = Least-Chosen fns lengths p ok sk_seed pub_seed sub jobs s sh level l in
              let s' = treehash_update fns p level s sk_seed pub_seed addr in
              let sh' =
                (update_shared fns lengths p ok sk_seed pub_seed sub jobs s sh level ch addr
                  same).0 in
              let r = rounds-Spent updates s' i addr same lt sh' in
              rw (update_rounds, found)
                (record {
                  stays = λ e. r.stays (stays_done s sh i level l addr same e);
                  spent = λ e e'. elim (sh'.insts i lt) [
                    | inl w ↦
                        omega (arith, r.spent w.active e', spend_one s sh i level l addr same lt e)
                    | inr idle ↦ absurd (omega (arith, r.stays idle.completed))
                  ];
                })
          | inr (none, over) ↦
              let stop : (find_level p s (instances p) 0 (instances p) p.tree_height == instances p)
                  ≡ true =
                ground (arith, none) in
              rw (update_rounds, stop)
                (record {
                  stays = λ e. e;
                  spent = λ e e'. absurd (
                      omega (
                        arith,
                        none_working fns lengths p ok sk_seed pub_seed sub jobs s sh over i lt,
                      ));
                })
        ]
