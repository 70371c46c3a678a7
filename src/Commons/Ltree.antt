-- ===== src/Commons/Ltree.antt =====
-- xmss_commons.c: the loops of l_tree, as to the address, the length of the buffer and the fuel.
use xmss_reference.Base.{
  ℕ, zero, suc, ◌+◌, ◌*◌, ◌/◌, ◌%◌, ◌≤◌, ◌<◌, ◌≡◌, ◌⊎◌, inl, inr, false, refl, sym, ap, ◌∙◌, List,
  ◌++◌, Bool-cases, arith, length, length-append, length-take, le-length-take, take, drop, ltb,
  ◌==◌,
}
use native.Mathlib.Nat.{suc-mul}
use xmss_reference.Address.{Addr, set_key_and_mask, set_tree_height, set_tree_index}
use xmss_reference.Params.{Params}
use xmss_reference.Params.Sets.{IsParams}
use xmss_reference.Hash.{HashFns, written, derive, thash_h}
use xmss_reference.Hash.Lengths.{HasLengths, length-written, thash_h-Writes}
use xmss_reference.Wots.Chain.{chain_part}
use xmss_reference.Wots.Keys.{ots_part}
use xmss_reference.Commons.{slice, write_at, next_row, pull_up, l_tree_row, l_tree_loop, l_tree}

module _ (fns : HashFns) (p : Params) (pub_seed : List ℕ) where
  pub index_addr :
      (x : List ℕ) (a : Addr) (i : ℕ)
      → chain_part (thash_h fns p x pub_seed (set_tree_index a i)).0 ≡ chain_part a
  unfolding thash_h derive set_tree_index set_key_and_mask
  index_addr x a i = refl

  pub index_any :
      (x : List ℕ) (a b : Addr) (i : ℕ)
      → chain_part a ≡ chain_part b
      → (thash_h fns p x pub_seed (set_tree_index a i)).1
        ≡ (thash_h fns p x pub_seed (set_tree_index b i)).1
  unfolding thash_h derive set_tree_index set_key_and_mask
  index_any x a b i e = ap (λ c. (thash_h fns p x pub_seed (set_tree_index c i)).1) e

  -- Two addresses that agree but for the index and the mask give the same row.
  pub row_addr :
      (left i : ℕ) (pk : List ℕ) (a b : Addr)
      → chain_part a ≡ chain_part b
      → ((l_tree_row fns p left i pk pub_seed a).1 ≡ (l_tree_row fns p left i pk pub_seed b).1)
        × (chain_part (l_tree_row fns p left i pk pub_seed a).0 ≡ chain_part a)
  unfolding l_tree_row
  row_addr zero i pk a b e = (refl, refl)
  row_addr (suc left) i pk a b e =
      let x = slice (i * 2 * p.n) (2 * p.n) pk in
      let at_b = thash_h fns p x pub_seed (set_tree_index b i) in
      let same_b : chain_part b ≡ chain_part at_b.0 = sym (index_addr x b i) in
      let rest = row_addr left (i + 1) _ _ at_b.0 (index_addr x a i ∙ e ∙ same_b) in
      (
        rest.0 ∙ (λ j.
            (l_tree_row fns p left (i + 1)
              (write_at (i * p.n) (written (slice (i * p.n) p.n pk) (index_any x a b i e j)) pk)
              pub_seed at_b.0).1),
        rest.1 ∙ index_addr x a i,
      )

  pub height_addr :
      (a b : Addr) (h : ℕ)
      → chain_part a ≡ chain_part b
      → chain_part (set_tree_height a h) ≡ chain_part (set_tree_height b h)
  unfolding set_tree_height
  height_addr a b h e = ap (λ c. chain_part (set_tree_height c h)) e

  height_ots :
      (a b : Addr) (h : ℕ)
      → chain_part a ≡ chain_part b
      → ots_part (set_tree_height a h) ≡ ots_part b
  unfolding set_tree_height
  height_ots a b h e = ap ots_part e

  loop_addr :
      (fuel l height : ℕ) (pk : List ℕ) (a b : Addr)
      → chain_part a ≡ chain_part b
      → ((l_tree_loop fns p fuel l height pk pub_seed a).1
          ≡ (l_tree_loop fns p fuel l height pk pub_seed b).1)
        × (ots_part (l_tree_loop fns p fuel l height pk pub_seed a).0 ≡ ots_part a)
  unfolding l_tree_loop
  loop_addr zero l height pk a b e = (refl, refl)
  loop_addr (suc fuel) l height pk a b e =
      let row = row_addr (l / 2) 0 pk a b e in
      let row_b = row_addr (l / 2) 0 pk b b refl in
      let same = row.1 ∙ e ∙ sym row_b.1 in
      let rest =
        loop_addr fuel (next_row l) (height + 1) _ _ _ (height_addr _ _ (height + 1) same) in
      elim (Bool-cases (ltb 1 l)) [
        | inl more ↦ rw more (
          rest.0
              ∙ ap
                  (λ r.
                    (l_tree_loop fns p fuel (next_row l) (height + 1) (pull_up p l r) pub_seed (
                      set_tree_height (l_tree_row fns p (l / 2) 0 pk pub_seed b).0 (height + 1))).1)
                  row.0,
          rest.1 ∙ height_ots _ a (height + 1) row.1,
        )
        | inr over ↦ rw over (refl, refl)
      ]

  -- The leaf depends only on the words that name the L-tree, and these are kept.
  pub l_tree_addr :
      (pk : List ℕ) (a b : Addr)
      → ots_part a ≡ ots_part b
      → ((l_tree fns p pk pub_seed a).1 ≡ (l_tree fns p pk pub_seed b).1)
        × (ots_part (l_tree fns p pk pub_seed a).0 ≡ ots_part a)
  unfolding l_tree set_tree_height
  l_tree_addr pk a b e =
      let run =
        loop_addr p.wots_len p.wots_len 0 pk _ (set_tree_height b 0)
          (ap (λ c. chain_part (set_tree_height c 0)) e) in
      (ap (take p.n) run.0, run.1)

  -- A loop over `l` nodes ends within `l - 1` rounds: any two amounts of fuel that allow these give the
  -- same result. The fuel of l_tree, `wots_len` for as many nodes, does.
  pub l_tree_loop_fuel :
      (fuel fuel' l height : ℕ) (pk : List ℕ) (a : Addr)
      → l ≤ suc fuel
      → l ≤ suc fuel'
      → l_tree_loop fns p fuel l height pk pub_seed a
        ≡ l_tree_loop fns p fuel' l height pk pub_seed a
  unfolding l_tree_loop next_row
  l_tree_loop_fuel zero zero l height pk a h h' = refl
  l_tree_loop_fuel zero (suc fuel') l height pk a h h' =
      let over : ltb 1 l ≡ false = ground arith in rw over
  l_tree_loop_fuel (suc fuel) zero l height pk a h h' =
      let over : ltb 1 l ≡ false = ground arith in rw over
  l_tree_loop_fuel (suc fuel) (suc fuel') l height pk a h h' = elim (Bool-cases (ltb 1 l)) [
    | inl more ↦
        rw more
          (l_tree_loop_fuel fuel fuel' (next_row l) (height + 1) _ _ (ground arith) (ground arith))
    | inr over ↦ rw over
  ]

length-write_at :
    (n off : ℕ) (bytes buf : List ℕ)
    → n ≤ length buf
    → (n ≤ off) ⊎ (n ≤ length bytes)
    → n ≤ length (write_at off bytes buf)
length-write_at n off bytes buf h (inl far) = omega (
  arith,
  le-length-take n off buf far h,
  length-append (take off buf) (bytes ++ drop (off + length bytes) buf),
)
length-write_at n off bytes buf h (inr long) = omega (
  arith,
  length-append (take off buf) (bytes ++ drop (off + length bytes) buf),
  length-append bytes (drop (off + length bytes) buf),
)

le_times : (n q : ℕ) → 1 ≤ q → n ≤ q * n
le_times n zero h = absurd (omega arith)
le_times n (suc q) h = omega (arith, suc-mul q n)

module _ (fns : HashFns) (lengths : HasLengths fns) (p : Params) (ok : IsParams p)
    (pub_seed : List ℕ) where
  le-length-l_tree_row :
      (left i : ℕ) (pk : List ℕ) (a : Addr)
      → p.n ≤ length pk
      → p.n ≤ length (l_tree_row fns p left i pk pub_seed a).1
  unfolding l_tree_row
  le-length-l_tree_row zero i pk a h = h
  le-length-l_tree_row (suc left) i pk a h = le-length-l_tree_row left (i + 1) _ _ (
      length-write_at p.n (i * p.n) _ pk h (
        inr (
          omega (
            arith,
            length-written p.n (slice (i * p.n) p.n pk) (
                thash_h-Writes fns lengths p ok.hash_set (slice (i * 2 * p.n) (2 * p.n) pk) pub_seed
                  (set_tree_index a i)),
          ))))

  length-pull_up : (l : ℕ) (pk : List ℕ) → 1 < l → p.n ≤ length pk → p.n ≤ length (pull_up p l pk)
  unfolding pull_up
  length-pull_up l pk more h = elim (Bool-cases (l % 2 == 1)) [
    | inl odd ↦
        rw odd (length-write_at p.n (l / 2 * p.n) _ pk h (inl (le_times p.n (l / 2) (omega arith))))
    | inr even ↦ rw even h
  ]

  le-length-l_tree_loop :
      (fuel l height : ℕ) (pk : List ℕ) (a : Addr)
      → p.n ≤ length pk
      → p.n ≤ length (l_tree_loop fns p fuel l height pk pub_seed a).1
  unfolding l_tree_loop
  le-length-l_tree_loop zero l height pk a h = h
  le-length-l_tree_loop (suc fuel) l height pk a h = elim (Bool-cases (ltb 1 l)) [
    | inl more ↦ rw more (
        le-length-l_tree_loop fuel (next_row l) (height + 1) _ _
          (length-pull_up l _ (ground arith) (le-length-l_tree_row (l / 2) 0 pk a h)))
    | inr over ↦ rw over h
  ]

  pub length-l_tree :
      (pk : List ℕ) (a : Addr) → p.n ≤ length pk → length (l_tree fns p pk pub_seed a).1 ≡ p.n
  unfolding l_tree
  length-l_tree pk a h = length-take p.n _ (le-length-l_tree_loop p.wots_len p.wots_len 0 pk _ h)
