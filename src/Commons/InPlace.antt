-- ===== src/Commons/InPlace.antt =====
-- xmss_commons.c: l_tree with its buffer, and the tree of rows.
use xmss_reference.Base.{
  ℕ, zero, suc, ◌+◌, ◌-◌, ◌*◌, ◌/◌, ◌%◌, ◌≤◌, ◌<◌, ◌≡◌, ◌⊎◌, inl, inr, refl, sym, ap, ◌∙◌, List, [],
  ◌∷◌, ◌++◌, true, false, ltb, ◌==◌, All, arith, length, length-append, take, drop,
  take-append_length,
}
use mathlib.Core.List.{append_assoc, append-nil}
use native.Mathlib.Nat.{suc-mul, zero-add, zero-mul}
use xmss_reference.Address.{Addr, set_tree_height}
use xmss_reference.Params.{Params}
use xmss_reference.Params.Sets.{IsParams}
use xmss_reference.Hash.{HashFns}
use xmss_reference.Hash.Lengths.{HasLengths}
use xmss_reference.Wots.Chain.{chain_part}
use xmss_reference.Commons.{slice, write_at, next_row, pull_up, l_tree_row, l_tree_loop, l_tree}
use xmss_reference.Commons.Ltree.{row_addr, height_addr}
use xmss_reference.Commons.Rows.{
  drop_behind, twice, parents, odd_one, rows, length-parent, write_lem, RowDone, row_lem,
}
use xmss_reference.Core.{flatten_nodes}

flatten-append :
    (xs ys : List (List ℕ)) → flatten_nodes (xs ++ ys) ≡ flatten_nodes xs ++ flatten_nodes ys
flatten-append [] ys = refl
flatten-append (x ∷ xs) ys =
    ap (λ t. x ++ t) (flatten-append xs ys)
    ∙ sym (append_assoc x (flatten_nodes xs) (flatten_nodes ys))

module _ (fns : HashFns) (lengths : HasLengths fns) (p : Params) (ok : IsParams p)
    (pub_seed : List ℕ) (base : Addr) where
  abbrev Nodes : List (List ℕ) → Type 0
  Nodes nodes = All (λ x. length x ≡ p.n) nodes

  abbrev up : ℕ → ℕ → List (List ℕ) → List (List ℕ)
  up h i nodes = parents fns p pub_seed base h i nodes

  abbrev last_node : List (List ℕ) → List (List ℕ)
  last_node nodes = odd_one fns p pub_seed base nodes

  Nodes-append : (xs ys : List (List ℕ)) → Nodes xs → Nodes ys → Nodes (xs ++ ys)
  Nodes-append [] ys hx hy = hy
  Nodes-append (x ∷ xs) ys (h, hx) hy = (h, Nodes-append xs ys hx hy)

  parents-Nodes : (h i : ℕ) (nodes : List (List ℕ)) → Nodes (up h i nodes)
  unfolding parents
  parents-Nodes h i [] = tt
  parents-Nodes h i (x ∷ []) = tt
  parents-Nodes h i (x ∷ (y ∷ rest)) =
      (length-parent fns lengths p ok pub_seed base h i (x ++ y), parents-Nodes h (i + 1) rest)

  length-parents : (h i : ℕ) (nodes : List (List ℕ)) → length (up h i nodes) ≡ length nodes / 2
  unfolding parents
  length-parents h i [] = refl
  length-parents h i (x ∷ []) = refl
  length-parents h i (x ∷ (y ∷ rest)) = omega (arith, length-parents h (i + 1) rest)

  length-flatten :
      (nodes : List (List ℕ)) → Nodes nodes → length (flatten_nodes nodes) ≡ length nodes * p.n
  length-flatten [] h = omega arith
  length-flatten (x ∷ nodes) (l, h) = omega (
    arith,
    length-append x (flatten_nodes nodes),
    length-flatten nodes h,
    suc-mul (length nodes) p.n,
  )

  -- The node without a partner: none in an even row, one in an odd one.
  odd_cases :
      (nodes : List (List ℕ))
      → Nodes nodes
      → ((length nodes % 2 ≡ 0) × (last_node nodes ≡ []))
        ⊎ ((length nodes % 2 ≡ 1) × ((z : List ℕ) × (last_node nodes ≡ z ∷ []) × (length z ≡ p.n)))
  unfolding odd_one
  odd_cases [] h = inl (refl, refl)
  odd_cases (x ∷ []) (l, h) = inr (refl, (x, refl, l))
  odd_cases (x ∷ (y ∷ rest)) (lx, (ly, h)) = elim (odd_cases rest h) [
    | inl (even, none) ↦ inl (omega arith, none)
    | inr (odd, one) ↦ inr (omega arith, one)
  ]

  odd_pulled :
      (l h : ℕ) (nodes : List (List ℕ)) (z tail junk row : List ℕ)
      → l % 2 ≡ 1
      → length z ≡ p.n
      → length (flatten_nodes (up h 0 nodes)) ≡ l / 2 * p.n
      → row ≡ flatten_nodes (up h 0 nodes) ++ tail
      → drop ((0 + l / 2) * p.n) tail ≡ (z ++ []) ++ junk
      → write_at (l / 2 * p.n) (slice ((l - 1) * p.n) p.n row) row
        ≡ flatten_nodes (up h 0 nodes ++ (z ∷ [])) ++ drop p.n tail
  odd_pulled l h nodes z tail junk row odd lz lp er eb =
      ap (λ t. write_at (l / 2 * p.n) (slice ((l - 1) * p.n) p.n t) t) er
      ∙ ap (λ t. write_at (l / 2 * p.n) t (above ++ tail)) slice_is
      ∙ write_lem fns lengths p ok pub_seed base (l / 2) above z tail lp lz
      ∙ ap (λ t. t ++ drop p.n tail)
          (sym (flatten-append (up h 0 nodes) (z ∷ []) ∙ ap (λ t. above ++ t) (append-nil z)))
    where
      above : List ℕ
      above = flatten_nodes (up h 0 nodes)

      place : (l - 1) * p.n ≡ l / 2 * p.n + l / 2 * p.n
      place =
          let even : l - 1 ≡ l / 2 * 2 = omega arith in ap (λ t. t * p.n) even ∙ twice (l / 2) p.n

      slice_is : slice ((l - 1) * p.n) p.n (above ++ tail) ≡ z
      slice_is =
          ap (λ t. take p.n (drop t (above ++ tail))) place
          ∙ ap (take p.n) (
              drop_behind (l / 2 * p.n) (l / 2 * p.n) above tail lp
              ∙ ap (λ t. drop (t * p.n) tail) (sym (zero-add (l / 2)))
              ∙ eb
              ∙ ap (λ t. t ++ junk) (append-nil z))
          ∙ take-append_length p.n z junk lz

  -- The row and the node that is pulled up are the next row, in front of the buffer.
  pulled :
      (l h : ℕ) (nodes : List (List ℕ)) (junk row : List ℕ)
      → Nodes nodes
      → length nodes ≡ l
      → RowDone fns lengths p ok pub_seed base (l / 2) 0 h [] nodes junk row
      → (junk' : List ℕ) × (pull_up p l row
          ≡ flatten_nodes (up h 0 nodes ++ last_node nodes) ++ junk')
  unfolding pull_up
  pulled l h nodes junk row all el r = elim (odd_cases nodes all) [
    | inl (even, none) ↦
        let test : (l % 2 == 1) ≡ false = ground arith in
        (r.tail, rw (test, none, append-nil (up h 0 nodes)) r.row)
    | inr (odd, (z, one, lz)) ↦
        let test : (l % 2 == 1) ≡ true = ground arith in
        (
          drop p.n r.tail,
          rw (test, one)
              (odd_pulled l h nodes z r.tail junk row (omega arith) lz
                (length-flatten (up h 0 nodes) (parents-Nodes h 0 nodes)
                  ∙ ap (λ t. t * p.n) (length-parents h 0 nodes ∙ ap (λ t. t / 2) el))
                r.row (r.behind ∙ ap (λ t. flatten_nodes t ++ junk) one)),
        )
  ]

  last-Nodes : (nodes : List (List ℕ)) → Nodes nodes → Nodes (last_node nodes)
  unfolding odd_one
  last-Nodes [] h = tt
  last-Nodes (x ∷ []) h = h
  last-Nodes (x ∷ (y ∷ rest)) (lx, (ly, h)) = last-Nodes rest h

  length-last : (nodes : List (List ℕ)) → length (last_node nodes) ≡ length nodes % 2
  unfolding odd_one
  length-last [] = refl
  length-last (x ∷ []) = refl
  length-last (x ∷ (y ∷ rest)) = omega (arith, length-last rest)

  length-next :
      (l h : ℕ) (nodes : List (List ℕ))
      → length nodes ≡ l
      → next_row l ≡ length (up h 0 nodes ++ last_node nodes)
  unfolding next_row
  length-next l h nodes el = ground (
    arith,
    length-append (up h 0 nodes) (last_node nodes),
    length-parents h 0 nodes,
    length-last nodes,
  )

  next_row_bounds :
      (l fuel : ℕ) → 1 < l → l ≤ suc (suc fuel) → (1 ≤ next_row l) × (next_row l ≤ suc fuel)
  unfolding next_row
  next_row_bounds l fuel more enough = ground arith

  first : (x junk : List ℕ) → length x ≡ p.n → take p.n ((x ++ []) ++ junk) ≡ x
  first x junk lx = rw (append-nil x) (take-append_length p.n x junk lx)

  loop_lem :
      (fuel l h : ℕ) (nodes : List (List ℕ)) (junk buf : List ℕ) (a : Addr)
      → buf ≡ flatten_nodes nodes ++ junk
      → Nodes nodes
      → l ≡ length nodes
      → 1 ≤ l
      → l ≤ suc fuel
      → chain_part a ≡ chain_part (set_tree_height base h)
      → take p.n (l_tree_loop fns p fuel l h buf pub_seed a).1
        ≡ rows fns p pub_seed base fuel h nodes
  unfolding l_tree_loop rows set_tree_height
  loop_lem fuel l h [] junk buf a eb all el pos enough ea = absurd (omega arith)
  loop_lem zero l h (x ∷ []) junk buf a eb (lx, tt) el pos enough ea =
      ap (take p.n) eb ∙ first x junk lx
  loop_lem (suc fuel) l h (x ∷ []) junk buf a eb (lx, tt) el pos enough ea =
      let over : ltb 1 l ≡ false = ground arith in rw over (ap (take p.n) eb ∙ first x junk lx)
  loop_lem zero l h (x ∷ (y ∷ rest)) junk buf a eb all el pos enough ea = absurd (omega arith)
  loop_lem (suc fuel) l h (x ∷ (y ∷ rest)) junk buf a eb all el pos enough ea =
      let nodes = x ∷ (y ∷ rest) in
      let more : ltb 1 l ≡ true = ground arith in
      let row =
        row_lem fns lengths p ok pub_seed base (l / 2) 0 h [] buf junk nodes a (rw (zero-mul) refl)
          (rw (zero-mul) eb) all (omega arith) ea in
      let next = pulled l h nodes junk _ all (sym el) row in
      let bounds = next_row_bounds l fuel (omega arith) enough in
      rw more (
        loop_lem fuel (next_row l) (h + 1) (up h 0 nodes ++ last_node nodes) next.0 _
          (set_tree_height (l_tree_row fns p (l / 2) 0 buf pub_seed a).0 (h + 1)) next.1
          (Nodes-append (up h 0 nodes) (last_node nodes) (parents-Nodes h 0 nodes)
            (last-Nodes nodes all))
          (length-next l h nodes (sym el)) bounds.0 bounds.1
          (height_addr fns p pub_seed (l_tree_row fns p (l / 2) 0 buf pub_seed a).0
            (set_tree_height base h) (h + 1)
            ((row_addr fns p pub_seed (l / 2) 0 buf a a refl).1 ∙ ea)))

  -- For the parameters of a set, l_tree, which computes in the buffer of the public key, gives the
  -- root of the tree of rows: in each row, neighbouring nodes are hashed to their parent, and a last
  -- node without a neighbour is pulled up, until one node is left. The key is `wots_len` nodes of n
  -- bytes, with any bytes behind them.
  pub l_tree_lem :
      (nodes : List (List ℕ)) (junk : List ℕ)
      → length nodes ≡ p.wots_len
      → All (λ x. length x ≡ p.n) nodes
      → (l_tree fns p (flatten_nodes nodes ++ junk) pub_seed base).1
        ≡ rows fns p pub_seed base p.wots_len 0 nodes
  unfolding l_tree
  l_tree_lem nodes junk el all =
      loop_lem p.wots_len p.wots_len 0 nodes junk _ (set_tree_height base 0) refl all (sym el)
        (omega (arith, ok.len, ok.len2)) (omega arith) refl
