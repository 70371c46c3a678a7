-- ===== src/Commons/Rows.antt =====
-- xmss_commons.c: the rows of the L-tree as lists of nodes, and one row of l_tree in the buffer of the
-- public key.
use xmss_reference.Base.{
  ℕ, zero, suc, ◌+◌, ◌*◌, ◌/◌, ◌≡◌, refl, sym, ap, ap₂, ◌∙◌, List, [], ◌∷◌, ◌++◌, All, arith,
  length, length-append, take, drop, take-append_length, drop-append_length, Option,
}
use mathlib.Core.List.{append_assoc, append-nil}
use mathlib.Core.Path.{subst}
use native.Mathlib.Nat.{suc-mul, zero-add, add-zero}
use xmss_reference.Address.{Addr, set_tree_height, set_tree_index}
use xmss_reference.Params.{Params}
use xmss_reference.Params.Sets.{IsParams}
use xmss_reference.Hash.{HashFns, written, thash_h}
use xmss_reference.Hash.Lengths.{HasLengths, length-written, written_any, thash_h-Writes}
use xmss_reference.Wots.Chain.{chain_part}
use xmss_reference.Commons.{slice, write_at, l_tree_row}
use xmss_reference.Commons.Ltree.{index_any, index_addr}
use xmss_reference.Commons.Tree.{parent}
use xmss_reference.Core.{flatten_nodes}

module _ {ℓ} {A : Type ℓ} where
  drop_nil : (k : ℕ) → drop {A = A} k [] ≡ []
  drop_nil zero = refl
  drop_nil (suc k) = refl

  drop-drop : (a b : ℕ) (xs : List A) → drop a (drop b xs) ≡ drop (b + a) xs
  drop-drop a zero xs = rw (zero-add)
  drop-drop a (suc b) [] = drop_nil a ∙ sym (drop_nil (suc b + a))
  drop-drop a (suc b) (x ∷ xs) =
      let next : suc (b + a) ≡ suc b + a = omega arith in
      drop-drop a b xs ∙ ap (λ t. drop t (x ∷ xs)) next

  pub drop_behind : (a b : ℕ) (xs ys : List A) → length xs ≡ a → drop (a + b) (xs ++ ys) ≡ drop b ys
  drop_behind a b xs ys h =
      sym (drop-drop b a (xs ++ ys)) ∙ ap (drop b) (drop-append_length a xs ys h)

pub twice : (i n : ℕ) → i * 2 * n ≡ i * n + i * n
twice zero n = omega arith
twice (suc i) n =
    let up : suc i * 2 ≡ suc (suc (i * 2)) = omega arith in
    omega (
      arith,
      ap (λ t. t * n) up,
      suc-mul (suc (i * 2)) n,
      suc-mul (i * 2) n,
      suc-mul i n,
      twice i n,
    )

module _ (fns : HashFns) (p : Params) (pub_seed : List ℕ) (base : Addr) where
  -- The parents in a row of nodes of height `h`, the first of them with index `i`, and the node that
  -- has no partner.
  unfoldable pub parents : ℕ → ℕ → List (List ℕ) → List (List ℕ)
  parents h i [] = []
  parents h i (x ∷ []) = []
  parents h i (x ∷ (y ∷ rest)) = parent fns p pub_seed base h i (x ++ y) ∷ parents h (i + 1) rest

  unfoldable pub odd_one : List (List ℕ) → List (List ℕ)
  odd_one [] = []
  odd_one (x ∷ []) = x ∷ []
  odd_one (x ∷ (y ∷ rest)) = odd_one rest

  -- Row by row, until one node is left.
  unfoldable pub rows : ℕ → ℕ → List (List ℕ) → List ℕ
  rows fuel h [] = []
  rows fuel h (x ∷ []) = x
  rows zero h (x ∷ (y ∷ rest)) = []
  rows (suc fuel) h (x ∷ (y ∷ rest)) =
      rows fuel (h + 1) (parents h 0 (x ∷ (y ∷ rest)) ++ odd_one (x ∷ (y ∷ rest)))

module _ (fns : HashFns) (lengths : HasLengths fns) (p : Params) (ok : IsParams p)
    (pub_seed : List ℕ) (base : Addr) where
  abbrev pub AllNodes : List (List ℕ) → Type 0
  AllNodes nodes = All (λ x. length x ≡ p.n) nodes

  node_value :
      (h i : ℕ) (old x : List ℕ) (a : Addr)
      → chain_part a ≡ chain_part (set_tree_height base h)
      → written old (thash_h fns p x pub_seed (set_tree_index a i)).1
        ≡ parent fns p pub_seed base h i x
  unfolding parent
  node_value h i old x a e =
      written_any p.n old _
        (thash_h-Writes fns lengths p ok.hash_set x pub_seed (set_tree_index a i))
      ∙ ap (written _) (index_any fns p pub_seed x a (set_tree_height base h) i e)

  pub length-parent : (h i : ℕ) (x : List ℕ) → length (parent fns p pub_seed base h i x) ≡ p.n
  unfolding parent
  length-parent h i x = length-written p.n _ (thash_h-Writes fns lengths p ok.hash_set x pub_seed _)

  -- A node written at its place: what is in front of it stays, and the node behind is gone.
  pub write_lem :
      (i : ℕ) (done node tail : List ℕ)
      → length done ≡ i * p.n
      → length node ≡ p.n
      → write_at (i * p.n) node (done ++ tail) ≡ (done ++ node) ++ drop p.n tail
  write_lem i done node tail ld ln =
      ap₂ (λ x y. x ++ (node ++ y)) (take-append_length (i * p.n) done tail ld)
        (drop_behind (i * p.n) (length node) done tail ld ∙ ap (λ t. drop t tail) ln)
      ∙ sym (append_assoc done node (drop p.n tail))

  -- The two nodes that a round reads.
  read_lem :
      (i : ℕ) (done tail x y more : List ℕ)
      → length done ≡ i * p.n
      → length x ≡ p.n
      → length y ≡ p.n
      → drop (i * p.n) tail ≡ (x ++ y) ++ more
      → slice (i * 2 * p.n) (2 * p.n) (done ++ tail) ≡ x ++ y
  read_lem i done tail x y more ld lx ly e =
      ap (λ t. take (2 * p.n) (drop t (done ++ tail))) (twice i p.n)
      ∙ ap (take (2 * p.n)) (drop_behind (i * p.n) (i * p.n) done tail ld ∙ e)
      ∙ take-append_length (2 * p.n) (x ++ y) more (omega (arith, length-append x y))

  -- A row of the loop: the parents stand in front, and behind the place of the last one, as far
  -- again, the node without a partner.
  pub record RowDone (left i h : ℕ) (done : List ℕ) (nodes : List (List ℕ)) (junk r : List ℕ)
      : Type 0 where
    pub tail : List ℕ
    pub row : r ≡ (done ++ flatten_nodes (parents fns p pub_seed base h i nodes)) ++ tail
    pub behind :
        drop ((i + left) * p.n) tail ≡ flatten_nodes (odd_one fns p pub_seed base nodes) ++ junk

  row_step :
      (left i h : ℕ) (done tail junk x y : List ℕ) (rest : List (List ℕ)) (a : Addr)
      → length done ≡ i * p.n
      → drop (i * p.n) tail ≡ (x ++ (y ++ flatten_nodes rest)) ++ junk
      → length x ≡ p.n
      → length y ≡ p.n
      → chain_part a ≡ chain_part (set_tree_height base h)
      → ((done' tail' : List ℕ) (a' : Addr)
          → length done' ≡ (i + 1) * p.n
          → drop ((i + 1) * p.n) tail' ≡ flatten_nodes rest ++ junk
          → chain_part a' ≡ chain_part (set_tree_height base h)
          → RowDone left
              (i + 1)
              h
              done'
              rest
              junk
              (l_tree_row fns p left (i + 1) (done' ++ tail') pub_seed a').1)
      → RowDone
          (suc left)
          i
          h
          done
          (x ∷ (y ∷ rest))
          junk
          (l_tree_row fns p (suc left) i (done ++ tail) pub_seed a).1
  unfolding l_tree_row parents odd_one
  row_step left i h done tail junk x y rest a ld e lx ly ea again = record {
    tail = rec.tail;
    row =
        ap (λ b. (l_tree_row fns p left (i + 1) b pub_seed at.0).1) buffer
        ∙ rec.row
        ∙ ap (λ t. t ++ rec.tail) (append_assoc done node _);
    behind =
        subst
          (λ t. drop (t * p.n) rec.tail ≡ flatten_nodes (odd_one fns p pub_seed base rest) ++ junk)
          up rec.behind;
  }
    where
      input : List ℕ
      input = slice (i * 2 * p.n) (2 * p.n) (done ++ tail)

      old : List ℕ
      old = slice (i * p.n) p.n (done ++ tail)

      at : Addr × Option (List ℕ)
      at = thash_h fns p input pub_seed (set_tree_index a i)

      node : List ℕ
      node = parent fns p pub_seed base h i (x ++ y)

      more : List ℕ
      more = flatten_nodes rest ++ junk

      up : i + 1 + left ≡ i + suc left
      up = omega arith

      one_more : (i + 1) * p.n ≡ i * p.n + p.n
      one_more = let next : i + 1 ≡ suc i = omega arith in ap (λ t. t * p.n) next ∙ suc-mul i p.n

      pair : drop (i * p.n) tail ≡ (x ++ y) ++ more
      pair =
          e
          ∙ ap (λ t. t ++ junk) (sym (append_assoc x y (flatten_nodes rest)))
          ∙ append_assoc (x ++ y) (flatten_nodes rest) junk

      read : input ≡ x ++ y
      read = read_lem i done tail x y more ld lx ly pair

      value : written old at.1 ≡ node
      value =
          (λ j. written old (thash_h fns p (read j) pub_seed (set_tree_index a i)).1)
          ∙ node_value h i old (x ++ y) a ea

      buffer :
          write_at (i * p.n) (written old at.1) (done ++ tail) ≡ (done ++ node) ++ drop p.n tail
      buffer =
          ap (λ t. write_at (i * p.n) t (done ++ tail)) value
          ∙ write_lem i done node tail ld (length-parent h i (x ++ y))

      further : p.n + (i + 1) * p.n ≡ i * p.n + 2 * p.n
      further = omega (arith, one_more)

      later : drop ((i + 1) * p.n) (drop p.n tail) ≡ more
      later =
          drop-drop ((i + 1) * p.n) p.n tail
          ∙ ap (λ t. drop t tail) further
          ∙ sym (drop-drop (2 * p.n) (i * p.n) tail)
          ∙ ap (drop (2 * p.n)) pair
          ∙ drop-append_length (2 * p.n) (x ++ y) more (omega (arith, length-append x y))

      rec :
          RowDone left
            (i + 1)
            h
            (done ++ node)
            rest
            junk
            (l_tree_row fns p left (i + 1) ((done ++ node) ++ drop p.n tail) pub_seed at.0).1
      rec =
          again (done ++ node) (drop p.n tail) at.0
            (omega (arith, length-append done node, length-parent h i (x ++ y), one_more)) later
            (index_addr fns p pub_seed input a i ∙ ea)

  pub row_lem :
      (left i h : ℕ) (done tail junk : List ℕ) (nodes : List (List ℕ)) (a : Addr)
      → length done ≡ i * p.n
      → drop (i * p.n) tail ≡ flatten_nodes nodes ++ junk
      → AllNodes nodes
      → length nodes / 2 ≡ left
      → chain_part a ≡ chain_part (set_tree_height base h)
      → RowDone left i h done nodes junk (l_tree_row fns p left i (done ++ tail) pub_seed a).1
  unfolding l_tree_row parents odd_one
  row_lem zero i h done tail junk [] a ld e all half ea = record {
    tail = tail;
    row = ap (λ t. t ++ tail) (sym (append-nil done));
    behind = rw (add-zero) e;
  }
  row_lem zero i h done tail junk (x ∷ []) a ld e all half ea = record {
    tail = tail;
    row = ap (λ t. t ++ tail) (sym (append-nil done));
    behind = rw (add-zero) e;
  }
  row_lem zero i h done tail junk (x ∷ (y ∷ rest)) a ld e all half ea = absurd (omega arith)
  row_lem (suc left) i h done tail junk [] a ld e all half ea = absurd (omega arith)
  row_lem (suc left) i h done tail junk (x ∷ []) a ld e all half ea = absurd (omega arith)
  row_lem (suc left) i h done tail junk (x ∷ (y ∷ rest)) a ld e (lx, (ly, all)) half ea =
      row_step left i h done tail junk x y rest a ld e lx ly ea (λ done' tail' a' ld' e' ea'.
        row_lem left (i + 1) h done' tail' junk rest a' ld' e' all (omega arith) ea')
