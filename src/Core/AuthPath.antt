-- ===== src/Core/AuthPath.antt =====
-- xmss_core.c: the authentication path during treehash.
use xmss_reference.Base.{
  ℕ, ◌+◌, ◌/◌, ◌^◌, ◌<◌, ◌≡◌, ◌≢◌, ◌⊎◌, inl, inr, sym, ap, ◌∙◌, List, [], true, Bool-cases, ◌==◌,
  if◌then◌else◌, bit_xor, arith, length, get_or, set, get_or-set, get_or_other,
}
use xmss_reference.Address.{Addr}
use xmss_reference.Params.{Params}
use xmss_reference.Params.Sets.{IsParams}
use xmss_reference.Hash.{HashFns}
use xmss_reference.Hash.Lengths.{HasLengths}
use xmss_reference.Commons.Tree.{sibling, node}

pub trichotomy : (a b : ℕ) → a < b ⊎ (a ≡ b ⊎ b < a)
trichotomy a b = ground arith

module _ (fns : HashFns) (lengths : HasLengths fns) (p : Params) (ok : IsParams p)
    (sk_seed pub_seed : List ℕ) (sub : Addr) (leaf_idx : ℕ) where
  abbrev at : ℕ → ℕ → List ℕ
  at h j = node fns lengths p ok sk_seed pub_seed sub h j

  -- The nodes below height `k` that exist after leaf `idx`, and those of any height that existed
  -- before it, are in the authentication path if they are on it.
  abbrev pub Stored : ℕ → ℕ → List (List ℕ) → Type 0
  Stored idx k path =
      (h : ℕ)
      → h < p.tree_height
      → (h < k × sibling leaf_idx h < (idx + 1) / 2 ^ h) ⊎ sibling leaf_idx h < idx / 2 ^ h
      → get_or path h [] ≡ at h (sibling leaf_idx h)

  -- Above and below the height that is written nothing changes.
  alt_other :
      (idx k h : ℕ)
      → h < k ⊎ k < h
      → (h < k + 1 × sibling leaf_idx h < (idx + 1) / 2 ^ h) ⊎ sibling leaf_idx h < idx / 2 ^ h
      → (h < k × sibling leaf_idx h < (idx + 1) / 2 ^ h) ⊎ sibling leaf_idx h < idx / 2 ^ h
  alt_other idx k h (inl below) (inl (fits, new)) = inl (below, new)
  alt_other idx k h (inr above) (inl (fits, new)) = absurd (omega arith)
  alt_other idx k h other (inr old) = inr old

  -- The node of height `k` is new: at its height, the sibling is it or is old.
  alt_same :
      (idx k h c : ℕ)
      → h ≡ k
      → idx / 2 ^ k ≡ c
      → (idx + 1) / 2 ^ k ≡ c + 1
      → (h < k + 1 × sibling leaf_idx h < (idx + 1) / 2 ^ h) ⊎ sibling leaf_idx h < idx / 2 ^ h
      → sibling leaf_idx k ≢ c
      → sibling leaf_idx h < idx / 2 ^ h
  alt_same idx k h c same e e' (inl (fits, new)) miss = omega (
    arith,
    ap (λ t. sibling leaf_idx t) same,
    ap (λ t. (idx + 1) / 2 ^ t) same,
    ap (λ t. idx / 2 ^ t) same,
  )
  alt_same idx k h c same e e' (inr old) miss = old

  pub store :
      (idx k c : ℕ) (path : List (List ℕ))
      → length path ≡ p.tree_height
      → idx / 2 ^ k ≡ c
      → (idx + 1) / 2 ^ k ≡ c + 1
      → Stored idx k path
      → Stored idx (k + 1) (if bit_xor (leaf_idx / 2 ^ k) 1 == c then set path k (at k c) else path)
  store idx k c path len e e' s h lt alt = elim (Bool-cases (sibling leaf_idx k == c)) [
    | inl hit ↦ rw hit (elim (trichotomy h k) [
      | inl below ↦
          get_or_other path k h (at k c) [] (inr below) ∙ s h lt (alt_other idx k h (inl below) alt)
      | inr (inl same) ↦
          (λ j. get_or (set path k (at k c)) (same j) [])
          ∙ get_or-set path k (at k c) [] (omega arith)
          ∙ sym (ap (λ t. at k t) (hit_eq hit))
          ∙ sym (ap (λ t. at t (sibling leaf_idx t)) same)
      | inr (inr above) ↦
          get_or_other path k h (at k c) [] (inl above) ∙ s h lt (alt_other idx k h (inr above) alt)
    ])
    | inr miss ↦ rw miss (elim (trichotomy h k) [
      | inl below ↦ s h lt (alt_other idx k h (inl below) alt)
      | inr (inl same) ↦ s h lt (inr (alt_same idx k h c same e e' alt (ground arith)))
      | inr (inr above) ↦ s h lt (alt_other idx k h (inr above) alt)
    ])
  ]
    where
      hit_eq : (sibling leaf_idx k == c) ≡ true → sibling leaf_idx k ≡ c
      hit_eq hit = ground arith
