-- ===== src/Params/Sets.antt =====
-- params.c: the parameters that xmss_parse_oid and xmssmt_parse_oid set up. The sets are finite, so
-- each fact is checked at each OID.
use xmss_reference.Base.{
  ℕ, zero, suc, ◌+◌, ◌-◌, ◌*◌, ◌^◌, ◌≤◌, ◌<◌, ◌≡◌, ◌⊎◌, inl, inr, Option, none, some, sym, arith,
  refl,
}
use xmss_reference.Params.Table.{
  xmss_sha2, xmss_shake128, xmss_shake256, one_of, xmss_func, xmss_n, xmss_height, xmssmt_func,
  xmssmt_n, xmssmt_height, xmssmt_d,
}
use xmss_reference.Params.{
  Params, wots_constants, set_wots_lengths, set_sizes, initialize_params, xmss_parse_oid,
  xmssmt_parse_oid,
}
use mathlib.Core.Path.{subst}
use native.Mathlib.Decide.{dec_lt}
use native.Mathlib.Nat.{eq-or-lt_of_le, le_of_suc-le-suc}

-- The pairs of `n` and `func` that core_hash of hash.c has a branch for.
abbrev pub IsHashSet : ℕ → ℕ → Type 0
IsHashSet n func =
    (n ≡ 24) × ((func ≡ xmss_sha2) ⊎ (func ≡ xmss_shake256))
    ⊎ ((n ≡ 32) × ((func ≡ xmss_sha2) ⊎ ((func ≡ xmss_shake128) ⊎ (func ≡ xmss_shake256)))
        ⊎ (n ≡ 64) × ((func ≡ xmss_sha2) ⊎ (func ≡ xmss_shake256)))

-- `space` is the room in front of the message that hash_message needs for its prefix; `checksum`
-- says that the WOTS+ checksum fits its digits, and `index` that the index bytes hold every index.
pub record IsParams (p : Params) : Type 0 where
  pub hash_set : IsHashSet p.n p.func
  pub w : p.wots_w ≡ 16
  pub log_w : p.wots_log_w ≡ 4
  pub len1 : p.wots_len1 ≡ 2 * p.n
  pub len2 : p.wots_len2 ≡ 3
  pub len : p.wots_len ≡ p.wots_len1 + p.wots_len2
  pub sig_len : p.wots_sig_bytes ≡ p.wots_len * p.n
  pub checksum : p.wots_len1 * (p.wots_w - 1) < p.wots_w ^ p.wots_len2
  pub layers : p.d * p.tree_height ≡ p.full_height
  pub one_layer : 1 ≤ p.d
  pub height_pos : 2 ≤ p.tree_height
  pub height_max : p.tree_height ≤ 20
  pub full_max : p.full_height ≤ 60
  pub index : p.full_height ≤ 8 * p.index_bytes
  pub index_max : p.index_bytes ≤ 8
  pub sig : p.sig_bytes ≡ p.index_bytes + p.n + p.d * (p.wots_sig_bytes + p.tree_height * p.n)
  pub pk : p.pk_bytes ≡ 2 * p.n
  pub space : p.padding_len + 3 * p.n ≤ p.sig_bytes
  pub bds : p.bds_k ≡ 0

abbrev Accepted : Option Params → Type 0
Accepted none = ⊥
Accepted (some p) = IsParams p

abbrev pub AllBelow : ℕ → (ℕ → Type 0) → Type 0
AllBelow zero P = Unit
AllBelow (suc k) P = P k × AllBelow k P

pub AllBelow-at : (k : ℕ) (P : ℕ → Type 0) (i : ℕ) → AllBelow k P → i < k → P i
AllBelow-at zero P i h lt = absurd (omega arith)
AllBelow-at (suc k) P i h lt = elim (eq-or-lt_of_le (le_of_suc-le-suc lt)) [
  | inl e ↦ subst P (sym e) h.0
  | inr below ↦ AllBelow-at k P i h.1 below
]

func_above : (oid : ℕ) → 22 ≤ oid → xmss_func oid ≡ none
unfolding xmss_func one_of
func_above oid h = ground arith

mt_func_above : (oid : ℕ) → 57 ≤ oid → xmssmt_func oid ≡ none
unfolding xmssmt_func one_of
mt_func_above oid h = ground arith

Accepted-some : (o : Option Params) → Accepted o → (q : Params) × (o ≡ some q) × IsParams q
Accepted-some none h = absurd h
Accepted-some (some q) h = (q, refl, h)

-- The answer of a parser of OIDs that accepts exactly 1 to `last`, with parameters that are `IsParams`.
abbrev pub Answers : ℕ → ℕ → Option Params → Type 0
Answers last oid o =
    ((1 ≤ oid) × (oid ≤ last) × ((q : Params) × (o ≡ some q) × IsParams q))
    ⊎ ((oid ≡ 0) ⊎ (last < oid)) × (o ≡ none)

Answers-IsParams :
    (last oid : ℕ) (o : Option Params) {q : Params} → Answers last oid o → o ≡ some q → IsParams q
Answers-IsParams last oid o (inl (lo, hi, (p, e, h))) e' = subst IsParams (cc) h
Answers-IsParams last oid o (inr (out, e)) e' = cc

Answers-small :
    (last oid : ℕ) (o : Option Params) {q : Params}
    → Answers last oid o
    → last < 2 ^ 32
    → o ≡ some q
    → oid < 2 ^ 32
Answers-small last oid o (inl (lo, hi, accepted)) small e = omega arith
Answers-small last oid o (inr (out, refused)) small e = cc

module _ (core_sk_bytes : Params → ℕ) (p : Params) where
  xmss_table : AllBelow 21 (λ i. Accepted (xmss_parse_oid core_sk_bytes p (suc i)))
  unfolding xmss_parse_oid xmss_func xmss_n xmss_height one_of initialize_params wots_constants
      set_wots_lengths set_sizes
  xmss_table = ground arith

  xmssmt_table : AllBelow 56 (λ i. Accepted (xmssmt_parse_oid core_sk_bytes p (suc i)))
  unfolding xmssmt_parse_oid xmssmt_func xmssmt_n xmssmt_height xmssmt_d one_of initialize_params
      wots_constants set_wots_lengths set_sizes
  xmssmt_table = ground arith

  -- `xmss_parse_oid` accepts the OIDs 1 to 21, with parameters that satisfy `IsParams`, and refuses
  -- every other number, 0x01000001 of the comment in params.h among them.
  pub xmss_parse_oid-Answers : (oid : ℕ) → Answers 21 oid (xmss_parse_oid core_sk_bytes p oid)
  xmss_parse_oid-Answers zero = inr (inl refl, unfold xmss_parse_oid xmss_func one_of in refl)
  xmss_parse_oid-Answers (suc i) = elim (dec_lt i 21) [
    | yes h ↦ inl (
      omega arith,
      omega arith,
      Accepted-some _
          (AllBelow-at 21 (λ k. Accepted (xmss_parse_oid core_sk_bytes p (suc k))) i xmss_table h),
    )
    | no h ↦ inr (inr (omega arith), unfold xmss_parse_oid in rw (func_above (suc i) (omega arith)))
  ]

  -- `xmssmt_parse_oid` accepts the OIDs 1 to 56, with parameters that satisfy `IsParams`, and refuses
  -- every other number, 0x01000001 of the comment in params.h among them.
  pub xmssmt_parse_oid-Answers : (oid : ℕ) → Answers 56 oid (xmssmt_parse_oid core_sk_bytes p oid)
  xmssmt_parse_oid-Answers zero = inr (inl refl, unfold xmssmt_parse_oid xmssmt_func one_of in refl)
  xmssmt_parse_oid-Answers (suc i) = elim (dec_lt i 56) [
    | yes h ↦ inl (
      omega arith,
      omega arith,
      Accepted-some _ (
          AllBelow-at 56 (λ k. Accepted (xmssmt_parse_oid core_sk_bytes p (suc k))) i xmssmt_table
            h),
    )
    | no h ↦
        inr (inr (omega arith), unfold xmssmt_parse_oid in rw (mt_func_above (suc i) (omega arith)))
  ]

  pub xmss_parse_oid-IsParams :
      (oid : ℕ) {q : Params} → xmss_parse_oid core_sk_bytes p oid ≡ some q → IsParams q
  xmss_parse_oid-IsParams oid e = Answers-IsParams 21 oid _ (xmss_parse_oid-Answers oid) e

  pub xmssmt_parse_oid-IsParams :
      (oid : ℕ) {q : Params} → xmssmt_parse_oid core_sk_bytes p oid ≡ some q → IsParams q
  xmssmt_parse_oid-IsParams oid e = Answers-IsParams 56 oid _ (xmssmt_parse_oid-Answers oid) e

  -- The OIDs fit `uint32_t`.
  pub xmss_oid_small :
      (oid : ℕ) {q : Params} → xmss_parse_oid core_sk_bytes p oid ≡ some q → oid < 2 ^ 32
  xmss_oid_small oid e = Answers-small 21 oid _ (xmss_parse_oid-Answers oid) (omega arith) e

  pub xmssmt_oid_small :
      (oid : ℕ) {q : Params} → xmssmt_parse_oid core_sk_bytes p oid ≡ some q → oid < 2 ^ 32
  xmssmt_oid_small oid e = Answers-small 56 oid _ (xmssmt_parse_oid-Answers oid) (omega arith) e
