-- ===== src/Core/Index.antt =====
-- xmss_core.c: the index of a secret key as the state of signing.
use xmss_reference.Base.{
  ℕ, ◌∙◌, sym, ◌*◌, All, IsByte, ◌+◌, ◌-◌, ◌^◌, ◌≤◌, ◌<◌, ◌≡◌, refl, ap, true, false, List, [], ◌∷◌,
  ◌++◌, arith, length, take-append_length, drop-append_length,
}
use xmss_reference.Utils.{ull_to_bytes, bytes_to_ull}
use xmss_reference.Utils.Value.{pow_256, be_value, be_value-lt}
use xmss_reference.Utils.RoundTrip.{
  bytes_to_ull-ull_to_bytes, length-ull_to_bytes, bytes_to_ull-be_value,
}
use xmss_reference.Params.{Params}
use xmss_reference.Params.Sets.{IsParams}
use xmss_reference.Hash.{HashFns}
use xmss_reference.Core.{Signed, last_index, erase_key, check_index, sign_with, xmssmt_core_sign}
use native.Mathlib.Nat.{pow-le-pow_right, mod-eq_of_lt}

-- A secret key without its OID: the index, and what stands behind it.
abbrev pub key_at : Params → ℕ → List ℕ → List ℕ
key_at p idx keys = ull_to_bytes p.index_bytes idx ++ keys

module _ (p : Params) (ok : IsParams p) where
  pub last_index_lem : last_index p ≡ 2 ^ p.full_height - 1
  last_index_lem = rw (mod-eq_of_lt fits)
    where
      fits : 2 ^ p.full_height < 2 ^ 64
      fits = omega (arith, pow-le-pow_right {n = 2} (omega arith) {j = 60} ok.full_max)

  pub indices_fit : 2 ^ p.full_height ≤ 256 ^ p.index_bytes
  indices_fit = rw (← pow_256 p.index_bytes) (pow-le-pow_right {n = 2} (omega arith) ok.index)

  pub read_index :
      (idx : ℕ) (keys : List ℕ)
      → idx < 2 ^ p.full_height
      → bytes_to_ull (key_at p idx keys) p.index_bytes ≡ idx
  read_index idx keys h =
      bytes_to_ull-ull_to_bytes p.index_bytes idx keys ok.index_max (omega (arith, indices_fit))

  pub check_index_free :
      (idx : ℕ) (sk : List ℕ) → idx < last_index p → check_index p idx sk ≡ (sk, false)
  unfolding check_index
  check_index_free idx sk h = ground arith

  pub check_index_past :
      (idx : ℕ) (sk : List ℕ) → last_index p < idx → check_index p idx sk ≡ (erase_key p, true)
  unfolding check_index
  check_index_past idx sk h = ground arith

  check_index_within :
      (idx : ℕ) (sk : List ℕ) → idx ≤ last_index p → (check_index p idx sk).1 ≡ false
  unfolding check_index
  check_index_within idx sk h = ground (arith, ok.full_max)

  pub check_index_last : (sk : List ℕ) → check_index p (last_index p) sk ≡ (erase_key p, false)
  unfolding check_index
  check_index_last sk = ground (arith, ok.full_max)

-- What a signature with a free index does: it returns 0, moves the index on by one and changes
-- nothing else of the key, and carries the index that it used.
pub record IsNext (p : Params) (idx : ℕ) (keys m : List ℕ) (s : Signed) : Type 0 where
  pub returns : s.ret ≡ true
  pub key : s.sk ≡ key_at p (idx + 1) keys
  pub index : bytes_to_ull s.sm p.index_bytes ≡ idx
  pub len : s.smlen ≡ p.sig_bytes + length m

module _ (fns : HashFns) (p : Params) where
  pub sign_free :
      (ok : IsParams p) (idx : ℕ) (keys m : List ℕ)
      → idx < last_index p
      → xmssmt_core_sign fns p (key_at p idx keys) m ≡ sign_with fns p idx (key_at p idx keys) m
  unfolding xmssmt_core_sign
  sign_free ok idx keys m h = rw (
    read_index p ok idx keys (omega (arith, last_index_lem p ok)),
    check_index_free p ok idx (key_at p idx keys) h,
  )

  sign_with-IsNext :
      (ok : IsParams p) (idx : ℕ) (keys m : List ℕ)
      → idx < 2 ^ p.full_height
      → IsNext p idx keys m (sign_with fns p idx (key_at p idx keys) m)
  unfolding sign_with
  sign_with-IsNext ok idx keys m h = record {
    returns = refl;
    key =
        ap (λ t. ull_to_bytes p.index_bytes (idx + 1) ++ t)
          (drop-append_length p.index_bytes _ keys (length-ull_to_bytes p.index_bytes idx));
    index =
        rw (take-append_length p.index_bytes _ keys (length-ull_to_bytes p.index_bytes idx))
          (read_index p ok idx _ h);
    len = refl;
  }

-- For the parameters of a set, signing with a key whose index is below the last one returns 0, leaves
-- a key that differs only in its index, which is one more, and gives a signature that carries the
-- index of the key before.
pub sign-IsNext :
    (fns : HashFns) (p : Params) (ok : IsParams p) (idx : ℕ) (keys m : List ℕ)
    → idx < 2 ^ p.full_height - 1
    → IsNext p idx keys m (xmssmt_core_sign fns p (key_at p idx keys) m)
sign-IsNext fns p ok idx keys m h =
    rw (sign_free fns p ok idx keys m (omega (arith, last_index_lem p ok)))
      (sign_with-IsNext fns p ok idx keys m (omega arith))

-- Successive signatures under one key, each with the key that the one before left.
abbrev pub sign_all : HashFns → Params → List ℕ → List (List ℕ) → List Signed
sign_all fns p sk [] = []
sign_all fns p sk (m ∷ ms) = let s = xmssmt_core_sign fns p sk m in s ∷ sign_all fns p s.sk ms

-- They return 0 and carry the indices from `idx` on, one by one.
abbrev pub Successive : Params → ℕ → List Signed → Type 0
Successive p idx [] = Unit
Successive p idx (s ∷ ss) =
    (s.ret ≡ true) × (bytes_to_ull s.sm p.index_bytes ≡ idx) × Successive p (idx + 1) ss

-- For the parameters of a set, the signatures of any list of messages, under a key that has enough
-- indices below the last one left, all return 0 and carry the indices from the key's on, each index
-- once.
pub sign_all-Successive :
    (fns : HashFns) (p : Params) (ok : IsParams p) (idx : ℕ) (keys : List ℕ) (ms : List (List ℕ))
    → idx + length ms < 2 ^ p.full_height
    → Successive p idx (sign_all fns p (key_at p idx keys) ms)
sign_all-Successive fns p ok idx keys [] h = tt
sign_all-Successive fns p ok idx keys (m ∷ ms) h =
    let next = sign-IsNext fns p ok idx keys m (omega arith) in
    let rest = sign_all-Successive fns p ok (idx + 1) keys ms (omega arith) in
    (next.returns, next.index, rw next.key rest)

-- For the parameters of a set, all keys that have reached the last index give the same answer: the key
-- is erased before it is used, so that the last signature is made with seeds of zeros.
pub last_signature_same :
    (fns : HashFns) (p : Params) (ok : IsParams p) (sk sk' m : List ℕ)
    → bytes_to_ull sk p.index_bytes ≡ 2 ^ p.full_height - 1
    → bytes_to_ull sk' p.index_bytes ≡ 2 ^ p.full_height - 1
    → xmssmt_core_sign fns p sk m ≡ xmssmt_core_sign fns p sk' m
unfolding xmssmt_core_sign
last_signature_same fns p ok sk sk' m e e' =
    rw (e, e', ← last_index_lem p ok, check_index_last p ok sk, check_index_last p ok sk')

-- For the parameters of a set whose index bytes have no bit to spare, as where the full height is 40,
-- signing never returns -2, whatever the key: no index is past the last one.
pub sign_never_refused :
    (fns : HashFns) (p : Params) (ok : IsParams p) (index keys m : List ℕ)
    → p.full_height ≡ 8 * p.index_bytes
    → length index ≡ p.index_bytes
    → All IsByte index
    → (xmssmt_core_sign fns p (index ++ keys) m).ret ≡ true
unfolding xmssmt_core_sign sign_with
sign_never_refused fns p ok index keys m full len bytes =
    rw (check_index_within p ok _ (index ++ keys) within)
  where
    value : bytes_to_ull (index ++ keys) p.index_bytes ≡ be_value index
    value =
        (λ j. bytes_to_ull (index ++ keys) (sym len j))
        ∙ bytes_to_ull-be_value index keys bytes (omega (arith, ok.index_max))

    within : bytes_to_ull (index ++ keys) p.index_bytes ≤ last_index p
    within = omega (
      arith,
      value,
      be_value-lt index bytes,
      last_index_lem p ok,
      ap (λ (t : ℕ). 2 ^ t) full ∙ pow_256 p.index_bytes,
      ap (λ (t : ℕ). 256 ^ t) len,
    )
