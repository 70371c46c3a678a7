-- ===== src/Core/UsedUp.antt =====
-- xmss_core.c: signing with a key that is at the last index or past it.
use xmss_reference.Base.{
  ℕ, zero, suc, ◌+◌, ◌-◌, ◌*◌, ◌^◌, ◌≤◌, ◌<◌, ◌≡◌, ◌⊎◌, inl, inr, refl, sym, ap, arith, true, false,
  List, [], ◌∷◌, ◌++◌, All, All-replicate, IsByte, length, length-append, length-replicate, drop,
  replicate, drop-append_length,
}
use mathlib.Core.Path.{subst}
use native.Mathlib.Decide.{dec_lt}
use native.Mathlib.Nat.{pow-suc, one-le-pow, pow-le-pow_right}
use xmss_reference.Utils.{ull_to_bytes, bytes_to_ull}
use xmss_reference.Utils.Value.{pow_256, be_value}
use xmss_reference.Utils.RoundTrip.{
  bytes_to_ull-ull_to_bytes, length-ull_to_bytes, bytes_to_ull-be_value,
}
use xmss_reference.Params.{Params}
use xmss_reference.Params.Sets.{IsParams}
use xmss_reference.Hash.{HashFns}
use xmss_reference.Core.{Signed, erase_key, sign_with, xmssmt_core_sign}
use xmss_reference.Core.Index.{last_index_lem, check_index_past, check_index_last, sign_all}

-- A key that is of no use: it has its size, its index is past the last one, and nothing is left of the
-- seeds and the public key behind the index.
pub record Wiped (p : Params) (sk : List ℕ) : Type 0 where
  pub size : length sk ≡ p.sk_bytes
  pub used_up : 2 ^ p.full_height ≤ bytes_to_ull sk p.index_bytes
  pub secrets : All (λ b. b ≡ 0) (drop p.index_bytes sk)

-- A call that returns -2 has set `*smlen`, and leaves such a key, with the largest index that its bytes
-- can hold.
pub record IsRefused (p : Params) (m : List ℕ) (s : Signed) : Type 0 where
  pub returns : s.ret ≡ false
  pub len : s.smlen ≡ p.sig_bytes + length m
  pub wiped : Wiped p s.sk
  pub top : bytes_to_ull s.sk p.index_bytes + 1 ≡ 256 ^ p.index_bytes

-- There is one call for each message, and each of them returns -2.
abbrev pub AllRefused : Params → List (List ℕ) → List Signed → Type 0
AllRefused p [] [] = Unit
AllRefused p [] (s ∷ ss) = ⊥
AllRefused p (m ∷ ms) [] = ⊥
AllRefused p (m ∷ ms) (s ∷ ss) = IsRefused p m s × AllRefused p ms ss

be_value-full : (k : ℕ) → be_value (replicate k 255) + 1 ≡ 256 ^ k
be_value-full zero = refl
be_value-full (suc k) = omega (
  arith,
  be_value-full k,
  pow-suc 256 k,
  ap (λ (u : ℕ). 255 * 256 ^ u) (length-replicate {A = ℕ} k 255),
)

module _ (p : Params) (ok : IsParams p) (spare : p.full_height < 8 * p.index_bytes)
    (room : p.index_bytes ≤ p.sk_bytes) where
  -- The index bytes hold an index past the last one.
  past_fits : 2 ^ p.full_height < 256 ^ p.index_bytes
  past_fits = omega (
    arith,
    pow-suc 2 p.full_height,
    one-le-pow p.full_height 2,
    pow_256 p.index_bytes,
    pow-le-pow_right {n = 2} (omega arith) {i = suc p.full_height} {j = 8 * p.index_bytes}
        (omega arith),
  )

  abbrev zeros : List ℕ
  zeros = replicate (p.sk_bytes - p.index_bytes) 0

  behind : drop p.index_bytes (erase_key p) ≡ zeros
  unfolding erase_key
  behind =
      drop-append_length p.index_bytes (replicate p.index_bytes 0xff) zeros
        (length-replicate p.index_bytes 0xff)

  all_zeros : All (λ b. b ≡ 0) zeros
  all_zeros = All-replicate (λ b. b ≡ 0) (p.sk_bytes - p.index_bytes) 0 refl

  erased_index : bytes_to_ull (erase_key p) p.index_bytes + 1 ≡ 256 ^ p.index_bytes
  unfolding erase_key
  erased_index =
      let width = length-replicate {A = ℕ} p.index_bytes 0xff in
      let read =
        bytes_to_ull-be_value (replicate p.index_bytes 0xff) zeros
          (All-replicate IsByte p.index_bytes 0xff (omega arith)) (omega (arith, ok.index_max)) in
      omega (
        arith,
        ap (bytes_to_ull (replicate p.index_bytes 0xff ++ zeros)) width,
        read,
        be_value-full p.index_bytes,
      )

  erase_key-Wiped : Wiped p (erase_key p)
  unfolding erase_key
  erase_key-Wiped = record {
    size = omega (
      arith,
      length-append (replicate p.index_bytes 0xff) zeros,
      length-replicate {A = ℕ} p.index_bytes 0xff,
      length-replicate {A = ℕ} (p.sk_bytes - p.index_bytes) 0,
    );
    used_up = omega (arith, erased_index, past_fits);
    secrets = subst (λ t. All (λ b. b ≡ 0) t) (sym behind) all_zeros;
  }

  -- What is left of the key after the signature with the last index.
  last-Wiped :
      (idx : ℕ) → idx ≡ 2 ^ p.full_height → Wiped p (ull_to_bytes p.index_bytes idx ++ zeros)
  last-Wiped idx e =
      let width = length-ull_to_bytes p.index_bytes idx in
      record {
        size = omega (
          arith,
          length-append (ull_to_bytes p.index_bytes idx) zeros,
          width,
          length-replicate {A = ℕ} (p.sk_bytes - p.index_bytes) 0,
        );
        used_up = omega (
          arith,
          bytes_to_ull-ull_to_bytes p.index_bytes idx zeros ok.index_max (omega (arith, past_fits)),
        );
        secrets =
            subst (λ t. All (λ b. b ≡ 0) t)
              (sym (drop-append_length p.index_bytes (ull_to_bytes p.index_bytes idx) zeros width))
              all_zeros;
      }

  module _ (fns : HashFns) where
    refused :
        (sk m : List ℕ)
        → 2 ^ p.full_height - 1 < bytes_to_ull sk p.index_bytes
        → IsRefused p m (xmssmt_core_sign fns p sk m)
    unfolding xmssmt_core_sign
    refused sk m past =
        rw
          (check_index_past p ok (bytes_to_ull sk p.index_bytes) sk
            (omega (arith, last_index_lem p ok)))
          (record { returns = refl; len = refl; wiped = erase_key-Wiped; top = erased_index })

    all_refused :
        (ms : List (List ℕ)) (sk : List ℕ)
        → 2 ^ p.full_height - 1 < bytes_to_ull sk p.index_bytes
        → AllRefused p ms (sign_all fns p sk ms)
    all_refused [] sk past = tt
    all_refused (m ∷ ms) sk past =
        let now = refused sk m past in
        let wiped = now.wiped in
        (now, all_refused ms _ (omega (arith, wiped.used_up, one-le-pow p.full_height 2)))

    last_signed :
        (sk m : List ℕ)
        → bytes_to_ull sk p.index_bytes ≡ 2 ^ p.full_height - 1
        → let s = xmssmt_core_sign fns p sk m in (s.ret ≡ true) × Wiped p s.sk
    unfolding xmssmt_core_sign sign_with
    last_signed sk m e =
        rw (e, ← last_index_lem p ok, check_index_last p ok sk, behind)
          (refl, last-Wiped _ (omega (arith, last_index_lem p ok, one-le-pow p.full_height 2)))

    -- For the parameters of a set whose index bytes have a bit to spare, and with room for the index in
    -- the secret key: a call with a key whose index is the last one returns 0, and with a key whose
    -- index is past it returns -2. Either way it leaves a key of the full size with an index past the
    -- last one and zeros for all else, and every later call returns -2 and leaves such a key again,
    -- with the largest index that its bytes can hold.
    pub sign_all-AllRefused :
        (sk m : List ℕ) (ms : List (List ℕ))
        → 2 ^ p.full_height - 1 ≤ bytes_to_ull sk p.index_bytes
        → let s = xmssmt_core_sign fns p sk m in
          ((bytes_to_ull sk p.index_bytes ≡ 2 ^ p.full_height - 1) × (s.ret ≡ true) × Wiped p s.sk
            ⊎ (2 ^ p.full_height - 1 < bytes_to_ull sk p.index_bytes) × IsRefused p m s)
          × AllRefused p ms (sign_all fns p s.sk ms)
    sign_all-AllRefused sk m ms reached =
        let later : Wiped p (xmssmt_core_sign fns p sk m).sk
            → AllRefused p ms (sign_all fns p (xmssmt_core_sign fns p sk m).sk ms) =
          λ w. all_refused ms _ (omega (arith, w.used_up, one-le-pow p.full_height 2)) in
        elim (dec_lt (2 ^ p.full_height - 1) (bytes_to_ull sk p.index_bytes)) [
          | yes past ↦ let now = refused sk m past in (inr (past, now), later now.wiped)
          | no not_past ↦
              let here : bytes_to_ull sk p.index_bytes ≡ 2 ^ p.full_height - 1 = omega arith in
              let now = last_signed sk m here in (inl (here, now.0, now.1), later now.1)
        ]
