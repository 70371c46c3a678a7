-- ===== src/Xmss/Correct.antt =====
-- xmss.c: key generation, signing and verification together, with the OID in front of the keys.
use xmss_reference.Base.{
  ℕ, suc, ◌+◌, ◌-◌, ◌*◌, ◌^◌, ◌<◌, ◌≡◌, refl, ap, Option, some, ◌>>=◌, List, [], ◌∷◌, ◌++◌, true,
  arith, length, drop, take-append_length, drop-append_length,
}
use mathlib.Core.Path.{subst}
use native.Mathlib.Nat.{add-zero}
use xmss_reference.Params.{Params, xmss_parse_oid, xmssmt_parse_oid}
use xmss_reference.Params.Sets.{
  IsParams, xmss_parse_oid-IsParams, xmssmt_parse_oid-IsParams, xmss_oid_small, xmssmt_oid_small,
}
use xmss_reference.Hash.{HashFns}
use xmss_reference.Hash.Lengths.{HasLengths}
use xmss_reference.Commons.{Opened, xmssmt_core_sign_open, xmss_core_sign_open}
use xmss_reference.Core.{
  KeyPair, Signed, core_sk_bytes, xmssmt_core_seed_keypair, xmssmt_core_keypair, xmss_core_keypair,
  xmssmt_core_sign, xmss_core_sign,
}
use xmss_reference.Core.Index.{key_at, sign-IsNext}
use xmss_reference.Core.Correct.{sign_open-sign}
use xmss_reference.Core.Series.{keys, new_key}
use xmss_reference.Xmss.{
  oid_len, blank_params, oid_to_bytes, oid_of_bytes, with_oid, behind_oid, xmss_keypair, xmss_sign,
  xmss_sign_open, xmssmt_keypair, xmssmt_sign, xmssmt_sign_open,
}
use xmss_reference.Xmss.Oid.{oid_of_bytes-oid_to_bytes}

-- The secret key after signing some messages.
abbrev pub sign_many : (List ℕ → List ℕ → Option Signed) → List ℕ → List (List ℕ) → Option (List ℕ)
sign_many sign sk [] = some sk
sign_many sign sk (m ∷ ms) = sign sk m >>= (λ s. sign_many sign s.sk ms)

length-oid_to_bytes : (oid : ℕ) → length (oid_to_bytes oid) ≡ oid_len
unfolding oid_to_bytes
length-oid_to_bytes oid = refl

-- The two families of functions, which differ only in how the OID is read.
module _ (fns : HashFns) (parse : ℕ → Option Params) where
  abbrev keypair : (ℕ → List ℕ) → ℕ → Option KeyPair
  keypair randombytes oid =
      parse oid >>= (λ p. some (with_oid oid (xmssmt_core_keypair fns randombytes p)))

  abbrev sign : List ℕ → List ℕ → Option Signed
  sign sk m =
      parse (oid_of_bytes sk)
      >>= (λ p. some (behind_oid sk (xmssmt_core_sign fns p (drop oid_len sk) m)))

  abbrev sign_open : List ℕ → ℕ → List ℕ → Option Opened
  sign_open sm smlen pk =
      parse (oid_of_bytes pk)
      >>= (λ p. some (xmssmt_core_sign_open fns p sm smlen (drop oid_len pk)))

  module _ (lengths : HasLengths fns) (randombytes : ℕ → List ℕ) (oid : ℕ) (p : Params)
      (random_length : (k : ℕ) → length (randombytes k) ≡ k) (small : oid < 2 ^ 32)
      (parsed : parse oid ≡ some p) (ok : IsParams p) where
    sign_lem :
        (sk m : List ℕ)
        → sign (oid_to_bytes oid ++ sk) m
          ≡ some (record (xmssmt_core_sign fns p sk m) {
            sk = oid_to_bytes oid ++ (xmssmt_core_sign fns p sk m).sk;
          })
    sign_lem sk m =
        rw
          (
            oid_of_bytes-oid_to_bytes oid sk small,
            parsed,
            drop-append_length 4 (oid_to_bytes oid) sk (length-oid_to_bytes oid),
            take-append_length 4 (oid_to_bytes oid) sk (length-oid_to_bytes oid),
          )
          refl

    open_lem :
        (sm : List ℕ) (smlen : ℕ) (pk : List ℕ)
        → sign_open sm smlen (oid_to_bytes oid ++ pk)
          ≡ some (xmssmt_core_sign_open fns p sm smlen pk)
    open_lem sm smlen pk =
        rw
          (
            oid_of_bytes-oid_to_bytes oid pk small,
            parsed,
            drop-append_length 4 (oid_to_bytes oid) pk (length-oid_to_bytes oid),
          )
          refl

    sign_many_lem :
        (idx : ℕ) (ks : List ℕ) (ms : List (List ℕ))
        → idx + length ms < 2 ^ p.full_height
        → sign_many sign (oid_to_bytes oid ++ key_at p idx ks) ms
          ≡ some (oid_to_bytes oid ++ key_at p (idx + length ms) ks)
    sign_many_lem idx ks [] h = rw (add-zero)
    sign_many_lem idx ks (m ∷ ms) h =
        let next = sign-IsNext fns p ok idx ks m (omega arith) in
        let up : idx + 1 + length ms ≡ idx + suc (length ms) = omega arith in
        rw (sign_lem (key_at p idx ks) m, next.key)
          (subst
            (λ t.
              sign_many sign (oid_to_bytes oid ++ key_at p (idx + 1) ks) ms
              ≡ some (oid_to_bytes oid ++ key_at p t ks))
            up (sign_many_lem (idx + 1) ks ms (omega arith)))

    round :
        (ms : List (List ℕ)) (m : List ℕ)
        → length ms < 2 ^ p.full_height - 1
        → p.sig_bytes + length m < 2 ^ 64
        → (do
          pair ← keypair randombytes oid
          sk ← sign_many sign pair.sk ms
          s ← sign sk m
          sign_open s.sm s.smlen pair.pk)
          ≡ some (record { ret = true; mlen = length m; m = m })
    unfolding xmssmt_core_keypair
    round ms m h fits =
        let seed = randombytes (3 * p.n) in
        let ks = keys fns lengths p ok seed (random_length (3 * p.n)) in
        let idx = 0 + length ms in
        let s = xmssmt_core_sign fns p (key_at p idx ks) m in
        rw
          (
            parsed,
            new_key fns lengths p ok seed (random_length (3 * p.n)),
            sign_many_lem 0 ks ms (omega arith),
            sign_lem (key_at p idx ks) m,
            open_lem s.sm s.smlen (xmssmt_core_seed_keypair fns p seed).pk,
          )
          (ap some (
            sign_open-sign fns lengths p ok seed m idx (random_length (3 * p.n)) (omega arith)
              fits))

module _ (fns : HashFns) (lengths : HasLengths fns) (randombytes : ℕ → List ℕ)
    (random_length : (k : ℕ) → length (randombytes k) ≡ k) where
  -- Take any OID that xmssmt_parse_oid accepts and any source of random bytes. If xmssmt_keypair makes
  -- a key pair for the OID, xmssmt_sign signs some messages with its secret key one after the other,
  -- fewer than the indices below the last one, and signs one more message, then xmssmt_sign_open
  -- accepts this signed message under the public key, with the return code 0, and gives the message
  -- back. No call fails. The length of the signed message has to fit `unsigned long long`.
  pub xmssmt_sign_open-xmssmt_sign :
      (oid : ℕ) (p : Params)
      → xmssmt_parse_oid core_sk_bytes blank_params oid ≡ some p
      → (ms : List (List ℕ)) (m : List ℕ) → length ms < 2 ^ p.full_height - 1
      → p.sig_bytes + length m < 2 ^ 64
      → (do
        pair ← xmssmt_keypair fns randombytes oid
        sk ← sign_many (xmssmt_sign fns) pair.sk ms
        s ← xmssmt_sign fns sk m
        xmssmt_sign_open fns s.sm s.smlen pair.pk)
        ≡ some (record { ret = true; mlen = length m; m = m })
  unfolding xmssmt_keypair xmssmt_sign xmssmt_sign_open
  xmssmt_sign_open-xmssmt_sign oid p parsed =
      round fns (xmssmt_parse_oid core_sk_bytes blank_params) lengths randombytes oid p
        random_length (xmssmt_oid_small core_sk_bytes blank_params oid parsed) parsed
        (xmssmt_parse_oid-IsParams core_sk_bytes blank_params oid parsed)

  -- The same of xmss_parse_oid, xmss_keypair, xmss_sign and xmss_sign_open: for any OID that is
  -- accepted, a message signed after some others, fewer than the indices below the last one, is
  -- accepted under the public key and given back, and no call fails.
  pub xmss_sign_open-xmss_sign :
      (oid : ℕ) (p : Params)
      → xmss_parse_oid core_sk_bytes blank_params oid ≡ some p
      → (ms : List (List ℕ)) (m : List ℕ) → length ms < 2 ^ p.full_height - 1
      → p.sig_bytes + length m < 2 ^ 64
      → (do
        pair ← xmss_keypair fns randombytes oid
        sk ← sign_many (xmss_sign fns) pair.sk ms
        s ← xmss_sign fns sk m
        xmss_sign_open fns s.sm s.smlen pair.pk)
        ≡ some (record { ret = true; mlen = length m; m = m })
  unfolding xmss_keypair xmss_sign xmss_sign_open xmss_core_keypair xmss_core_sign
      xmss_core_sign_open
  xmss_sign_open-xmss_sign oid p parsed =
      round fns (xmss_parse_oid core_sk_bytes blank_params) lengths randombytes oid p random_length
        (xmss_oid_small core_sk_bytes blank_params oid parsed) parsed
        (xmss_parse_oid-IsParams core_sk_bytes blank_params oid parsed)
