-- ===== src/Fast/Series.antt =====
-- xmss_core_fast.c and xmss_core.c: the signatures that the two make one after the other.
use xmss_reference.Base.{
  ℕ, ◌+◌, ◌*◌, ◌^◌, ◌<◌, ◌≡◌, refl, sym, ap, ap₂, ◌∙◌, arith, Option, some, List, [], ◌∷◌, length,
  take, drop,
}
use xmss_reference.Address.{zero_addr}
use xmss_reference.Params.{Params}
use xmss_reference.Params.Sets.{IsParams}
use xmss_reference.Hash.{HashFns}
use xmss_reference.Hash.Lengths.{HasLengths}
use xmss_reference.Core.{xmss_core_sign}
use xmss_reference.Core.Index.{key_at}
use xmss_reference.Fast.{BdsState}
use xmss_reference.Fast.Sign.{xmss_fast_sign}
use xmss_reference.Fast.RoundTrip.{StateFits}
use xmss_reference.Fast.Live.{Live}
use xmss_reference.Fast.Refines.{fast_key, xmss_fast_sign-Agreed}

-- What successive calls of xmss_core_sign of xmss_core_fast.c give, each with the key that the one
-- before left.
abbrev pub fast_signed : HashFns → Params → List ℕ → List (List ℕ) → List (Option (ℕ × List ℕ))
fast_signed fns p sk [] = []
fast_signed fns p sk (m ∷ ms) =
    let r = xmss_fast_sign fns p sk m in r.made ∷ fast_signed fns p r.sk ms

-- The same for xmss_core.c.
abbrev pub core_signed : HashFns → Params → List ℕ → List (List ℕ) → List (Option (ℕ × List ℕ))
core_signed fns p sk [] = []
core_signed fns p sk (m ∷ ms) =
    let c = xmss_core_sign fns p sk m in some (c.smlen, c.sm) ∷ core_signed fns p c.sk ms

module _ (fns : HashFns) (lengths : HasLengths fns) (p : Params) (ok : IsParams p) (one : p.d ≡ 1)
    (four : p.index_bytes ≡ 4) (keys : List ℕ) (lk : length keys ≡ 4 * p.n) where
  -- For the parameters of an XMSS set with an index of four bytes, keys of 4n bytes, and a state with
  -- the path of the index that fits its bytes and is on time: the signed messages that successive calls
  -- of xmss_core_sign of xmss_core_fast.c make are, one by one, those that xmss_core_sign of
  -- xmss_core.c makes with the same keys from the same index on, as long as the indices below the last
  -- one suffice.
  pub fast_signed-core_signed :
      (ms : List (List ℕ)) (idx : ℕ) (s : BdsState)
      → idx + length ms < 2 ^ p.tree_height
      → StateFits p s
      → Live fns lengths p ok (take p.n keys) (take p.n (drop (3 * p.n) keys)) zero_addr idx s
      → fast_signed fns p (fast_key idx keys s) ms ≡ core_signed fns p (key_at p idx keys) ms
  fast_signed-core_signed [] idx s enough fits live = refl
  fast_signed-core_signed (m ∷ ms) idx s enough fits live =
      let a =
        xmss_fast_sign-Agreed fns lengths p ok one four keys lk idx (omega arith) s m fits live in
      ap₂ ◌∷◌ a.made (
        ap (λ k. fast_signed fns p k ms) a.fast_sk
        ∙ fast_signed-core_signed ms (idx + 1) a.state (omega arith) a.fits a.live
        ∙ ap (λ k. core_signed fns p k ms) (sym a.core_sk))
