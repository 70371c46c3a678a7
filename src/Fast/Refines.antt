-- ===== src/Fast/Refines.antt =====
-- xmss_core_fast.c and xmss_core.c: the signatures that the two make with the same keys.
use xmss_reference.Base.{
  ℕ, ◌+◌, ◌-◌, ◌*◌, ◌^◌, ◌<◌, ◌≡◌, refl, sym, ap, ◌∙◌, arith, true, false, ltb, leb, some, List, [],
  ◌++◌, length, length-append, take, drop, replicate, take-append_length, drop-append_length,
  take_all, length-drop,
}
use mathlib.Core.List.{append_assoc}
use native.Mathlib.Nat.{pow-le-pow_right, one-mul}
use xmss_reference.Utils.{ull_to_bytes, bytes_to_ull}
use xmss_reference.Utils.RoundTrip.{length-ull_to_bytes, bytes_to_ull-ull_to_bytes}
use xmss_reference.Address.{Addr, zero_addr, set_type, set_ots_addr, copy_subtree_addr}
use xmss_reference.Params.{Params}
use xmss_reference.Params.Sets.{IsParams}
use xmss_reference.Hash.{HashFns, written, prf, hash_message}
use xmss_reference.Hash.Lengths.{HasLengths}
use xmss_reference.Wots.{wots_sign}
use xmss_reference.Wots.Subtree.{wots_sign-subtree}
use xmss_reference.Wots.SameSeed.{take_twice, prf_key, wots_sign_key}
use xmss_reference.Commons.Tree.{auth_nodes}
use xmss_reference.Commons.Seeds.{auth_nodes_seed}
use xmss_reference.Core.{Signed, last_index, flatten_nodes, sign_with, xmss_core_sign}
use xmss_reference.Core.Index.{key_at, last_index_lem, check_index_free, sign_free}
use xmss_reference.Core.Single.{ots_addr_of, sign_with-single}
use xmss_reference.Fast.{
  BdsState, serialize_state, xmssmt_serialize_state, xmss_serialize_state, xmss_deserialize_state,
}
use xmss_reference.Fast.Sign.{FastSigned, idx_to_bytes, xmss_fast_sign}
use xmss_reference.Fast.IndexBytes.{idx_to_bytes_lem}
use xmss_reference.Fast.RoundTrip.{StateFits, state_lem}
use xmss_reference.Fast.Timely.{next_state}
use xmss_reference.Fast.FitsRound.{next_state-StateFits}
use xmss_reference.Fast.Live.{Live, auth-Live, next_state-Live}

-- A secret key of xmss_core_fast.c: the index, the keys, and the state of the traversal.
abbrev pub fast_key : ℕ → List ℕ → BdsState → List ℕ
fast_key idx keys s = idx_to_bytes 4 idx ++ (keys ++ xmss_serialize_state s [])

module _ (fns : HashFns) (lengths : HasLengths fns) (p : Params) (ok : IsParams p) (one : p.d ≡ 1)
    (four : p.index_bytes ≡ 4) (keys : List ℕ) (lk : length keys ≡ 4 * p.n) (idx : ℕ)
    (free : idx + 1 < 2 ^ p.tree_height) (s : BdsState) where
  small : idx < 2 ^ 20
  small =
      omega
        (arith, pow-le-pow_right {n = 2} (omega arith) {i = p.tree_height} {j = 20} ok.height_max)

  length-idx : length (idx_to_bytes 4 idx) ≡ p.index_bytes
  length-idx =
      ap length (idx_to_bytes_lem idx (omega (arith, small))) ∙ length-ull_to_bytes 4 idx ∙ sym four

  read_keys : take (4 * p.n) (drop p.index_bytes (fast_key idx keys s)) ≡ keys
  read_keys =
      ap (take (4 * p.n)) (drop-append_length p.index_bytes (idx_to_bytes 4 idx) _ length-idx)
      ∙ take-append_length (4 * p.n) keys _ lk

  read_state :
      StateFits p s
      → xmss_deserialize_state p (drop (p.index_bytes + 4 * p.n) (fast_key idx keys s)) ≡ s
  unfolding xmssmt_serialize_state serialize_state
  read_state fits =
      ap (λ t. xmss_deserialize_state p (drop (p.index_bytes + 4 * p.n) t))
        (sym (append_assoc (idx_to_bytes 4 idx) keys (xmss_serialize_state s [])))
      ∙ ap (xmss_deserialize_state p) (
          drop-append_length (p.index_bytes + 4 * p.n) (idx_to_bytes 4 idx ++ keys) _
            (omega (arith, length-append (idx_to_bytes 4 idx) keys, length-idx)))
      ∙ ap (λ t. t.0) (state_lem p s [] fits)

  read_idx : bytes_to_ull (fast_key idx keys s) 4 ≡ idx
  read_idx =
      ap (λ t. bytes_to_ull (t ++ (keys ++ xmss_serialize_state s [])) 4)
        (idx_to_bytes_lem idx (omega (arith, small)))
      ∙ bytes_to_ull-ull_to_bytes 4 idx _ (omega arith) (omega (arith, small))

  last : last_index p ≡ 2 ^ p.tree_height - 1
  last =
      last_index_lem p ok
      ∙ ap (λ (t : ℕ). 2 ^ t - 1)
          (sym ok.layers ∙ ap (λ (d : ℕ). d * p.tree_height) one ∙ one-mul p.tree_height)

  abbrev sk_seed : List ℕ
  sk_seed = take p.n keys

  abbrev pub_seed : List ℕ
  pub_seed = take p.n (drop (3 * p.n) keys)

  abbrev random : List ℕ
  random = written (replicate p.n 0) (prf fns p (ull_to_bytes 32 idx) (take p.n (drop p.n keys)))

  abbrev digest : List ℕ → List ℕ
  digest m = written (replicate p.n 0) (hash_message fns p random (drop (2 * p.n) keys) idx m)

  abbrev ots : List ℕ → Addr × List ℕ
  ots m =
      wots_sign fns p (replicate p.wots_sig_bytes 0) (digest m) sk_seed pub_seed
        (ots_addr_of fns lengths p ok idx)

  abbrev after : List ℕ → BdsState
  after m = next_state fns lengths p ok sk_seed pub_seed zero_addr idx s (ots m).0

  abbrev result : List ℕ → FastSigned
  result m = record {
    sk = fast_key (idx + 1) keys (after m);
    made = some (
      4 + p.n + p.wots_sig_bytes + p.tree_height * p.n + length m,
      idx_to_bytes 4 idx ++ (random ++ ((ots m).1 ++ (flatten_nodes s.auth ++ m))),
    );
  }

  fast_result :
      (m : List ℕ) → StateFits p s → xmss_fast_sign fns p (fast_key idx keys s) m ≡ result m
  unfolding xmss_fast_sign
  fast_result m fits =
      let under : leb (last_index p) idx ≡ false = ground (arith, last) in
      let not_last : ltb idx (2 ^ p.tree_height - 1) ≡ true = ground arith in
      rw
        (
          read_idx,
          check_index_free p ok idx (fast_key idx keys s) (omega (arith, last)),
          read_state fits,
          read_keys,
          under,
          not_last,
        )
        refl

  -- The two signed messages are the same, and both keys are ready for the next index.
  pub record Agreed (m : List ℕ) (r : FastSigned) (c : Signed) : Type 0 where
    pub made : r.made ≡ some (c.smlen, c.sm)
    pub ret : c.ret ≡ true
    pub state : BdsState
    pub fast_sk : r.sk ≡ fast_key (idx + 1) keys state
    pub core_sk : c.sk ≡ key_at p (idx + 1) keys
    pub fits : StateFits p state
    pub live : Live fns lengths p ok sk_seed pub_seed zero_addr (idx + 1) state

  random_lem : random ≡ written (replicate p.n 0) (prf fns p (ull_to_bytes 32 idx) (drop p.n keys))
  random_lem = ap (written (replicate p.n 0)) (
      prf_key fns p (take p.n (drop p.n keys)) (drop p.n keys) (take_twice p.n (drop p.n keys))
        (ull_to_bytes 32 idx))

  pub_seed_lem : pub_seed ≡ drop (3 * p.n) keys
  pub_seed_lem = take_all p.n (drop (3 * p.n) keys) (omega (arith, length-drop (3 * p.n) keys, lk))

  auth_lem :
      Live fns lengths p ok sk_seed pub_seed zero_addr idx s
      → s.auth
        ≡ auth_nodes fns lengths p ok keys (drop (3 * p.n) keys) zero_addr idx p.tree_height 0
  auth_lem live =
      auth-Live fns lengths p ok sk_seed pub_seed zero_addr idx s live
      ∙ auth_nodes_seed fns lengths p ok sk_seed keys pub_seed (take_twice p.n keys) zero_addr idx
          p.tree_height 0
      ∙ ap (λ t. auth_nodes fns lengths p ok keys t zero_addr idx p.tree_height 0) pub_seed_lem

  sm_lem :
      (m : List ℕ)
      → Live fns lengths p ok sk_seed pub_seed zero_addr idx s
      → idx_to_bytes 4 idx ++ (random ++ ((ots m).1 ++ (flatten_nodes s.auth ++ m)))
        ≡ (sign_with fns p idx (key_at p idx keys) m).sm
  sm_lem m live =
      let width : 4 ≡ p.index_bytes = sym four in
      let index =
        idx_to_bytes_lem idx (omega (arith, small)) ∙ ap (λ w. ull_to_bytes w idx) width in
      let sign : List ℕ → List ℕ → List ℕ → List ℕ = λ r seed ps.
        (wots_sign fns p (replicate p.wots_sig_bytes 0)
          (written (replicate p.n 0) (hash_message fns p r (drop (2 * p.n) keys) idx m)) seed ps
          (ots_addr_of fns lengths p ok idx)).1 in
      let sig : sign random sk_seed pub_seed
          ≡ sign (written (replicate p.n 0) (prf fns p (ull_to_bytes 32 idx) (drop p.n keys))) keys
              (drop (3 * p.n) keys) =
        (λ j. sign (random_lem j) sk_seed (pub_seed_lem j))
        ∙ ap (λ t. t.1)
            (wots_sign_key fns p sk_seed keys (take_twice p.n keys) (replicate p.wots_sig_bytes 0) _
              (drop (3 * p.n) keys) (ots_addr_of fns lengths p ok idx)) in
      (λ j. index j ++ (random_lem j ++ (sig j ++ (flatten_nodes (auth_lem live j) ++ m))))
      ∙ ap
          (λ t.
            ull_to_bytes p.index_bytes idx
            ++ (written (replicate p.n 0) (prf fns p (ull_to_bytes 32 idx) (drop p.n keys)) ++ t))
          (sym (
            append_assoc _
              (flatten_nodes (
                auth_nodes fns lengths p ok keys (drop (3 * p.n) keys) zero_addr idx p.tree_height
                  0))
              m))
      ∙ sym (sign_with-single fns lengths p ok keys m idx one (omega arith))

  next-Live :
      (m : List ℕ)
      → Live fns lengths p ok sk_seed pub_seed zero_addr idx s
      → Live fns lengths p ok sk_seed pub_seed zero_addr (idx + 1) (after m)
  unfolding set_ots_addr set_type copy_subtree_addr
  next-Live m live =
      next_state-Live fns lengths p ok sk_seed pub_seed zero_addr idx s (ots m).0
        (wots_sign-subtree fns p pub_seed (replicate p.wots_sig_bytes 0) (digest m) sk_seed
          (ots_addr_of fns lengths p ok idx))
        free live

  next-StateFits :
      (m : List ℕ)
      → Live fns lengths p ok sk_seed pub_seed zero_addr idx s
      → StateFits p s
      → StateFits p (after m)
  unfolding set_ots_addr set_type copy_subtree_addr
  next-StateFits m live fits =
      next_state-StateFits fns lengths p ok sk_seed pub_seed zero_addr idx s (ots m).0
        (wots_sign-subtree fns p pub_seed (replicate p.wots_sig_bytes 0) (digest m) sk_seed
          (ots_addr_of fns lengths p ok idx))
        free live fits

  smlen_lem :
      (m : List ℕ)
      → 4 + p.n + p.wots_sig_bytes + p.tree_height * p.n + length m ≡ p.sig_bytes + length m
  smlen_lem m = omega (
    arith,
    ok.sig,
    four,
    ap (λ (d : ℕ). d * (p.wots_sig_bytes + p.tree_height * p.n)) one,
    one-mul (p.wots_sig_bytes + p.tree_height * p.n),
  )

  -- For the parameters of an XMSS set with an index of four bytes, keys of 4n bytes, an index below
  -- the last one, and a state with the path of the index that fits its bytes and is on time:
  -- xmss_core_sign of xmss_core_fast.c makes the same signed message as that of xmss_core.c with the
  -- same keys, which returns 0; both leave the keys behind the next index, the former with a state
  -- that has the path of the next index, is on time and fits its bytes.
  pub xmss_fast_sign-Agreed :
      (m : List ℕ)
      → StateFits p s
      → Live fns lengths p ok sk_seed pub_seed zero_addr idx s
      → Agreed m
          (xmss_fast_sign fns p (fast_key idx keys s) m)
          (xmss_core_sign fns p (key_at p idx keys) m)
  unfolding xmss_core_sign sign_with
  xmss_fast_sign-Agreed m fits live =
      rw (fast_result m fits, sign_free fns p ok idx keys m (omega (arith, last)))
        (record {
          made = λ j. some (smlen_lem m j, sm_lem m live j);
          ret = refl;
          state = after m;
          fast_sk = refl;
          core_sk =
              ap (λ t. ull_to_bytes p.index_bytes (idx + 1) ++ t)
                (drop-append_length p.index_bytes (ull_to_bytes p.index_bytes idx) keys
                  (length-ull_to_bytes p.index_bytes idx));
          fits = next-StateFits m live fits;
          live = next-Live m live;
        })
