-- ===== src/Core/Opening.antt =====
-- xmssmt_core_sign_open on a signed message of the form that signing writes.
use xmss_reference.Base.{
  ℕ, suc, ◌+◌, ◌-◌, ◌*◌, ◌^◌, ◌<◌, ◌≡◌, refl, sym, ap, ◌∙◌, List, [], ◌∷◌, ◌++◌, ◌==◌, true, u64,
  arith, length, length-append, take, drop, replicate, take-append_length, drop-append_length,
  take_all,
}
use mathlib.Core.List.{append_assoc}
use native.Mathlib.Nat.{add-zero}
use xmss_reference.Utils.{ull_to_bytes, bytes_to_ull}
use xmss_reference.Utils.RoundTrip.{length-ull_to_bytes, bytes_to_ull-ull_to_bytes}
use xmss_reference.Address.{zero_addr, addr_type_ots, addr_type_ltree, addr_type_hashtree, set_type}
use xmss_reference.Params.{Params}
use xmss_reference.Params.Sets.{IsParams}
use xmss_reference.Hash.{HashFns, written, hash_message}
use xmss_reference.Hash.Lengths.{HasLengths}
use xmss_reference.Commons.{open_loop, bytes_eq, slice, xmssmt_core_sign_open}
use xmss_reference.Commons.Tree.{length-node}
use xmss_reference.Core.{sign_layers}
use xmss_reference.Core.Index.{indices_fit}
use xmss_reference.Core.Layers.{tree_at, root_of}
use xmss_reference.Core.Climb.{top_root, open_loop-sign_layers, top_root_lem, length-sign_layers}

bytes_eq_refl : (xs : List ℕ) → bytes_eq xs xs ≡ true
unfolding bytes_eq
bytes_eq_refl [] = refl
bytes_eq_refl (x ∷ xs) = let e : (x == x) ≡ true = ground arith in rw e (bytes_eq_refl xs)

module _ (fns : HashFns) (p : Params) where
  -- The message's hash, as signing computes it.
  unfoldable pub digest : List ℕ → List ℕ → ℕ → List ℕ → List ℕ
  digest r pk idx m = written (replicate p.n 0) (hash_message fns p r pk idx m)

  -- The layers of a signature.
  abbrev pub layers : List ℕ → List ℕ → ℕ → List ℕ → List ℕ
  layers sk_seed pub_seed idx mhash =
      sign_layers fns p p.d 0 idx mhash sk_seed pub_seed (set_type zero_addr addr_type_ots)

module _ (fns : HashFns) (lengths : HasLengths fns) (p : Params) (ok : IsParams p) where
  -- Only `n` bytes of the randomness are hashed.
  hash_message-append :
      (r more root m : List ℕ) (idx : ℕ)
      → length r ≡ p.n
      → hash_message fns p (r ++ more) root idx m ≡ hash_message fns p r root idx m
  unfolding hash_message
  hash_message-append r more root m idx h = rw (take-append_length p.n r more h, take_all p.n r h)

  length-layers :
      (sk_seed pub_seed : List ℕ) (idx : ℕ) (mhash : List ℕ)
      → length (layers fns p sk_seed pub_seed idx mhash)
        ≡ p.d * (p.wots_sig_bytes + p.tree_height * p.n)
  unfolding set_type
  length-layers sk_seed pub_seed idx mhash =
      length-sign_layers fns lengths p ok sk_seed pub_seed p.d 0 idx mhash _ refl

  -- The root of the top tree.
  abbrev pub key_root : List ℕ → List ℕ → List ℕ
  key_root sk_seed pub_seed = root_of fns lengths p ok sk_seed pub_seed (tree_at (p.d - 1) 0)

  -- Verification of a signature of this form.
  pub open_lem :
      (sk_seed pub_seed r m : List ℕ) (idx : ℕ)
      → length r ≡ p.n
      → length pub_seed ≡ p.n
      → idx < 2 ^ p.full_height
      → p.sig_bytes + length m < 2 ^ 64
      → let pk = key_root sk_seed pub_seed ++ pub_seed in
        let sm =
          ull_to_bytes p.index_bytes idx
          ++ (r ++ (layers fns p sk_seed pub_seed idx (digest fns p r pk idx m) ++ m)) in
        xmssmt_core_sign_open fns p sm (p.sig_bytes + length m) pk
        ≡ record { ret = true; mlen = length m; m = m }
  unfolding xmssmt_core_sign_open digest set_type
  open_lem sk_seed pub_seed r m idx lr lp hi hm =
      rw
        (
          mlen,
          index,
          message,
          behind,
          hashed,
          seed_is,
          climb.0,
          climb.1,
          is_root,
          take_all (length m) m refl,
          take_all p.n root root_length,
          take-append_length p.n root pub_seed root_length,
          bytes_eq_refl root,
        )
        refl
    where
      root : List ℕ
      root = key_root sk_seed pub_seed

      pk : List ℕ
      pk = root ++ pub_seed

      lays : List ℕ
      lays = layers fns p sk_seed pub_seed idx (digest fns p r pk idx m)

      sm : List ℕ
      sm = ull_to_bytes p.index_bytes idx ++ (r ++ (lays ++ m))

      mlen : u64 (p.sig_bytes + length m + 2 ^ 64 - p.sig_bytes) ≡ length m
      mlen = omega arith

      index : bytes_to_ull sm p.index_bytes ≡ idx
      index =
          bytes_to_ull-ull_to_bytes p.index_bytes idx (r ++ (lays ++ m)) ok.index_max
            (omega (arith, indices_fit p ok))

      after_index : drop p.index_bytes sm ≡ r ++ (lays ++ m)
      after_index =
          drop-append_length p.index_bytes (ull_to_bytes p.index_bytes idx) (r ++ (lays ++ m))
            (length-ull_to_bytes p.index_bytes idx)

      index_length : length (ull_to_bytes p.index_bytes idx) ≡ p.index_bytes
      index_length = length-ull_to_bytes p.index_bytes idx

      signed_length : length (ull_to_bytes p.index_bytes idx ++ (r ++ lays)) ≡ p.sig_bytes
      signed_length = omega (
        arith,
        length-append (ull_to_bytes p.index_bytes idx) (r ++ lays),
        length-append r lays,
        index_length,
        lr,
        length-layers sk_seed pub_seed idx (digest fns p r pk idx m),
        ok.sig,
      )

      message : slice p.sig_bytes (length m) sm ≡ m
      message =
          ap (slice p.sig_bytes (length m)) (
            ap (λ t. ull_to_bytes p.index_bytes idx ++ t) (sym (append_assoc r lays m))
            ∙ sym (append_assoc (ull_to_bytes p.index_bytes idx) (r ++ lays) m))
          ∙ ap (take (length m)) (drop-append_length p.sig_bytes _ m signed_length)
          ∙ take_all (length m) m refl

      behind : drop (p.index_bytes + p.n) sm ≡ lays ++ m
      behind =
          ap (drop (p.index_bytes + p.n))
            (sym (append_assoc (ull_to_bytes p.index_bytes idx) r (lays ++ m)))
          ∙ drop-append_length (p.index_bytes + p.n) (ull_to_bytes p.index_bytes idx ++ r)
              (lays ++ m)
              (omega (arith, length-append (ull_to_bytes p.index_bytes idx) r, index_length, lr))

      hashed :
          written (replicate p.n 0) (hash_message fns p (drop p.index_bytes sm) pk idx m)
          ≡ digest fns p r pk idx m
      hashed =
          ap (λ t. written (replicate p.n 0) (hash_message fns p t pk idx m)) after_index
          ∙ ap (written (replicate p.n 0)) (hash_message-append r (lays ++ m) pk m idx lr)

      root_length : length root ≡ p.n
      root_length =
          length-node fns lengths p ok sk_seed pub_seed (tree_at (p.d - 1) 0) p.tree_height 0

      seed_is : drop p.n pk ≡ pub_seed
      seed_is = drop-append_length p.n root pub_seed root_length

      climb :
          let ots = set_type zero_addr addr_type_ots in
          let ltree = set_type zero_addr addr_type_ltree in
          let tree = set_type zero_addr addr_type_hashtree in
          let run =
            open_loop fns p p.d 0 idx
              (digest fns p r pk idx m)
              (lays ++ m)
              pub_seed
              ots
              ltree
              tree in
          (run.0 ≡ top_root fns lengths p ok sk_seed pub_seed p.d 0 idx (digest fns p r pk idx m))
          × (run.1 ≡ m)
      climb =
          open_loop-sign_layers fns lengths p ok sk_seed pub_seed p.d 0 idx
            (digest fns p r pk idx m) m _ _ _ _ refl refl refl refl

      is_root :
          top_root fns lengths p ok sk_seed pub_seed p.d 0 idx (digest fns p r pk idx m) ≡ root
      is_root =
          let one : p.d ≡ suc (p.d - 1) = omega (arith, ok.one_layer) in
          let high : 2 ^ (suc (p.d - 1) * p.tree_height) ≡ 2 ^ p.full_height =
            ap (λ t. 2 ^ (t * p.tree_height)) (sym one) ∙ ap (λ (t : ℕ). 2 ^ t) ok.layers in
          (λ j. top_root fns lengths p ok sk_seed pub_seed (one j) 0 idx (digest fns p r pk idx m))
          ∙ top_root_lem fns lengths p ok sk_seed pub_seed (p.d - 1) 0 idx (digest fns p r pk idx m)
              (omega arith)
          ∙ ap (λ t. root_of fns lengths p ok sk_seed pub_seed (tree_at t 0)) (add-zero (p.d - 1))
