-- ===== src/Params.antt =====
-- params.c and params.h: the parameters of a scheme, and how an OID sets them.
pub mod Table
pub mod Sets
pub mod Names
use xmss_reference.Base.{ℕ, ◌+◌, ◌*◌, ◌/◌, Option, none, some, ◌==◌, if◌then◌else◌, u32, ◌>>=◌}
use Table.{xmss_func, xmss_n, xmss_height, xmssmt_func, xmssmt_n, xmssmt_height, xmssmt_d}

-- `xmss_params`
pub record Params : Type 0 where
  pub func : ℕ
  pub n : ℕ
  pub padding_len : ℕ
  pub wots_w : ℕ
  pub wots_log_w : ℕ
  pub wots_len1 : ℕ
  pub wots_len2 : ℕ
  pub wots_len : ℕ
  pub wots_sig_bytes : ℕ
  pub full_height : ℕ
  pub tree_height : ℕ
  pub d : ℕ
  pub index_bytes : ℕ
  pub sig_bytes : ℕ
  pub pk_bytes : ℕ
  pub sk_bytes : ℕ
  pub bds_k : ℕ

-- `wots_log_w` and `wots_len2` for the three values of `wots_w` that the code knows.
unfoldable pub wots_constants : ℕ → Option (ℕ × ℕ)
wots_constants w =
    if w == 4
    then some (2, 5)
    else if w == 16
    then some (4, 3)
    else if w == 256
    then some (8, 2)
    else none

-- The fields that follow from `n`, `wots_log_w` and `wots_len2`.
unfoldable pub set_wots_lengths : Params → Params
set_wots_lengths p =
    let len1 = u32 (8 * p.n) / p.wots_log_w in
    let len = u32 (len1 + p.wots_len2) in
    record p { wots_len1 = len1; wots_len = len; wots_sig_bytes = u32 (len * p.n) }

-- The fields that hold sizes in bytes, but for that of the secret key.
unfoldable pub set_sizes : Params → Params
set_sizes p =
    let index_bytes = if p.d == 1 then 4 else u32 (p.full_height + 7) / 8 in
    record p {
      index_bytes = index_bytes;
      sig_bytes = u32 (index_bytes + p.n + p.d * p.wots_sig_bytes + p.full_height * p.n);
      pk_bytes = u32 (2 * p.n);
    }

-- The size of a secret key is that of the linked implementation, xmss_core.c or xmss_core_fast.c.
module _ (core_sk_bytes : Params → ℕ) where
  -- `xmss_xmssmt_initialize_params`. A `d` of 0, undefined in C, gives a `tree_height` of 0.
  unfoldable pub initialize_params : Params → Option Params
  initialize_params params = do
    let p = record params { tree_height = params.full_height / params.d }
    (log_w, len2) ← wots_constants p.wots_w
    let q = set_sizes (set_wots_lengths (record p { wots_log_w = log_w; wots_len2 = len2 }))
    some (record q { sk_bytes = core_sk_bytes q })

  unfoldable pub xmss_parse_oid : Params → ℕ → Option Params
  xmss_parse_oid params oid = do
    func ← xmss_func oid
    (n, padding_len) ← xmss_n oid
    full_height ← xmss_height oid
    initialize_params (record params {
      func = func;
      n = n;
      padding_len = padding_len;
      full_height = full_height;
      d = 1;
      wots_w = 16;
      bds_k = 0;
    })

  unfoldable pub xmssmt_parse_oid : Params → ℕ → Option Params
  xmssmt_parse_oid params oid = do
    func ← xmssmt_func oid
    (n, padding_len) ← xmssmt_n oid
    full_height ← xmssmt_height oid
    d ← xmssmt_d oid
    initialize_params (record params {
      func = func;
      n = n;
      padding_len = padding_len;
      full_height = full_height;
      d = d;
      wots_w = 16;
      bds_k = 0;
    })
