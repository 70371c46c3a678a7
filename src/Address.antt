-- ===== src/Address.antt =====
-- hash_address.c and hash_address.h: `uint32_t addr[8]`, with word `i` of the array as field `w<i>`,
-- the setters, and `addr_to_bytes` of hash.c.
pub mod Encoding
use xmss_reference.Base.{ℕ, ◌/◌, ◌^◌, ◌++◌, List, u32, u64}
use xmss_reference.Utils.{ull_to_bytes}

pub record Addr : Type 0 where
  pub w0 : ℕ
  pub w1 : ℕ
  pub w2 : ℕ
  pub w3 : ℕ
  pub w4 : ℕ
  pub w5 : ℕ
  pub w6 : ℕ
  pub w7 : ℕ

-- `uint32_t addr[8] = {0}`
abbrev pub zero_addr : Addr
zero_addr = record { w0 = 0; w1 = 0; w2 = 0; w3 = 0; w4 = 0; w5 = 0; w6 = 0; w7 = 0 }

-- The values of XMSS_ADDR_TYPE_OTS, XMSS_ADDR_TYPE_LTREE and XMSS_ADDR_TYPE_HASHTREE.
abbrev pub addr_type_ots : ℕ
addr_type_ots = 0

abbrev pub addr_type_ltree : ℕ
addr_type_ltree = 1

abbrev pub addr_type_hashtree : ℕ
addr_type_hashtree = 2

-- Each argument is converted to the parameter's type.
unfoldable pub set_layer_addr : Addr → ℕ → Addr
set_layer_addr addr layer = record addr { w0 = u32 layer }

unfoldable pub set_tree_addr : Addr → ℕ → Addr
set_tree_addr addr tree = record addr { w1 = u32 (u64 tree / 2 ^ 32); w2 = u32 (u64 tree) }

unfoldable pub set_type : Addr → ℕ → Addr
set_type addr type = record addr { w3 = u32 type }

unfoldable pub set_key_and_mask : Addr → ℕ → Addr
set_key_and_mask addr key_and_mask = record addr { w7 = u32 key_and_mask }

unfoldable pub copy_subtree_addr : Addr → Addr → Addr
copy_subtree_addr out from = record out { w0 = from.w0; w1 = from.w1; w2 = from.w2 }

unfoldable pub set_ots_addr : Addr → ℕ → Addr
set_ots_addr addr ots = record addr { w4 = u32 ots }

unfoldable pub set_chain_addr : Addr → ℕ → Addr
set_chain_addr addr chain = record addr { w5 = u32 chain }

unfoldable pub set_hash_addr : Addr → ℕ → Addr
set_hash_addr addr hash = record addr { w6 = u32 hash }

unfoldable pub set_ltree_addr : Addr → ℕ → Addr
set_ltree_addr addr ltree = record addr { w4 = u32 ltree }

unfoldable pub set_tree_height : Addr → ℕ → Addr
set_tree_height addr tree_height = record addr { w5 = u32 tree_height }

unfoldable pub set_tree_index : Addr → ℕ → Addr
set_tree_index addr tree_index = record addr { w6 = u32 tree_index }

-- The 32 bytes that `addr_to_bytes` writes, four for each word.
unfoldable pub addr_to_bytes : Addr → List ℕ
addr_to_bytes addr =
    ull_to_bytes 4 addr.w0
    ++ (ull_to_bytes 4 addr.w1
        ++ (ull_to_bytes 4 addr.w2
            ++ (ull_to_bytes 4 addr.w3
                ++ (ull_to_bytes 4 addr.w4
                    ++ (ull_to_bytes 4 addr.w5
                        ++ (ull_to_bytes 4 addr.w6 ++ ull_to_bytes 4 addr.w7))))))
