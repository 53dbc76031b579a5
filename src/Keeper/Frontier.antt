-- ===== src/Keeper/Frontier.antt =====
-- The loop that walks from a new leaf to the root (keeper/merkle.go, in insertLeafIntoTree and
-- insertLeafSingleTree).
pub mod Climb
pub mod Walk
pub mod Empty
use cosmos_nixpool.Prelude.{
  ℕ, zero, suc, ◌/◌, ◌%◌, ◌^◌, Option, some, none, Bytes, ◌==◌, if◌then◌else◌,
}
use cosmos_nixpool.External.{External}
use cosmos_nixpool.Field.{set_bytes, to_bytes}
use cosmos_nixpool.Types.Keys.{Key}
use cosmos_nixpool.Store.{Store, get, set}

-- `maxLeaves := uint64(1) << depth`
unfoldable pub max_leaves : ℕ → ℕ
max_leaves depth = 2 ^ depth % 2 ^ 64

module _ (ext : External) where
  -- `left.SetBytes(frontierBytes)`; the zero element if there are none
  abbrev pub left_sibling : Option Bytes → ℕ
  left_sibling none = 0
  left_sibling (some b) = set_bytes ext b

  -- The loop, with the number of levels left. It returns the root and the store.
  unfoldable pub climb : (ℕ → Key) → ℕ → ℕ → ℕ → ℕ → Store → ℕ × Store
  climb frontier_key zero level idx current s = (current, s)
  climb frontier_key (suc levels) level idx current s =
      let left =
        climb frontier_key levels (suc level) (idx / 2) (ext.hash2 current (ext.zero_hash level))
          (set (frontier_key level) (to_bytes current) s) in
      let right =
        climb frontier_key levels (suc level) (idx / 2)
          (ext.hash2 (left_sibling (get s (frontier_key level))) current) s in
      if idx % 2 == 0 then left else right
