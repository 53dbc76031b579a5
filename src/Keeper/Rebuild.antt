-- ===== src/Keeper/Rebuild.antt =====
-- keeper/merkle.go: RebuildRootIndex, which recounts the reverse index from the root slots.
pub mod Exact
use cosmos_nixpool.Prelude.{
  ℕ, zero, suc, ◌+◌, List, [], ◌∷◌, Bytes, if◌then◌else◌, bytes_equal, is_empty,
}
use cosmos_nixpool.External.{External}
use cosmos_nixpool.Field.{put_uint64, canonical_field_bytes}
use cosmos_nixpool.Types.Keys.{Key, root_index_key, max_root_history}
use cosmos_nixpool.Types.Keys.Equality.{family}
use cosmos_nixpool.Store.{Store, get, set, keys_of_family, delete_all}
use cosmos_nixpool.Keeper.RootIndex.{slice_of}
use cosmos_nixpool.Keeper.Forest.{get_tree_count}

-- `map[string]uint64`: each key once. A count is written modulo 2 ^ 64 (`put_uint64`).
abbrev pub Counts : Type 0
Counts = List (Bytes × ℕ)

-- `counts[c]++`
unfoldable pub tally : Bytes → Counts → Counts
tally c [] = (c, 1) ∷ []
tally c ((d, n) ∷ counts) =
    let rest = tally c counts in if bytes_equal d c then (d, n + 1) ∷ counts else (d, n) ∷ rest

-- the prefix types.RootIndexPrefix()
abbrev pub root_index_family : ℕ
root_index_family = family (Key.root_index [])

module _ (ext : External) where
  -- the closure `record`
  unfoldable pub record_slot : Bytes → Counts → Counts
  record_slot b counts = if is_empty b then counts else tally (canonical_field_bytes ext b) counts

  -- the loop on the history slots of a tree: the first `n` of them
  unfoldable pub record_history : Store → ℕ → ℕ → Counts → Counts
  record_history s tree_id zero counts = counts
  record_history s tree_id (suc n) counts =
      record_slot (slice_of (get s (Key.root_history tree_id n)))
        (record_history s tree_id n counts)

  -- the loop on the trees: the first `n` of them
  unfoldable pub record_trees : Store → ℕ → Counts
  record_trees s zero = []
  record_trees s (suc n) =
      record_history s n max_root_history
        (record_slot (slice_of (get s (Key.tree_root n))) (record_trees s n))

  -- the loop that writes the counts
  unfoldable pub write_counts : Counts → Store → Store
  write_counts [] s = s
  write_counts ((c, n) ∷ counts) s =
      set (root_index_key ext c) (put_uint64 n) (write_counts counts s)

  -- RebuildRootIndex
  unfoldable pub rebuild_root_index : Store → Store
  unfolding get_tree_count
  rebuild_root_index s =
      let cleared = delete_all (keys_of_family root_index_family s) s in
      write_counts (record_trees cleared (get_tree_count s)) cleared
