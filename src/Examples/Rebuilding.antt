-- ===== src/Examples/Rebuilding.antt =====
-- A store whose reverse index is wrong, and the index that is rebuilt from its slots.
use cosmos_nixpool.Prelude.{◌≡◌, refl, [], ◌∷◌, arith, false}
use cosmos_nixpool.Field.{to_bytes, put_uint64, uint64_of, set_bytes, canonical_field_bytes}
use cosmos_nixpool.Types.Keys.{Key, root_index_key}
use cosmos_nixpool.Types.Keys.Equality.{key_equal}
use cosmos_nixpool.Store.{Store, get, set, delete, delete_all, keys_of_family}
use cosmos_nixpool.Keeper.RootIndex.{root_ref_count}
use cosmos_nixpool.Keeper.RootIndex.Invariant.{IsIndexed}
use cosmos_nixpool.Keeper.RootIndex.Invariant.Writes.{is_index}
use cosmos_nixpool.Keeper.Forest.{get_tree_count}
use cosmos_nixpool.Keeper.Rebuild.{
  tally, record_slot, record_history, record_trees, write_counts, rebuild_root_index,
}
use cosmos_nixpool.Keeper.Rebuild.Exact.{rebuild_root_index-IsIndexed}
use cosmos_nixpool.Examples.Toy.{toy, toy-IsLawful}

-- The root 5 is held twice, and its count is missing; 9 is in no slot, and counted.
abbrev stale_store : Store
stale_store =
    (Key.root_index (to_bytes 9), put_uint64 3)
    ∷ (Key.tree_count, put_uint64 1)
    ∷ (Key.tree_root 0, 5 ∷ [])
    ∷ (Key.root_history 0 1, to_bytes 5)
    ∷ []

stale_store_count : get_tree_count stale_store ≡ 1
unfolding get_tree_count get key_equal uint64_of put_uint64
stale_store_count = refl

rebuilt_present : root_ref_count toy (rebuild_root_index toy stale_store) (5 ∷ []) ≡ 2
unfolding root_ref_count rebuild_root_index record_slot record_history record_trees write_counts
    tally root_index_key canonical_field_bytes get set delete delete_all keys_of_family key_equal
    uint64_of put_uint64 to_bytes set_bytes get_tree_count
rebuilt_present = refl

rebuilt_stale : root_ref_count toy (rebuild_root_index toy stale_store) (9 ∷ []) ≡ 0
unfolding root_ref_count rebuild_root_index record_slot record_history record_trees write_counts
    tally root_index_key canonical_field_bytes get set delete delete_all keys_of_family key_equal
    uint64_of put_uint64 to_bytes set_bytes get_tree_count
rebuilt_stale = refl

rebuild_root_index-IsIndexed_example :
    IsIndexed toy (get_tree_count stale_store) (rebuild_root_index toy stale_store)
    × ((j : Key)
        → is_index j ≡ false
        → get (rebuild_root_index toy stale_store) j ≡ get stale_store j)
rebuild_root_index-IsIndexed_example =
    rebuild_root_index-IsIndexed toy stale_store toy-IsLawful (omega (arith, stale_store_count))
