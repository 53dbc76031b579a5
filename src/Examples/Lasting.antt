-- ===== src/Examples/Lasting.antt =====
-- Two leaves in a tree, and the first one's root.
use cosmos_nixpool.Prelude.{◌≡◌, refl, true, [], ◌∷◌, arith}
use cosmos_nixpool.Field.{to_bytes, set_bytes, uint64_of, put_uint64, canonical_field_bytes}
use cosmos_nixpool.Types.Errors.{ok}
use cosmos_nixpool.Types.Keys.{root_index_key}
use cosmos_nixpool.Types.Keys.Equality.{key_equal}
use cosmos_nixpool.Store.{Store, get, set, delete}
use cosmos_nixpool.Keeper.Action.{◌>>=◌}
use cosmos_nixpool.Keeper.RootIndex.{
  is_valid_root_any_tree, set_tree_root_indexed, set_root_history_indexed, write_slot_indexed,
  root_index_incr, root_index_decr,
}
use cosmos_nixpool.Keeper.RootIndex.Slots.{forest_count-empty}
use cosmos_nixpool.Keeper.RootIndex.Invariant.{IsIndexed}
use cosmos_nixpool.Keeper.Frontier.{max_leaves, climb}
use cosmos_nixpool.Keeper.Forest.{get_tree_next_index, append_leaf, insert_leaf_into_tree}
use cosmos_nixpool.Keeper.Forest.Lasting.{Grows, insert_leaf_into_tree-lasting}
use cosmos_nixpool.Examples.Toy.{toy, toy_hash2, toy_zero_hash}

abbrev one_leaf : Store
one_leaf = (insert_leaf_into_tree toy 0 (5 ∷ []) 2 []).1

abbrev two_leaves : Store
two_leaves = (insert_leaf_into_tree toy 0 (6 ∷ []) 2 one_leaf).1

one_leaf_run : insert_leaf_into_tree toy 0 (5 ∷ []) 2 [] ≡ (ok (to_bytes 54, 0), one_leaf)
unfolding insert_leaf_into_tree ◌>>=◌ get_tree_next_index append_leaf climb max_leaves get set
    toy_hash2 toy_zero_hash set_bytes
one_leaf_run = refl

two_leaves_run : insert_leaf_into_tree toy 0 (6 ∷ []) 2 one_leaf ≡ (ok (to_bytes 43, 1), two_leaves)
unfolding insert_leaf_into_tree ◌>>=◌ get_tree_next_index append_leaf climb max_leaves get set
    delete key_equal toy_hash2 toy_zero_hash set_bytes to_bytes uint64_of put_uint64
    set_tree_root_indexed set_root_history_indexed write_slot_indexed root_index_decr
    root_index_incr root_index_key canonical_field_bytes
two_leaves_run = refl

empty-IsIndexed : IsIndexed toy 1 []
unfolding get
empty-IsIndexed root = omega (arith, forest_count-empty toy 1 root)

insert_leaf_into_tree-lasting_example : is_valid_root_any_tree toy two_leaves (to_bytes 54) ≡ true
insert_leaf_into_tree-lasting_example =
    insert_leaf_into_tree-lasting toy 1 0 (omega arith) (omega arith) (5 ∷ []) 2 0 1 (to_bytes 54)
      [] one_leaf two_leaves empty-IsIndexed one_leaf_run (omega arith)
      (Grows.inserts 1 2 (6 ∷ []) (to_bytes 43) Grows.unchanged two_leaves_run)
