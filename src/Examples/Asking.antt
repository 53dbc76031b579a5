-- ===== src/Examples/Asking.antt =====
-- What the queries answer after the first note.
use cosmos_nixpool.Prelude.{◌≡◌, refl, arith}
use cosmos_nixpool.Field.{to_bytes, set_bytes, canonical_field_bytes, put_uint64, uint64_of}
use cosmos_nixpool.Types.Errors.{ok}
use cosmos_nixpool.Types.Params.{default_tree_depth}
use cosmos_nixpool.Types.Keys.{commitment_used_key, root_index_key}
use cosmos_nixpool.Types.Keys.Equality.{key_equal}
use cosmos_nixpool.Store.{Store, get, set, delete}
use cosmos_nixpool.Keeper.Action.{◌>>=◌}
use cosmos_nixpool.Keeper.Params.{get_params, effective_depth}
use cosmos_nixpool.Keeper.RootIndex.{
  zero_root_bytes, root_ref_count, root_index_incr, root_index_decr, write_slot_indexed,
  set_tree_root_indexed, set_root_history_indexed,
}
use cosmos_nixpool.Keeper.Frontier.{max_leaves, climb}
use cosmos_nixpool.Keeper.Forest.{
  get_active_tree_id, set_active_tree_id, get_tree_count, set_tree_count, get_tree_next_index,
  init_frontier, create_tree_at, create_tree, ensure_tree_exists, append_leaf,
  insert_leaf_into_tree, choose_tree, insert_note,
}
use cosmos_nixpool.Server.Queries.{query_root, query_tree_info}
use cosmos_nixpool.Server.Queries.Current.{query_tree_info-insert_note}
use cosmos_nixpool.Examples.Codec.{marshal, unmarshal}
use cosmos_nixpool.Examples.Toy.{toy, toy_hash, toy_hash2, toy_zero_hash}
use cosmos_nixpool.Examples.Spending.{sample_state}

abbrev before : Store
before = sample_state.kv

abbrev noted : Store
noted = (insert_note toy (to_bytes 5) before).1

noted_run : insert_note toy (to_bytes 5) before ≡ (ok (to_bytes 54, 0, 0), noted)
unfolding ◌>>=◌ get_params get key_equal marshal unmarshal to_bytes toy_hash toy_hash2 set_bytes
    insert_note ensure_tree_exists get_tree_count create_tree create_tree_at effective_depth
    init_frontier toy_zero_hash set_tree_root_indexed write_slot_indexed root_index_incr
    root_index_decr root_ref_count root_index_key canonical_field_bytes zero_root_bytes
    set_tree_count set_active_tree_id set delete commitment_used_key choose_tree get_active_tree_id
    get_tree_next_index max_leaves insert_leaf_into_tree append_leaf climb set_root_history_indexed
    put_uint64 uint64_of
noted_run = refl

no_trees : get_tree_count before ≡ 0
unfolding get_tree_count get key_equal
no_trees = refl

query_tree_info-insert_note_example :
    (query_root toy noted ≡ to_bytes 54)
    × (query_tree_info toy noted ≡ record {
      root = to_bytes 54;
      next_index = 1;
      depth = default_tree_depth;
      active_tree_id = 0;
      tree_count = get_tree_count noted;
    })
query_tree_info-insert_note_example =
    query_tree_info-insert_note toy (to_bytes 5) before noted (to_bytes 54) 0 0
      (omega (arith, no_trees)) noted_run
