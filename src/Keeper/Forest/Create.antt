-- ===== src/Keeper/Forest/Create.antt =====
-- CreateTree: the empty tree that it starts, under the next tree id.
use cosmos_nixpool.Prelude.{ℕ, ◌+◌, ◌^◌, ◌<◌, ◌≡◌, refl, sym, ap, ◌∙◌, arith}
use cosmos_nixpool.External.{External, IsLawful}
use cosmos_nixpool.Field.{put_uint64, to_bytes}
use cosmos_nixpool.Field.Encoding.{uint64_of-put_uint64_lt}
use cosmos_nixpool.Types.Keys.{Key}
use cosmos_nixpool.Types.Keys.Equality.{key_equal}
use cosmos_nixpool.Store.{Store, get, set, get-set_self, get-set_ne}
use cosmos_nixpool.Keeper.RootIndex.{
  slice_of, uint64_or_zero, zero_root_bytes, set_tree_root_indexed,
}
use cosmos_nixpool.Keeper.RootIndex.Invariant.Writes.{get-set_tree_root_self}
use cosmos_nixpool.Keeper.Frontier.Empty.{HasSiblings-empty, node-leaf_of-empty}
use cosmos_nixpool.Keeper.Forest.{
  commitment_key, frontier_key, get_active_tree_id, set_active_tree_id, get_tree_count,
  set_tree_count, get_tree_next_index, init_frontier, create_tree_at,
}
use cosmos_nixpool.Keeper.Forest.Insert.{IsNoteTree}

module _ (ext : External) where
  -- A tree without leaves whose stored root is the zero hash of its depth.
  pub IsNoteTree-empty :
      (law : IsLawful ext) (depth t : ℕ) (s : Store)
      → get_tree_next_index s t ≡ 0
      → slice_of (get s (Key.tree_root t)) ≡ zero_root_bytes ext depth
      → IsNoteTree ext depth t 0 s
  unfolding zero_root_bytes
  IsNoteTree-empty law depth t s next root = record {
    next = next;
    siblings = HasSiblings-empty ext (commitment_key t) (frontier_key t) depth s;
    root =
        root
        ∙ ap to_bytes
            (sym (node-leaf_of-empty ext (commitment_key t) (frontier_key t) depth s law));
  }

  -- CreateTree starts an empty tree under the next id, makes it the active one, and counts it.
  pub create_tree_at-IsNoteTree :
      (law : IsLawful ext) (depth : ℕ) (s : Store)
      → get_tree_count s + 1 < 2 ^ 64
      → IsNoteTree ext depth (get_tree_count s) 0 (create_tree_at ext depth s)
        × (get_active_tree_id (create_tree_at ext depth s) ≡ get_tree_count s)
        × (get_tree_count (create_tree_at ext depth s) ≡ get_tree_count s + 1)
  unfolding key_equal create_tree_at set_active_tree_id set_tree_count get_active_tree_id
      get_tree_count get_tree_next_index
  create_tree_at-IsNoteTree law depth s room =
      let t = get_tree_count s in
      let s1 = init_frontier ext t depth 0 s in
      let s2 = set_tree_root_indexed ext t (zero_root_bytes ext depth) s1 in
      let s3 = set (Key.tree_next_index t) (put_uint64 0) s2 in
      let s4 = set Key.tree_count (put_uint64 (t + 1)) s3 in
      let s5 = set Key.active_tree_id (put_uint64 t) s4 in
      (
        IsNoteTree-empty law depth t s5
            (ap uint64_or_zero (
                get-set_ne s4 Key.active_tree_id (Key.tree_next_index t) (put_uint64 t) refl
                ∙ get-set_ne s3 Key.tree_count (Key.tree_next_index t) (put_uint64 (t + 1)) refl
                ∙ get-set_self s2 (Key.tree_next_index t) (put_uint64 0))
              ∙ uint64_of-put_uint64_lt 0 (omega arith))
            (ap slice_of (
                get-set_ne s4 Key.active_tree_id (Key.tree_root t) (put_uint64 t) refl
                ∙ get-set_ne s3 Key.tree_count (Key.tree_root t) (put_uint64 (t + 1)) refl
                ∙ get-set_ne s2 (Key.tree_next_index t) (Key.tree_root t) (put_uint64 0) refl)
              ∙ get-set_tree_root_self ext t (zero_root_bytes ext depth) s1),
        ap uint64_or_zero (get-set_self s4 Key.active_tree_id (put_uint64 t))
            ∙ uint64_of-put_uint64_lt t (omega (arith, room)),
        ap uint64_or_zero (
              get-set_ne s4 Key.active_tree_id Key.tree_count (put_uint64 t) refl
              ∙ get-set_self s3 Key.tree_count (put_uint64 (t + 1)))
            ∙ uint64_of-put_uint64_lt (t + 1) room,
      )
