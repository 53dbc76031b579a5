-- ===== src/Server/Queries/Current.antt =====
-- TreeInfo and Root after InsertNote: they tell of the leaf that it has just inserted.
use cosmos_nixpool.Prelude.{ℕ, ◌+◌, ◌^◌, ◌<◌, ◌≡◌, refl, sym, ap, ◌∙◌, Bytes}
use cosmos_nixpool.External.{External}
use cosmos_nixpool.Types.Errors.{ok}
use cosmos_nixpool.Types.Params.{default_tree_depth}
use cosmos_nixpool.Types.Keys.{Key, commitment_used_key}
use cosmos_nixpool.Types.Keys.Equality.{key_equal}
use cosmos_nixpool.Store.{Store, get}
use cosmos_nixpool.Keeper.RootIndex.{uint64_or_zero}
use cosmos_nixpool.Keeper.Forest.{
  get_active_tree_id, get_tree_count, get_tree_next_index, get_tree_root, get_next_index,
  get_merkle_root, insert_note,
}
use cosmos_nixpool.Keeper.Forest.Inserted.{Inserted, Inserted-frame}
use cosmos_nixpool.Keeper.Forest.Note.{NoteInserted, insert_note-NoteInserted}
use cosmos_nixpool.Keeper.Forest.Stored.{marked_ne, NoteStored-root, NoteStored-next}
use cosmos_nixpool.Server.Queries.{query_root, query_tree_info}

module _ (ext : External) where
  Inserted-active :
      (t : ℕ) (c : Bytes) (depth : ℕ) (s : Store) (root : Bytes) (i : ℕ) (s' : Store)
      → Inserted ext t c depth s root i s'
      → get_active_tree_id s' ≡ get_active_tree_id s
  unfolding key_equal get_active_tree_id
  Inserted-active t c depth s root i s' made =
      ap uint64_or_zero
        (Inserted-frame ext t c depth s root i s' Key.active_tree_id made refl refl refl refl refl)

  marked-active :
      (c : Bytes) (s' : Store) (root : Bytes) (i t : ℕ)
      → NoteInserted ext c root i t s'
      → get_active_tree_id s' ≡ t
  unfolding key_equal commitment_used_key get_active_tree_id
  marked-active c s' root i t made =
      let n = made.stored in
      ap (λ (x : Store). uint64_or_zero (get x Key.active_tree_id)) (sym n.marked)
      ∙ ap uint64_or_zero (marked_ne ext c n.grown Key.active_tree_id refl)
      ∙ Inserted-active t c n.depth n.chosen root i n.grown n.leaf
      ∙ made.active

  -- After an InsertNote that succeeds, in a forest with fewer than 2^64 trees, the query Root answers
  -- the root that InsertNote returned, and TreeInfo answers that root, the leaf's index plus one and
  -- the leaf's tree as the active one.
  pub query_tree_info-insert_note :
      (c : Bytes) (s s' : Store) (root : Bytes) (i t : ℕ)
      → get_tree_count s < 2 ^ 64
      → insert_note ext c s ≡ (ok (root, i, t), s')
      → (query_root ext s' ≡ root)
        × (query_tree_info ext s' ≡ record {
          root = root;
          next_index = i + 1;
          depth = default_tree_depth;
          active_tree_id = t;
          tree_count = get_tree_count s';
        })
  unfolding query_root query_tree_info get_merkle_root get_next_index
  query_tree_info-insert_note c s s' root i t small h =
      let made = insert_note-NoteInserted ext c s s' root i t small h in
      let active = marked-active c s' root i t made in
      let at_root = NoteStored-root ext c s' root i t made.stored in
      let at_next = NoteStored-next ext c s' root i t made.stored in
      let root_is = ap (get_tree_root ext s') active ∙ at_root in
      let next_is = ap (get_tree_next_index s') active ∙ at_next in
      (
        root_is,
        λ j. record {
          root = root_is j;
          next_index = next_is j;
          depth = default_tree_depth;
          active_tree_id = active j;
          tree_count = get_tree_count s';
        },
      )
