-- ===== src/Keeper/Forest/Frame.antt =====
-- The forest's operations write the forest's keys only.
use cosmos_nixpool.Prelude.{
  ℕ, zero, suc, ◌+◌, ◌%◌, ◌≡◌, refl, ◌∙◌, false, Option, [], ◌∷◌, Bytes, ◌==◌,
}
use cosmos_nixpool.External.{External}
use cosmos_nixpool.Field.{put_uint64, to_bytes, set_bytes}
use cosmos_nixpool.Types.Keys.{Key, commitment_used_key, max_root_history}
use cosmos_nixpool.Types.Keys.Equality.{key_equal-family, family}
use cosmos_nixpool.Store.{Store, get, set, get-set_ne}
use cosmos_nixpool.Keeper.Action.{modify, update}
use cosmos_nixpool.Keeper.Action.Preserves.{
  Preserves, Preserves-modify, Preserves-update, preserving,
}
use cosmos_nixpool.Keeper.RootIndex.{zero_root_bytes, set_tree_root_indexed}
use cosmos_nixpool.Keeper.RootIndex.Invariant.Writes.{get-set_tree_root_ne}
use cosmos_nixpool.Keeper.Frontier.{climb}
use cosmos_nixpool.Keeper.Frontier.Climb.{climb_frame}
use cosmos_nixpool.Keeper.Forest.{
  get_tree_count, set_tree_count, set_active_tree_id, commitment_key, frontier_key, init_frontier,
  create_tree_at, create_tree, ensure_tree_exists, append_leaf, insert_leaf_into_tree, choose_tree,
  insert_note,
}
use cosmos_nixpool.Keeper.Forest.Insert.{finish_frame}

-- A key of none of the families that the forest writes.
pub record IsForeign (k : Key) : Type 0 where
  pub commitment : (0 == family k) ≡ false
  pub frontier : (1 == family k) ≡ false
  pub root_history : (2 == family k) ≡ false
  pub tree_root : (3 == family k) ≡ false
  pub root_index : (4 == family k) ≡ false
  pub tree_next_index : (5 == family k) ≡ false
  pub active_tree_id : (6 == family k) ≡ false
  pub tree_count : (7 == family k) ≡ false
  pub commitment_used : (12 == family k) ≡ false

pub nullifier-IsForeign : (b : Bytes) → IsForeign (Key.nullifier b)
nullifier-IsForeign b = record {
  commitment = refl;
  frontier = refl;
  root_history = refl;
  tree_root = refl;
  root_index = refl;
  tree_next_index = refl;
  active_tree_id = refl;
  tree_count = refl;
  commitment_used = refl;
}

module _ (ext : External) (k : Key) (foreign : IsForeign k) (v : Option Bytes) where
  -- The key has this value.
  abbrev pub Holds : Store → Type 0
  Holds s = get s k ≡ v

  set-Holds :
      (j : Key) (b : Bytes) (s : Store)
      → (family j == family k) ≡ false
      → Holds s
      → Holds (set j b s)
  set-Holds j b s ne h = get-set_ne s j k b (key_equal-family j k ne) ∙ h

  init_frontier-Holds :
      (t levels level : ℕ) (s : Store) → Holds s → Holds (init_frontier ext t levels level s)
  unfolding init_frontier
  init_frontier-Holds t zero level s h = h
  init_frontier-Holds t (suc levels) level s h =
      init_frontier-Holds t levels (suc level) _
        (set-Holds (Key.frontier t level) (to_bytes (ext.zero_hash level)) s foreign.frontier h)

  set_tree_root-Holds :
      (t : ℕ) (root : Bytes) (s : Store) → Holds s → Holds (set_tree_root_indexed ext t root s)
  set_tree_root-Holds t root s h =
      get-set_tree_root_ne ext t root s k foreign.root_index
        (key_equal-family (Key.tree_root t) k foreign.tree_root)
      ∙ h

  create_tree_at-Holds : (depth : ℕ) (s : Store) → Holds s → Holds (create_tree_at ext depth s)
  unfolding create_tree_at set_active_tree_id set_tree_count
  create_tree_at-Holds depth s h =
      let t = get_tree_count s in
      let s1 = init_frontier ext t depth 0 s in
      let s2 = set_tree_root_indexed ext t (zero_root_bytes ext depth) s1 in
      let s3 = set (Key.tree_next_index t) (put_uint64 0) s2 in
      let s4 = set Key.tree_count (put_uint64 (t + 1)) s3 in
      set-Holds Key.active_tree_id (put_uint64 t) s4 foreign.active_tree_id (
        set-Holds Key.tree_count (put_uint64 (t + 1)) s3 foreign.tree_count (
          set-Holds (Key.tree_next_index t) (put_uint64 0) s2 foreign.tree_next_index (
            set_tree_root-Holds t (zero_root_bytes ext depth) s1
              (init_frontier-Holds t depth 0 s h))))

  modify_create-Holds : (depth : ℕ) → Preserves Holds (modify (create_tree_at ext depth))
  modify_create-Holds depth =
      Preserves-modify (create_tree_at ext depth) (create_tree_at-Holds depth)

  create_tree-Holds : Preserves Holds (create_tree ext)
  unfolding create_tree
  create_tree-Holds = search (preserving, modify_create-Holds)

  ensure_tree_exists-Holds : Preserves Holds (ensure_tree_exists ext)
  unfolding ensure_tree_exists
  ensure_tree_exists-Holds = search (preserving, create_tree-Holds)

  choose_tree-Holds : (depth : ℕ) → Preserves Holds (choose_tree ext depth)
  unfolding choose_tree
  choose_tree-Holds depth = search (preserving, create_tree-Holds)

  append_leaf-Holds :
      (t : ℕ) (c : Bytes) (depth index : ℕ) (s : Store)
      → Holds s
      → Holds (append_leaf ext t c depth index s).1
  unfolding append_leaf
  append_leaf-Holds t c depth index s h =
      let s1 = set (commitment_key t index) c s in
      let w = climb ext (frontier_key t) depth 0 index (set_bytes ext c) s1 in
      finish_frame ext t index (index % max_root_history) (to_bytes w.0) w.1 k foreign.root_index
        (key_equal-family (Key.tree_root t) k foreign.tree_root)
        (key_equal-family (Key.root_history t (index % max_root_history)) k foreign.root_history)
        (key_equal-family (Key.tree_next_index t) k foreign.tree_next_index)
      ∙ climb_frame ext (frontier_key t) depth 0 index (set_bytes ext c) s1 k
          (λ l _. key_equal-family (frontier_key t l) k foreign.frontier)
      ∙ set-Holds (commitment_key t index) c s foreign.commitment h

  update_append-Holds :
      (t : ℕ) (c : Bytes) (depth index : ℕ)
      → Preserves Holds (update (append_leaf ext t c depth index))
  update_append-Holds t c depth index =
      Preserves-update (append_leaf ext t c depth index) (append_leaf-Holds t c depth index)

  insert_leaf-Holds :
      (t : ℕ) (c : Bytes) (depth : ℕ) → Preserves Holds (insert_leaf_into_tree ext t c depth)
  unfolding insert_leaf_into_tree
  insert_leaf-Holds t c depth = search (preserving, update_append-Holds)

  mark_used-Holds :
      (c : Bytes) → Preserves Holds (modify (set (commitment_used_key ext c) (1 ∷ [])))
  unfolding commitment_used_key
  mark_used-Holds c =
      Preserves-modify (set (commitment_used_key ext c) (1 ∷ []))
        (λ s. set-Holds (commitment_used_key ext c) (1 ∷ []) s foreign.commitment_used)

  -- InsertNote leaves every key of another family alone, also where it fails.
  pub insert_note-Holds : (c : Bytes) → Preserves Holds (insert_note ext c)
  unfolding insert_note
  insert_note-Holds c =
      search
        (
          preserving, ensure_tree_exists-Holds, choose_tree-Holds, insert_leaf-Holds,
          mark_used-Holds,
        )
        depth 8
