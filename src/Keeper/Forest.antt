-- ===== src/Keeper/Forest.antt =====
-- keeper/merkle.go: the forest of note trees.
pub mod Insert
pub mod Root
pub mod Frame
pub mod Create
pub mod Index
pub mod Inserted
pub mod Lasting
pub mod Note
pub mod Stored
use cosmos_nixpool.Prelude.{
  ℕ, zero, suc, ◌+◌, ◌%◌, Option, some, none, [], ◌∷◌, Bytes, ◌==◌, leb, if◌then◌else◌,
}
use cosmos_nixpool.External.{External}
use cosmos_nixpool.Field.{put_uint64, set_bytes, to_bytes}
use cosmos_nixpool.Types.Errors.{tree_full, duplicate_commitment}
use cosmos_nixpool.Types.Params.{default_tree_depth}
use cosmos_nixpool.Types.Keys.{Key, commitment_used_key, max_root_history}
use cosmos_nixpool.Store.{Store, get, set, has}
use cosmos_nixpool.Keeper.Action.{Action, pure, gets, reads, update, modify, raise_if, ◌>>=◌, ◌>>◌}
use cosmos_nixpool.Keeper.Params.{get_params, effective_depth}
use cosmos_nixpool.Keeper.RootIndex.{
  uint64_or_zero, zero_root_bytes, set_tree_root_indexed, set_root_history_indexed,
}
use cosmos_nixpool.Keeper.Frontier.{max_leaves, climb}

-- GetActiveTreeId
unfoldable pub get_active_tree_id : Store → ℕ
get_active_tree_id s = uint64_or_zero (get s Key.active_tree_id)

-- setActiveTreeId
unfoldable pub set_active_tree_id : ℕ → Store → Store
set_active_tree_id id s = set Key.active_tree_id (put_uint64 id) s

-- GetTreeCount
unfoldable pub get_tree_count : Store → ℕ
get_tree_count s = uint64_or_zero (get s Key.tree_count)

-- setTreeCount
unfoldable pub set_tree_count : ℕ → Store → Store
set_tree_count count s = set Key.tree_count (put_uint64 count) s

-- GetTreeNextIndex
unfoldable pub get_tree_next_index : Store → ℕ → ℕ
get_tree_next_index s tree_id = uint64_or_zero (get s (Key.tree_next_index tree_id))

-- GetNextIndex
unfoldable pub get_next_index : Store → ℕ
unfolding get_active_tree_id get_tree_next_index
get_next_index s = get_tree_next_index s (get_active_tree_id s)

-- The keys of a tree's leaves and frontier levels.
abbrev pub commitment_key : ℕ → ℕ → Key
commitment_key tree_id index = Key.commitment tree_id index

abbrev pub frontier_key : ℕ → ℕ → Key
frontier_key tree_id level = Key.frontier tree_id level

module _ (ext : External) where
  abbrev pub root_or_zero : Option Bytes → Bytes
  root_or_zero none = zero_root_bytes ext default_tree_depth
  root_or_zero (some b) = b

  -- GetTreeRoot
  unfoldable pub get_tree_root : Store → ℕ → Bytes
  unfolding zero_root_bytes
  get_tree_root s tree_id = root_or_zero (get s (Key.tree_root tree_id))

  -- GetMerkleRoot
  unfoldable pub get_merkle_root : Store → Bytes
  unfolding get_active_tree_id get_tree_root
  get_merkle_root s = get_tree_root s (get_active_tree_id s)

  -- the frontier loop of CreateTree, with the number of levels left
  unfoldable pub init_frontier : ℕ → ℕ → ℕ → Store → Store
  init_frontier tree_id zero level s = s
  init_frontier tree_id (suc levels) level s =
      init_frontier tree_id levels (suc level)
        (set (Key.frontier tree_id level) (to_bytes (ext.zero_hash level)) s)

  -- CreateTree, where the parameters give the depth
  unfoldable pub create_tree_at : ℕ → Store → Store
  create_tree_at depth s =
      let tree_id = get_tree_count s in
      let s1 = init_frontier tree_id depth 0 s in
      let s2 = set_tree_root_indexed ext tree_id (zero_root_bytes ext depth) s1 in
      let s3 = set (Key.tree_next_index tree_id) (put_uint64 0) s2 in
      set_active_tree_id tree_id (set_tree_count (tree_id + 1) s3)

  -- CreateTree
  unfoldable pub create_tree : Action Store ℕ
  create_tree = do
    tree_id ← gets get_tree_count
    p ← reads (get_params ext)
    modify (create_tree_at (effective_depth p))
    pure tree_id

  -- EnsureTreeExists
  unfoldable pub ensure_tree_exists : Action Store (Unit {0})
  ensure_tree_exists = do
    count ← gets get_tree_count
    if count == 0 then (create_tree >> pure tt) else pure tt

  -- insertLeafIntoTree, past the test that the tree is not full
  unfoldable pub append_leaf : ℕ → Bytes → ℕ → ℕ → Store → Bytes × Store
  append_leaf tree_id commitment depth index s =
      let s1 = set (commitment_key tree_id index) commitment s in
      let walked = climb ext (frontier_key tree_id) depth 0 index (set_bytes ext commitment) s1 in
      let new_root = to_bytes walked.0 in
      let s2 = set_tree_root_indexed ext tree_id new_root walked.1 in
      let s3 = set_root_history_indexed ext tree_id (index % max_root_history) new_root s2 in
      (new_root, set (Key.tree_next_index tree_id) (put_uint64 (index + 1)) s3)

  -- insertLeafIntoTree
  unfoldable pub insert_leaf_into_tree : ℕ → Bytes → ℕ → Action Store (Bytes × ℕ)
  insert_leaf_into_tree tree_id commitment depth = do
    index ← gets (λ s. get_tree_next_index s tree_id)
    raise_if (leb (max_leaves depth) index) tree_full
    root ← update (append_leaf tree_id commitment depth index)
    pure (root, index)

  -- the choice of the tree in InsertNote: the active one, or a new one where that is full
  unfoldable pub choose_tree : ℕ → Action Store ℕ
  choose_tree depth = do
    tree_id ← gets get_active_tree_id
    next ← gets (λ s. get_tree_next_index s tree_id)
    if leb (max_leaves depth) next then create_tree else pure tree_id

  -- InsertNote: root, leaf index and tree id
  unfoldable pub insert_note : Bytes → Action Store (Bytes × ℕ × ℕ)
  insert_note commitment = do
    ensure_tree_exists
    used ← gets (λ s. has s (commitment_used_key ext commitment))
    raise_if used duplicate_commitment
    p ← reads (get_params ext)
    tree_id ← choose_tree (effective_depth p)
    leaf ← insert_leaf_into_tree tree_id commitment (effective_depth p)
    modify (set (commitment_used_key ext commitment) (1 ∷ []))
    pure (leaf.0, leaf.1, tree_id)
