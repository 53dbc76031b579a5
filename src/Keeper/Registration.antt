-- ===== src/Keeper/Registration.antt =====
-- keeper/merkle.go: the registration tree, a single tree.
pub mod Insert
pub mod Frame
pub mod Stored
use cosmos_nixpool.Prelude.{ℕ, ◌+◌, Option, some, none, Bool, [], ◌∷◌, Bytes, leb, bytes_equal}
use cosmos_nixpool.External.{External}
use cosmos_nixpool.Field.{put_uint64, set_bytes, to_bytes}
use cosmos_nixpool.Types.Errors.{tree_full, duplicate_commitment}
use cosmos_nixpool.Types.Params.{default_reg_tree_depth}
use cosmos_nixpool.Types.Keys.{Key, reg_commitment_used_key}
use cosmos_nixpool.Store.{Store, get, set, has}
use cosmos_nixpool.Keeper.Action.{Action, pure, gets, update, modify, raise_if, ◌>>=◌, ◌>>◌}
use cosmos_nixpool.Keeper.RootIndex.{uint64_or_zero, zero_root_bytes}
use cosmos_nixpool.Keeper.Frontier.{max_leaves, climb}

module _ (ext : External) where
  abbrev pub reg_root_or_zero : Option Bytes → Bytes
  reg_root_or_zero none = zero_root_bytes ext default_reg_tree_depth
  reg_root_or_zero (some b) = b

  -- GetRegMerkleRoot
  unfoldable pub get_reg_merkle_root : Store → Bytes
  unfolding zero_root_bytes
  get_reg_merkle_root s = reg_root_or_zero (get s Key.reg_root)

  -- IsValidRegRoot
  unfoldable pub is_valid_reg_root : Store → Bytes → Bool
  unfolding get_reg_merkle_root
  is_valid_reg_root s root = bytes_equal (get_reg_merkle_root s) root

  -- insertLeafSingleTree, past the test that the tree is not full; the key functions are arguments
  -- as in the source
  unfoldable pub append_leaf_single :
      Bytes → ℕ → (ℕ → Key) → (ℕ → Key) → Key → Key → ℕ → Store → Bytes × Store
  append_leaf_single commitment depth commitment_key frontier_key root_key next_index_key index s =
      let s1 = set (commitment_key index) commitment s in
      let walked = climb ext frontier_key depth 0 index (set_bytes ext commitment) s1 in
      let new_root = to_bytes walked.0 in
      let s2 = set root_key new_root walked.1 in
      (new_root, set next_index_key (put_uint64 (index + 1)) s2)

  -- insertLeafSingleTree
  unfoldable pub insert_leaf_single_tree :
      Bytes → ℕ → (ℕ → Key) → (ℕ → Key) → Key → Key → Action Store (Bytes × ℕ)
  insert_leaf_single_tree commitment depth commitment_key frontier_key root_key next_index_key = do
    index ← gets (λ s. uint64_or_zero (get s next_index_key))
    raise_if (leb (max_leaves depth) index) tree_full
    root ← update (
        append_leaf_single commitment depth commitment_key frontier_key root_key next_index_key
          index)
    pure (root, index)

  -- InsertRegCommitment
  unfoldable pub insert_reg_commitment : Bytes → Action Store (Bytes × ℕ)
  insert_reg_commitment commitment = do
    used ← gets (λ s. has s (reg_commitment_used_key ext commitment))
    raise_if used duplicate_commitment
    leaf ←
        insert_leaf_single_tree commitment default_reg_tree_depth (λ i. Key.reg_commitment i)
          (λ l. Key.reg_frontier l) Key.reg_root Key.reg_next_index
    modify (set (reg_commitment_used_key ext commitment) (1 ∷ []))
    pure leaf
