-- ===== src/Keeper/Genesis.antt =====
-- keeper/genesis.go: InitGenesis, which restores a state from a genesis export.
pub mod Frame
pub mod Index
pub mod Succeeds
pub mod Restores
pub mod Import
use cosmos_nixpool.Prelude.{
  ℕ, zero, suc, ◌%◌, ◌^◌, Option, some, none, List, [], ◌∷◌, Bytes, ltb, not, is_empty, length,
  if◌then◌else◌, true,
}
use cosmos_nixpool.External.{External}
use cosmos_nixpool.Field.{put_uint64}
use cosmos_nixpool.Types.Errors.{nil_value}
use cosmos_nixpool.Types.Params.{Params, default_params}
use cosmos_nixpool.Types.Keys.{Key, commitment_used_key, reg_commitment_used_key, nullifier_key}
use cosmos_nixpool.Types.Genesis.{
  Value, TreeState, AuditorDataEntry, VerificationKeyEntry, GenesisState,
}
use cosmos_nixpool.Store.{Store, get, set}
use cosmos_nixpool.Keeper.Action.{Action, pure, lift, gets, modify, raise_if, ◌>>=◌, ◌>>◌}
use cosmos_nixpool.Keeper.Params.{set_params}
use cosmos_nixpool.Keeper.RootIndex.{slice_of, set_tree_root_indexed, set_root_history_indexed}
use cosmos_nixpool.Keeper.Forest.{set_active_tree_id, set_tree_count}
use cosmos_nixpool.Keeper.Verify.{normalize_vk_data}

-- `store.Set(key, value)` with a value that may be nil: the store panics on nil
unfoldable pub set_value : Key → Value → Action Store (Unit {0})
set_value key none = raise_if true nil_value
set_value key (some v) = modify (set key v)

-- `for i, v := range values { store.Set(key(i), v) }`, from the index `i`
unfoldable pub set_each : (ℕ → Key) → ℕ → List Value → Action Store (Unit {0})
set_each key i [] = pure tt
set_each key i (v ∷ vs) = do set_value (key i) v; set_each key (suc i) vs

-- `if n > 0 { store.Set(key, n) }`
unfoldable pub set_positive : Key → ℕ → Action Store (Unit {0})
set_positive key n = if ltb 0 n then modify (set key (put_uint64 n)) else pure tt

module _ (ext : External) where
  -- setRootHistoryIndexed on a value that may be nil: nil is equal to an empty slot, and no value
  -- to write into any other
  unfoldable pub import_slot : ℕ → ℕ → Value → Action Store (Unit {0})
  import_slot tree_id slot none = do
    old ← gets (λ s. slice_of (get s (Key.root_history tree_id slot)))
    raise_if (not (is_empty old)) nil_value
  import_slot tree_id slot (some root) = modify (set_root_history_indexed ext tree_id slot root)

  unfoldable pub import_root_history : ℕ → ℕ → List Value → Action Store (Unit {0})
  import_root_history tree_id slot [] = pure tt
  import_root_history tree_id slot (r ∷ rs) = do
    import_slot tree_id slot r
    import_root_history tree_id (suc slot) rs

  unfoldable pub import_tree_root : ℕ → Bytes → Action Store (Unit {0})
  import_tree_root tree_id root =
      if ltb 0 (length root) then modify (set_tree_root_indexed ext tree_id root) else pure tt

  -- the body of the loop on the trees
  unfoldable pub import_tree : TreeState → Action Store (Unit {0})
  import_tree tree = do
    set_each (λ i. Key.commitment tree.tree_id i) 0 tree.commitments
    set_each (λ i. Key.frontier tree.tree_id (i % 2 ^ 32)) 0 tree.frontier
    set_positive (Key.tree_next_index tree.tree_id) tree.next_index
    import_tree_root tree.tree_id tree.merkle_root
    import_root_history tree.tree_id 0 tree.root_history

  unfoldable pub import_trees : List TreeState → Action Store (Unit {0})
  import_trees [] = pure tt
  import_trees (tree ∷ trees) = do import_tree tree; import_trees trees

  -- the registration tree: the used markers are derived from the commitments
  unfoldable pub import_reg_commitments : ℕ → List Value → Action Store (Unit {0})
  import_reg_commitments i [] = pure tt
  import_reg_commitments i (c ∷ cs) = do
    set_value (Key.reg_commitment i) c
    modify (set (reg_commitment_used_key ext (slice_of c)) (1 ∷ []))
    import_reg_commitments (suc i) cs

  unfoldable pub import_reg_root : Bytes → Action Store (Unit {0})
  import_reg_root root = if ltb 0 (length root) then modify (set Key.reg_root root) else pure tt

  -- `for _, b := range list { store.Set(key(b), []byte{1}) }`
  unfoldable pub mark_each : (Bytes → Key) → List Bytes → Action Store (Unit {0})
  mark_each key [] = pure tt
  mark_each key (b ∷ bs) = do modify (set (key b) (1 ∷ [])); mark_each key bs

  unfoldable pub import_auditor_data : List AuditorDataEntry → Action Store (Unit {0})
  import_auditor_data [] = pure tt
  import_auditor_data (entry ∷ entries) = do
    set_value (Key.auditor_data entry.tx_hash) entry.payload
    import_auditor_data entries

  unfoldable pub import_verification_keys : List VerificationKeyEntry → Action Store (Unit {0})
  import_verification_keys [] = pure tt
  import_verification_keys (entry ∷ entries) = do
    canonical ← lift (normalize_vk_data ext entry.vk_data)
    modify (set (Key.vk entry.circuit_name) canonical)
    import_verification_keys entries

  abbrev pub params_or_default : Option Params → Params
  params_or_default none = default_params
  params_or_default (some p) = p

  -- the parts of InitGenesis, in their order
  unfoldable pub import_forest : GenesisState → Action Store (Unit {0})
  import_forest gs = do
    modify (set_params ext (params_or_default gs.params))
    import_trees gs.trees
    modify (set_active_tree_id gs.active_tree_id)
    modify (set_tree_count gs.tree_count)

  unfoldable pub import_registration : GenesisState → Action Store (Unit {0})
  import_registration gs = do
    import_reg_commitments 0 gs.reg_commitments
    set_each (λ i. Key.reg_frontier (i % 2 ^ 32)) 0 gs.reg_frontier
    set_positive Key.reg_next_index gs.reg_next_index
    import_reg_root gs.reg_merkle_root

  unfoldable pub import_marks : GenesisState → Action Store (Unit {0})
  import_marks gs = do
    mark_each (nullifier_key ext) gs.nullifiers
    mark_each (commitment_used_key ext) gs.commitments_used

  unfoldable pub import_entries : GenesisState → Action Store (Unit {0})
  import_entries gs = do
    import_auditor_data gs.auditor_data
    import_verification_keys gs.verification_keys

  -- InitGenesis
  unfoldable pub init_genesis : GenesisState → Action Store (Unit {0})
  init_genesis gs = do import_forest gs; import_registration gs; import_marks gs; import_entries gs
