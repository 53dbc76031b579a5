-- ===== src/Keeper/Export.antt =====
-- keeper/genesis.go: ExportGenesis and iteratePrefix. An iteration gives its entries in the order of
-- the model's store, not in the order of the keys' bytes.
pub mod Marks
pub mod RoundTrip
pub mod Missing
use cosmos_nixpool.Prelude.{
  ℕ, zero, suc, Option, some, none, List, [], ◌∷◌, Bytes, ◌==◌, if◌then◌else◌,
}
use cosmos_nixpool.External.{External}
use cosmos_nixpool.Types.Errors.{Result, ok, ◌>>=◌}
use cosmos_nixpool.Types.Params.{Params, default_reg_tree_depth}
use cosmos_nixpool.Types.Keys.{Key, key_suffix, max_root_history}
use cosmos_nixpool.Types.Keys.Equality.{family}
use cosmos_nixpool.Types.Genesis.{
  Value, TreeState, AuditorDataEntry, VerificationKeyEntry, GenesisState,
}
use cosmos_nixpool.Store.{Store, get}
use cosmos_nixpool.Keeper.Params.{get_params, effective_depth}
use cosmos_nixpool.Keeper.RootIndex.{uint64_or_zero}
use cosmos_nixpool.Keeper.Forest.{
  get_active_tree_id, get_tree_count, get_tree_next_index, get_tree_root,
}
use cosmos_nixpool.Keeper.Registration.{get_reg_merkle_root}

-- iteratePrefix: the pairs under the prefix of a family of keys
unfoldable pub iterate_prefix : ℕ → Store → List (Key × Bytes)
iterate_prefix f [] = []
iterate_prefix f ((k, v) ∷ s) =
    let rest = iterate_prefix f s in if family k == f then (k, v) ∷ rest else rest

-- the values at `n` keys from the index `i` on, nil where there is none
unfoldable pub values_at : (ℕ → Key) → Store → ℕ → ℕ → List Value
values_at key s i zero = []
values_at key s i (suc n) = get s (key i) ∷ values_at key s (suc i) n

abbrev present : Value → List Value → List Value
present none rest = rest
present (some v) rest = some v ∷ rest

-- the root history: the slots that are there
unfoldable pub export_root_history : ℕ → Store → ℕ → ℕ → List Value
export_root_history tree_id s i zero = []
export_root_history tree_id s i (suc n) =
    present (get s (Key.root_history tree_id i)) (export_root_history tree_id s (suc i) n)

-- `kv.key[prefixLen:]` of each pair
unfoldable pub suffixes : List (Key × Bytes) → List Bytes
suffixes [] = []
suffixes ((k, v) ∷ pairs) = key_suffix k ∷ suffixes pairs

unfoldable pub auditor_entries : List (Key × Bytes) → List AuditorDataEntry
auditor_entries [] = []
auditor_entries ((k, v) ∷ pairs) =
    record { tx_hash = key_suffix k; payload = some v } ∷ auditor_entries pairs

unfoldable pub key_entries : List (Key × Bytes) → List VerificationKeyEntry
key_entries [] = []
key_entries ((k, v) ∷ pairs) =
    record { circuit_name = key_suffix k; vk_data = v } ∷ key_entries pairs

module _ (ext : External) where
  -- the body of the loop on the trees
  unfoldable pub export_tree : ℕ → Store → ℕ → TreeState
  export_tree depth s tree_id = record {
    tree_id = tree_id;
    next_index = get_tree_next_index s tree_id;
    commitments = values_at (λ i. Key.commitment tree_id i) s 0 (get_tree_next_index s tree_id);
    frontier = values_at (λ level. Key.frontier tree_id level) s 0 depth;
    merkle_root = get_tree_root ext s tree_id;
    root_history = export_root_history tree_id s 0 max_root_history;
  }

  unfoldable pub export_trees : ℕ → Store → ℕ → ℕ → List TreeState
  export_trees depth s tree_id zero = []
  export_trees depth s tree_id (suc n) =
      export_tree depth s tree_id ∷ export_trees depth s (suc tree_id) n

  -- the genesis state that ExportGenesis fills in, given the parameters
  unfoldable pub export_state : Store → Params → GenesisState
  export_state s p = record {
    params = some p;
    tree_count = get_tree_count s;
    active_tree_id = get_active_tree_id s;
    trees = export_trees (effective_depth p) s 0 (get_tree_count s);
    reg_next_index = uint64_or_zero (get s Key.reg_next_index);
    reg_commitments =
        values_at (λ i. Key.reg_commitment i) s 0 (uint64_or_zero (get s Key.reg_next_index));
    reg_frontier = values_at (λ level. Key.reg_frontier level) s 0 default_reg_tree_depth;
    reg_merkle_root = get_reg_merkle_root ext s;
    nullifiers = suffixes (iterate_prefix (family (Key.nullifier [])) s);
    commitments_used = suffixes (iterate_prefix (family (Key.commitment_used [])) s);
    auditor_data = auditor_entries (iterate_prefix (family (Key.auditor_data [])) s);
    verification_keys = key_entries (iterate_prefix (family (Key.vk [])) s);
  }

  -- ExportGenesis
  unfoldable pub export_genesis : Store → Result GenesisState
  export_genesis s = do p ← get_params ext s; ok (export_state s p)
