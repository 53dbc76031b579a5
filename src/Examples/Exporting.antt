-- ===== src/Examples/Exporting.antt =====
-- Genesis states written out and exported, and their imports.
use cosmos_nixpool.Prelude.{
  ℕ, ◌+◌, ◌≡◌, ◌≢◌, ◌↔◌, refl, some, none, List, [], ◌∷◌, Bytes, arith, replicate, All, zero, suc,
}
use cosmos_nixpool.Field.{to_bytes, uint64_of, set_bytes, canonical_field_bytes}
use cosmos_nixpool.Types.Errors.{ok}
use cosmos_nixpool.Types.Params.{default_params, validate}
use cosmos_nixpool.Types.Keys.{Key, key_suffix, commitment_used_key}
use cosmos_nixpool.Types.Keys.Equality.{key_equal}
use cosmos_nixpool.Types.Genesis.{
  Value, TreeState, GenesisState, default_genesis_state, check_values, check_bytes, check_trees,
  check_keys, validate_genesis,
}
use cosmos_nixpool.Types.Genesis.Valid.{IsValidGenesis, validate_genesis_iff}
use cosmos_nixpool.Store.{Store, get, has}
use cosmos_nixpool.Keeper.Params.{get_params}
use cosmos_nixpool.Keeper.RootIndex.Invariant.{IsIndexed}
use cosmos_nixpool.Keeper.Forest.{get_tree_count}
use cosmos_nixpool.Keeper.Nullifiers.{is_nullifier_spent}
use cosmos_nixpool.Keeper.Verify.{normalize_vk_data}
use cosmos_nixpool.Keeper.Genesis.{init_genesis}
use cosmos_nixpool.Keeper.Genesis.Succeeds.{IsComplete, IsPresent}
use cosmos_nixpool.Keeper.Genesis.Restores.{listed}
use cosmos_nixpool.Keeper.Genesis.Import.{imported, init_genesis-IsIndexed, init_genesis-Marks}
use cosmos_nixpool.Keeper.Export.{
  iterate_prefix, values_at, suffixes, auditor_entries, key_entries, export_trees, export_state,
  export_genesis,
}
use cosmos_nixpool.Keeper.Export.Marks.{IsMarkedCanonically}
use cosmos_nixpool.Keeper.Export.RoundTrip.{init_genesis-export_genesis}
use cosmos_nixpool.Keeper.Export.Missing.{init_genesis-missing_frontier}
use cosmos_nixpool.Examples.Codec.{marshal, unmarshal}
use cosmos_nixpool.Examples.Toy.{toy, toy-IsLawful, non_empty}
use cosmos_nixpool.Examples.Spending.{sample_params}

abbrev sample_tree : TreeState
sample_tree = record {
  tree_id = 0;
  commitments = some (to_bytes 5) ∷ some (to_bytes 6) ∷ [];
  frontier = some (to_bytes 5) ∷ some (to_bytes 46) ∷ [];
  next_index = 2;
  merkle_root = to_bytes 46;
  root_history = some (to_bytes 16) ∷ some (to_bytes 46) ∷ [];
}

abbrev sample_genesis : GenesisState
sample_genesis = record {
  params = none;
  trees = sample_tree ∷ [];
  active_tree_id = 0;
  tree_count = 1;
  reg_commitments = [];
  reg_frontier = [];
  reg_next_index = 0;
  reg_merkle_root = [];
  nullifiers = to_bytes 70 ∷ to_bytes 71 ∷ [];
  auditor_data = record { tx_hash = 1 ∷ []; payload = some (2 ∷ []) } ∷ [];
  commitments_used = to_bytes 5 ∷ to_bytes 6 ∷ [];
  verification_keys = record { circuit_name = 9 ∷ []; vk_data = 1 ∷ 2 ∷ [] } ∷ [];
}

sample_genesis-IsComplete : IsComplete toy sample_genesis
unfolding normalize_vk_data non_empty
sample_genesis-IsComplete = record {
  trees = (((refl, (refl, tt)), (refl, (refl, tt)), (refl, (refl, tt))), tt);
  reg_commitments = tt;
  reg_frontier = tt;
  auditor_data = (refl, tt);
  verification_keys = ((1 ∷ 2 ∷ [], refl), tt);
}

validate_genesis_iff_example :
    (validate_genesis sample_genesis ≡ ok tt) ↔ IsValidGenesis sample_genesis
validate_genesis_iff_example = validate_genesis_iff sample_genesis

sample_genesis_valid : validate_genesis sample_genesis ≡ ok tt
unfolding validate_genesis check_trees check_values check_bytes check_keys to_bytes
sample_genesis_valid = refl

default_genesis_valid : validate_genesis default_genesis_state ≡ ok tt
unfolding validate_genesis check_trees check_values check_bytes check_keys validate
default_genesis_valid = refl

init_genesis-IsIndexed_example :
    ((init_genesis toy sample_genesis []).0 ≡ ok tt)
    × (get_tree_count (imported toy sample_genesis sample_genesis-IsComplete) ≡ 1)
    × IsIndexed toy 1 (imported toy sample_genesis sample_genesis-IsComplete)
init_genesis-IsIndexed_example =
    init_genesis-IsIndexed toy sample_genesis sample_genesis-IsComplete (omega arith)
      ((omega arith, omega arith), tt)

init_genesis-Marks_example :
    ((init_genesis toy sample_genesis []).0 ≡ ok tt)
    × ((b : Bytes)
        → is_nullifier_spent toy (imported toy sample_genesis sample_genesis-IsComplete) b
          ≡ listed toy (to_bytes 70 ∷ to_bytes 71 ∷ []) b)
    × ((b : Bytes)
        → has (imported toy sample_genesis sample_genesis-IsComplete) (commitment_used_key toy b)
          ≡ listed toy (to_bytes 5 ∷ to_bytes 6 ∷ []) b)
    × (get_params toy (imported toy sample_genesis sample_genesis-IsComplete) ≡ ok default_params)
init_genesis-Marks_example =
    init_genesis-Marks toy sample_genesis sample_genesis-IsComplete toy-IsLawful

-- A store without a registration, and one with all the levels of the frontier.
abbrev fresh_store : Store
fresh_store = (Key.params, marshal sample_params) ∷ (Key.nullifier (to_bytes 70), 1 ∷ []) ∷ []

abbrev levels : ℕ → List Value → Store
levels i [] = fresh_store
levels i (some b ∷ bs) = (Key.reg_frontier i, b) ∷ levels (i + 1) bs
levels i (none ∷ bs) = levels (i + 1) bs

abbrev registered_store : Store
registered_store = levels 0 (replicate 20 (some (4 ∷ [])))

abbrev exported : Store → GenesisState
exported s = export_state toy s sample_params

fresh_export : export_genesis toy fresh_store ≡ ok (exported fresh_store)
unfolding export_genesis export_state get_params get key_equal unmarshal marshal
fresh_export = refl

registered_export : export_genesis toy registered_store ≡ ok (exported registered_store)
unfolding export_genesis export_state get_params get key_equal unmarshal marshal
registered_export = refl

replicate-IsPresent : (n : ℕ) (b : Bytes) → All IsPresent (replicate n (some b))
replicate-IsPresent zero b = tt
replicate-IsPresent (suc n) b = (refl, replicate-IsPresent n b)

registered-IsComplete : IsComplete toy (exported registered_store)
unfolding export_state get_tree_count export_trees values_at iterate_prefix suffixes auditor_entries
    key_entries get key_equal uint64_of
registered-IsComplete = record {
  trees = tt;
  reg_commitments = tt;
  reg_frontier = replicate-IsPresent 20 (4 ∷ []);
  auditor_data = tt;
  verification_keys = tt;
}

levels-IsMarkedCanonically : (i : ℕ) (bs : List Value) → IsMarkedCanonically toy (levels i bs)
unfolding canonical_field_bytes key_suffix to_bytes set_bytes
levels-IsMarkedCanonically i [] = (λ h. cc, (λ h. refl, tt))
levels-IsMarkedCanonically i (some b ∷ bs) = (λ h. cc, levels-IsMarkedCanonically (i + 1) bs)
levels-IsMarkedCanonically i (none ∷ bs) = levels-IsMarkedCanonically (i + 1) bs

init_genesis-export_genesis_example :
    ((init_genesis toy (exported registered_store) []).0 ≡ ok tt)
    × ((b : Bytes)
        → is_nullifier_spent toy (imported toy (exported registered_store) registered-IsComplete) b
          ≡ is_nullifier_spent toy registered_store b)
    × ((b : Bytes)
        → has
            (imported toy (exported registered_store) registered-IsComplete)
            (commitment_used_key toy b)
          ≡ has registered_store (commitment_used_key toy b))
    × (get_params toy (imported toy (exported registered_store) registered-IsComplete)
        ≡ get_params toy registered_store)
init_genesis-export_genesis_example =
    init_genesis-export_genesis toy registered_store toy-IsLawful
      (levels-IsMarkedCanonically 0 (replicate 20 (some (4 ∷ [])))) (exported registered_store)
      registered_export registered-IsComplete

fresh_missing : get fresh_store (Key.reg_frontier 3) ≡ none
unfolding get key_equal
fresh_missing = refl

init_genesis-missing_frontier_example : (init_genesis toy (exported fresh_store) []).0 ≢ ok tt
init_genesis-missing_frontier_example =
    init_genesis-missing_frontier toy fresh_store [] (exported fresh_store) 3 (omega arith)
      fresh_missing fresh_export
