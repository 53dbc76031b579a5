-- ===== src/Server/Queries.antt =====
-- keeper/query_server.go: the gRPC queries, which read the store.
pub mod Current
use cosmos_nixpool.Prelude.{ℕ, Bool, List, Bytes}
use cosmos_nixpool.External.{External}
use cosmos_nixpool.Types.Errors.{Result, ok, ◌>>=◌}
use cosmos_nixpool.Types.Params.{Params, default_tree_depth}
use cosmos_nixpool.Store.{Store}
use cosmos_nixpool.Keeper.Params.{get_params}
use cosmos_nixpool.Keeper.Forest.{
  get_active_tree_id, get_tree_count, get_next_index, get_merkle_root,
}
use cosmos_nixpool.Keeper.Registration.{get_reg_merkle_root}
use cosmos_nixpool.Keeper.Nullifiers.{is_nullifier_spent}

-- QueryTreeInfoResponse
pub record TreeInfoResponse : Type 0 where
  pub root : Bytes
  pub next_index : ℕ
  pub depth : ℕ
  pub active_tree_id : ℕ
  pub tree_count : ℕ

module _ (ext : External) where
  -- Root
  unfoldable pub query_root : Store → Bytes
  query_root s = get_merkle_root ext s

  -- NullifierStatus
  unfoldable pub query_nullifier_status : Bytes → Store → Bool
  query_nullifier_status nullifier s = is_nullifier_spent ext s nullifier

  -- TreeInfo
  unfoldable pub query_tree_info : Store → TreeInfoResponse
  query_tree_info s = record {
    root = get_merkle_root ext s;
    next_index = get_next_index s;
    depth = default_tree_depth;
    active_tree_id = get_active_tree_id s;
    tree_count = get_tree_count s;
  }

  -- Params
  unfoldable pub query_params : Store → Result Params
  query_params s = get_params ext s

  -- RegistrationRoot
  unfoldable pub query_registration_root : Store → Bytes
  query_registration_root s = get_reg_merkle_root ext s

  -- AuditorKey
  unfoldable pub query_auditor_key : Store → Result Bytes
  query_auditor_key s = do p ← get_params ext s; ok p.auditor_pub_key

  -- SupportedDenoms
  unfoldable pub query_supported_denoms : Store → Result (List Bytes)
  query_supported_denoms s = do p ← get_params ext s; ok p.supported_denoms
