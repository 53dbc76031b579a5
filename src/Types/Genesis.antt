-- ===== src/Types/Genesis.antt =====
-- types/genesis.go and the structs of types/genesis.pb.go: a genesis state, its default and its
-- stateless validation.
pub mod Valid
use cosmos_nixpool.Prelude.{
  ℕ, zero, suc, Bool, true, false, not, ◌&&◌, Option, some, none, List, [], ◌∷◌, Bytes, length,
  ◌==◌, is_empty,
}
use cosmos_nixpool.Types.Errors.{Result, ok, ◌>>◌, fail_if, invalid_genesis}
use cosmos_nixpool.Types.Params.{Params, default_params, validate}

-- An element of a `[][]byte` that may be nil, or a byte field that goes to `store.Set`.
abbrev pub Value : Type 0
Value = Option Bytes

-- `len(v)`, which is 0 for nil
abbrev pub value_length : Value → ℕ
value_length none = 0
value_length (some b) = length b

-- TreeState
pub record TreeState : Type 0 where
  pub tree_id : ℕ
  pub commitments : List Value
  pub frontier : List Value
  pub next_index : ℕ
  pub merkle_root : Bytes
  pub root_history : List Value

-- AuditorDataEntry
pub record AuditorDataEntry : Type 0 where
  pub tx_hash : Bytes
  pub payload : Value

-- VerificationKeyEntry
pub record VerificationKeyEntry : Type 0 where
  pub circuit_name : Bytes
  pub vk_data : Bytes

-- GenesisState; no tree and no entry is a nil pointer
pub record GenesisState : Type 0 where
  pub params : Option Params
  pub trees : List TreeState
  pub active_tree_id : ℕ
  pub tree_count : ℕ
  pub reg_commitments : List Value
  pub reg_frontier : List Value
  pub reg_next_index : ℕ
  pub reg_merkle_root : Bytes
  pub nullifiers : List Bytes
  pub auditor_data : List AuditorDataEntry
  pub commitments_used : List Bytes
  pub verification_keys : List VerificationKeyEntry

-- DefaultGenesisState
abbrev pub default_genesis_state : GenesisState
default_genesis_state = record {
  params = some default_params;
  trees = [];
  active_tree_id = 0;
  tree_count = 0;
  reg_commitments = [];
  reg_frontier = [];
  reg_next_index = 0;
  reg_merkle_root = [];
  nullifiers = [];
  auditor_data = [];
  commitments_used = [];
  verification_keys = [];
}

-- The loops of `Validate`: over byte strings of 32 bytes, over trees and over verification keys.
unfoldable pub check_values : List Value → Result (Unit {0})
check_values [] = ok tt
check_values (v ∷ vs) = fail_if (not (value_length v == 32)) invalid_genesis >> check_values vs

unfoldable pub check_bytes : List Bytes → Result (Unit {0})
check_bytes [] = ok tt
check_bytes (b ∷ bs) = fail_if (not (length b == 32)) invalid_genesis >> check_bytes bs

unfoldable pub check_trees : List TreeState → Result (Unit {0})
check_trees [] = ok tt
check_trees (tree ∷ trees) = do
  fail_if (not (length tree.commitments == tree.next_index)) invalid_genesis
  check_values tree.commitments
  check_trees trees

unfoldable pub check_keys : List VerificationKeyEntry → Result (Unit {0})
check_keys [] = ok tt
check_keys (entry ∷ entries) = do
  fail_if (is_empty entry.circuit_name) invalid_genesis
  fail_if (length entry.vk_data == 0) invalid_genesis
  check_keys entries

abbrev pub validate_given : Option Params → Result (Unit {0})
validate_given none = ok tt
validate_given (some p) = validate p

-- GenesisState.Validate
unfoldable pub validate_genesis : GenesisState → Result (Unit {0})
validate_genesis gs = do
  validate_given gs.params
  check_trees gs.trees
  fail_if (not (length gs.reg_commitments == gs.reg_next_index)) invalid_genesis
  check_values gs.reg_commitments
  check_bytes gs.nullifiers
  check_bytes gs.commitments_used
  check_keys gs.verification_keys
