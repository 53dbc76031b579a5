-- ===== src/Examples/Depositing.antt =====
-- One deposit, into a module without trees.
use cosmos_nixpool.Prelude.{◌≡◌, refl, [], ◌∷◌, ◌++◌, codes}
use cosmos_nixpool.Field.{
  to_bytes, set_bytes, set_big_int, canonical_field_bytes, put_uint64, uint64_of,
}
use cosmos_nixpool.Types.Errors.{ok}
use cosmos_nixpool.Types.Keys.{commitment_used_key, root_index_key}
use cosmos_nixpool.Types.Keys.Equality.{key_equal}
use cosmos_nixpool.Types.Msgs.{MsgDeposit}
use cosmos_nixpool.Store.{get, set, delete}
use cosmos_nixpool.Keeper.Action.{◌>>=◌}
use cosmos_nixpool.Keeper.Params.{get_params, get_verification_key_from_state, effective_depth}
use cosmos_nixpool.Keeper.RootIndex.{
  zero_root_bytes, root_ref_count, root_index_incr, root_index_decr, write_slot_indexed,
  set_tree_root_indexed, set_root_history_indexed,
}
use cosmos_nixpool.Keeper.Frontier.{max_leaves, climb}
use cosmos_nixpool.Keeper.Forest.{
  get_active_tree_id, set_active_tree_id, get_tree_count, set_tree_count, get_tree_next_index,
  init_frontier, create_tree_at, create_tree, ensure_tree_exists, append_leaf,
  insert_leaf_into_tree, choose_tree, insert_note,
}
use cosmos_nixpool.Keeper.Verify.{
  parse_chunks, parse_public_inputs, string_to_field_element, denom_to_field_element,
  verify_deposit_public_inputs,
}
use cosmos_nixpool.Prelude.{pos}
use cosmos_nixpool.Keeper.Verify.Binding.{BindsDeposit, verify_deposit_public_inputs-BindsDeposit}
use cosmos_nixpool.Server.State.{
  State, on_store, emit, consume_gas, is_listed, bank_send, new_coin, enforce_auditor, check_denom,
  get_verification_key, verify_proof, keep_auditor_data,
}
use cosmos_nixpool.Server.Handlers.{LeafResponse, deposit}
use cosmos_nixpool.Server.Deposits.{Deposited, deposit-Deposited}
use cosmos_nixpool.Examples.Codec.{marshal, unmarshal}
use cosmos_nixpool.Examples.Toy.{toy, toy_hash, toy_hash2, toy_zero_hash, non_empty}
use cosmos_nixpool.Examples.Spending.{sample_state, sample_params}

abbrev seven : MsgDeposit
seven = record {
  sender = codes "alice";
  denom = codes "anix";
  amount = 7 ∷ [];
  note_commitment = to_bytes 5;
  proof = 1 ∷ [];
  public_inputs =
      to_bytes 5
      ++ to_bytes 7
      ++ to_bytes (denom_to_field_element toy (codes "anix"))
      ++ to_bytes 0
      ++ to_bytes 0
      ++ to_bytes 0
      ++ to_bytes 0
      ++ to_bytes 0;
  auditor_encrypted_data = [];
}

abbrev answer : LeafResponse
answer = record { leaf_index = 0; merkle_root = to_bytes 54 }

abbrev deposited_state : State
deposited_state = (deposit toy seven sample_state).1

seven_run : deposit toy seven sample_state ≡ (ok answer, deposited_state)
unfolding deposit ◌>>=◌ enforce_auditor get_params get key_equal marshal unmarshal
    parse_public_inputs to_bytes parse_chunks string_to_field_element denom_to_field_element
    toy_hash toy_hash2 set_bytes verify_deposit_public_inputs set_big_int verify_proof
    get_verification_key get_verification_key_from_state consume_gas check_denom is_listed non_empty
    new_coin bank_send on_store insert_note ensure_tree_exists get_tree_count create_tree
    create_tree_at effective_depth init_frontier toy_zero_hash set_tree_root_indexed
    write_slot_indexed root_index_incr root_index_decr root_ref_count root_index_key
    canonical_field_bytes zero_root_bytes set_tree_count set_active_tree_id set delete
    commitment_used_key choose_tree get_active_tree_id get_tree_next_index max_leaves
    insert_leaf_into_tree append_leaf climb set_root_history_indexed keep_auditor_data emit
    put_uint64 uint64_of
seven_run = refl

deposit-Deposited_example : Deposited toy seven sample_state deposited_state answer
deposit-Deposited_example =
    deposit-Deposited toy seven sample_state deposited_state answer seven_run

verify_deposit_public_inputs-BindsDeposit_example :
    BindsDeposit toy
      (5 ∷ 7 ∷ denom_to_field_element toy (codes "anix") ∷ 0 ∷ 0 ∷ 0 ∷ 0 ∷ 0 ∷ [])
      (to_bytes 5)
      (pos 7)
      (codes "anix")
      sample_params
unfolding verify_deposit_public_inputs to_bytes set_big_int denom_to_field_element
    string_to_field_element toy_hash toy_hash2 set_bytes
verify_deposit_public_inputs-BindsDeposit_example =
    verify_deposit_public_inputs-BindsDeposit toy
      (5 ∷ 7 ∷ denom_to_field_element toy (codes "anix") ∷ 0 ∷ 0 ∷ 0 ∷ 0 ∷ 0 ∷ []) (to_bytes 5)
      (pos 7) (codes "anix") sample_params refl
