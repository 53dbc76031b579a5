-- ===== src/Examples/Registering.antt =====
-- One registration, the first of the module.
use cosmos_nixpool.Prelude.{◌≡◌, refl, [], ◌∷◌, ◌++◌, codes}
use cosmos_nixpool.Field.{to_bytes, set_bytes, canonical_field_bytes}
use cosmos_nixpool.Types.Errors.{ok}
use cosmos_nixpool.Types.Keys.{reg_commitment_used_key}
use cosmos_nixpool.Types.Keys.Equality.{key_equal}
use cosmos_nixpool.Types.Msgs.{MsgRegister}
use cosmos_nixpool.Store.{get, set}
use cosmos_nixpool.Keeper.Action.{◌>>=◌}
use cosmos_nixpool.Keeper.Params.{get_params, get_verification_key_from_state}
use cosmos_nixpool.Keeper.Frontier.{max_leaves, climb}
use cosmos_nixpool.Keeper.Registration.{
  insert_reg_commitment, insert_leaf_single_tree, append_leaf_single,
}
use cosmos_nixpool.Keeper.Verify.{parse_chunks, parse_public_inputs, verify_register_public_inputs}
use cosmos_nixpool.Keeper.Verify.Binding.{
  BindsRegister, verify_register_public_inputs-BindsRegister,
}
use cosmos_nixpool.Server.State.{
  State, on_store, emit, consume_gas, enforce_auditor, get_verification_key, verify_proof,
  keep_auditor_data,
}
use cosmos_nixpool.Server.Handlers.{LeafResponse, register}
use cosmos_nixpool.Server.Registers.{Registered, register-Registered}
use cosmos_nixpool.Examples.Codec.{marshal, unmarshal}
use cosmos_nixpool.Examples.Toy.{toy, toy_hash2, toy_zero_hash, non_empty}
use cosmos_nixpool.Examples.Spending.{sample_params, sample_state}

abbrev identity : MsgRegister
identity = record {
  sender = codes "alice";
  identity_commitment = to_bytes 5;
  proof = 1 ∷ [];
  public_inputs =
      to_bytes 5
      ++ to_bytes 9
      ++ to_bytes 0
      ++ to_bytes 0
      ++ to_bytes 0
      ++ to_bytes 0
      ++ to_bytes 0
      ++ to_bytes 0
      ++ to_bytes 0;
  auditor_encrypted_data = [];
}

abbrev answer : LeafResponse
answer = record { leaf_index = 0; merkle_root = to_bytes 86 }

abbrev registered_state : State
registered_state = (register toy identity sample_state).1

identity_run : register toy identity sample_state ≡ (ok answer, registered_state)
unfolding register ◌>>=◌ enforce_auditor get_params get key_equal marshal unmarshal
    parse_public_inputs to_bytes parse_chunks set_bytes verify_register_public_inputs verify_proof
    get_verification_key get_verification_key_from_state consume_gas on_store insert_reg_commitment
    insert_leaf_single_tree append_leaf_single max_leaves climb toy_hash2 toy_zero_hash
    reg_commitment_used_key canonical_field_bytes set keep_auditor_data emit non_empty
identity_run = refl

register-Registered_example : Registered toy identity sample_state registered_state answer
register-Registered_example =
    register-Registered toy identity sample_state registered_state answer identity_run

verify_register_public_inputs-BindsRegister_example :
    BindsRegister toy (5 ∷ 9 ∷ 0 ∷ 0 ∷ 0 ∷ 0 ∷ 0 ∷ 0 ∷ 0 ∷ []) (to_bytes 5) sample_params
unfolding verify_register_public_inputs to_bytes set_bytes
verify_register_public_inputs-BindsRegister_example =
    verify_register_public_inputs-BindsRegister toy (5 ∷ 9 ∷ 0 ∷ 0 ∷ 0 ∷ 0 ∷ 0 ∷ 0 ∷ 0 ∷ [])
      (to_bytes 5) sample_params refl
