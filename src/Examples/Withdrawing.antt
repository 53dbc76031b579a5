-- ===== src/Examples/Withdrawing.antt =====
-- One withdrawal through a relayer.
use cosmos_nixpool.Prelude.{◌≡◌, refl, [], ◌∷◌, codes}
use cosmos_nixpool.Field.{to_bytes, set_bytes, canonical_field_bytes}
use cosmos_nixpool.Types.Errors.{ok}
use cosmos_nixpool.Types.Keys.{nullifier_key}
use cosmos_nixpool.Types.Keys.Equality.{key_equal}
use cosmos_nixpool.Types.Msgs.{MsgTransact}
use cosmos_nixpool.Store.{get, set}
use cosmos_nixpool.Keeper.Action.{◌>>=◌}
use cosmos_nixpool.Keeper.Params.{get_params, get_verification_key_from_state}
use cosmos_nixpool.Keeper.RootIndex.{is_valid_root_any_tree}
use cosmos_nixpool.Keeper.Registration.{is_valid_reg_root}
use cosmos_nixpool.Keeper.Nullifiers.{is_nullifier_spent, mark_nullifier_spent}
use cosmos_nixpool.Keeper.Verify.{
  assemble_transact_public_inputs, string_element, auditor_element, amount_element,
}
use cosmos_nixpool.Server.State.{
  State, on_store, emit, is_zero_bytes, consume_gas, get_verification_key, verify_proof,
}
use cosmos_nixpool.Server.Handlers.{
  spend_nullifier, spend_input, check_transact_proof, insert_output, pay_withdrawal, pay_relayer,
  transact,
}
use cosmos_nixpool.Examples.Codec.{marshal, unmarshal}
use cosmos_nixpool.Examples.Toy.{toy, toy_zero_hash, non_empty}
use cosmos_nixpool.Prelude.{List}
use cosmos_nixpool.External.{Transfer}
use cosmos_nixpool.Keeper.Verify.{string_to_field_element}
use cosmos_nixpool.Server.State.{is_listed, check_denom, new_coin, bank_send}
use cosmos_nixpool.Server.Payments.{Payout, transact-Payouts}
use cosmos_nixpool.Server.Proved.{Proven, transact-Proven}
use cosmos_nixpool.Examples.Toy.{toy_hash, toy_hash2}
use cosmos_nixpool.Examples.Spending.{sample_state, spending, nothing_inserted}

abbrev withdrawal : MsgTransact
withdrawal = record (spending (5 ∷ [])) {
  withdraw_amount = 7 ∷ [];
  withdraw_address = codes "bob";
  denom = codes "anix";
  relayer_fee = 2 ∷ [];
}

abbrev withdrawn_state : State
withdrawn_state = (transact toy withdrawal sample_state).1

withdrawal_run : transact toy withdrawal sample_state ≡ (ok nothing_inserted, withdrawn_state)
unfolding transact ◌>>=◌ is_valid_reg_root get key_equal to_bytes toy_zero_hash spend_input
    is_zero_bytes spend_nullifier is_nullifier_spent nullifier_key is_valid_root_any_tree on_store
    emit check_transact_proof get_params mark_nullifier_spent canonical_field_bytes set_bytes
    get_verification_key_from_state get_verification_key consume_gas verify_proof
    assemble_transact_public_inputs string_element auditor_element amount_element insert_output
    pay_withdrawal pay_relayer marshal unmarshal set non_empty string_to_field_element toy_hash
    toy_hash2 check_denom is_listed new_coin bank_send
withdrawal_run = refl

transact-Payouts_example :
    (between : List Transfer) × Payout toy (7 ∷ []) (codes "bob") (codes "anix") [] between
    × Payout toy (2 ∷ []) (codes "alice") (codes "anix") between withdrawn_state.transfers
transact-Payouts_example =
    transact-Payouts toy withdrawal sample_state withdrawn_state nothing_inserted withdrawal_run

transact-Proven_example : Proven toy withdrawal sample_state
transact-Proven_example =
    transact-Proven toy withdrawal sample_state withdrawn_state nothing_inserted withdrawal_run
