-- ===== src/Examples/Spending.antt =====
-- One spending and a second try at it.
use cosmos_nixpool.Prelude.{◌≡◌, refl, true, false, [], ◌∷◌, Bytes, codes, replicate}
use cosmos_nixpool.Field.{to_bytes, set_bytes, canonical_field_bytes}
use cosmos_nixpool.Types.Errors.{ok}
use cosmos_nixpool.Types.Params.{Params}
use cosmos_nixpool.Types.Keys.{Key, nullifier_key}
use cosmos_nixpool.Types.Keys.Equality.{key_equal}
use cosmos_nixpool.Types.Msgs.{MsgTransact, OutputNote}
use cosmos_nixpool.Store.{Store, get, set}
use cosmos_nixpool.Keeper.Action.{◌>>=◌}
use cosmos_nixpool.Keeper.Params.{get_params, get_verification_key_from_state}
use cosmos_nixpool.Keeper.RootIndex.{is_valid_root_any_tree}
use cosmos_nixpool.Keeper.Registration.{is_valid_reg_root}
use cosmos_nixpool.Keeper.Nullifiers.{is_nullifier_spent, mark_nullifier_spent}
use cosmos_nixpool.Keeper.Verify.{
  assemble_transact_public_inputs, string_element, auditor_element, amount_element,
}
use cosmos_nixpool.Server.State.{
  State, on_store, emit, is_zero_bytes, consume_gas, get_verification_key, verify_proof,
}
use cosmos_nixpool.Server.Handlers.{
  TransactResponse, spend_nullifier, spend_input, check_transact_proof, insert_output,
  pay_withdrawal, pay_relayer, transact,
}
use cosmos_nixpool.Server.DoubleSpend.{Spends, transact-Spends, transact-distinct}
use cosmos_nixpool.Server.Chain.{Step, Reach, no_double_spend}
use cosmos_nixpool.Server.Ledger.{LedgerRun}
use cosmos_nixpool.Server.Ledger.Refines.{ledger_of, spent_in, Reach-refines}
use cosmos_nixpool.Examples.Codec.{marshal, unmarshal}
use cosmos_nixpool.Examples.Toy.{toy, toy-IsLawful, toy_zero_hash, non_empty}

abbrev pub zero_bytes : Bytes
zero_bytes = replicate 32 0

abbrev pub sample_params : Params
sample_params = record {
  tree_depth = 2;
  reg_tree_depth = 20;
  auditor_pub_key = [];
  supported_denoms = codes "anix" ∷ [];
  chain_binding = 9 ∷ [];
}

abbrev pub sample_kv : Store
sample_kv =
    (Key.params, marshal sample_params)
    ∷ (Key.vk (codes "transact"), 1 ∷ [])
    ∷ (Key.vk (codes "deposit"), 1 ∷ [])
    ∷ (Key.vk (codes "registration"), 1 ∷ [])
    ∷ []

abbrev pub sample_state : State
sample_state = record {
  kv = sample_kv;
  transfers = [];
  gas_used = 0;
  gas_limit = 10000000;
  events = [];
  tx_bytes = 1 ∷ [];
}

abbrev empty_output : OutputNote
empty_output = record {
  note_hash = zero_bytes;
  ephemeral_x = [];
  ephemeral_y = [];
  enc_amount = [];
  enc_salt = [];
  auditor_enc = [];
  auditor_auth_key_x = [];
  auditor_auth_key_y = [];
  auditor_enc_recipient = [];
}

abbrev empty_root : Bytes
empty_root = to_bytes (toy_zero_hash 20)

abbrev pub spending : Bytes → MsgTransact
spending nullifier = record {
  sender = codes "alice";
  proof = 1 ∷ [];
  nullifiers = nullifier ∷ zero_bytes ∷ [];
  merkle_roots = empty_root ∷ empty_root ∷ [];
  outputs = empty_output ∷ empty_output ∷ [];
  withdraw_amount = [];
  withdraw_address = [];
  denom = [];
  registration_root = empty_root;
  relayer_fee = [];
}

abbrev pub nothing_inserted : TransactResponse
nothing_inserted = record { leaf_indices = []; merkle_root = [] }

-- The state that the spending of 5 leaves.
abbrev pub spent_state : State
spent_state = (transact toy (spending (5 ∷ [])) sample_state).1

pub spending_run :
    transact toy (spending (5 ∷ [])) sample_state ≡ (ok nothing_inserted, spent_state)
unfolding transact ◌>>=◌ is_valid_reg_root get key_equal to_bytes toy_zero_hash spend_input
    is_zero_bytes spend_nullifier is_nullifier_spent nullifier_key is_valid_root_any_tree on_store
    emit check_transact_proof get_params mark_nullifier_spent canonical_field_bytes set_bytes
    get_verification_key_from_state get_verification_key consume_gas verify_proof
    assemble_transact_public_inputs string_element auditor_element amount_element insert_output
    pay_withdrawal pay_relayer marshal unmarshal set non_empty
spending_run = refl

five-Spends : Spends toy (spending (5 ∷ [])) (5 ∷ [])
unfolding is_zero_bytes set_bytes
five-Spends = Spends.first (5 ∷ [], refl, refl, refl)

-- 106 is 5 in the field of 101 elements.
again-Spends : Spends toy (spending (106 ∷ [])) (5 ∷ [])
unfolding is_zero_bytes set_bytes
again-Spends = Spends.first (106 ∷ [], refl, refl, refl)

abbrev next_tx : State
next_tx = record spent_state { tx_bytes = 2 ∷ []; gas_used = 0; gas_limit = 10000000 }

next_tx-Reach : Reach toy (codes "gov") spent_state next_tx
next_tx-Reach = Reach.next Reach.here (Step.begin_tx (2 ∷ []) 10000000 refl)

no_double_spend_example :
    ¬ (transact toy (spending (106 ∷ [])) next_tx ≡ (ok nothing_inserted, next_tx))
no_double_spend_example =
    no_double_spend toy (codes "gov") (spending (5 ∷ [])) (spending (106 ∷ [])) (5 ∷ [])
      sample_state spent_state next_tx next_tx nothing_inserted nothing_inserted five-Spends
      spending_run next_tx-Reach again-Spends

transact-Spends_example :
    (is_nullifier_spent toy sample_state.kv (5 ∷ []) ≡ false)
    × (is_nullifier_spent toy spent_state.kv (5 ∷ []) ≡ true)
transact-Spends_example =
    transact-Spends toy (spending (5 ∷ [])) (5 ∷ []) sample_state spent_state nothing_inserted
      five-Spends spending_run

abbrev twice : MsgTransact
twice = record (spending (5 ∷ [])) { nullifiers = (5 ∷ []) ∷ (106 ∷ []) ∷ [] }

transact-distinct_example : ¬ (transact toy twice sample_state ≡ (ok nothing_inserted, spent_state))
unfolding is_zero_bytes set_bytes
transact-distinct_example =
    transact-distinct toy twice (5 ∷ []) sample_state spent_state nothing_inserted
      (5 ∷ [], refl, refl, refl) (106 ∷ [], refl, refl, refl)

-- The spending, seen as a run of the ledger that spends 5.
abbrev spending_reach : Reach toy (codes "gov") sample_state spent_state
spending_reach =
    Reach.next Reach.here (Step.transacts (spending (5 ∷ [])) nothing_inserted spending_run)

spending_elements : spent_in toy toy-IsLawful (codes "gov") spending_reach ≡ 5 ∷ []
unfolding is_zero_bytes set_bytes
spending_elements = refl

Reach-refines_example :
    LedgerRun 101
      (ledger_of toy toy-IsLawful sample_state)
      (spent_in toy toy-IsLawful (codes "gov") spending_reach)
      (ledger_of toy toy-IsLawful spent_state)
Reach-refines_example = Reach-refines toy toy-IsLawful (codes "gov") spending_reach
