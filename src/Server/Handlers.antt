-- ===== src/Server/Handlers.antt =====
-- keeper/msg_server.go: Register, Deposit, Transact, UpdateParams and SetVerificationKey.
use cosmos_nixpool.Prelude.{
  ℕ, ◌≡◌, not, Option, some, none, List, [], ◌∷◌, ◌++◌, Bytes, codes, bytes_equal, is_empty,
  if◌then◌else◌, ℤ, is_positive,
}
use cosmos_nixpool.External.{External, account_to_module, module_to_account}
use cosmos_nixpool.Types.Errors.{
  Error, Result, ok, err, insufficient_funds, invalid_address, invalid_public_inputs,
  invalid_merkle_root, nullifier_spent, invalid_withdraw, invalid_denom, bank_refused, unauthorized,
  nil_params, invalid_circuit_name,
}
use cosmos_nixpool.Types.Params.{validate}
use cosmos_nixpool.Types.Msgs.{
  MsgRegister, MsgDeposit, MsgTransact, MsgUpdateParams, MsgSetVerificationKey, is_set_amount,
}
use cosmos_nixpool.Keeper.Action.{pure, lift, gets, modify, raise_if, ◌>>=◌, ◌>>◌}
use cosmos_nixpool.Keeper.Params.{set_params, set_verification_key}
use cosmos_nixpool.Keeper.RootIndex.{is_valid_root_any_tree}
use cosmos_nixpool.Keeper.Forest.{insert_note}
use cosmos_nixpool.Keeper.Registration.{is_valid_reg_root, insert_reg_commitment}
use cosmos_nixpool.Keeper.Nullifiers.{is_nullifier_spent, mark_nullifier_spent}
use cosmos_nixpool.Keeper.Verify.{
  at, is_valid_circuit_name, normalize_vk_data, parse_public_inputs, verify_register_public_inputs,
  verify_deposit_public_inputs, assemble_transact_public_inputs,
}
use cosmos_nixpool.Server.State.{
  Event, Handler, on_store, emit, is_zero_bytes, bank_send, new_coin, params, enforce_auditor,
  check_denom, verify_proof, keep_auditor_data,
}

-- MsgRegisterResponse, MsgDepositResponse
pub record LeafResponse : Type 0 where
  pub leaf_index : ℕ
  pub merkle_root : Bytes

-- MsgTransactResponse
pub record TransactResponse : Type 0 where
  pub leaf_indices : List ℕ
  pub merkle_root : Bytes

abbrev pub or_err : {A : Type 0} → Error → Option A → Result A
or_err e none = err e
or_err e (some a) = ok a

pub or_err-eq-ok : {A : Type 0} (e : Error) (o : Option A) (a : A) → or_err e o ≡ ok a → o ≡ some a
or_err-eq-ok e none a h = cc
or_err-eq-ok e (some b) a h = cc

module _ (ext : External) where
  -- Register
  unfoldable pub register : MsgRegister → Handler LeafResponse
  register msg = do
    enforce_auditor ext (not (is_empty msg.auditor_encrypted_data))
    inputs ← lift (parse_public_inputs ext msg.public_inputs)
    p ← params ext
    lift (verify_register_public_inputs ext inputs msg.identity_commitment p)
    verify_proof ext (codes "registration") msg.proof inputs
    leaf ← on_store (insert_reg_commitment ext msg.identity_commitment)
    keep_auditor_data ext msg.auditor_encrypted_data
    emit (Event.registered msg.identity_commitment leaf.0 leaf.1)
    pure (record { leaf_index = leaf.1; merkle_root = leaf.0 })

  -- Deposit
  unfoldable pub deposit : MsgDeposit → Handler LeafResponse
  deposit msg = do
    enforce_auditor ext (not (is_empty msg.auditor_encrypted_data))
    inputs ← lift (parse_public_inputs ext msg.public_inputs)
    amount ← lift (or_err insufficient_funds (ext.new_int_from_string msg.amount))
    p ← params ext
    raise_if (is_empty p.chain_binding) invalid_public_inputs
    lift (verify_deposit_public_inputs ext inputs msg.note_commitment amount msg.denom p)
    verify_proof ext (codes "deposit") msg.proof inputs
    check_denom ext msg.denom
    sender ← lift (or_err invalid_address (ext.acc_address_from_bech32 msg.sender))
    coin ← lift (new_coin ext msg.denom amount)
    bank_send ext insufficient_funds (account_to_module sender coin)
    leaf ← on_store (insert_note ext msg.note_commitment)
    keep_auditor_data ext msg.auditor_encrypted_data
    emit (Event.deposited msg.note_commitment leaf.0 leaf.1)
    pure (record { leaf_index = leaf.1; merkle_root = leaf.0 })

  -- one round of the nullifier loop of Transact, past the index and the zero test
  unfoldable pub spend_nullifier : Bytes → Bytes → Handler (Unit {0})
  spend_nullifier nullifier root = do
    spent ← gets (λ s. is_nullifier_spent ext s.kv nullifier)
    raise_if spent nullifier_spent
    valid ← gets (λ s. is_valid_root_any_tree ext s.kv root)
    raise_if (not valid) invalid_merkle_root
    on_store (modify (mark_nullifier_spent ext nullifier))
    emit (Event.nullified nullifier)

  -- a round of the loop: a zero nullifier is skipped before its root is read
  unfoldable pub spend_input : MsgTransact → ℕ → Handler (Unit {0})
  spend_input msg i = do
    nullifier ← lift (at msg.nullifiers i)
    if is_zero_bytes nullifier
        then pure tt
        else do root ← lift (at msg.merkle_roots i); spend_nullifier nullifier root

  -- a round of the output loop of Transact, on the leaf indices and the last root so far
  unfoldable pub insert_output : MsgTransact → ℕ → TransactResponse → Handler TransactResponse
  insert_output msg i response = do
    output ← lift (at msg.outputs i)
    if is_zero_bytes output.note_hash then pure response else do
      leaf ← on_store (insert_note ext output.note_hash)
      emit (Event.noted output.note_hash leaf.0 leaf.1)
      pure (record { leaf_indices = response.leaf_indices ++ leaf.1 ∷ []; merkle_root = leaf.0 })

  -- `amt, ok := math.NewIntFromString(s); if !ok || !amt.IsPositive()`
  abbrev pub positive_or_err : Option ℤ → Result ℤ
  positive_or_err none = err invalid_withdraw
  positive_or_err (some v) = if is_positive v then ok v else err invalid_withdraw

  -- the withdrawal of Transact
  unfoldable pub pay_withdrawal : MsgTransact → Handler (Unit {0})
  pay_withdrawal msg =
      if is_set_amount msg.withdraw_amount
      then (do
        amount ← lift (positive_or_err (ext.new_int_from_string msg.withdraw_amount))
        raise_if (is_empty msg.denom) invalid_denom
        check_denom ext msg.denom
        recipient ←
            lift (or_err invalid_withdraw (ext.acc_address_from_bech32 msg.withdraw_address))
        coin ← lift (new_coin ext msg.denom amount)
        bank_send ext bank_refused (module_to_account recipient coin)
        emit (Event.withdrawn msg.withdraw_amount msg.withdraw_address))
      else pure tt

  -- the relayer fee of Transact
  unfoldable pub pay_relayer : MsgTransact → Handler (Unit {0})
  pay_relayer msg =
      if is_set_amount msg.relayer_fee
      then (do
        fee ← lift (positive_or_err (ext.new_int_from_string msg.relayer_fee))
        raise_if (is_empty msg.denom) invalid_denom
        check_denom ext msg.denom
        relayer ← lift (or_err invalid_address (ext.acc_address_from_bech32 msg.sender))
        coin ← lift (new_coin ext msg.denom fee)
        bank_send ext bank_refused (module_to_account relayer coin)
        emit (Event.relayed msg.relayer_fee))
      else pure tt

  -- the assembly and check of the proof in Transact
  unfoldable pub check_transact_proof : MsgTransact → Handler (Unit {0})
  check_transact_proof msg = do
    p ← params ext
    assembled ← lift (assemble_transact_public_inputs ext msg p ext.module_address)
    verify_proof ext (codes "transact") msg.proof assembled

  -- Transact
  unfoldable pub transact : MsgTransact → Handler TransactResponse
  transact msg = do
    valid ← gets (λ s. is_valid_reg_root ext s.kv msg.registration_root)
    raise_if (not valid) invalid_merkle_root
    spend_input msg 0
    spend_input msg 1
    check_transact_proof msg
    first ← insert_output msg 0 (record { leaf_indices = []; merkle_root = [] })
    second ← insert_output msg 1 first
    pay_withdrawal msg
    pay_relayer msg
    pure second

  -- the authority check of UpdateParams and SetVerificationKey
  unfoldable pub check_authority : Bytes → Bytes → Handler (Unit {0})
  check_authority keeper_authority authority = do
    address ← lift (or_err invalid_address (ext.string_to_bytes authority))
    raise_if (not (bytes_equal address keeper_authority)) unauthorized

  -- UpdateParams; the keeper's authority is an argument
  unfoldable pub update_params : Bytes → MsgUpdateParams → Handler (Unit {0})
  update_params keeper_authority msg = do
    check_authority keeper_authority msg.authority
    p ← lift (or_err nil_params msg.params)
    lift (validate p)
    on_store (modify (set_params ext p))

  -- SetVerificationKey
  unfoldable pub set_verification_key_msg : Bytes → MsgSetVerificationKey → Handler (Unit {0})
  set_verification_key_msg keeper_authority msg = do
    check_authority keeper_authority msg.authority
    raise_if (not (is_valid_circuit_name msg.circuit_name)) invalid_circuit_name
    canonical ← lift (normalize_vk_data ext msg.vk_data)
    on_store (modify (set_verification_key msg.circuit_name canonical))
