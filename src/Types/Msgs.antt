-- ===== src/Types/Msgs.antt =====
-- types/msgs.go: the messages and their stateless checks (ValidateBasic). A message's signer list is
-- not modelled.
use cosmos_nixpool.Prelude.{
  Bool, true, false, ◌&&◌, ◌||◌, not, Option, some, none, List, [], ◌∷◌, Bytes, codes, length, ltb,
  ◌==◌, bytes_equal, is_empty, ℤ, is_positive, is_negative, is_uint64,
}
use cosmos_nixpool.External.{External}
use cosmos_nixpool.Field.{is_canonical}
use cosmos_nixpool.Types.Errors.{
  Result, err, ◌>>◌, fail_if, invalid_address, invalid_commitment, invalid_proof,
  invalid_public_inputs, auditor_data_too_large, invalid_denom, insufficient_funds,
  invalid_nullifier, invalid_merkle_root, invalid_withdraw, vk_not_found,
}
use cosmos_nixpool.Types.Params.{Params, validate}
use cosmos_nixpool.Types.Keys.{max_auditor_data_size}

pub record MsgRegister : Type 0 where
  pub sender : Bytes
  pub identity_commitment : Bytes
  pub proof : Bytes
  pub public_inputs : Bytes
  pub auditor_encrypted_data : Bytes

pub record MsgDeposit : Type 0 where
  pub sender : Bytes
  pub denom : Bytes
  pub amount : Bytes
  pub note_commitment : Bytes
  pub proof : Bytes
  pub public_inputs : Bytes
  pub auditor_encrypted_data : Bytes

pub record OutputNote : Type 0 where
  pub note_hash : Bytes
  pub ephemeral_x : Bytes
  pub ephemeral_y : Bytes
  pub enc_amount : Bytes
  pub enc_salt : Bytes
  pub auditor_enc : Bytes
  pub auditor_auth_key_x : Bytes
  pub auditor_auth_key_y : Bytes
  pub auditor_enc_recipient : Bytes

pub record MsgTransact : Type 0 where
  pub sender : Bytes
  pub nullifiers : List Bytes
  pub merkle_roots : List Bytes
  pub outputs : List OutputNote
  pub withdraw_amount : Bytes
  pub withdraw_address : Bytes
  pub denom : Bytes
  pub registration_root : Bytes
  pub relayer_fee : Bytes
  pub proof : Bytes

pub record MsgUpdateParams : Type 0 where
  pub authority : Bytes
  pub params : Option Params

pub record MsgSetVerificationKey : Type 0 where
  pub authority : Bytes
  pub circuit_name : Bytes
  pub vk_data : Bytes

abbrev pub is_none {ℓ} : {A : Type ℓ} → Option A → Bool
is_none none = true
is_none (some a) = false

-- `s != "" && s != "0"`
abbrev pub is_set_amount : Bytes → Bool
is_set_amount s = not (is_empty s) && not (bytes_equal s (codes "0"))

module _ (ext : External) where
  -- `_, err := sdk.AccAddressFromBech32(a)`
  abbrev pub bad_address : Bytes → Bool
  bad_address a = is_none (ext.acc_address_from_bech32 a)

  -- validateFieldBytes: whether the check fails
  unfoldable pub bad_field_bytes : Bytes → Bool
  unfolding is_canonical
  bad_field_bytes b = not (length b == 32) || not (is_canonical ext b)

  abbrev not_positive : Option ℤ → Bool
  not_positive none = true
  not_positive (some v) = not (is_positive v)

  abbrev pub out_of_range : Option ℤ → Bool
  out_of_range none = true
  out_of_range (some v) = is_negative v || not (is_uint64 v)

  abbrev pub is_some_positive : Option ℤ → Bool
  is_some_positive none = false
  is_some_positive (some v) = is_positive v

  -- validateAmount: whether the check fails
  unfoldable pub bad_amount : Bytes → Bool
  bad_amount s = out_of_range (ext.new_int_from_string s)

  -- MsgRegister.ValidateBasic
  unfoldable pub validate_register : MsgRegister → Result (Unit {0})
  unfolding bad_field_bytes
  validate_register msg = do
    fail_if (bad_address msg.sender) invalid_address
    fail_if (bad_field_bytes msg.identity_commitment) invalid_commitment
    fail_if (length msg.proof == 0) invalid_proof
    fail_if (ltb (length msg.public_inputs) 32) invalid_public_inputs
    fail_if (ltb max_auditor_data_size (length msg.auditor_encrypted_data)) auditor_data_too_large

  -- MsgDeposit.ValidateBasic
  unfoldable pub validate_deposit : MsgDeposit → Result (Unit {0})
  unfolding bad_field_bytes
  validate_deposit msg = do
    fail_if (bad_address msg.sender) invalid_address
    fail_if (not (ext.is_valid_denom msg.denom)) invalid_denom
    fail_if (not_positive (ext.new_int_from_string msg.amount)) insufficient_funds
    fail_if (bad_field_bytes msg.note_commitment) invalid_commitment
    fail_if (length msg.proof == 0) invalid_proof
    fail_if (ltb (length msg.public_inputs) 32) invalid_public_inputs
    fail_if (ltb max_auditor_data_size (length msg.auditor_encrypted_data)) auditor_data_too_large

  -- the loops over nullifiers, roots and outputs: whether a check fails
  unfoldable pub any_bad_field : List Bytes → Bool
  unfolding bad_field_bytes
  any_bad_field [] = false
  any_bad_field (b ∷ bs) = bad_field_bytes b || any_bad_field bs

  unfoldable pub any_bad_note : List OutputNote → Bool
  unfolding bad_field_bytes
  any_bad_note [] = false
  any_bad_note (o ∷ os) = bad_field_bytes o.note_hash || any_bad_note os

  -- MsgTransact.ValidateBasic: the withdrawal
  unfoldable pub validate_withdrawal : MsgTransact → Result (Unit {0})
  unfolding bad_amount
  validate_withdrawal msg = do
    fail_if (is_set_amount msg.withdraw_amount && bad_amount msg.withdraw_amount) invalid_withdraw
    fail_if
        (is_set_amount msg.withdraw_amount
          && (is_some_positive (ext.new_int_from_string msg.withdraw_amount)
              && bad_address msg.withdraw_address))
        invalid_withdraw

  -- MsgTransact.ValidateBasic
  unfoldable pub validate_transact : MsgTransact → Result (Unit {0})
  unfolding any_bad_field any_bad_note validate_withdrawal
  validate_transact msg = do
    fail_if (bad_address msg.sender) invalid_address
    fail_if (not (length msg.nullifiers == 2)) invalid_nullifier
    fail_if (any_bad_field msg.nullifiers) invalid_nullifier
    fail_if (not (length msg.merkle_roots == 2)) invalid_merkle_root
    fail_if (any_bad_field msg.merkle_roots) invalid_merkle_root
    fail_if (not (length msg.outputs == 2)) invalid_commitment
    fail_if (any_bad_note msg.outputs) invalid_commitment
    fail_if (bad_field_bytes msg.registration_root) invalid_merkle_root
    validate_withdrawal msg
    fail_if (not (is_empty msg.denom) && not (ext.is_valid_denom msg.denom)) invalid_denom
    fail_if (is_set_amount msg.relayer_fee && bad_amount msg.relayer_fee) invalid_withdraw
    fail_if (length msg.proof == 0) invalid_proof

  abbrev validate_params : Option Params → Result (Unit {0})
  validate_params none = err invalid_commitment
  validate_params (some p) = validate p

  -- MsgUpdateParams.ValidateBasic
  unfoldable pub validate_update_params : MsgUpdateParams → Result (Unit {0})
  unfolding validate
  validate_update_params msg = do
    fail_if (bad_address msg.authority) invalid_address
    validate_params msg.params

  -- MsgSetVerificationKey.ValidateBasic
  unfoldable pub validate_set_verification_key : MsgSetVerificationKey → Result (Unit {0})
  validate_set_verification_key msg = do
    fail_if (bad_address msg.authority) invalid_address
    fail_if (is_empty msg.circuit_name) vk_not_found
    fail_if (is_empty msg.vk_data) vk_not_found
