-- ===== src/Keeper/Verify.antt =====
-- keeper/verify.go: public inputs and their binding to the messages.
pub mod Parse
pub mod Limbs
pub mod Assembled
pub mod Binding
pub mod Amounts
use cosmos_nixpool.Prelude.{
  ℕ, zero, suc, ◌/◌, ◌%◌, Bool, ◌||◌, not, Option, some, none, List, [], ◌∷◌, Bytes, codes, length,
  get_or, get_elem?, take, drop, ltb, leb, ◌==◌, bytes_equal, is_empty, if◌then◌else◌, ℤ,
}
use cosmos_nixpool.External.{External}
use cosmos_nixpool.Field.{set_bytes, set_big_int, to_bytes, is_canonical}
use cosmos_nixpool.Types.Errors.{
  Result, ok, err, ◌>>=◌, ◌>>◌, fail_if, invalid_public_inputs, invalid_vk_data,
  unsupported_vk_size, index_out_of_range,
}
use cosmos_nixpool.Types.Params.{Params}
use cosmos_nixpool.Types.Msgs.{MsgTransact, is_set_amount}

-- GasUltraHonkVerify
abbrev pub gas_ultrahonk_verify : ℕ
gas_ultrahonk_verify = 400000

-- DepositPICount, TransactPICount, RegisterPICount
abbrev pub deposit_pi_count : ℕ
deposit_pi_count = 8

abbrev pub transact_pi_count : ℕ
transact_pi_count = 23

abbrev pub register_pi_count : ℕ
register_pi_count = 9

-- validCircuitNames
unfoldable pub is_valid_circuit_name : Bytes → Bool
is_valid_circuit_name name =
    bytes_equal name (codes "deposit")
    || (bytes_equal name (codes "transact") || bytes_equal name (codes "registration"))

abbrev or_panic : {A : Type 0} → Option A → Result A
or_panic none = err index_out_of_range
or_panic (some a) = ok a

-- `xs[i]`, which panics out of range
abbrev pub at : {A : Type 0} → List A → ℕ → Result A
at xs i = or_panic (get_elem? xs i)

-- A public input; the vector's length is tested before any is read.
abbrev pub input : List ℕ → ℕ → ℕ
input inputs i = get_or inputs i 0

module _ (ext : External) where
  abbrev vk_or_invalid : Bytes → Option Bytes → Result Bytes
  vk_or_invalid canonical none = err invalid_vk_data
  vk_or_invalid canonical (some vk) = ok canonical

  abbrev ok_or_invalid : Option Bytes → Result Bytes
  ok_or_invalid none = err invalid_vk_data
  ok_or_invalid (some b) = ok b

  -- NormalizeVKData
  unfoldable pub normalize_vk_data : Bytes → Result Bytes
  normalize_vk_data vk_data =
      if length vk_data == ext.vk_serialized_size
      then vk_or_invalid vk_data (ext.deserialize_vk vk_data)
      else if length vk_data == ext.bb_vk_size
      then (do
        vk ← ok_or_invalid (ext.deserialize_vk_bb vk_data)
        ok_or_invalid (ext.serialize_vk vk))
      else err unsupported_vk_size

  -- the loop of ParsePublicInputs over `n` chunks
  unfoldable pub parse_chunks : ℕ → Bytes → Result (List ℕ)
  unfolding is_canonical
  parse_chunks zero bytes = ok []
  parse_chunks (suc n) bytes =
      let rest = parse_chunks n (drop 32 bytes) in
      if is_canonical ext (take 32 bytes)
      then (rest >>= λ inputs. ok (set_bytes ext (take 32 bytes) ∷ inputs))
      else err invalid_public_inputs

  -- ParsePublicInputs
  unfoldable pub parse_public_inputs : Bytes → Result (List ℕ)
  parse_public_inputs bytes =
      if length bytes % 32 == 0
      then parse_chunks (length bytes / 32) bytes
      else err invalid_public_inputs

  -- the limb loop of stringToFieldElement, with fuel for the limbs left
  unfoldable pub limbs_of : ℕ → Bytes → List ℕ
  limbs_of zero bytes = []
  limbs_of (suc n) [] = []
  limbs_of (suc n) (b ∷ bs) = set_bytes ext (take 31 (b ∷ bs)) ∷ limbs_of n (drop 31 (b ∷ bs))

  -- the limbs that stringToFieldElement hashes: the length, then the 31-byte pieces
  unfoldable pub string_limbs : Bytes → List ℕ
  unfolding limbs_of
  string_limbs s = (length s % ext.modulus) ∷ limbs_of (length s) s

  -- stringToFieldElement
  unfoldable pub string_to_field_element : Bytes → ℕ
  unfolding string_limbs
  string_to_field_element s = ext.hash (string_limbs s)

  -- DenomToFieldElement, AddressToFieldElement
  unfoldable pub denom_to_field_element : Bytes → ℕ
  denom_to_field_element denom = string_to_field_element denom

  unfoldable pub address_to_field_element : Bytes → ℕ
  address_to_field_element addr = string_to_field_element addr

  -- verifyAuditorPublicInputs
  unfoldable pub verify_auditor_public_inputs : ℕ → ℕ → Bytes → Result (Unit {0})
  verify_auditor_public_inputs pi_x pi_y auditor_pub_key =
      if is_empty auditor_pub_key then ok tt else do
        fail_if (ltb (length auditor_pub_key) 64) invalid_public_inputs
        fail_if
            (not (pi_x == set_bytes ext (take 32 auditor_pub_key))
              || not (pi_y == set_bytes ext (take 32 (drop 32 auditor_pub_key))))
            invalid_public_inputs

  -- VerifyRegisterPublicInputs
  unfoldable pub verify_register_public_inputs : List ℕ → Bytes → Params → Result (Unit {0})
  unfolding verify_auditor_public_inputs
  verify_register_public_inputs inputs identity_commitment p = do
    fail_if (not (length inputs == register_pi_count)) invalid_public_inputs
    fail_if (not (bytes_equal (to_bytes (input inputs 0)) identity_commitment))
        invalid_public_inputs
    fail_if (is_empty p.chain_binding) invalid_public_inputs
    fail_if (not (input inputs 1 == set_bytes ext p.chain_binding)) invalid_public_inputs
    verify_auditor_public_inputs (input inputs 2) (input inputs 3) p.auditor_pub_key

  -- VerifyDepositPublicInputs
  unfoldable pub verify_deposit_public_inputs :
      List ℕ → Bytes → ℤ → Bytes → Params → Result (Unit {0})
  unfolding verify_auditor_public_inputs denom_to_field_element
  verify_deposit_public_inputs inputs note_commitment amount denom p = do
    fail_if (not (length inputs == deposit_pi_count)) invalid_public_inputs
    fail_if (not (bytes_equal (to_bytes (input inputs 0)) note_commitment)) invalid_public_inputs
    fail_if (not (input inputs 1 == set_big_int ext amount)) invalid_public_inputs
    fail_if (not (input inputs 2 == denom_to_field_element denom)) invalid_public_inputs
    verify_auditor_public_inputs (input inputs 3) (input inputs 4) p.auditor_pub_key

  abbrev pub int_element : Option ℤ → Result ℕ
  int_element none = err invalid_public_inputs
  int_element (some v) = ok (set_big_int ext v)

  -- an optional amount of AssembleTransactPublicInputs: zero where it is not set
  unfoldable pub amount_element : Bytes → Result ℕ
  amount_element s = if is_set_amount s then int_element (ext.new_int_from_string s) else ok 0

  -- an optional hashed string: zero where it is empty
  unfoldable pub string_element : Bytes → ℕ
  string_element s = if is_empty s then 0 else string_to_field_element s

  -- half of the auditor key, zero where the key is short
  unfoldable pub auditor_element : Bytes → Bytes → ℕ
  auditor_element key half = if leb 64 (length key) then set_bytes ext half else 0

  -- AssembleTransactPublicInputs
  unfoldable pub assemble_transact_public_inputs : MsgTransact → Params → Bytes → Result (List ℕ)
  unfolding amount_element string_element auditor_element
  assemble_transact_public_inputs msg p module_acc_addr = do
    n1 ← at msg.nullifiers 0
    n2 ← at msg.nullifiers 1
    r1 ← at msg.merkle_roots 0
    r2 ← at msg.merkle_roots 1
    o1 ← at msg.outputs 0
    o2 ← at msg.outputs 1
    withdraw ← amount_element msg.withdraw_amount
    fail_if (is_empty p.chain_binding) invalid_public_inputs
    fee ← amount_element msg.relayer_fee
    ok (
        set_bytes ext n1
        ∷ set_bytes ext n2
        ∷ set_bytes ext r1
        ∷ set_bytes ext r2
        ∷ set_bytes ext o1.note_hash
        ∷ set_bytes ext o2.note_hash
        ∷ withdraw
        ∷ string_element msg.withdraw_address
        ∷ string_element msg.denom
        ∷ set_bytes ext p.chain_binding
        ∷ set_bytes ext module_acc_addr
        ∷ fee
        ∷ set_bytes ext o1.auditor_enc
        ∷ set_bytes ext o1.auditor_auth_key_x
        ∷ set_bytes ext o1.auditor_auth_key_y
        ∷ set_bytes ext o2.auditor_enc
        ∷ set_bytes ext o2.auditor_auth_key_x
        ∷ set_bytes ext o2.auditor_auth_key_y
        ∷ auditor_element p.auditor_pub_key (take 32 p.auditor_pub_key)
        ∷ auditor_element p.auditor_pub_key (take 32 (drop 32 p.auditor_pub_key))
        ∷ set_bytes ext msg.registration_root
        ∷ set_bytes ext o1.auditor_enc_recipient
        ∷ set_bytes ext o2.auditor_enc_recipient
        ∷ [])
