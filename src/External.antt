-- ===== src/External.antt =====
-- What the program takes from third parties, as a parameter: gnark's scalar field, Poseidon2, the
-- Merkle zero hashes, the UltraHonk verifier, `math.Int`, bech32, the denomination check, SHA-256,
-- the JSON codec and the bank.
use cosmos_nixpool.Prelude.{ℕ, suc, ◌≤◌, ◌<◌, ◌^◌, ◌≡◌, Bool, Option, some, List, Bytes, ℤ}
use cosmos_nixpool.Types.Params.{Params}

pub record Coin : Type 0 where
  pub denom : Bytes
  pub amount : ℤ

-- A call of the bank keeper that moves coins of the module account.
pub data Transfer : Type 0 where
  -- SendCoinsFromAccountToModule
  account_to_module : Bytes → Coin → Transfer
  -- SendCoinsFromModuleToAccount
  module_to_account : Bytes → Coin → Transfer

pub record External : Type 0 where
  -- `fr.Modulus()`
  pub modulus : ℕ
  -- `poseidon2.Hash2`, `poseidon2.Hash`, on field elements as numbers below the modulus
  pub hash2 : ℕ → ℕ → ℕ
  pub hash : List ℕ → ℕ
  -- `merkle.ZeroHash`
  pub zero_hash : ℕ → ℕ
  -- `ultrahonk.DeserializeVK`: the key, named by its canonical bytes
  pub deserialize_vk : Bytes → Option Bytes
  -- `ultrahonk.DeserializeVKFromBarretenberg`, `ultrahonk.SerializeVK`
  pub deserialize_vk_bb : Bytes → Option Bytes
  pub serialize_vk : Bytes → Option Bytes
  -- `ultrahonk.VKSerializedSize`, `ultrahonk.BBVKSize`
  pub vk_serialized_size : ℕ
  pub bb_vk_size : ℕ
  -- `ultrahonk.Verify`: key, proof, public inputs; none is an error
  pub honk_verify : Bytes → Bytes → List ℕ → Option Bool
  -- `math.NewIntFromString`
  pub new_int_from_string : Bytes → Option ℤ
  -- `sdk.AccAddressFromBech32`, `addressCodec.StringToBytes`
  pub acc_address_from_bech32 : Bytes → Option Bytes
  pub string_to_bytes : Bytes → Option Bytes
  -- `sdk.ValidateDenom`
  pub is_valid_denom : Bytes → Bool
  -- `sha256.Sum256`
  pub sha256 : Bytes → Bytes
  -- `authtypes.NewModuleAddress(types.ModuleAccountName)`
  pub module_address : Bytes
  -- `json.Marshal` and `json.Unmarshal` on the parameters
  pub marshal_params : Params → Bytes
  pub unmarshal_params : Bytes → Option Params
  -- whether the bank makes a transfer, given those that it has made for the module, last first
  pub bank_accepts : List Transfer → Transfer → Bool

-- What the code relies on in them.
pub record IsLawful (ext : External) : Type 0 where
  pub modulus_pos : 1 < ext.modulus
  -- a field element fits in 32 bytes
  pub modulus_fits : ext.modulus ≤ 2 ^ 256
  pub hash2_bound : (a b : ℕ) → ext.hash2 a b < ext.modulus
  pub hash_bound : (xs : List ℕ) → ext.hash xs < ext.modulus
  -- the zero hash of a level is the root of an empty tree of that depth
  pub zero_hash_bound : (l : ℕ) → ext.zero_hash l < ext.modulus
  pub zero_hash-suc :
      (l : ℕ) → ext.zero_hash (suc l) ≡ ext.hash2 (ext.zero_hash l) (ext.zero_hash l)
  -- `json.Unmarshal` of `json.Marshal`, for parameters whose denominations are valid UTF-8, as those
  -- of a bank are: encoding/json replaces other bytes
  pub unmarshal-marshal : (p : Params) → ext.unmarshal_params (ext.marshal_params p) ≡ some p
