-- ===== src/Server/State.antt =====
-- What a handler works on: the module's store, the transfers that the bank has made for the module,
-- the gas meter, the events and the transaction's bytes; and the parts of msg_server.go and
-- verify.go that the handlers share.
pub mod Success
use cosmos_nixpool.Prelude.{
  ℕ, ◌+◌, Bool, true, false, ◌&&◌, ◌||◌, not, Option, some, none, List, [], ◌∷◌, ◌++◌, Bytes,
  length, replicate, ltb, ◌==◌, bytes_equal, is_empty, if◌then◌else◌, ℤ, is_negative,
}
use cosmos_nixpool.External.{External, Coin, Transfer}
use cosmos_nixpool.Types.Errors.{
  Error, Result, ok, err, out_of_gas, invalid_coin, vk_not_found, invalid_vk_data, invalid_proof,
  auditor_data_missing, invalid_denom,
}
use cosmos_nixpool.Types.Params.{Params}
use cosmos_nixpool.Store.{Store}
use cosmos_nixpool.Keeper.Action.{Action, pure, lift, reads, modify, raise_if, ◌>>=◌, ◌>>◌}
use cosmos_nixpool.Keeper.Params.{get_params, get_verification_key_from_state}
use cosmos_nixpool.Keeper.Nullifiers.{store_auditor_data}
use cosmos_nixpool.Keeper.Verify.{gas_ultrahonk_verify}

-- The events, with their attributes.
pub data Event : Type 0 where
  registered deposited noted : Bytes → Bytes → ℕ → Event
  nullified : Bytes → Event
  withdrawn : Bytes → Bytes → Event
  relayed : Bytes → Event

pub record State : Type 0 where
  pub kv : Store
  pub transfers : List Transfer
  pub gas_used : ℕ
  pub gas_limit : ℕ
  pub events : List Event
  pub tx_bytes : Bytes

abbrev pub Handler : Type 0 → Type 0
Handler A = Action State A

-- A keeper method, run on the state's store.
unfoldable pub on_store : {A : Type 0} → Action Store A → Handler A
on_store m s = let (r, kv') = m s.kv in (r, record s { kv = kv' })

-- `ctx.EventManager().EmitEvent`
unfoldable pub emit : Event → Handler (Unit {0})
emit e s = (ok tt, record s { events = e ∷ s.events })

-- `GasMeter().ConsumeGas`: the gas is counted, and the meter panics past its limit. The gas that the
-- SDK's store charges for its reads and writes is not counted.
unfoldable pub consume_gas : ℕ → Handler (Unit {0})
consume_gas amount s = (
  if ltb s.gas_limit (s.gas_used + amount) then err out_of_gas else ok tt,
  record s { gas_used = s.gas_used + amount },
)

-- isZeroBytes: 32 zero bytes
unfoldable pub is_zero_bytes : Bytes → Bool
is_zero_bytes b = bytes_equal b (replicate 32 0)

-- the search of checkDenom
unfoldable pub is_listed : Bytes → List Bytes → Bool
is_listed denom [] = false
is_listed denom (d ∷ ds) = bytes_equal d denom || is_listed denom ds

module _ (ext : External) where
  -- A bank call of the module: made, or refused with the caller's error.
  unfoldable pub bank_send : Error → Transfer → Handler (Unit {0})
  bank_send refusal t s =
      if ext.bank_accepts s.transfers t
      then (ok tt, record s { transfers = t ∷ s.transfers })
      else (err refusal, s)

  -- `sdk.NewCoin`
  unfoldable pub new_coin : Bytes → ℤ → Result Coin
  new_coin denom amount =
      if is_negative amount || not (ext.is_valid_denom denom)
      then err invalid_coin
      else ok (record { denom = denom; amount = amount })

  -- `k.GetParams(ctx)`
  abbrev pub params : Handler Params
  params = reads (λ s. get_params ext s.kv)

  -- enforceAuditor
  unfoldable pub enforce_auditor : Bool → Handler (Unit {0})
  enforce_auditor has_auditor_data = do
    p ← params
    raise_if (not (is_empty p.auditor_pub_key) && not has_auditor_data) auditor_data_missing

  -- checkDenom
  unfoldable pub check_denom : Bytes → Handler (Unit {0})
  unfolding is_listed
  check_denom denom = do
    p ← params
    raise_if (not (is_listed denom p.supported_denoms)) invalid_denom

  abbrev key_or_error : Option Bytes → Result Bytes
  key_or_error none = err invalid_vk_data
  key_or_error (some vk) = ok vk

  abbrev pub stored_key : Option Bytes → Result Bytes
  stored_key none = err vk_not_found
  stored_key (some bytes) = key_or_error (ext.deserialize_vk bytes)

  -- getVerificationKey
  unfoldable pub get_verification_key : Bytes → Handler Bytes
  get_verification_key circuit_name =
      reads (λ s. stored_key (get_verification_key_from_state s.kv circuit_name))

  abbrev pub verdict : Option Bool → Result (Unit {0})
  verdict none = err invalid_proof
  verdict (some false) = err invalid_proof
  verdict (some true) = ok tt

  -- VerifyProof
  unfoldable pub verify_proof : Bytes → Bytes → List ℕ → Handler (Unit {0})
  unfolding get_verification_key
  verify_proof circuit_name proof public_inputs = do
    vk ← get_verification_key circuit_name
    consume_gas gas_ultrahonk_verify
    lift (verdict (ext.honk_verify vk proof public_inputs))

  -- `if len(data) > 0 { k.StoreAuditorData(...) }`, under the hash of the transaction's bytes
  unfoldable pub keep_auditor_data : Bytes → Handler (Unit {0})
  keep_auditor_data payload =
      if is_empty payload
      then pure tt
      else modify (λ s. record s { kv = store_auditor_data (ext.sha256 s.tx_bytes) payload s.kv })
