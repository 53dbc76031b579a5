-- ===== src/Examples/Governing.antt =====
-- The authority's messages, and a stranger's.
use cosmos_nixpool.Prelude.{◌≡◌, refl, true, some, [], ◌∷◌, Bytes, codes}
use cosmos_nixpool.Types.Errors.{ok}
use cosmos_nixpool.Types.Params.{Params, IsValidParams, validate}
use cosmos_nixpool.Types.Msgs.{MsgUpdateParams, MsgSetVerificationKey}
use cosmos_nixpool.Keeper.Action.{◌>>=◌}
use cosmos_nixpool.Keeper.Params.{get_params, get_verification_key_from_state}
use cosmos_nixpool.Keeper.Verify.{is_valid_circuit_name, normalize_vk_data}
use cosmos_nixpool.Server.State.{State, on_store}
use cosmos_nixpool.Server.Handlers.{check_authority, update_params, set_verification_key_msg}
use cosmos_nixpool.Server.Authority.{update_params-stores, set_verification_key_msg-stores}
use cosmos_nixpool.Examples.Toy.{toy, toy-IsLawful, non_empty}
use cosmos_nixpool.Examples.Spending.{sample_params, sample_state}

abbrev gov : Bytes
gov = codes "gov"

abbrev new_params : Bytes → MsgUpdateParams
new_params authority = record { authority = authority; params = some sample_params }

abbrev new_key : Bytes → MsgSetVerificationKey
new_key authority = record {
  authority = authority;
  circuit_name = codes "deposit";
  vk_data = 4 ∷ 2 ∷ [];
}

abbrev updated_state : State
updated_state = (update_params toy gov (new_params gov) sample_state).1

update_run : update_params toy gov (new_params gov) sample_state ≡ (ok tt, updated_state)
unfolding update_params check_authority ◌>>=◌ non_empty validate on_store
update_run = refl

update_params-stores_example :
    (non_empty gov ≡ some gov)
    × (p : Params) × (some sample_params ≡ some p)
    × IsValidParams p
    × (get_params toy updated_state.kv ≡ ok p)
    × (sample_state.transfers ≡ updated_state.transfers)
update_params-stores_example =
    update_params-stores toy gov toy-IsLawful (new_params gov) sample_state updated_state tt
      update_run

abbrev keyed_state : State
keyed_state = (set_verification_key_msg toy gov (new_key gov) sample_state).1

key_run : set_verification_key_msg toy gov (new_key gov) sample_state ≡ (ok tt, keyed_state)
unfolding set_verification_key_msg check_authority ◌>>=◌ non_empty on_store is_valid_circuit_name
    normalize_vk_data
key_run = refl

set_verification_key_msg-stores_example :
    (non_empty gov ≡ some gov)
    × (is_valid_circuit_name (codes "deposit") ≡ true)
    × (vk : Bytes) × (normalize_vk_data toy (4 ∷ 2 ∷ []) ≡ ok vk)
    × (get_verification_key_from_state keyed_state.kv (codes "deposit") ≡ some vk)
    × (sample_state.transfers ≡ keyed_state.transfers)
set_verification_key_msg-stores_example =
    set_verification_key_msg-stores toy gov (new_key gov) sample_state keyed_state tt key_run
