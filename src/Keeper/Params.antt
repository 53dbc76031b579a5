-- ===== src/Keeper/Params.antt =====
-- keeper/keeper.go: the stored parameters and verification keys.
use cosmos_nixpool.Prelude.{ℕ, ◌≡◌, Option, some, none, Bytes, ◌==◌, if◌then◌else◌}
use cosmos_nixpool.External.{External, IsLawful}
use cosmos_nixpool.Types.Errors.{Result, ok, err, corrupt_params}
use cosmos_nixpool.Types.Params.{Params, default_params, default_tree_depth}
use cosmos_nixpool.Types.Keys.{Key}
use cosmos_nixpool.Store.{Store, get, set, get-set_self}

module _ (ext : External) where
  abbrev or_corrupt : Option Params → Result Params
  or_corrupt none = err corrupt_params
  or_corrupt (some p) = ok p

  abbrev pub params_of : Option Bytes → Result Params
  params_of none = ok default_params
  params_of (some bz) = or_corrupt (ext.unmarshal_params bz)

  -- GetParams
  unfoldable pub get_params : Store → Result Params
  get_params s = params_of (get s Key.params)

  -- SetParams
  unfoldable pub set_params : Params → Store → Store
  set_params p s = set Key.params (ext.marshal_params p) s

  -- What was set is read back.
  pub get_params-set_params :
      (law : IsLawful ext) (p : Params) (s : Store) → get_params (set_params p s) ≡ ok p
  unfolding get_params set_params
  get_params-set_params law p s =
      rw (get-set_self s Key.params (ext.marshal_params p), law.unmarshal-marshal p)

-- Keeper.SetVerificationKey
unfoldable pub set_verification_key : Bytes → Bytes → Store → Store
set_verification_key circuit_name vk_data s = set (Key.vk circuit_name) vk_data s

-- GetVerificationKeyFromState
unfoldable pub get_verification_key_from_state : Store → Bytes → Option Bytes
get_verification_key_from_state s circuit_name = get s (Key.vk circuit_name)

-- `depth := params.TreeDepth; if depth == 0 { depth = types.DefaultTreeDepth }`
unfoldable pub effective_depth : Params → ℕ
effective_depth p = if p.tree_depth == 0 then default_tree_depth else p.tree_depth
