-- ===== src/Types/Params.antt =====
-- The module parameters: types/params.go and the struct of types/types.pb.go.
use cosmos_nixpool.Prelude.{
  ℕ, ◌≤◌, ◌≡◌, ◌⊎◌, List, [], ◌∷◌, ◌||◌, ◌&&◌, not, arith, Bytes, codes, length, ltb, ◌==◌,
}
use cosmos_nixpool.Types.Errors.{
  Result, ok, ◌>>◌, fail_if, invalid_commitment, invalid_public_inputs,
}

pub record Params : Type 0 where
  pub tree_depth : ℕ
  pub reg_tree_depth : ℕ
  pub auditor_pub_key : Bytes
  pub supported_denoms : List Bytes
  pub chain_binding : Bytes

-- DefaultTreeDepth, DefaultRegTreeDepth
abbrev pub default_tree_depth : ℕ
default_tree_depth = 20

abbrev pub default_reg_tree_depth : ℕ
default_reg_tree_depth = 20

-- DefaultParams
abbrev pub default_params : Params
default_params = record {
  tree_depth = default_tree_depth;
  reg_tree_depth = default_reg_tree_depth;
  auditor_pub_key = [];
  supported_denoms = codes "anix" ∷ [];
  chain_binding = [];
}

-- Params.Validate
unfoldable pub validate : Params → Result (Unit {0})
validate p = do
  fail_if (p.tree_depth == 0 || ltb 40 p.tree_depth) invalid_commitment
  fail_if (p.reg_tree_depth == 0 || ltb 40 p.reg_tree_depth) invalid_commitment
  fail_if (not (length p.auditor_pub_key == 0) && not (length p.auditor_pub_key == 64))
      invalid_public_inputs
  fail_if (ltb 32 (length p.chain_binding)) invalid_public_inputs

-- What a valid parameter set satisfies.
pub record IsValidParams (p : Params) : Type 0 where
  pub depth_pos : 1 ≤ p.tree_depth
  pub depth_bound : p.tree_depth ≤ 40
  pub reg_depth_pos : 1 ≤ p.reg_tree_depth
  pub reg_depth_bound : p.reg_tree_depth ≤ 40
  pub auditor_size : (length p.auditor_pub_key ≡ 0) ⊎ (length p.auditor_pub_key ≡ 64)
  pub binding_size : length p.chain_binding ≤ 32

pub validate-IsValidParams : (p : Params) → validate p ≡ ok tt → IsValidParams p
unfolding validate
validate-IsValidParams p h = record {
  depth_pos = ground arith;
  depth_bound = ground arith;
  reg_depth_pos = ground arith;
  reg_depth_bound = ground arith;
  auditor_size = ground arith;
  binding_size = ground arith;
}
