-- ===== src/Keeper.antt =====
-- The keeper package: state access (keeper.go), the trees, nullifiers and root index (merkle.go).
pub mod Action
pub mod Params
pub mod RootIndex
pub mod Frontier
pub mod Forest
pub mod Rebuild
pub mod Registration
pub mod Nullifiers
pub mod Verify
pub mod Genesis
pub mod Export
