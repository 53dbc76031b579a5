-- ===== src/Types.antt =====
-- The package types: parameters, errors, messages, store keys and genesis.
pub mod Errors
pub mod Params
pub mod Keys
pub mod Msgs
pub mod Genesis
