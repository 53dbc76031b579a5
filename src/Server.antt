-- ===== src/Server.antt =====
-- keeper/msg_server.go: the message handlers, over the store, the bank, the gas meter and the events.
pub mod State
pub mod Handlers
pub mod Spent
pub mod DoubleSpend
pub mod Chain
pub mod Ledger
pub mod Queries
pub mod Authority
pub mod Stages
pub mod Deposits
pub mod Registers
pub mod Payments
pub mod Proved
