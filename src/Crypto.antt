-- ===== src/Crypto.antt =====
-- crypto/: the clients' keys, addresses and encryption over the Grumpkin curve.
pub mod Curve
pub mod Grumpkin
pub mod Hex
pub mod Address
pub mod Ecies
