-- ===== src/Examples.antt =====
-- Concrete runs: the parameters of the model instantiated by small functions, and each theorem
-- applied at a concrete input.
pub mod Codec
pub mod Toy
pub mod Spending
pub mod Depositing
pub mod Registering
pub mod Withdrawing
pub mod Governing
pub mod Trees
pub mod Lasting
pub mod Asking
pub mod Commanding
pub mod Rebuilding
pub mod Exporting
pub mod Addressing
pub mod Encoding
pub mod Checking
