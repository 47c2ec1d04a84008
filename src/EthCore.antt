-- ===== src/EthCore.antt =====
-- The transactions of src/ethcore.
pub mod Curve
pub mod Transaction
mod Tests
