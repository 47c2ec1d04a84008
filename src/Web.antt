-- ===== src/Web.antt =====
-- The web3 layer of src/: error objects, text utilities, and JSON-RPC requests.
-- Texts are lists of bytes.
pub mod Errors
pub mod Texts
pub mod Platform
pub mod Utils
pub mod Rpc
pub mod Solidity
pub mod Contract
mod Tests
