-- ===== src/Ledger.antt =====
-- Messages to a Ledger device: derivation paths, and the frames of its HID interface
-- (src/ledger/encoding.cpp, include/web3cpp/ledger/encoding.h). An `unsigned char` is a number below
-- 256.
pub mod Path
pub mod Frames
pub mod Replies
mod Tests
