-- ===== src/Rlp.antt =====
-- RLP, Ethereum's encoding of nested byte strings: include/web3cpp/devcore/RLP.h and
-- src/devcore/RLP.cpp.
pub mod Stream
pub mod Item
pub mod View
pub mod Index
mod Tests
use web3cpp.Common.{ℕ}

-- The constants of RLP.h, which are bytes: a string or list shorter than 56 bytes has its size in
-- the first byte, a longer one the size of its size.
abbrev pub data_imm_len_start : ℕ
data_imm_len_start = 0x80

abbrev pub list_start : ℕ
list_start = 0xc0

abbrev pub max_length_bytes : ℕ
max_length_bytes = 8

abbrev pub data_imm_len_count : ℕ
data_imm_len_count = 56

abbrev pub data_ind_len_zero : ℕ
data_ind_len_zero = 0xb7

abbrev pub list_imm_len_count : ℕ
list_imm_len_count = 56

abbrev pub list_ind_len_zero : ℕ
list_ind_len_zero = 0xf7
