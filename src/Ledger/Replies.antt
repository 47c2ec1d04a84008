-- ===== src/Ledger/Replies.antt =====
-- The replies of the device: `decodeBip32Message` and `decodeSignEthMessage` of src/ledger/encoding.cpp. A
-- buffer that is received has 64 bytes.
use web3cpp.Common.{
  ℕ, ◌%◌, List, [], ◌∷◌, ◌++◌, ◌==◌, if◌then◌else◌, get_or, take, drop, Outcome, ok, undefined,
}
use web3cpp.Common.Bytes.{codes}

-- The 40 characters of the address, in the second buffer from 15 on.
unfoldable pub decode_bip32_message : List (List ℕ) → List ℕ
decode_bip32_message [] = []
decode_bip32_message (a ∷ []) = []
decode_bip32_message (a ∷ b ∷ bufs) = codes "0x" ++ take 40 (drop 15 b)

-- The parts of the signature: `_r`, `_s` and `v`.
pub record Signed : Type 0 where
  pub r : List ℕ
  pub s : List ℕ
  pub v : ℕ

unfoldable pub split_signature : List ℕ → Signed
split_signature signature = record {
  r = take 32 (drop 1 signature);
  s = take 32 (drop 33 signature);
  v = if get_or signature 0 0 % 2 == 0 then 1 else 0;
}

-- The last two buffers, each without its front; fewer than two are read out of bounds.
unfoldable pub decode_sign_eth_message : List (List ℕ) → Outcome Signed
decode_sign_eth_message [] = undefined
decode_sign_eth_message (a ∷ []) = undefined
decode_sign_eth_message (a ∷ b ∷ []) = ok (split_signature (drop 7 a ++ drop 5 b))
decode_sign_eth_message (a ∷ b ∷ c ∷ bufs) = decode_sign_eth_message (b ∷ c ∷ bufs)
