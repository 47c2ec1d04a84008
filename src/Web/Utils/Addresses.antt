-- ===== src/Web/Utils/Addresses.antt =====
-- Addresses: `isAddress`, `toChecksumAddress` and `checkAddressChecksum` of src/Utils.cpp. The
-- three regular expressions of `isAddress` accept an optional prefix and 40 characters of a class.
pub mod Checksum
use mathlib.Core.Logic.{ite}
use web3cpp.Common.{
  ℕ, zero, suc, Bool, true, false, not, ◌&&◌, ◌||◌, none, some, List, [], ◌∷◌, ◌++◌, ltb, leb, ◌==◌,
  if◌then◌else◌, length, get_elem?, all, Outcome, ok, throws, out_of_range, invalid_argument, ◌>>=◌,
}
use web3cpp.Common.Bytes.{codes}
use web3cpp.DevCore.Hex.{to_hex, from_hex_char}
use web3cpp.Web.Platform.{Platform}
use web3cpp.Web.Texts.{is_digit, is_upper, is_lower, is_hex_digit, to_lower, to_upper}
use web3cpp.Web.Utils.{without_prefix, to_lowercase_address}

-- `std::stoi(hash.substr(i, 1), nullptr, 16)`
unfoldable pub hash_nibble : List ℕ → ℕ → Outcome ℕ
hash_nibble hash i = if ltb (length hash) i then throws out_of_range else elim (get_elem? hash i) [
  | none ↦ throws invalid_argument
  | some c ↦ elim (from_hex_char c) [ none ↦ throws invalid_argument | some n ↦ ok n ]
]

-- The character of the checksummed address for a character and its nibble.
unfoldable pub cased : ℕ → ℕ → ℕ
cased c nibble = if leb 8 nibble then to_upper c else to_lower c

unfoldable pub checksum_char : List ℕ → ℕ → ℕ → Outcome ℕ
checksum_char hash i c = if is_digit c then ok c else hash_nibble hash i >>= λ n. ok (cased c n)

-- The loop of `toChecksumAddress` from the index `i` on.
unfoldable pub checksum_chars : List ℕ → ℕ → List ℕ → Outcome (List ℕ)
checksum_chars hash i [] = ok []
checksum_chars hash i (c ∷ cs) = do
  c' ← checksum_char hash i c
  rest ← checksum_chars hash (suc i) cs
  ok (c' ∷ rest)

unfoldable pub wrong_case : ℕ → ℕ → Bool
wrong_case c nibble = (leb 8 nibble && not (is_upper c)) || (ltb nibble 8 && not (is_lower c))

-- The loop of `checkAddressChecksum`.
unfoldable pub checksum_holds : List ℕ → ℕ → List ℕ → Outcome Bool
checksum_holds hash i [] = ok true
checksum_holds hash i (c ∷ cs) =
    let rest = checksum_holds hash (suc i) cs in
    if is_digit c
    then rest
    else hash_nibble hash i >>= λ n. if wrong_case c n then ok false else rest

-- `[0-9a-f]` and `[0-9A-F]`
abbrev pub is_low_digit : ℕ → Bool
is_low_digit c = is_digit c || (leb b'a' c && leb c b'f')

abbrev pub is_upp_digit : ℕ → Bool
is_upp_digit c = is_digit c || (leb b'A' c && leb c b'F')

-- A match of `^(0x|0X)?[class]{40}$`.
unfoldable pub matches : (ℕ → Bool) → List ℕ → Bool
matches class s = length (without_prefix s) == 40 && all class (without_prefix s)

module _ (p : Platform) where
  unfoldable pub to_checksum_address : List ℕ → Outcome (List ℕ)
  to_checksum_address address =
      let body = without_prefix (to_lowercase_address address) in
      checksum_chars (to_hex (p.keccak body)) 0 body >>= λ ret. ok (codes "0x" ++ ret)

  unfoldable pub check_address_checksum : List ℕ → Outcome Bool
  check_address_checksum address =
      let body = without_prefix address in
      checksum_holds (to_hex (p.keccak (without_prefix (to_lowercase_address body)))) 0 body

  unfoldable pub is_address : List ℕ → Outcome Bool
  is_address address =
      if not (matches (λ c. is_hex_digit c) address)
      then ok false
      else if matches (λ c. is_low_digit c) address || matches (λ c. is_upp_digit c) address
      then ok true
      else check_address_checksum address
