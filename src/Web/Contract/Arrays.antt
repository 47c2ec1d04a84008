-- ===== src/Web/Contract/Arrays.antt =====
-- The arrays of bytes and of texts in the second `operator()` of `class Contract` (src/Contract.cpp). Boost
-- divides exactly, so that `ceil` of a quotient is the quotient rounded up; it writes a number in decimal and
-- reads it again in front of `toHex`, and `word` takes the number.
use web3cpp.Common.{
  ℕ, zero, suc, ◌+◌, ◌*◌, ◌/◌, ◌%◌, ◌^◌, Option, none, some, List, [], ◌∷◌, ◌++◌, if◌then◌else◌,
  length, take, drop,
}
use web3cpp.Web.Platform.{Platform}
use web3cpp.Web.Utils.{is_hex, pad_right}
use web3cpp.Web.Solidity.Pack.{word}

-- `for (size_t i = 0; i < s.size(); i += 64) { tmp.push_back(s.substr(i, 64)); }`; a round is left for each
-- character.
unfoldable pub chunks_loop : ℕ → List ℕ → List (List ℕ)
chunks_loop zero s = []
chunks_loop (suc fuel) [] = []
chunks_loop (suc fuel) (c ∷ cs) = take 64 (c ∷ cs) ∷ chunks_loop fuel (drop 64 (c ∷ cs))

unfoldable pub chunks : List ℕ → List (List ℕ)
chunks s = chunks_loop (length s) s

-- Two texts that are there, one behind the other.
abbrev pub join_found : Option (List ℕ) → Option (List ℕ) → Option (List ℕ)
join_found none found = none
join_found (some s) none = none
join_found (some s) (some t) = some (s ++ t)

-- The chunks, padded; none if one is not hex.
unfoldable pub pad_chunks : List (List ℕ) → Option (List ℕ)
pad_chunks [] = some []
pad_chunks (raw ∷ raws) =
    join_found (if is_hex raw then some (pad_right raw 64 b'0') else none) (pad_chunks raws)

-- The offset behind an element of `size` bytes.
unfoldable pub next_location : ℕ → ℕ → ℕ
next_location offset size = 32 * (((offset + 32 + size) % 2 ^ 64 + 31) / 32) % 2 ^ 64

module _ (p : Platform) where
  unfoldable pub locations : ℕ → List (List ℕ) → List ℕ
  locations offset [] = []
  locations offset (s ∷ ss) = word p offset ++ locations (next_location offset (length s / 2)) ss

  unfoldable pub elements_of : List (List ℕ) → Option (List ℕ)
  elements_of [] = some []
  elements_of (s ∷ ss) =
      join_found (join_found (some (word p (length s / 2))) (pad_chunks (chunks s)))
        (elements_of ss)

  -- `tmpRet`
  unfoldable pub pack_parts : List (List ℕ) → Option (List ℕ)
  pack_parts ss =
      join_found (some (word p (length ss) ++ locations (32 * length ss % 2 ^ 64) ss))
        (elements_of ss)
