-- ===== src/DevCore/Tests.antt =====
-- Runs of the utilities on small inputs, and their theorems at inputs where their hypotheses hold.
use web3cpp.Common.{
  ◌+◌, ◌-◌, ◌%◌, ◌^◌, ltb, ◌==◌, if◌then◌else◌, ◌≡◌, refl, [], ◌∷◌, true, ok, throws,
  bad_hex_character, arith, ℕ, List, ◌↔◌, ◌++◌, ◌>>=◌, false,
}
use web3cpp.DevCore.Hex.{as_nibbles}
use web3cpp.DevCore.Nibbles.{NibbleSlice, is_earlier_than, contains, read}
use web3cpp.DevCore.Nibbles.HexPrefix.{
  hex_prefix_encode, hex_prefix_encode_both, hex_prefix_loop, end_of, distance,
}
use web3cpp.DevCore.Nibbles.Joined.{decoded-hex_prefix_encode_both}
use web3cpp.DevCore.Nibbles.RoundTrip.{decoded, decoded-hex_prefix_encode}
use web3cpp.DevCore.Nibbles.Slices.{
  IsSlice, nibbles_of, earlier, is_earlier_than-earlier, contains-Prefix,
}
use web3cpp.Common.Bytes.{codes}
use web3cpp.DevCore.StateCache.{StateCacheDb, find, lookup, exists, insert, kill, purge}
use web3cpp.DevCore.StateCache.Counts.{IsValid, count, count-insert-kill, lookup-purge}
use web3cpp.DevCore.Hex.{
  to_hex, to_hex_prefixed, from_hex, hex_body, hex_pairs, from_hex_char, prefixed,
}
use web3cpp.DevCore.Hex.RoundTrip.{from_hex-to_hex}
use web3cpp.DevCore.Base64.{
  to_base64, from_base64, to_base64_encoding, letter, sextet_0, sextet_1, sextet_2, sextet_3,
  decode_groups, base64_prefix, is_base64, find_base64_char_index, octet_0, octet_1, octet_2,
}
use web3cpp.DevCore.Base64.RoundTrip.{from_base64-to_base64}

from_hex_odd : from_hex (codes "0xabc") true ≡ ok (0x0a ∷ 0xbc ∷ [])
unfolding from_hex hex_body hex_pairs from_hex_char prefixed
from_hex_odd = refl

from_hex_bad : from_hex (codes "zz") true ≡ throws bad_hex_character
unfolding from_hex hex_body hex_pairs from_hex_char prefixed
from_hex_bad = refl

to_base64_man : to_base64 (codes "Ma") ≡ codes "TWE="
unfolding to_base64 to_base64_encoding letter sextet_0 sextet_1 sextet_2 sextet_3
to_base64_man = refl

from_base64_man : from_base64 (codes "TWFu") ≡ ok (codes "Man")
unfolding from_base64 decode_groups base64_prefix is_base64 find_base64_char_index octet_0 octet_1
    octet_2
from_base64_man = refl

from_hex-to_hex_example :
    (from_hex (to_hex (0xde ∷ 0xad ∷ [])) true ≡ ok (0xde ∷ 0xad ∷ []))
    × (from_hex (to_hex_prefixed (0xde ∷ 0xad ∷ [])) true ≡ ok (0xde ∷ 0xad ∷ []))
from_hex-to_hex_example =
    from_hex-to_hex (0xde ∷ 0xad ∷ []) true (omega arith, (omega arith, tt)) (omega arith)

from_base64-to_base64_example :
    from_base64 (to_base64 (7 ∷ 200 ∷ 255 ∷ 0 ∷ [])) ≡ ok (7 ∷ 200 ∷ 255 ∷ 0 ∷ [])
unfolding to_base64 to_base64_encoding
from_base64-to_base64_example =
    from_base64-to_base64 (7 ∷ 200 ∷ 255 ∷ 0 ∷ [])
      (omega arith, (omega arith, (omega arith, (omega arith, tt)))) (omega arith)

abbrev two_counted : StateCacheDb
two_counted = record {
  main = (5, (codes "five", 2)) ∷ (7, (codes "seven", 0)) ∷ [];
  aux = (5, (codes "aux", true)) ∷ [];
  enforce_refs = true;
}

two_counted-IsValid : IsValid two_counted
unfolding find
two_counted-IsValid = ((refl, (refl, tt)), (refl, tt))

count-insert-kill_example :
    (count (insert two_counted 5 (codes "new")) 7
      ≡ (if 5 == 7 then (count two_counted 7 + 1) % 2 ^ 32 else count two_counted 7))
    × (count (kill two_counted 5).0 7
        ≡ (if 5 == 7 then count two_counted 7 - 1 else count two_counted 7))
    × ((kill two_counted 5).1 ≡ ltb 0 (count two_counted 5))
count-insert-kill_example = count-insert-kill two_counted 5 7 (codes "new")

lookup-purge_example :
    (lookup (purge two_counted) 7 ≡ lookup two_counted 7)
    × (exists (purge two_counted) 7 ≡ exists two_counted 7)
lookup-purge_example = lookup-purge two_counted 7 two_counted-IsValid refl

abbrev key_slice : NibbleSlice
key_slice = record { bytes = 0x12 ∷ 0x34 ∷ []; offset = 1 }

abbrev prefix_slice : NibbleSlice
prefix_slice = record { bytes = 0x23 ∷ []; offset = 0 }

key_slice-IsSlice : IsSlice key_slice
key_slice-IsSlice = record { start = omega arith; small = omega arith }

prefix_slice-IsSlice : IsSlice prefix_slice
prefix_slice-IsSlice = record { start = omega arith; small = omega arith }

is_earlier_than-earlier_example :
    is_earlier_than key_slice prefix_slice
    ≡ ok (earlier (nibbles_of key_slice) (nibbles_of prefix_slice))
is_earlier_than-earlier_example =
    is_earlier_than-earlier key_slice prefix_slice key_slice-IsSlice prefix_slice-IsSlice

contains-Prefix_example :
    (contains key_slice prefix_slice ≡ ok true)
    ↔ ((rest : List ℕ) × (nibbles_of key_slice ≡ nibbles_of prefix_slice ++ rest))
contains-Prefix_example =
    contains-Prefix key_slice prefix_slice key_slice-IsSlice prefix_slice-IsSlice

-- The whole key, with the default arguments 0 and -1.
hex_prefix_encode_key :
    hex_prefix_encode (1 ∷ 2 ∷ 3 ∷ 4 ∷ 5 ∷ []) true 0 (2 ^ 32 - 1) ≡ ok (0x31 ∷ 0x23 ∷ 0x45 ∷ [])
unfolding hex_prefix_encode hex_prefix_loop read end_of distance
hex_prefix_encode_key = refl

decoded-hex_prefix_encode_example :
    (hex_prefix_encode (1 ∷ 2 ∷ 3 ∷ 4 ∷ 5 ∷ []) true 1 4 >>= decoded) ≡ ok (true, 2 ∷ 3 ∷ 4 ∷ [])
unfolding end_of
decoded-hex_prefix_encode_example =
    decoded-hex_prefix_encode (1 ∷ 2 ∷ 3 ∷ 4 ∷ 5 ∷ []) true 1 3 4 refl (omega arith) (omega arith)
      (omega arith, (omega arith, (omega arith, tt)))

decoded-hex_prefix_encode_both_example :
    (hex_prefix_encode_both (0x12 ∷ []) 1 (0x34 ∷ []) 0 false >>= decoded)
    ≡ ok (false, 2 ∷ 3 ∷ 4 ∷ [])
unfolding as_nibbles
decoded-hex_prefix_encode_both_example =
    decoded-hex_prefix_encode_both (0x12 ∷ []) 1 (0x34 ∷ []) 0 false (omega arith, tt)
      (omega arith, tt) (omega arith) (omega arith) (omega arith) (omega arith)
