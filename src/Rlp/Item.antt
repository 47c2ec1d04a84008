-- ===== src/Rlp/Item.antt =====
-- What an RLP string denotes: a tree of byte strings, its canonical encoding, and the writing of a
-- tree with the operations of `RLPStream`.
pub mod Refinement
use web3cpp.Common.{
  ℕ, zero, suc, ◌+◌, ◌<◌, ◌^◌, List, [], ◌∷◌, ◌++◌, ltb, if◌then◌else◌, length, Outcome, ok, ◌>>=◌,
  false,
}
use web3cpp.Common.BigEndian.Digits.{digits}
use web3cpp.Rlp.Stream.{RlpStream, append_data, append_list}

mutual
  pub data Item : Type 0 where
    str : List ℕ → Item
    node : Items → Item

  pub data Items : Type 0 where
    nil : Items
    cons : Item → Items → Items

abbrev pub count : Items → ℕ
count nil = 0
count (cons x xs) = suc (count xs)

-- The first byte holds the kind and, below 56, the size; or the size of the size that follows.
unfoldable pub header : ℕ → ℕ → List ℕ
header base n = if ltb n 56 then (base + n) ∷ [] else (base + 55 + length (digits n)) ∷ digits n

-- One byte below 0x80 is its own encoding.
unfoldable pub encode_str : List ℕ → List ℕ
encode_str (b ∷ []) = if ltb b 0x80 then b ∷ [] else 0x81 ∷ b ∷ []
encode_str bs = header 0x80 (length bs) ++ bs

unfoldable mutual
  pub encode : Item → List ℕ
  encode (str bs) = encode_str bs
  encode (node xs) = header 0xc0 (length (encode_items xs)) ++ encode_items xs

  pub encode_items : Items → List ℕ
  encode_items nil = []
  encode_items (cons x xs) = encode x ++ encode_items xs

-- `RLPStream::append` for byte strings and, nested to any depth, `appendVector`.
unfoldable mutual
  pub stream_item : Item → RlpStream → Outcome RlpStream
  stream_item (str bs) s = append_data bs false s
  stream_item (node xs) s = append_list (count xs) s >>= stream_items xs

  pub stream_items : Items → RlpStream → Outcome RlpStream
  stream_items nil s = ok s
  stream_items (cons x xs) s = stream_item x s >>= stream_items xs
