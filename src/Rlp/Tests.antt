-- ===== src/Rlp/Tests.antt =====
-- Runs of the RLP code on small inputs, and its theorems at inputs where their hypotheses hold.
use web3cpp.Common.{
  ℕ, ◌≡◌, ◌≢◌, refl, List, [], ◌∷◌, ◌++◌, arith, ok, throws, stuck, ◌>>=◌, bad_rlp, inl, replicate,
}
use web3cpp.Common.Bytes.{codes}
use web3cpp.Common.BigEndian.{bytes_required, from_big_endian}
use web3cpp.Common.BigEndian.Digits.{digits, from_big_endian-digits}
use web3cpp.Rlp.Item.{Item, str, node, nil, cons, encode, encode_str, header, stream_item}
use web3cpp.Rlp.Item.Refinement.{stream_item-encode}
use web3cpp.Rlp.Stream.{
  empty, note_appended, append_raw, append_list, append_list_raw, append_data, append_int, finished,
  close_list, store_back, open_gap, push_int, push_count, data_bytes,
}
use web3cpp.Rlp.View.{
  length_of, items, items_loop, to_bytes, to_int, payload, construct, size_as_encoded, actual_size,
  cropped, cropped_to, require_good, long_length, payload_offset, is_list, is_data,
}
use web3cpp.Rlp.View.Frames.{body_of}
use web3cpp.Rlp.View.Decode.{items-encode, to_bytes-encode}
use web3cpp.Rlp.View.Integers.{to_int-append_int}
use web3cpp.Rlp.View.Totality.{items-ne-stuck}
use web3cpp.Rlp.Index.{Cache, no_cache, index, to_vector}
use web3cpp.Rlp.Index.Cached.{IsCache, item_at, index-encode}
use web3cpp.Rlp.Index.Iteration.{map_items, to_vector-encode}

abbrev cat : Item
cat = str (codes "cat")

abbrev dog : Item
dog = str (codes "dog")

abbrev pets : Item
pets = node (cons cat (cons dog nil))

abbrev pets_bytes : List ℕ
pets_bytes = 0xc8 ∷ 0x83 ∷ b'c' ∷ b'a' ∷ b't' ∷ 0x83 ∷ b'd' ∷ b'o' ∷ b'g' ∷ []

encode-pets : encode pets ≡ pets_bytes
unfolding encode encode_str header
encode-pets = refl

stream_pets : (stream_item pets empty >>= finished) ≡ ok pets_bytes
unfolding stream_item append_list append_data data_bytes note_appended close_list bytes_required
    open_gap finished
stream_pets = refl

items_pets : items pets_bytes ≡ ok 2
unfolding items items_loop is_list payload length_of require_good payload_offset cropped_to cropped
    size_as_encoded construct actual_size
items_pets = refl

-- A list of 60 bytes has its size in a second byte.
stream_long :
    (append_list_raw (replicate 60 7) empty >>= finished) ≡ ok (0xf8 ∷ 60 ∷ replicate 60 7)
unfolding append_list_raw append_raw push_count push_int store_back bytes_required note_appended
    finished
stream_long = refl

-- A size that is written with fewer than 56 bytes behind it is refused.
length_padded : length_of (0xb8 ∷ 3 ∷ 1 ∷ 2 ∷ 3 ∷ []) ≡ throws bad_rlp
unfolding length_of require_good long_length from_big_endian
length_padded = refl

stream_item-encode_example :
    stream_item pets empty ≡ note_appended 1 (record { out = [] ++ encode pets; list_stack = [] })
unfolding encode encode_str header
stream_item-encode_example = stream_item-encode pets empty (omega arith)

items-encode_example : items (encode pets ++ 1 ∷ []) ≡ ok 2
unfolding encode encode_str header
items-encode_example = items-encode (cons cat (cons dog nil)) (1 ∷ []) (omega arith)

to_bytes-encode_example : to_bytes (encode cat ++ []) 12 ≡ ok (codes "cat")
unfolding encode encode_str header
to_bytes-encode_example = to_bytes-encode (codes "cat") [] 12 (omega arith)

to_int-append_int_example :
    (append_int 1000 empty >>= finished >>= λ d. to_int 256 32 d 12) ≡ ok 1000
to_int-append_int_example = to_int-append_int 1000 (omega arith)

items-ne-stuck_example : items (0xc3 ∷ 0x83 ∷ 1 ∷ []) ≢ stuck
items-ne-stuck_example = items-ne-stuck (0xc3 ∷ 0x83 ∷ 1 ∷ [])

index-encode_example :
    (c : Cache) × (index (encode pets ++ []) no_cache 1
      ≡ ok (c, item_at (cons cat (cons dog nil)) 1))
    × IsCache (cons cat (cons dog nil)) c
unfolding encode encode_str header
index-encode_example =
    index-encode (cons cat (cons dog nil)) [] (omega arith) no_cache 1 (inl refl) (omega arith)

to_vector-encode_example : to_vector to_bytes (encode pets) 12 ≡ ok (codes "cat" ∷ codes "dog" ∷ [])
unfolding map_items encode encode_str header to_bytes payload is_data length_of require_good
    payload_offset cropped_to
to_vector-encode_example =
    to_vector-encode to_bytes 12 body_of (cons cat (cons dog nil)) (omega arith) (refl, (refl, tt))

from_big_endian-digits_example : from_big_endian 64 (digits 1000) ≡ 1000
from_big_endian-digits_example = from_big_endian-digits 64 1000 (omega arith)
