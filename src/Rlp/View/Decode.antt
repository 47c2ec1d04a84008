-- ===== src/Rlp/View/Decode.antt =====
-- `class RLP` on canonical encodings: sizes, payloads, item counts, strings.
use web3cpp.Common.{
  ℕ, zero, suc, ◌+◌, ◌-◌, ◌^◌, ◌≤◌, ◌<◌, ◌≡◌, refl, sym, ap, ◌∙◌, List, [], ◌∷◌, ◌++◌, append_assoc,
  length, length-append, take, drop, take-append, drop-append, arith, ok, ◌>>=◌, le→ltb, true,
  take_all,
}
use mathlib.Core.Path.{subst}
use web3cpp.Common.BigEndian.Digits.{length-digits-le}
use web3cpp.Rlp.View.{
  is_data, is_list, length_of, actual_size, cropped_to, cropped, payload, construct,
  size_as_encoded, items_loop, items, to_bytes,
}
use web3cpp.Rlp.View.Frames.{Frame, Small, body_of, split, length-body_of-le}
use web3cpp.Rlp.Item.{
  Item, Items, str, node, nil, cons, count, header, encode_str, encode, encode_items,
}

pub is_list-node : (xs : Items) (rest : List ℕ) → is_list (encode (node xs) ++ rest) ≡ true
unfolding encode header is_list
is_list-node xs rest = ground arith

pub is_data-str : (bs rest : List ℕ) → length bs < 2 ^ 64 → is_data (encode (str bs) ++ rest) ≡ true
unfolding encode encode_str header is_data
is_data-str [] rest h = ground arith
is_data-str (b ∷ []) rest h = ground arith
is_data-str (b ∷ c ∷ bs) rest h = ground (arith, length-digits-le 8 (length (b ∷ c ∷ bs)) h)

module _ (x : Item) (fits : Small (length (encode x))) (rest : List ℕ) where
  whole : encode x ++ rest ≡ (split x fits).front ++ (body_of x ++ rest)
  whole = rw (split x fits).parts (append_assoc (split x fits).front (body_of x) rest)

  Frame-here : Frame (encode x ++ rest) (length (split x fits).front) (length (body_of x))
  Frame-here =
      subst (λ d. Frame d (length (split x fits).front) (length (body_of x))) (sym whole)
        ((split x fits).frame rest)

  size_split : length (encode x) ≡ length (split x fits).front + length (body_of x)
  size_split = rw (split x fits).parts (length-append (split x fits).front (body_of x))

  pub actual_size-encode : actual_size (encode x ++ rest) ≡ ok (length (encode x))
  actual_size-encode = Frame-here.size ∙ ap ok (sym size_split)

  taken :
      take (length (body_of x)) (drop (length (split x fits).front) (encode x ++ rest)) ≡ body_of x
  taken = rw whole (rw drop-append (take-append (body_of x) rest))

  -- `sizeAsEncoded` of data that begins with an encoded item, of fewer than 2 ^ 64 - 257 bytes, is the size
  -- of the encoding.
  pub size_as_encoded-encode : size_as_encoded (encode x ++ rest) ≡ ok (length (encode x))
  unfolding size_as_encoded construct
  size_as_encoded-encode = rw actual_size-encode (
      rw
        (le→ltb (length (encode x ++ rest)) (length (encode x))
          (omega (arith, length-append (encode x) rest)))
        actual_size-encode)

  -- `payload` is the string, or the encodings of the items.
  pub payload-encode : payload (encode x ++ rest) ≡ ok (body_of x)
  unfolding payload cropped_to
  payload-encode =
      rw (Frame-here.announced, Frame-here.behind)
        (ground (arith, taken, size_split, length-append (encode x) rest))

  -- `length()` is the size of the payload.
  pub length_of-encode : length_of (encode x ++ rest) ≡ ok (length (body_of x))
  length_of-encode = Frame-here.announced

encode_str-nonempty : (bs : List ℕ) → 1 ≤ length (encode_str bs)
unfolding encode_str header
encode_str-nonempty [] = omega arith
encode_str-nonempty (b ∷ []) = ground arith
encode_str-nonempty (b ∷ c ∷ bs) =
    omega (arith, length-append (header 0x80 (length (b ∷ c ∷ bs))) (b ∷ c ∷ bs))

pub encode-nonempty : (x : Item) → 1 ≤ length (encode x)
unfolding encode header
encode-nonempty (str bs) = encode_str-nonempty bs
encode-nonempty (node xs) = ground arith

cropped-encode : (bs rest : List ℕ) → cropped (length bs) (bs ++ rest) ≡ rest
unfolding cropped
cropped-encode bs rest = rw drop-append (ground (arith, length-append bs rest))

items_loop_round :
    (fuel i : ℕ) (d : List ℕ)
    → 1 ≤ length d
    → items_loop (suc fuel) d i ≡ (size_as_encoded d >>= λ n. items_loop fuel (cropped n d) (i + 1))
unfolding items_loop
items_loop_round fuel i [] h = absurd (omega arith)
items_loop_round fuel i (b ∷ bs) h = refl

items_loop-encode :
    (xs : Items) (fuel i : ℕ)
    → Small (length (encode_items xs))
    → length (encode_items xs) ≤ fuel
    → items_loop fuel (encode_items xs) i ≡ ok (i + count xs)
unfolding encode
items_loop-encode nil zero i fits h = unfold items_loop in ap ok (omega arith)
items_loop-encode nil (suc fuel) i fits h = unfold items_loop in ap ok (omega arith)
items_loop-encode (cons x xs) fuel i fits h =
    let rest = encode_items xs in
    let size : length (encode x ++ rest) ≡ length (encode x) + length rest =
      length-append (encode x) rest in
    let one : 1 ≤ length (encode x) = encode-nonempty x in
    let f : fuel ≡ suc (fuel - 1) = omega arith in
    rw f (
      items_loop_round (fuel - 1) i (encode x ++ rest) (omega arith)
      ∙ rw (size_as_encoded-encode x (omega arith) rest) (
          rw cropped-encode (
            items_loop-encode xs (fuel - 1) (i + 1) (omega arith) (omega arith)
            ∙ ap ok (omega arith))))

-- `itemCount` of data that begins with an encoded list, of fewer than 2 ^ 64 - 257 bytes, is the number of
-- its items.
pub items-encode :
    (xs : Items) (rest : List ℕ)
    → Small (length (encode (node xs)))
    → items (encode (node xs) ++ rest) ≡ ok (count xs)
unfolding items
items-encode xs rest fits =
    let body = encode_items xs in
    let small : Small (length body) = omega (arith, length-body_of-le (node xs)) in
    rw (is_list-node xs rest) (
      rw (payload-encode (node xs) fits rest)
        (items_loop-encode xs (length body) 0 small (omega arith) ∙ ap ok (omega arith)))

-- `toBytes` of data that begins with an encoded string, of fewer than 2 ^ 64 - 257 bytes, is the string,
-- whatever the flags.
pub to_bytes-encode :
    (bs rest : List ℕ) (flags : ℕ)
    → Small (length (encode (str bs)))
    → to_bytes (encode (str bs) ++ rest) flags ≡ ok bs
unfolding to_bytes
to_bytes-encode bs rest flags fits =
    let size : length bs ≤ length (encode (str bs)) = length-body_of-le (str bs) in
    rw (is_data-str bs rest (omega arith)) (
      rw (payload-encode (str bs) fits rest) (
        rw (length_of-encode (str bs) fits rest) (
          rw (le→ltb (length bs) (length bs) (omega arith))
            (ap ok (take_all (length bs) bs (omega arith))))))
