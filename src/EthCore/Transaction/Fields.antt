-- ===== src/EthCore/Transaction/Fields.antt =====
-- The constructor of `TransactionBase` reads the strings of an encoded list, whatever `RLP` remembers
-- between the reads.
use web3cpp.Common.{
  ℕ, zero, suc, ◌-◌, ◌^◌, ◌≤◌, ◌<◌, ◌≡◌, sym, ap, ◌∙◌, true, false, none, some, List, [], ◌∷◌, ◌++◌,
  append-nil, length, length-append, take_all, ok, arith,
}
use web3cpp.EthCore.Transaction.Parse.{int_at, recipient_at, payload_at}
use web3cpp.EthCore.Transaction.Wire.{Word, number}
use web3cpp.Rlp.Index.{Cache, index}
use web3cpp.Rlp.Index.Cached.{IsCache, item_at, index-encode}
use web3cpp.Rlp.Item.{Items, str, node, nil, cons, encode, encode_items, encode_str, header}
use web3cpp.Rlp.View.{is_empty, is_data, require_good, payload, to_hash, to_bytes}
use web3cpp.Rlp.View.Decode.{payload-encode, is_data-str, to_bytes-encode}
use web3cpp.Rlp.View.Frames.{Small}
use web3cpp.Rlp.View.Integers.{to_int-digits}

-- The twenty bytes of an address.
address_shape : (a : List ℕ) → length a ≡ 20 → (encode_str a ≡ 0x94 ∷ a)
unfolding encode_str header
address_shape [] h = absurd (omega arith)
address_shape (b ∷ []) h = absurd (omega arith)
address_shape (b ∷ c ∷ bs) h = ground (arith, h)

pub to_hash-address : (a : List ℕ) → length a ≡ 20 → to_hash 20 (encode (str a)) 28 ≡ ok a
unfolding encode to_hash require_good is_data
to_hash-address a h =
    let shape = address_shape a h in
    let whole : encode_str a ≡ encode_str a ++ [] = sym (append-nil (encode_str a)) in
    let small : Small (length (encode (str a))) = rw shape (omega (arith, h)) in
    let body : payload (encode_str a) ≡ ok a = ap payload whole ∙ payload-encode (str a) small [] in
    let body' : payload (0x94 ∷ a) ≡ ok a = ap payload (sym shape) ∙ body in
    rw shape (rw body' (rw h (ap ok (take_all 20 a (omega (arith, h))))))

length-encode_str : (bs : List ℕ) → length bs ≤ length (encode_str bs)
unfolding encode_str header
length-encode_str [] = omega arith
length-encode_str (b ∷ []) = ground arith
length-encode_str (b ∷ c ∷ bs) =
    omega (arith, length-append (header 0x80 (length (b ∷ c ∷ bs))) (b ∷ c ∷ bs))

length-item_at : (xs : Items) (i : ℕ) → length (item_at xs i) ≤ length (encode_items xs)
unfolding item_at encode
length-item_at nil i = omega arith
length-item_at (cons x xs) zero = omega (arith, length-append (encode x) (encode_items xs))
length-item_at (cons x xs) (suc i) =
    omega (arith, length-append (encode x) (encode_items xs), length-item_at xs i)

item_at-le : (xs : Items) (i : ℕ) → length (item_at xs i) ≤ length (encode (node xs))
unfolding encode
item_at-le xs i =
    let n = length (encode_items xs) in
    omega (arith, length-item_at xs i, length-append (header 0xc0 n) (encode_items xs))

module _ (xs : Items) (fits : Small (length (encode (node xs)))) where
  abbrev list_data : List ℕ
  list_data = encode (node xs) ++ []

  -- The item `i` is the encoding of `bs`.
  abbrev Holds : ℕ → List ℕ → Type 0
  Holds i bs = item_at xs i ≡ encode (str bs)

  index-Holds :
      (c : Cache) (i : ℕ) (bs : List ℕ)
      → IsCache xs c
      → i < 2 ^ 64 - 1
      → Holds i bs
      → (c' : Cache) × (index list_data c i ≡ ok (c', encode (str bs))) × IsCache xs c'
  index-Holds c i bs valid lt e =
      let (c', found, valid') = index-encode xs [] fits c i valid lt in
      (c', found ∙ ap (λ d. ok (c', d)) e, valid')

  pub int_at-holds :
      (c : Cache) (i n : ℕ)
      → IsCache xs c
      → i < 2 ^ 64 - 1
      → item_at xs i ≡ encode (number n)
      → Word n
      → (c' : Cache) × (int_at list_data c i ≡ ok (c', n)) × IsCache xs c'
  unfolding int_at
  int_at-holds c i n valid lt e word =
      let (c', found, valid') = index-Holds c i _ valid lt e in
      (c', rw found (rw (to_int-digits n word)), valid')

  pub recipient_at-address :
      (c : Cache) (a : List ℕ)
      → IsCache xs c
      → item_at xs 3 ≡ encode (str a)
      → length a ≡ 20
      → (c' : Cache) × (recipient_at list_data c ≡ ok (c', some a)) × IsCache xs c'
  unfolding recipient_at
  recipient_at-address c a valid e h =
      let (c1, e1, v1) = index-Holds c 3 a valid (omega arith) e in
      let (c2, e2, v2) = index-Holds c1 3 a v1 (omega arith) e in
      let (c3, e3, v3) = index-Holds c2 3 a v2 (omega arith) e in
      let (c4, e4, v4) = index-Holds c3 3 a v3 (omega arith) e in
      let isdata : is_data (encode (str a)) ≡ true =
        ap is_data (sym (append-nil (encode (str a)))) ∙ is_data-str a [] (omega (arith, h)) in
      let full : is_empty (encode (str a)) ≡ false =
        unfold is_empty encode in rw (address_shape a h) (ground arith) in
      (c4, rw e1 (rw isdata (rw e2 (rw e3 (rw full (rw e4 (rw (to_hash-address a h))))))), v4)

  pub recipient_at-none :
      (c : Cache)
      → IsCache xs c
      → item_at xs 3 ≡ encode (str [])
      → (c' : Cache) × (recipient_at list_data c ≡ ok (c', none)) × IsCache xs c'
  unfolding recipient_at
  recipient_at-none c valid e =
      let (c1, e1, v1) = index-Holds c 3 [] valid (omega arith) e in
      let (c2, e2, v2) = index-Holds c1 3 [] v1 (omega arith) e in
      let (c3, e3, v3) = index-Holds c2 3 [] v2 (omega arith) e in
      (
        c3,
        rw e1 (rw e2 (rw e3 (unfold encode encode_str header is_data is_empty in ground arith))),
        v3,
      )

  pub payload_at-holds :
      (c : Cache) (bs : List ℕ)
      → IsCache xs c
      → item_at xs 5 ≡ encode (str bs)
      → (c' : Cache) × (payload_at list_data c ≡ ok (c', bs)) × IsCache xs c'
  unfolding payload_at
  payload_at-holds c bs valid e =
      let size : length (encode (str bs)) ≡ length (item_at xs 5) = sym (ap length e) in
      let small : Small (length (encode (str bs))) = omega (arith, size, item_at-le xs 5) in
      let lt : length bs < 2 ^ 64 =
        unfold encode in omega (arith, length-encode_str bs, size, item_at-le xs 5) in
      let (c1, e1, v1) = index-Holds c 5 bs valid (omega arith) e in
      let (c2, e2, v2) = index-Holds c1 5 bs v1 (omega arith) e in
      let isdata : is_data (encode (str bs)) ≡ true =
        ap is_data (sym (append-nil (encode (str bs)))) ∙ is_data-str bs [] lt in
      let bytes : to_bytes (encode (str bs)) 1 ≡ ok bs =
        ap (λ d. to_bytes d 1) (sym (append-nil (encode (str bs))))
        ∙ to_bytes-encode bs [] 1 small in
      (c2, rw e1 (rw isdata (rw e2 (rw bytes))), v2)
