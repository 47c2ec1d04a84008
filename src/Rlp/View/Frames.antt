-- ===== src/Rlp/View/Frames.antt =====
-- What the readers of `class RLP` find at the start of an encoded item.
use web3cpp.Common.{
  ℕ, suc, ◌+◌, ◌-◌, ◌^◌, ◌≤◌, ◌<◌, ◌≡◌, ◌≢◌, refl, List, [], ◌∷◌, ◌++◌, ltb, get_or, length,
  length-append, take, take-append, arith, ok, Bool-cases, inl, inr, ltb→lt, ltb→le, false,
}
use web3cpp.Common.BigEndian.{from_big_endian}
use web3cpp.Common.BigEndian.Digits.{digits, first_digit, length-digits-le, from_big_endian-digits}
use web3cpp.Rlp.View.{is_null, require_good, long_length, length_of, payload_offset, actual_size}
use web3cpp.Rlp.Item.{Item, Items, str, node, header, encode_str, encode, encode_items}
use web3cpp.Rlp.Item.Refinement.{length-encode_str-le}

-- A payload of `n` bytes behind `offset` bytes of header.
pub record Frame (d : List ℕ) (offset n : ℕ) : Type 0 where
  pub present : is_null d ≡ false
  pub announced : length_of d ≡ ok n
  pub behind : payload_offset d ≡ offset
  pub size : actual_size d ≡ ok (offset + n)

-- Sizes for which `payloadOffset() + length()` cannot overflow.
abbrev pub Small : ℕ → Type 0
Small n = n < 2 ^ 64 - 257

single-Frame : (b : ℕ) (rest : List ℕ) → b < 0x80 → Frame (b ∷ rest) 0 1
unfolding length_of actual_size payload_offset require_good
single-Frame b rest h = ground arith

short_str-Frame : (n : ℕ) (rest : List ℕ) → n < 56 → n ≢ 1 → Frame ((0x80 + n) ∷ rest) 1 n
unfolding length_of actual_size payload_offset require_good
short_str-Frame n rest h one = ground arith

one_byte-Frame : (b : ℕ) (rest : List ℕ) → 0x80 ≤ b → Frame (0x81 ∷ b ∷ rest) 1 1
unfolding length_of actual_size payload_offset require_good
one_byte-Frame b rest h = ground arith

short_list-Frame : (n : ℕ) (rest : List ℕ) → n < 56 → Frame ((0xc0 + n) ∷ rest) 1 n
unfolding length_of actual_size payload_offset require_good
short_list-Frame n rest h = ground arith

long_length-digits :
    (c n : ℕ) (rest : List ℕ)
    → 56 ≤ n
    → Small n
    → long_length (c ∷ (digits n ++ rest)) (length (digits n)) ≡ ok n
unfolding long_length
long_length-digits c n rest h fits =
    let (b, bs, e, nz) = first_digit n (λ z. absurd (omega arith)) in
    let few : length (digits n) ≤ 8 = length-digits-le 8 n (omega arith) in
    let size : length (digits n ++ rest) ≡ length (digits n) + length rest =
      length-append (digits n) rest in
    let value : from_big_endian 64 (take (length (digits n)) (digits n ++ rest)) ≡ n =
      rw (take-append (digits n) rest) (from_big_endian-digits 64 n (omega arith)) in
    let first : get_or (digits n ++ rest) 0 0 ≡ b = rw e in rw value (rw first (ground arith))

-- The same for the size behind the first byte of a long string or list.
long-Frame :
    (n k : ℕ) (ds : List ℕ)
    → 1 ≤ k
    → k ≤ 8
    → (long_length ((0xb7 + k) ∷ ds) k ≡ ok n → Frame ((0xb7 + k) ∷ ds) (suc k) n)
      × (long_length ((0xf7 + k) ∷ ds) k ≡ ok n → Frame ((0xf7 + k) ∷ ds) (suc k) n)
unfolding length_of actual_size payload_offset require_good
long-Frame n k ds h1 h8 = (λ e. ground arith, λ e. ground arith)

digits_count : (n : ℕ) → 56 ≤ n → Small n → (1 ≤ length (digits n)) × (length (digits n) ≤ 8)
digits_count n h fits =
    let (b, bs, e, nz) = first_digit n (λ z. absurd (omega arith)) in
    (rw e (omega arith), length-digits-le 8 n (omega arith))

header-Frame_list :
    (n : ℕ) (rest : List ℕ) → Small n → Frame (header 0xc0 n ++ rest) (length (header 0xc0 n)) n
unfolding header
header-Frame_list n rest fits = elim (Bool-cases (ltb n 56)) [
  | inl e ↦ rw e (short_list-Frame n rest (ltb→lt _ _ e))
  | inr e ↦
      let h = ltb→le _ _ e in
      let (lo, hi) = digits_count n h fits in
      rw e (
        (long-Frame n (length (digits n)) (digits n ++ rest) lo hi).1
          (long_length-digits (0xf7 + length (digits n)) n rest h fits))
]

header-Frame_str :
    (n : ℕ) (rest : List ℕ)
    → n ≢ 1
    → Small n
    → Frame (header 0x80 n ++ rest) (length (header 0x80 n)) n
unfolding header
header-Frame_str n rest one fits = elim (Bool-cases (ltb n 56)) [
  | inl e ↦ rw e (short_str-Frame n rest (ltb→lt _ _ e) one)
  | inr e ↦
      let h = ltb→le _ _ e in
      let (lo, hi) = digits_count n h fits in
      rw e (
        (long-Frame n (length (digits n)) (digits n ++ rest) lo hi).0
          (long_length-digits (0xb7 + length (digits n)) n rest h fits))
]

-- An encoding is a header, which may be empty, and the payload that it announces.
pub record Split (enc body : List ℕ) : Type 0 where
  pub front : List ℕ
  pub parts : enc ≡ front ++ body
  pub frame : (rest : List ℕ) → Frame (front ++ (body ++ rest)) (length front) (length body)

split_str : (bs : List ℕ) → Small (length bs) → Split (encode_str bs) bs
unfolding encode_str
split_str [] fits = record {
  front = header 0x80 0;
  parts = refl;
  frame = λ rest. header-Frame_str 0 rest (λ z. absurd (omega arith)) fits;
}
split_str (b ∷ []) fits = elim (Bool-cases (ltb b 0x80)) [
  | inl e ↦ record { front = []; parts = rw e; frame = λ rest. single-Frame b rest (ltb→lt _ _ e) }
  | inr e ↦ record {
    front = 0x81 ∷ [];
    parts = rw e;
    frame = λ rest. one_byte-Frame b rest (ltb→le _ _ e);
  }
]
split_str (b ∷ c ∷ bs) fits =
    let n = length (b ∷ c ∷ bs) in
    record {
      front = header 0x80 n;
      parts = refl;
      frame = λ rest. header-Frame_str n (b ∷ c ∷ (bs ++ rest)) (λ z. absurd (omega arith)) fits;
    }

split_node :
    (xs : Items) → Small (length (encode_items xs)) → Split (encode (node xs)) (encode_items xs)
unfolding encode
split_node xs fits = record {
  front = header 0xc0 (length (encode_items xs));
  parts = refl;
  frame = λ rest. header-Frame_list (length (encode_items xs)) (encode_items xs ++ rest) fits;
}

-- The payload of an encoded item: the string itself, or the encodings of the list's items.
abbrev pub body_of : Item → List ℕ
body_of (str bs) = bs
body_of (node xs) = encode_items xs

pub length-body_of-le : (x : Item) → length (body_of x) ≤ length (encode x)
unfolding encode
length-body_of-le (str bs) = length-encode_str-le bs
length-body_of-le (node xs) =
    omega (arith, length-append (header 0xc0 (length (encode_items xs))) (encode_items xs))

pub split : (x : Item) → Small (length (encode x)) → Split (encode x) (body_of x)
unfolding encode
split (str bs) fits = split_str bs (omega (arith, length-body_of-le (str bs)))
split (node xs) fits = split_node xs (omega (arith, length-body_of-le (node xs)))
