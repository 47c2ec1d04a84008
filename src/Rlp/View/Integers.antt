-- ===== src/Rlp/View/Integers.antt =====
-- `append(bigint)` writes the digits of the number as a string, and `toInt` reads them back.
use web3cpp.Common.{
  ℕ, zero, suc, ◌+◌, ◌/◌, ◌%◌, ◌^◌, ◌≤◌, ◌<◌, ◌≡◌, ◌≢◌, refl, sym, ap, ◌∙◌, List, [], ◌∷◌, ◌++◌,
  append-nil, append_assoc, ltb, ◌==◌, length, arith, ok, ◌>>=◌, Bool-cases, inl, inr, lt→ltb,
  ltb→lt, le→ltb, ltb→le, true, false,
}
use web3cpp.Common.BigEndian.{bytes_required, from_big_endian}
use web3cpp.Common.BigEndian.Digits.{
  digits, digits-zero, digits_step, length-digits_step, first_digit, length-digits-le,
  from_big_endian-digits, bytes_required-digits,
}
use mathlib.Core.Path.{subst}
use web3cpp.Rlp.View.{is_null, is_list, is_int, require_good, payload, to_int}
use web3cpp.Rlp.View.Frames.{Small}
use web3cpp.Rlp.View.Decode.{payload-encode}
use web3cpp.Rlp.Item.Refinement.{append_data_lem}
use web3cpp.Rlp.Item.{stream_item}
use web3cpp.Rlp.Stream.{RlpStream, int_bytes, append_int, note_appended, empty, finished}
use web3cpp.Rlp.Stream.Store.{push_int-digits}
use web3cpp.Rlp.Item.{str, encode, encode_str, header}

digits_small : (v : ℕ) → v < 256 → v ≢ 0 → digits v ≡ v ∷ []
digits_small v h nz =
    let low : v / 256 ≡ 0 = omega arith in
    let same : v % 256 ≡ v = omega arith in
    rw (digits_step v nz) (rw low (rw digits-zero (rw same)))

encode_str_two : (bs : List ℕ) → 2 ≤ length bs → encode_str bs ≡ header 0x80 (length bs) ++ bs
unfolding encode_str
encode_str_two [] h = absurd (omega arith)
encode_str_two (b ∷ []) h = absurd (omega arith)
encode_str_two (b ∷ c ∷ bs) h = refl

-- A number from 128 on takes two bytes, or one that is not below 0x80.
digits_wide :
    (v : ℕ) → 128 ≤ v → encode_str (digits v) ≡ header 0x80 (length (digits v)) ++ digits v
unfolding encode_str
digits_wide v h = elim (Bool-cases (ltb v 256)) [
  | inl e ↦
      rw (digits_small v (ltb→lt _ _ e) (λ z. absurd (omega arith)))
        (unfold header in rw (le→ltb v 0x80 h))
  | inr e ↦
      let big : 256 ≤ v = ltb→le _ _ e in
      let step = length-digits_step v (λ z. absurd (omega arith)) in
      let step' = length-digits_step (v / 256) (λ z. absurd (omega arith)) in
      encode_str_two (digits v) (omega arith)
]

int_bytes_lem :
    (i : ℕ) (out : List ℕ) → i < 256 ^ 55 → int_bytes i out ≡ ok (out ++ encode_str (digits i))
unfolding int_bytes
int_bytes_lem zero out fits = rw digits-zero (unfold encode_str header in refl)
int_bytes_lem (suc i) out fits = elim (Bool-cases (ltb (suc i) 0x80)) [
  | inl e ↦
      let lt = ltb→lt _ _ e in
      let nz : (suc i == 0) ≡ false = ground arith in
      rw nz (
        rw (digits_small (suc i) (omega arith) (λ z. absurd (omega arith)))
          (unfold encode_str in rw e (ap (λ b. ok (out ++ b ∷ [])) (omega arith))))
  | inr e ↦
      let nz : (suc i == 0) ≡ false = ground arith in
      let few : length (digits (suc i)) ≤ 55 = length-digits-le 55 (suc i) fits in
      let br = bytes_required-digits (suc i) in
      let byte : (bytes_required (suc i) + 0x80) % 256 ≡ 0x80 + length (digits (suc i)) =
        omega arith in
      rw nz (
        rw e (
          rw (lt→ltb (bytes_required (suc i)) 56 (omega arith)) (
            rw push_int-digits (
              rw byte (
                rw (digits_wide (suc i) (ltb→le _ _ e)) (
                  unfold header in
                  rw (lt→ltb (length (digits (suc i))) 56 (omega arith)) (
                    ap ok (
                      append_assoc out ((0x80 + length (digits (suc i))) ∷ [])
                        (digits (suc i))))))))))
]

to_int_parts :
    (d body : List ℕ) (width max_size : ℕ)
    → require_good d ≡ ok tt
    → is_int d ≡ ok true
    → is_list d ≡ false
    → is_null d ≡ false
    → payload d ≡ ok body
    → length body ≤ max_size
    → to_int width max_size d 12 ≡ ok (from_big_endian width body)
unfolding to_int
to_int_parts d body width max_size g i l n p fits =
    rw g (rw i (rw l (rw n (rw p (rw (le→ltb max_size (length body) fits))))))

-- What the encoding of a number that fits 32 bytes looks like to the tests of `toInt`.
record LooksInt (d : List ℕ) : Type 0 where
  good : require_good d ≡ ok tt
  int : is_int d ≡ ok true
  no_list : is_list d ≡ false
  present : is_null d ≡ false

single_looks : (b : ℕ) → b < 0x80 → b ≢ 0 → LooksInt (b ∷ [])
unfolding require_good is_int is_list is_null
single_looks b h nz = ground arith

header_looks :
    (k b : ℕ) (bs : List ℕ)
    → 1 ≤ k
    → k < 56
    → b ≢ 0
    → (k ≡ 1 → 0x80 ≤ b)
    → LooksInt ((0x80 + k) ∷ b ∷ bs)
unfolding require_good is_int is_list is_null
header_looks k b bs h1 h56 nz one = ground arith

zero_looks : LooksInt (0x80 ∷ [])
unfolding require_good is_int is_list is_null
zero_looks = ground arith

one_digit :
    (v b : ℕ) (bs : List ℕ) → 0x80 ≤ v → digits v ≡ b ∷ bs → length (digits v) ≡ 1 → 0x80 ≤ b
one_digit v b bs h e one = elim (Bool-cases (ltb v 256)) [
  | inl lt ↦
      let same = digits_small v (ltb→lt _ _ lt) (λ z. absurd (omega arith)) in
      let eq : v ∷ [] ≡ b ∷ bs = sym same ∙ e in ground arith
  | inr ge ↦
      let big : 256 ≤ v = ltb→le _ _ ge in
      let step = length-digits_step v (λ z. absurd (omega arith)) in
      let step' = length-digits_step (v / 256) (λ z. absurd (omega arith)) in absurd (omega arith)
]

pub short_encoding : (bs : List ℕ) → length bs < 56 → length (encode_str bs) ≤ 1 + length bs
unfolding encode_str header
short_encoding [] h = omega arith
short_encoding (b ∷ []) h = ground arith
short_encoding (b ∷ c ∷ bs) h = rw (lt→ltb (length (b ∷ c ∷ bs)) 56 h) (omega arith)

pub int_fits : (i : ℕ) → i < 2 ^ 256 → Small (length (encode (str (digits i))))
unfolding encode
int_fits i h =
    let few : length (digits i) ≤ 32 = length-digits-le 32 i (omega arith) in
    omega (arith, short_encoding (digits i) (omega arith))

encode_looks : (i : ℕ) → i < 256 ^ 32 → LooksInt (encode_str (digits i))
encode_looks zero fits = rw digits-zero (unfold encode_str header in zero_looks)
encode_looks (suc i) fits = elim (Bool-cases (ltb (suc i) 0x80)) [
  | inl e ↦
      let lt = ltb→lt _ _ e in
      let nz : suc i ≢ 0 = λ z. absurd (omega arith) in
      rw (digits_small (suc i) (omega arith) nz)
        (unfold encode_str in rw e (single_looks (suc i) lt nz))
  | inr e ↦
      let big : 0x80 ≤ suc i = ltb→le _ _ e in
      let nz : suc i ≢ 0 = λ z. absurd (omega arith) in
      let few : length (digits (suc i)) ≤ 32 = length-digits-le 32 (suc i) fits in
      let (b, bs, split, b_nz) = first_digit (suc i) nz in
      let some_digit : 1 ≤ length (digits (suc i)) = rw split (omega arith) in
      rw (digits_wide (suc i) big) (
        unfold header in
        rw (lt→ltb (length (digits (suc i))) 56 (omega arith)) (
          subst (λ ds. LooksInt ((0x80 + length (digits (suc i))) ∷ ds)) (sym split)
            (header_looks (length (digits (suc i))) b bs some_digit (omega arith) b_nz
              (one_digit (suc i) b bs big split))))
]

-- `toInt<u256>` of the encoded digits of a number.
pub to_int-digits : (i : ℕ) → i < 2 ^ 256 → to_int 256 32 (encode (str (digits i))) 12 ≡ ok i
unfolding encode
to_int-digits i fits =
    let looks = encode_looks i (omega arith) in
    let few : length (digits i) ≤ 32 = length-digits-le 32 i (omega arith) in
    let d : List ℕ = encode_str (digits i) in
    let body : payload d ≡ ok (digits i) =
      ap payload (sym (append-nil d)) ∙ payload-encode (str (digits i)) (int_fits i fits) [] in
    to_int_parts d (digits i) 256 32 looks.good looks.int looks.no_list looks.present body few
    ∙ ap ok (from_big_endian-digits 256 i fits)

-- `append(bigint)` writes the digits as a string.
pub append_int-digits :
    (i : ℕ) (s : RlpStream) → i < 2 ^ 256 → append_int i s ≡ stream_item (str (digits i)) s
unfolding append_int stream_item
append_int-digits i s fits =
    let few : length (digits i) ≤ 32 = length-digits-le 32 i (omega arith) in
    rw (int_bytes_lem i s.out (omega arith)) (sym (append_data_lem (digits i) s (omega arith)))

-- `toInt<u256>` of what `append(bigint)` wrote to a fresh stream is the number, below 2 ^ 256.
pub to_int-append_int :
    (i : ℕ) → i < 2 ^ 256 → (append_int i empty >>= finished >>= λ d. to_int 256 32 d 12) ≡ ok i
unfolding append_int note_appended finished encode
to_int-append_int i fits = rw (int_bytes_lem i [] (omega arith)) (to_int-digits i fits)
