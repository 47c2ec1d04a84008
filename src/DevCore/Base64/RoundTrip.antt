-- ===== src/DevCore/Base64/RoundTrip.antt =====
-- `fromBase64` reads back what `toBase64` wrote.
use web3cpp.Common.{
  ℕ, ◌^◌, ◌≤◌, ltb, length, ok, inl, inr, Bool-cases, ◌<◌, ◌≡◌, refl, ap, ◌∙◌, Bool, true, not,
  ◌&&◌, List, [], ◌∷◌, ◌==◌, All, arith,
}
use web3cpp.Common.Bytes.{IsByte}
use web3cpp.Common.Bits.{passes_under, passes_under→at}
use web3cpp.DevCore.Base64.{
  is_base64, find_base64_char_index, base64_chars, sextet_0, sextet_1, sextet_2, sextet_3, letter,
  to_base64_encoding, to_base64, base64_prefix, octet_0, octet_1, octet_2, decode_groups,
  from_base64,
}

-- A letter of the table is read, and its index is found again.
fits : ℕ → Bool
fits d =
    let c = letter base64_chars d in not (c == b'=') && is_base64 c && find_base64_char_index c == d

table : passes_under fits 64 ≡ true
unfolding passes_under fits letter is_base64 find_base64_char_index
table = refl

letter_read :
    (d : ℕ)
    → d < 64
    → not (letter base64_chars d == b'=') && is_base64 (letter base64_chars d) ≡ true
letter_read d h =
    let t : fits d ≡ true = passes_under→at fits 64 d h table in unfold fits in ground (arith, t)

letter_index : (d : ℕ) → d < 64 → find_base64_char_index (letter base64_chars d) ≡ d
letter_index d h =
    let t : fits d ≡ true = passes_under→at fits 64 d h table in unfold fits in ground (arith, t)

-- The loop reads a letter.
prefix_step :
    (d : ℕ) (rest : List ℕ)
    → d < 64
    → base64_prefix (letter base64_chars d ∷ rest) ≡ letter base64_chars d ∷ base64_prefix rest
unfolding base64_prefix
prefix_step d rest h = rw (letter_read d h) refl

sextet_bounds :
    (a b : ℕ) → (sextet_0 a < 64) × (sextet_1 a b < 64) × (sextet_2 a b < 64) × (sextet_3 a < 64)
unfolding sextet_0 sextet_1 sextet_2 sextet_3
sextet_bounds a b = (omega arith, omega arith, omega arith, omega arith)

octets :
    (a b c : ℕ)
    → a < 256
    → b < 256
    → c < 256
    → (octet_0 (sextet_0 a) (sextet_1 a b) ≡ a)
      × (octet_1 (sextet_1 a b) (sextet_2 b c) ≡ b)
      × (octet_2 (sextet_2 b c) (sextet_3 c) ≡ c)
unfolding sextet_0 sextet_1 sextet_2 sextet_3 octet_0 octet_1 octet_2
octets a b c ha hb hc = (omega arith, omega arith, omega arith)

-- Four letters are decoded to their three bytes.
decode_group :
    (a b c : ℕ) (rest : List ℕ)
    → a < 256
    → b < 256
    → c < 256
    → decode_groups (
        letter base64_chars (sextet_0 a)
        ∷ letter base64_chars (sextet_1 a b)
        ∷ letter base64_chars (sextet_2 b c)
        ∷ letter base64_chars (sextet_3 c)
        ∷ rest)
      ≡ a ∷ b ∷ c ∷ decode_groups rest
decode_group a b c rest ha hb hc =
    let (o0, o1, o2) = octets a b c ha hb hc in
    let (s0, s1, _, _) = sextet_bounds a b in
    let (_, _, s2, _) = sextet_bounds b c in
    let (_, _, _, s3) = sextet_bounds c c in
    unfold decode_groups in
    rw (letter_index (sextet_0 a) s0) (
      rw (letter_index (sextet_1 a b) s1) (
        rw (letter_index (sextet_2 b c) s2)
          (rw (letter_index (sextet_3 c) s3) (rw o0 (rw o1 (rw o2 refl))))))

-- What the encoder writes is read to its padding.
decode_encoding :
    (bs : List ℕ)
    → All IsByte bs
    → decode_groups (base64_prefix (to_base64_encoding bs base64_chars true)) ≡ bs
unfolding to_base64_encoding
decode_encoding [] h = unfold decode_groups base64_prefix in refl
decode_encoding (a ∷ []) (ha, _) =
    let (o, _, _) = octets a 0 0 ha (omega arith) (omega arith) in
    let (s0, s1, _, _) = sextet_bounds a 0 in
    rw (prefix_step (sextet_0 a) (letter base64_chars (sextet_1 a 0) ∷ b'=' ∷ b'=' ∷ []) s0) (
      rw (prefix_step (sextet_1 a 0) (b'=' ∷ b'=' ∷ []) s1) (
        unfold decode_groups base64_prefix in
        rw (letter_index (sextet_0 a) s0) (rw (letter_index (sextet_1 a 0) s1) (rw o refl))))
decode_encoding (a ∷ b ∷ []) (ha, (hb, _)) =
    let (o0, o1, _) = octets a b 0 ha hb (omega arith) in
    let (s0, s1, _, _) = sextet_bounds a b in
    let (_, _, s2, _) = sextet_bounds b 0 in
    rw
      (prefix_step (sextet_0 a)
        (letter base64_chars (sextet_1 a b) ∷ letter base64_chars (sextet_2 b 0) ∷ b'=' ∷ []) s0)
      (rw (prefix_step (sextet_1 a b) (letter base64_chars (sextet_2 b 0) ∷ b'=' ∷ []) s1) (
        rw (prefix_step (sextet_2 b 0) (b'=' ∷ []) s2) (
          unfold decode_groups base64_prefix in
          rw (letter_index (sextet_0 a) s0) (
            rw (letter_index (sextet_1 a b) s1)
              (rw (letter_index (sextet_2 b 0) s2) (rw o0 (rw o1 refl)))))))
decode_encoding (a ∷ b ∷ c ∷ rest) (ha, (hb, (hc, hs))) =
    let (o0, o1, o2) = octets a b c ha hb hc in
    let (s0, s1, _, _) = sextet_bounds a b in
    let (_, _, s2, _) = sextet_bounds b c in
    let (_, _, _, s3) = sextet_bounds c c in
    let tail = to_base64_encoding rest base64_chars true in
    rw
      (prefix_step (sextet_0 a)
        (letter base64_chars (sextet_1 a b)
          ∷ letter base64_chars (sextet_2 b c)
          ∷ letter base64_chars (sextet_3 c)
          ∷ tail)
        s0)
      (rw
        (prefix_step (sextet_1 a b)
          (letter base64_chars (sextet_2 b c) ∷ letter base64_chars (sextet_3 c) ∷ tail) s1)
        (rw (prefix_step (sextet_2 b c) (letter base64_chars (sextet_3 c) ∷ tail) s2) (
          rw (prefix_step (sextet_3 c) tail s3) (
            decode_group a b c (base64_prefix tail) ha hb hc
            ∙ ap (λ l. a ∷ b ∷ c ∷ l) (decode_encoding rest hs)))))

base64_prefix-le : (s : List ℕ) → length (base64_prefix s) ≤ length s
unfolding base64_prefix
base64_prefix-le [] = omega arith
base64_prefix-le (c ∷ cs) = elim (Bool-cases (not (c == b'=') && is_base64 c)) [
  | inl read ↦ rw read (omega (arith, base64_prefix-le cs))
  | inr stops ↦ rw stops (omega arith)
]

read_few : (s : List ℕ) → length s < 2 ^ 31 → ltb (length s) (2 ^ 31) ≡ true
read_few s h = ground arith

-- fromBase64 reads back what toBase64 wrote for bytes, if the text is shorter than 2 ^ 31
-- characters.
pub from_base64-to_base64 :
    (bs : List ℕ)
    → All IsByte bs
    → length (to_base64 bs) < 2 ^ 31
    → from_base64 (to_base64 bs) ≡ ok bs
unfolding from_base64 to_base64
from_base64-to_base64 bs h fits =
    let text = to_base64_encoding bs base64_chars true in
    let few : ltb (length (base64_prefix text)) (2 ^ 31) ≡ true =
      read_few (base64_prefix text) (omega (arith, base64_prefix-le text)) in
    rw few (ap ok (decode_encoding bs h))
