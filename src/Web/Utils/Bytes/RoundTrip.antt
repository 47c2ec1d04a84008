-- ===== src/Web/Utils/Bytes/RoundTrip.antt =====
-- `hexToUtf8` and `hexToBytes` read back what `utf8ToHex` wrote.
use web3cpp.Common.{
  ℕ, ◌/◌, ◌%◌, ◌<◌, ◌≡◌, refl, ap, Bool, true, false, ◌&&◌, some, none, List, [], ◌∷◌, ◌++◌, map,
  ltb, ◌==◌, drop, all, All, ok, arith, Bool-cases, inl, inr,
}
use web3cpp.Common.Bytes.{IsByte}
use web3cpp.Common.Bits.{passes_under, passes_under→at}
use web3cpp.DevCore.Hex.{hex_digit, from_hex_char}
use web3cpp.Web.Texts.{is_hex_digit, has_prefix, same}
use web3cpp.Web.Utils.{is_hex, is_hex_strict}
use web3cpp.Web.Utils.Bytes.{
  print_hex_loop, print_hex, two_wide, utf8_loop, utf8_to_hex, stoul_loop, stoul, pairs_loop,
  hex_to_bytes, hex_to_utf8,
}

-- One byte is written with the two digits of its value.
pub byte_written :
    (b : ℕ) → b < 256 → two_wide (print_hex b) ≡ hex_digit (b / 16) ∷ hex_digit (b % 16) ∷ []
unfolding two_wide print_hex print_hex_loop
byte_written b h = elim (Bool-cases (ltb b 16)) [
  | inl small ↦
      let high : b / 16 ≡ 0 = ground (arith, small) in
      let low : b % 16 ≡ b = ground (arith, small) in
      rw small (rw high (rw low (unfold hex_digit in refl)))
  | inr large ↦ let top : ltb (b / 16) 16 ≡ true = ground arith in rw large (rw top refl)
]

value_at : ℕ → Bool
value_at d = elim (from_hex_char (hex_digit d)) [
  | none ↦ false
  | some v ↦ v == d && is_hex_digit (hex_digit d)
]

values : passes_under value_at 16 ≡ true
unfolding passes_under value_at from_hex_char hex_digit
values = refl

digit_value :
    (d : ℕ) → d < 16 → (from_hex_char (hex_digit d) ≡ some d) × (is_hex_digit (hex_digit d) ≡ true)
digit_value d h =
    let t : value_at d ≡ true = passes_under→at value_at 16 d h values in
    unfold value_at in ground (arith, t)

byte_read : (b : ℕ) → b < 256 → stoul (hex_digit (b / 16) ∷ hex_digit (b % 16) ∷ []) ≡ ok b
unfolding stoul stoul_loop
byte_read b h =
    let (high, _) = digit_value (b / 16) (omega arith) in
    let (low, _) = digit_value (b % 16) (omega arith) in ground (arith, high, low)

pairs_step :
    (b : ℕ) (tail bs : List ℕ)
    → b < 256
    → pairs_loop tail ≡ ok bs
    → pairs_loop (two_wide (print_hex b) ++ tail) ≡ ok (b ∷ bs)
pairs_step b tail bs h rest =
    rw (byte_written b h) (unfold pairs_loop in rw (byte_read b h) (rw rest refl))

pairs_loop-utf8_loop : (bs : List ℕ) → All IsByte bs → pairs_loop (utf8_loop bs) ≡ ok bs
unfolding utf8_loop
pairs_loop-utf8_loop [] h = unfold pairs_loop in refl
pairs_loop-utf8_loop (b ∷ bs) (hb, hs) =
    pairs_step b (utf8_loop bs) bs hb (pairs_loop-utf8_loop bs hs)

hex_step :
    (b : ℕ) (tail : List ℕ)
    → b < 256
    → all (λ c. is_hex_digit c) tail ≡ true
    → all (λ c. is_hex_digit c) (two_wide (print_hex b) ++ tail) ≡ true
hex_step b tail h rest =
    let (_, high) = digit_value (b / 16) (omega arith) in
    let (_, low) = digit_value (b % 16) (omega arith) in
    rw (byte_written b h) (unfold all in rw high (rw low rest))

pub utf8_loop_hex : (bs : List ℕ) → All IsByte bs → all (λ c. is_hex_digit c) (utf8_loop bs) ≡ true
unfolding utf8_loop
utf8_loop_hex [] h = unfold all in refl
utf8_loop_hex (b ∷ bs) (hb, hs) = hex_step b (utf8_loop bs) hb (utf8_loop_hex bs hs)

strict_written : (bs : List ℕ) → All IsByte bs → is_hex_strict (utf8_to_hex bs) ≡ true
unfolding is_hex_strict is_hex utf8_to_hex has_prefix same
strict_written bs h = utf8_loop_hex bs h

low_bytes : (bs : List ℕ) → All IsByte bs → map (λ b. b % 256) bs ≡ bs
low_bytes [] h = refl
low_bytes (b ∷ bs) (hb, hs) =
    let low : b % 256 ≡ b = omega arith in rw low (rw (low_bytes bs hs) refl)

-- `hexToUtf8` and `hexToBytes` of what `utf8ToHex` wrote for a text of bytes give the text back.
pub hex_to_utf8-utf8_to_hex :
    (bs : List ℕ)
    → All IsByte bs
    → (hex_to_utf8 (utf8_to_hex bs) ≡ ok bs) × (hex_to_bytes (utf8_to_hex bs) ≡ ok bs)
unfolding hex_to_utf8 hex_to_bytes
hex_to_utf8-utf8_to_hex bs h =
    let body : pairs_loop (drop 2 (utf8_to_hex bs)) ≡ ok bs =
      unfold utf8_to_hex in pairs_loop-utf8_loop bs h in
    (rw (strict_written bs h) (rw body (ap ok (low_bytes bs h))), rw (strict_written bs h) body)
