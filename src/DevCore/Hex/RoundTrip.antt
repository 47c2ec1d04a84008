-- ===== src/DevCore/Hex/RoundTrip.antt =====
-- `fromHex` reads back what `toHex` wrote.
use mathlib.Core.Bool.{not}
use web3cpp.Common.{
  ℕ, ◌+◌, ◌*◌, ◌/◌, ◌%◌, ◌^◌, ltb, ◌<◌, ◌≡◌, refl, sym, ap, ◌∙◌, Bool, true, false, Option, none,
  some, List, [], ◌∷◌, ◌++◌, ◌==◌, length, ok, All, arith, append-nil, append_assoc,
}
use web3cpp.Common.Bytes.{IsByte}
use web3cpp.Common.Bits.{passes_under, passes_under→at}
use web3cpp.DevCore.Hex.{
  hex_digit, to_hex, to_hex_prefixed, from_hex_char, hex_pairs, hex_body, from_hex, prefixed,
}

is_value : ℕ → Option ℕ → Bool
is_value n none = false
is_value n (some m) = m == n

digit_table : passes_under (λ d. is_value d (from_hex_char (hex_digit d))) 16 ≡ true
unfolding passes_under is_value from_hex_char hex_digit
digit_table = refl

is_value→eq : (n : ℕ) (o : Option ℕ) → is_value n o ≡ true → o ≡ some n
unfolding is_value
is_value→eq n none h = cc
is_value→eq n (some m) h = ground arith

pub digit_read : (d : ℕ) → d < 16 → from_hex_char (hex_digit d) ≡ some d
digit_read d h =
    is_value→eq d (from_hex_char (hex_digit d))
      (passes_under→at (λ d. is_value d (from_hex_char (hex_digit d))) 16 d h digit_table)

hex_pairs_step :
    (throwing : Bool) (h l x y : ℕ) (rest ret : List ℕ)
    → from_hex_char h ≡ some x
    → from_hex_char l ≡ some y
    → hex_pairs throwing (h ∷ l ∷ rest) ret
      ≡ hex_pairs throwing rest (ret ++ ((x * 16 + y) % 256) ∷ [])
unfolding hex_pairs
hex_pairs_step throwing h l x y rest ret p q = ground (arith, p, q)

hex_pairs-to_hex :
    (throwing : Bool) (bs ret : List ℕ)
    → All IsByte bs
    → hex_pairs throwing (to_hex bs) ret ≡ ok (ret ++ bs)
unfolding to_hex
hex_pairs-to_hex throwing [] ret h = unfold hex_pairs in ap ok (sym (append-nil ret))
hex_pairs-to_hex throwing (b ∷ bs) ret (hb, hbs) =
    let byte : (b / 16 % 16 * 16 + b % 16) % 256 ≡ b = omega arith in
    hex_pairs_step throwing (hex_digit (b / 16 % 16)) (hex_digit (b % 16)) (b / 16 % 16) (b % 16)
      (to_hex bs) ret (digit_read (b / 16 % 16) (omega arith)) (digit_read (b % 16) (omega arith))
    ∙ ap (λ x. hex_pairs throwing (to_hex bs) (ret ++ x ∷ [])) byte
    ∙ hex_pairs-to_hex throwing bs (ret ++ b ∷ []) hbs
    ∙ ap ok (append_assoc ret (b ∷ []) bs)

pub length-to_hex : (bs : List ℕ) → length (to_hex bs) ≡ 2 * length bs
unfolding to_hex
length-to_hex [] = refl
length-to_hex (b ∷ bs) = omega (arith, length-to_hex bs)

even_length : (bs : List ℕ) → (length (to_hex bs) % 2 == 1) ≡ false
even_length bs = ground (arith, length-to_hex bs)

-- A hex digit is never 'x', so `toHex` alone never looks prefixed.
no_x_table : passes_under (λ d. not (hex_digit d == b'x')) 16 ≡ true
unfolding passes_under hex_digit
no_x_table = refl

not_prefixed : (bs : List ℕ) → prefixed (to_hex bs) ≡ false
unfolding prefixed to_hex
not_prefixed [] = refl
not_prefixed (b ∷ bs) =
    ground
      (arith, passes_under→at (λ d. not (hex_digit d == b'x')) 16 (b % 16) (omega arith) no_x_table)

prefix_there : (s : List ℕ) → prefixed (b'0' ∷ b'x' ∷ s) ≡ true
unfolding prefixed
prefix_there s = ground arith

even_prefixed : (bs : List ℕ) → (length (b'0' ∷ b'x' ∷ to_hex bs) % 2 == 1) ≡ false
even_prefixed bs = ground (arith, length-to_hex bs)

short_text : (bs : List ℕ) → 2 * length bs + 2 < 2 ^ 32 → ltb (length (to_hex bs)) (2 ^ 32) ≡ true
short_text bs h = ground (arith, length-to_hex bs)

short_prefixed :
    (bs : List ℕ)
    → 2 * length bs + 2 < 2 ^ 32
    → ltb (length (b'0' ∷ b'x' ∷ to_hex bs)) (2 ^ 32) ≡ true
short_prefixed bs h = ground (arith, length-to_hex bs)

-- fromHex reads back, in both modes of failure, what toHex and toHexPrefixed wrote for bytes, if
-- the text with its prefix is shorter than 2 ^ 32 characters.
pub from_hex-to_hex :
    (bs : List ℕ) (throwing : Bool)
    → All IsByte bs
    → 2 * length bs + 2 < 2 ^ 32
    → (from_hex (to_hex bs) throwing ≡ ok bs) × (from_hex (to_hex_prefixed bs) throwing ≡ ok bs)
unfolding from_hex to_hex_prefixed hex_body
from_hex-to_hex bs throwing h fits = (
  rw (short_text bs fits)
      (rw (not_prefixed bs) (rw (even_length bs) (hex_pairs-to_hex throwing bs [] h))),
  rw (short_prefixed bs fits)
      (rw (prefix_there (to_hex bs)) (rw (even_prefixed bs) (hex_pairs-to_hex throwing bs [] h))),
)
