-- ===== src/Web/Solidity/Pack/RoundTrip.antt =====
-- What a reader of the ABI finds in the packings of byte strings and texts, and of arrays of them.
use web3cpp.Common.{
  ℕ, ◌*◌, ◌/◌, ◌%◌, ◌^◌, ◌<◌, ◌≡◌, refl, ap, ap₂, true, List, [], ◌∷◌, ◌++◌, map, ◌==◌, length,
  length-append, take, take_all, All, all, ok, ◌>>=◌, arith, inl, inr, Bool-cases,
}
use web3cpp.Common.Bytes.{codes, IsByte}
use web3cpp.Web.Platform.{Platform, HexLaws}
use web3cpp.Web.Solidity.Pack.{
  complete, digits_of_bytes, digits_of_text, pack_bytes, pack_string, pack_bytes_array,
  pack_string_array,
}
use web3cpp.Web.Solidity.Pack.Arrays.{packed_size, read_array, read_array-pack_elements}
use web3cpp.Web.Solidity.Pack.Reading.{IsHexText, read_bytes, read_bytes-pack_digits}
use web3cpp.Web.Texts.{is_hex_digit, has_prefix, same}
use web3cpp.Web.Utils.{is_hex, strip_hex_prefix}
use web3cpp.Web.Utils.Bytes.{two_wide, print_hex, utf8_loop, utf8_to_hex, hex_to_utf8}
use web3cpp.Web.Utils.Bytes.RoundTrip.{byte_written, utf8_loop_hex, hex_to_utf8-utf8_to_hex}

length-two_wide : (b : ℕ) → b < 256 → length (two_wide (print_hex b)) ≡ 2
length-two_wide b h = ap length (byte_written b h)

pub length-utf8_loop : (bs : List ℕ) → All IsByte bs → length (utf8_loop bs) ≡ 2 * length bs
unfolding utf8_loop
length-utf8_loop [] h = omega arith
length-utf8_loop (b ∷ bs) (hb, h) = omega (
  arith,
  length-append (two_wide (print_hex b)) (utf8_loop bs),
  length-two_wide b hb,
  length-utf8_loop bs h,
)

pub digits_of_text_lem : (bs : List ℕ) → All IsByte bs → digits_of_text bs ≡ utf8_loop bs
unfolding digits_of_text strip_hex_prefix utf8_to_hex is_hex has_prefix same
digits_of_text_lem bs h = rw (utf8_loop_hex bs h)

pub strip-hex :
    (hex : List ℕ) → is_hex hex ≡ true → all (λ c. is_hex_digit c) (strip_hex_prefix hex) ≡ true
unfolding is_hex strip_hex_prefix
strip-hex [] h = unfold all in refl
strip-hex (c ∷ cs) h = ground arith

pub complete-IsHexText : (s : List ℕ) → all (λ c. is_hex_digit c) s ≡ true → IsHexText (complete s)
unfolding complete all
complete-IsHexText s h = elim (Bool-cases (length s % 2 == 0)) [
  | inl even ↦ rw even (h, ground (arith, even))
  | inr odd ↦ rw odd (h, ground (arith, odd))
]

pub bytes-All :
    (hexes : List (List ℕ))
    → All (λ hex. is_hex hex ≡ true) hexes
    → All IsHexText (map digits_of_bytes hexes)
unfolding digits_of_bytes
bytes-All [] h = tt
bytes-All (hex ∷ hexes) (hx, h) =
    (complete-IsHexText (strip_hex_prefix hex) (strip-hex hex hx), bytes-All hexes h)

pub map-digits_of_text :
    (strs : List (List ℕ))
    → All (λ str. All IsByte str) strs
    → map digits_of_text strs ≡ map utf8_loop strs
map-digits_of_text [] h = refl
map-digits_of_text (str ∷ strs) (hs, h) =
    ap₂ (λ t ts. t ∷ ts) (digits_of_text_lem str hs) (map-digits_of_text strs h)

pub texts-All :
    (strs : List (List ℕ)) → All (λ str. All IsByte str) strs → All IsHexText (map utf8_loop strs)
texts-All [] h = tt
texts-All (str ∷ strs) (hs, h) =
    ((utf8_loop_hex str hs, omega (arith, length-utf8_loop str hs)), texts-All strs h)

module _ (p : Platform) (laws : HexLaws p) where
  -- packBytes of hex digits, fewer than 2 ^ 31, with a prefix or without, is read back by the ABI
  -- as the digits of their whole bytes: all of them, if they are even in number, and all but the
  -- last else.
  pub read_bytes-pack_bytes :
      (hex : List ℕ)
      → is_hex hex ≡ true
      → length (strip_hex_prefix hex) < 2 ^ 31
      → (pack_bytes p hex >>= read_bytes p)
        ≡ ok (take (2 * (length (strip_hex_prefix hex) / 2)) (strip_hex_prefix hex))
  unfolding pack_bytes
  read_bytes-pack_bytes hex h short =
      read_bytes-pack_digits p laws (strip_hex_prefix hex) (strip-hex hex h) short

  -- packString of a text of bytes, fewer than 2 ^ 30, is read back by the ABI, and the bytes that
  -- were read are those of the text.
  pub read_bytes-pack_string :
      (str : List ℕ)
      → All IsByte str
      → length str < 2 ^ 30
      → (pack_string p str >>= read_bytes p >>= λ s. hex_to_utf8 (codes "0x" ++ s)) ≡ ok str
  unfolding pack_string
  read_bytes-pack_string str h short =
      let size = length-utf8_loop str h in
      rw (digits_of_text_lem str h) (
        rw
          (read_bytes-pack_digits p laws (utf8_loop str) (utf8_loop_hex str h)
            (omega (arith, size)))
          (rw (take_all (2 * (length (utf8_loop str) / 2)) (utf8_loop str) (omega (arith, size)))
            (unfold utf8_to_hex in (hex_to_utf8-utf8_to_hex str h).0)))

  -- packBytesArray of texts of hex digits is read back by the ABI as the digits of each element,
  -- with a zero in front of an odd number of them, if the elements with their offsets and lengths
  -- take less than 2 ^ 30 digits.
  pub read_array-pack_bytes_array :
      (hexes : List (List ℕ))
      → All (λ hex. is_hex hex ≡ true) hexes
      → packed_size (map digits_of_bytes hexes) < 2 ^ 30
      → (pack_bytes_array p hexes >>= read_array p) ≡ ok (map digits_of_bytes hexes)
  unfolding pack_bytes_array
  read_array-pack_bytes_array hexes h small =
      read_array-pack_elements p laws (map digits_of_bytes hexes) (bytes-All hexes h) small

  -- packStringArray of texts of bytes is read back by the ABI as the two digits of each byte of
  -- each element, if the elements with their offsets and lengths take less than 2 ^ 30 digits.
  pub read_array-pack_string_array :
      (strs : List (List ℕ))
      → All (λ str. All IsByte str) strs
      → packed_size (map utf8_loop strs) < 2 ^ 30
      → (pack_string_array p strs >>= read_array p) ≡ ok (map utf8_loop strs)
  unfolding pack_string_array
  read_array-pack_string_array strs h small =
      rw (map-digits_of_text strs h)
        (read_array-pack_elements p laws (map utf8_loop strs) (texts-All strs h) small)
