-- ===== src/Web/Solidity/Pack.antt =====
-- The packing of single values and of arrays in src/Solidity.cpp. Texts of hex digits are twice as long
-- as their bytes; a word has 64.
pub mod Words
pub mod Reading
pub mod Arrays
pub mod RoundTrip
use web3cpp.Common.{
  ℕ, zero, suc, ◌+◌, ◌-◌, ◌*◌, ◌/◌, ◌%◌, Bool, true, false, not, List, [], ◌∷◌, ◌++◌, map, ltb,
  ◌==◌, if◌then◌else◌, length, take, Outcome, ok, stuck, ◌>>=◌,
}
use web3cpp.Common.Bytes.{codes}
use web3cpp.DevCore.Hex.{to_hex}
use web3cpp.Web.Platform.{Platform}
use web3cpp.Web.Texts.{same}
use web3cpp.Web.Utils.{to_lowercase_address, strip_hex_prefix, pad_left, pad_right, to_hex_number}
use web3cpp.Web.Utils.Bytes.{utf8_to_hex, to_hex_text}

-- `do { padding += 64; } while (padding < n);`
unfoldable pub padding_loop : ℕ → ℕ → ℕ → Outcome ℕ
padding_loop zero padding n = stuck
padding_loop (suc fuel) padding n =
    let rest = padding_loop fuel (padding + 64) n in
    if ltb (padding + 64) n then rest else ok (padding + 64)

-- From `padding = 0`; a round is left for each character, and one.
unfoldable pub padding_of : ℕ → Outcome ℕ
padding_of n = padding_loop (suc n) 0 n

unfoldable pub pack_bool : List ℕ → List ℕ
pack_bool b =
    pad_left
      (if same b (codes "true") then codes "1" else if same b (codes "false") then codes "0" else b)
      64 b'0'

unfoldable pub pack_address : List ℕ → List ℕ
pack_address add = pad_left (strip_hex_prefix (to_lowercase_address add)) 64 b'0'

-- The texts one behind the other.
unfoldable pub join : List (List ℕ) → List ℕ
join [] = []
join (t ∷ ts) = t ++ join ts

-- `f` on each element, in order.
unfoldable pub join_each {ℓ} : {A : Type ℓ} → (A → Outcome (List ℕ)) → List A → Outcome (List ℕ)
join_each f [] = ok []
join_each f (x ∷ xs) = f x >>= λ t. join_each f xs >>= λ ts. ok (t ++ ts)

-- `if (hS.length() % 2 != 0) hS.insert(0, "0")`
unfoldable pub complete : List ℕ → List ℕ
complete s = if length s % 2 == 0 then s else b'0' ∷ s

-- The digits of an element of `packBytesArray`, and of one of `packStringArray`.
unfoldable pub digits_of_bytes : List ℕ → List ℕ
digits_of_bytes hex = complete (strip_hex_prefix hex)

unfoldable pub digits_of_text : List ℕ → List ℕ
digits_of_text str = strip_hex_prefix (utf8_to_hex str)

-- What the loops of `packBytesArray` and `packStringArray` collect for one element.
pub record Element : Type 0 where
  pub offset : List ℕ
  pub size : List ℕ
  pub content : List ℕ

unfoldable pub join_offsets : List Element → List ℕ
join_offsets [] = []
join_offsets (e ∷ es) = e.offset ++ join_offsets es

unfoldable pub join_contents : List Element → List ℕ
join_contents [] = []
join_contents (e ∷ es) = e.size ++ e.content ++ join_contents es

module _ (p : Platform) where
  unfoldable pub pack_function : List ℕ → List ℕ
  pack_function func = take 8 (to_hex (p.keccak func))

  unfoldable pub pack_uint : List ℕ → Outcome (List ℕ)
  pack_uint num = to_hex_text p num >>= λ h. ok (pad_left h 64 b'0')

  -- `Utils::padLeft(Utils::toHex(n), 64)` of a number.
  unfoldable pub word : ℕ → List ℕ
  word n = pad_left (to_hex_number p n) 64 b'0'

  -- The offset, the length and the padded data of a text of hex digits.
  unfoldable pub pack_digits : List ℕ → Outcome (List ℕ)
  pack_digits strip = padding_of (length strip) >>= λ padding.
      ok (word 32 ++ word (length strip / 2) ++ pad_right strip padding b'0')

  unfoldable pub pack_bytes : List ℕ → Outcome (List ℕ)
  pack_bytes hex = pack_digits (strip_hex_prefix hex)

  unfoldable pub pack_string : List ℕ → Outcome (List ℕ)
  pack_string str = pack_digits (digits_of_text str)

  unfoldable pub pack_uint_array : List (List ℕ) → Outcome (List ℕ)
  pack_uint_array nums =
      join_each pack_uint nums >>= λ arr_data. ok (word 32 ++ word (length nums) ++ arr_data)

  unfoldable pub pack_address_array : List (List ℕ) → Outcome (List ℕ)
  pack_address_array adds = join_each (λ add. ok (pack_address add)) adds >>= λ arr_data.
      ok (word 32 ++ word (length adds) ++ arr_data)

  unfoldable pub pack_bool_array : List (List ℕ) → Outcome (List ℕ)
  pack_bool_array bs = join_each (λ b. ok (pack_bool b)) bs >>= λ arr_data.
      ok (word 32 ++ word (length bs) ++ arr_data)

  -- The first loop over the stripped elements; `n` is the size of the array, `i` the index, and
  -- `total` the paddings so far.
  unfoldable pub elements_loop : ℕ → ℕ → ℕ → List (List ℕ) → Outcome (List Element)
  elements_loop n i total [] = ok []
  elements_loop n i total (s ∷ ss) = padding_of (length s) >>= λ padding.
      elements_loop n (i + 1) (total + padding / 64) ss >>= λ es. ok (
        record {
          offset = word (32 * n + 32 * i + 32 * total);
          size = word (length s / 2);
          content = pad_right (pad_right s padding b'0') 64 b'0';
        }
        ∷ es)

  unfoldable pub pack_elements : List (List ℕ) → Outcome (List ℕ)
  pack_elements ss = elements_loop (length ss) 0 0 ss >>= λ es.
      ok (word 32 ++ word (length ss) ++ join_offsets es ++ join_contents es)

  unfoldable pub pack_bytes_array : List (List ℕ) → Outcome (List ℕ)
  pack_bytes_array hexes = pack_elements (map digits_of_bytes hexes)

  unfoldable pub pack_string_array : List (List ℕ) → Outcome (List ℕ)
  pack_string_array strs = pack_elements (map digits_of_text strs)
