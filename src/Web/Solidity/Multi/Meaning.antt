-- ===== src/Web/Solidity/Multi/Meaning.antt =====
-- What a reader of the ABI finds in the arguments that `packMulti` (src/Solidity.cpp) packs: the values that
-- their texts stand for.
use web3cpp.Common.{
  ℕ, suc, ◌*◌, ◌/◌, ◌≡◌, ◌⊎◌, inl, inr, refl, ap, ◌∙◌, Bool, true, false, some, List, [], ◌∷◌, ◌++◌,
  append_assoc, if◌then◌else◌, length, length-append, ltb, drop, map, replicate, All, all, Outcome,
  ok, ◌>>=◌, arith,
}
use web3cpp.Common.Bytes.{codes, IsByte}
use web3cpp.Web.Errors.{ErrorState, set_code}
use web3cpp.Web.Platform.{Platform, HexLaws}
use web3cpp.Web.Solidity.{find_char}
use web3cpp.Web.Solidity.Multi.{
  substr, array_type, get_strings, pack_array, pack_scalar, is_dynamic, checked_argument, pack_head,
  answer, pack_multi,
}
use web3cpp.Web.Solidity.Multi.Abi.{
  Abi, Shape, uint, address, boolean, byte_string, byte_strings, shapes, bit, WellSized,
  read_arguments, part_for, parts_for, parts_for-AllStand, read_arguments-heads,
}
use web3cpp.Web.Solidity.Multi.Encoding.{part_found, parts_of}
use web3cpp.Web.Solidity.Multi.Layout.{inline, behind, tails, heads, part_of}
use web3cpp.Web.Solidity.Multi.Whole.{IsLayout, pack_multi-laid_out}
use web3cpp.Web.Solidity.Pack.{
  word, join_offsets, join_contents, digits_of_bytes, pack_uint, pack_address, pack_bool,
  pack_bytes, pack_string, pack_digits, pack_elements, pack_bytes_array, pack_string_array,
}
use web3cpp.Web.Solidity.Pack.Arrays.{elements_of, elements_loop_lem, All-hex}
use web3cpp.Web.Solidity.Pack.Reading.{IsHexText, padded, pack_digits_lem, drop-length}
use web3cpp.Web.Solidity.Pack.RoundTrip.{digits_of_text_lem, map-digits_of_text}
use web3cpp.Web.Solidity.Pack.Words.{hex-no_prefix, pad_left_lem, length-word}
use web3cpp.Web.Texts.{same, is_digit, is_hex_digit, to_lower, has_prefix}
use web3cpp.Web.Utils.{
  is_hex, without_prefix, strip_hex_prefix, to_lowercase_address, pad_left, padding,
}
use web3cpp.Web.Utils.Bytes.{to_hex_text, utf8_loop}

-- The text of a boolean.
abbrev bool_text : Bool → List ℕ
bool_text b = if b then codes "true" else codes "false"

abbrev pub bool_digit : Bool → List ℕ
bool_digit b = if b then codes "1" else codes "0"

module _ (p : Platform) where
  -- The value that a json text, or a list of texts, stands for under a type.
  abbrev pub Means : List ℕ → p.Json → Abi → Type 0
  Means type value (uint n) =
      (type ≡ codes "uint256")
      × ((it : List ℕ) × (p.get_string value ≡ ok it)
          × (all (λ c. is_digit c) it ≡ true)
          × (p.read_dec it ≡ ok n))
  Means type value (address a) =
      (type ≡ codes "address")
      × ((it : List ℕ) × (p.get_string value ≡ ok it)
          × (map to_lower (without_prefix it) ≡ a)
          × (all (λ c. is_hex_digit c) a ≡ true))
  Means type value (boolean b) =
      (type ≡ codes "bool")
      × ((p.get_string value ≡ ok (bool_text b)) ⊎ (p.get_string value ≡ ok (bool_digit b)))
  Means type value (byte_string s) =
      ((type ≡ codes "bytes")
        × ((it : List ℕ) × (p.get_string value ≡ ok it) × (strip_hex_prefix it ≡ s)))
      ⊎ ((type ≡ codes "string")
          × ((it : List ℕ) × (p.get_string value ≡ ok it) × All IsByte it × (utf8_loop it ≡ s)))
  Means type value (byte_strings ss) =
      ((type ≡ codes "bytes[]")
        × ((its : List (List ℕ)) × (get_strings p value ≡ ok its) × (map digits_of_bytes its ≡ ss)))
      ⊎ ((type ≡ codes "string[]")
          × ((its : List (List ℕ)) × (get_strings p value ≡ ok its)
              × All (λ it. All IsByte it) its
              × (map utf8_loop its ≡ ss)))

  -- An argument that passes its check, and its value.
  abbrev pub IsArgument : p.Json → Abi → Type 0
  IsArgument arg abi =
      (type : List ℕ) × ((value : p.Json) × (checked_argument p p.at_or_null arg
          ≡ ok (some (type, value), 0))
        × Means type value abi
        × WellSized abi)

  abbrev pub AreArguments : List p.Json → List Abi → Type 0
  AreArguments [] [] = Unit
  AreArguments [] (abi ∷ abis) = ⊥
  AreArguments (arg ∷ args) [] = ⊥
  AreArguments (arg ∷ args) (abi ∷ abis) = IsArgument arg abi × AreArguments args abis

  -- The arguments in a returned text behind its front, and the error object.
  unfoldable pub read_answer :
      List Shape → ℕ → List ℕ × ErrorState → Outcome (List Abi × ErrorState)
  read_answer shs front (text, err) =
      read_arguments p shs 0 (drop front text) >>= λ abis. ok (abis, err)

module _ (p : Platform) (laws : HexLaws p) where
  behind_word :
      (m : Outcome (List ℕ)) (t : List ℕ)
      → m ≡ ok (word p 32 ++ t)
      → (m >>= λ whole. substr whole 64 >>= λ packed. ok (behind packed)) ≡ ok (behind t)
  unfolding substr
  behind_word m t e =
      let size = length-word p laws 32 (omega arith) in
      let whole : ltb (length (word p 32 ++ t)) 64 ≡ false =
        ground (arith, size, length-append (word p 32) t) in
      rw e (rw whole (ap (λ d. ok (behind d)) (drop-length 64 (word p 32) t size)))

  uint_part :
      (value : p.Json) (it : List ℕ) (n : ℕ)
      → p.get_string value ≡ ok it
      → all (λ c. is_digit c) it ≡ true
      → p.read_dec it ≡ ok n
      → part_of p (codes "uint256") value ≡ ok (inline (word p n))
  unfolding part_of array_type find_char pack_scalar is_dynamic same pack_uint to_hex_text word
  uint_part value it n got digits read = rw got (rw digits (rw read refl))

  pub strip_written :
      (a : List ℕ) → all (λ c. is_hex_digit c) a ≡ true → strip_hex_prefix (codes "0x" ++ a) ≡ a
  unfolding strip_hex_prefix is_hex has_prefix same
  strip_written a h = rw h refl

  address_part :
      (value : p.Json) (it a : List ℕ)
      → p.get_string value ≡ ok it
      → map to_lower (without_prefix it) ≡ a
      → all (λ c. is_hex_digit c) a ≡ true
      → length a ≡ 40
      → part_of p (codes "address") value ≡ ok (inline (replicate 24 b'0' ++ a))
  unfolding part_of array_type find_char pack_scalar is_dynamic same pack_address
      to_lowercase_address
  address_part value it a got lower hex size =
      let zeros : padding 64 b'0' a ≡ replicate 24 b'0' = unfold padding in rw size refl in
      rw got (
        rw lower (
          rw (strip_written a hex) (
            ap (λ w. ok (inline w))
              (pad_left_lem a 64 b'0' (hex-no_prefix a hex) ∙ ap (λ z. z ++ a) zeros))))

  bool_part :
      (value : p.Json) (b : Bool)
      → ((p.get_string value ≡ ok (bool_text b)) ⊎ (p.get_string value ≡ ok (bool_digit b)))
      → part_of p (codes "bool") value ≡ ok (inline (bit b))
  unfolding part_of array_type find_char pack_scalar is_dynamic same pack_bool pad_left padding
      without_prefix has_prefix
  bool_part value true (inl e) = rw e refl
  bool_part value true (inr e) = rw e refl
  bool_part value false (inl e) = rw e refl
  bool_part value false (inr e) = rw e refl

  digits_whole :
      (s : List ℕ)
      → all (λ c. is_hex_digit c) s ≡ true
      → pack_digits p s ≡ ok (word p 32 ++ (word p (length s / 2) ++ padded s))
  digits_whole s hex =
      pack_digits_lem p laws s hex
      ∙ ap ok (append_assoc (word p 32) (word p (length s / 2)) (padded s))

  bytes_part :
      (value : p.Json) (it s : List ℕ)
      → p.get_string value ≡ ok it
      → strip_hex_prefix it ≡ s
      → all (λ c. is_hex_digit c) s ≡ true
      → part_of p (codes "bytes") value ≡ ok (part_for p (byte_string s))
  unfolding part_of array_type find_char pack_scalar is_dynamic same pack_bytes
  bytes_part value it s got strip hex =
      rw got (rw strip (behind_word (pack_digits p s) _ (digits_whole s hex)))

  string_part :
      (value : p.Json) (it s : List ℕ)
      → p.get_string value ≡ ok it
      → All IsByte it
      → utf8_loop it ≡ s
      → all (λ c. is_hex_digit c) s ≡ true
      → part_of p (codes "string") value ≡ ok (part_for p (byte_string s))
  unfolding part_of array_type find_char pack_scalar is_dynamic same pack_string
  string_part value it s got are e hex =
      rw got
        (rw (digits_of_text_lem it are ∙ e) (behind_word (pack_digits p s) _ (digits_whole s hex)))

  elements_whole :
      (ss : List (List ℕ))
      → All IsHexText ss
      → pack_elements p ss
        ≡ ok (
            word p 32
            ++ (word p (length ss)
                ++ (join_offsets (elements_of p (length ss) 0 0 ss)
                    ++ join_contents (elements_of p (length ss) 0 0 ss))))
  unfolding pack_elements
  elements_whole ss h =
      rw (elements_loop_lem p laws (length ss) 0 0 ss (All-hex ss h)) (ap ok (simp append_assoc))

  bytes_array_part :
      (value : p.Json) (its ss : List (List ℕ))
      → get_strings p value ≡ ok its
      → map digits_of_bytes its ≡ ss
      → All IsHexText ss
      → part_of p (codes "bytes[]") value ≡ ok (part_for p (byte_strings ss))
  unfolding part_of array_type find_char pack_array is_dynamic same pack_bytes_array
  bytes_array_part value its ss got e h =
      rw got (rw e (behind_word (pack_elements p ss) _ (elements_whole ss h)))

  string_array_part :
      (value : p.Json) (its ss : List (List ℕ))
      → get_strings p value ≡ ok its
      → All (λ it. All IsByte it) its
      → map utf8_loop its ≡ ss
      → All IsHexText ss
      → part_of p (codes "string[]") value ≡ ok (part_for p (byte_strings ss))
  unfolding part_of array_type find_char pack_array is_dynamic same pack_string_array
  string_array_part value its ss got are e h = rw got (
      rw (map-digits_of_text its are ∙ e)
        (behind_word (pack_elements p ss) _ (elements_whole ss h)))

  part_of-part_for :
      (type : List ℕ) (value : p.Json) (abi : Abi)
      → Means p type value abi
      → WellSized abi
      → part_of p type value ≡ ok (part_for p abi)
  part_of-part_for type value (uint n) (t, (it, got, digits, read)) sized =
      rw t (uint_part value it n got digits read)
  part_of-part_for type value (address a) (t, (it, got, lower, hex)) sized =
      rw t (address_part value it a got lower hex sized)
  part_of-part_for type value (boolean b) (t, got) sized = rw t (bool_part value b got)
  part_of-part_for type value (byte_string s) (inl (t, (it, got, strip))) ((hex, even), short) =
      rw t (bytes_part value it s got strip hex)
  part_of-part_for type value (byte_string s) (inr (t, (it, got, are, e))) ((hex, even), short) =
      rw t (string_part value it s got are e hex)
  part_of-part_for type value (byte_strings ss) (inl (t, (its, got, e))) (hex, small) =
      rw t (bytes_array_part value its ss got e hex)
  part_of-part_for type value (byte_strings ss) (inr (t, (its, got, are, e))) (hex, small) =
      rw t (string_array_part value its ss got are e hex)

  parts_of-parts_for :
      (args : List p.Json) (abis : List Abi)
      → AreArguments p args abis
      → parts_of p args ≡ ok (some (parts_for p abis), 0)
  unfolding parts_of part_found
  parts_of-parts_for [] [] h = refl
  parts_of-parts_for [] (abi ∷ abis) h = absurd h
  parts_of-parts_for (arg ∷ args) [] h = absurd h
  parts_of-parts_for (arg ∷ args) (abi ∷ abis) ((type, (value, checked, means, sized)), h) =
      rw checked (
        rw (part_of-part_for type value abi means sized) (rw (parts_of-parts_for args abis h) refl))

  sized_each :
      (args : List p.Json) (abis : List Abi) → AreArguments p args abis → All WellSized abis
  sized_each [] [] h = tt
  sized_each [] (abi ∷ abis) h = absurd h
  sized_each (arg ∷ args) [] h = absurd h
  sized_each (arg ∷ args) (abi ∷ abis) ((_, (_, _, _, sized)), h) = (sized, sized_each args abis h)

  count_each :
      (args : List p.Json) (abis : List Abi) → AreArguments p args abis → length args ≡ length abis
  count_each [] [] h = refl
  count_each [] (abi ∷ abis) h = absurd h
  count_each (arg ∷ args) [] h = absurd h
  count_each (arg ∷ args) (abi ∷ abis) (_, h) = ap suc (count_each args abis h)

  -- What packMulti returns for an array of arguments behind a function that passes its check is
  -- read back by the ABI: a head of 32 bytes for each argument, which holds a number, an address
  -- behind zeros or a boolean, or else the offset in bytes of a length and its data, or of an
  -- array of such by offsets of its own. The reader finds the values that the arguments stand for,
  -- and the code 0 is set. The arguments pass their checks and are numbers below 2 ^ 256,
  -- addresses of 40 digits, booleans, bytes of an even number of digits, texts of bytes, or arrays
  -- of bytes or of texts; bytes and texts have less than 2 ^ 31 digits, arrays with their offsets
  -- and lengths less than 2 ^ 30, and the whole less than 2 ^ 64 bytes.
  pub read_arguments-pack_multi :
      (args : p.Json) (abis : List Abi) (err : ErrorState) (func ret : List ℕ)
      → IsLayout p args
      → AreArguments p (p.elements args) abis
      → pack_head p func ≡ ok (some ret, 0)
      → (pack_multi p args err func >>= read_answer p (shapes abis) (length ret))
        ≡ ok (abis, set_code err 0)
  unfolding answer read_answer
  read_arguments-pack_multi args abis err func ret layout h head =
      let parts = parts_for p abis in
      let written = parts_of-parts_for (p.elements args) abis h in
      let n = length (p.elements args) in
      let count = count_each (p.elements args) abis h in
      let body = heads p (32 * n) parts ++ tails parts in
      let text : ret ++ heads p (32 * n) parts ++ tails parts ≡ ret ++ body =
        append_assoc ret (heads p (32 * n) parts) (tails parts) in
      let read =
        read_arguments-heads p laws abis parts 0 (32 * n) [] []
          (parts_for-AllStand p laws abis (sized_each (p.elements args) abis h)) (omega arith)
          (omega (arith, count)) (layout.fits parts 0 written) in
      rw (pack_multi-laid_out p laws args layout err func ret head)
        (rw written (rw text (rw (drop-length (length ret) ret body refl) (rw read refl))))
