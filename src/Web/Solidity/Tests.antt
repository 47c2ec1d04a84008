-- ===== src/Web/Solidity/Tests.antt =====
-- Runs of the packing on a platform whose json values are texts, lists of texts and arguments, and the
-- theorems at inputs where their hypotheses hold.
use web3cpp.Common.{
  inr, ℕ, zero, suc, ◌+◌, ◌*◌, ◌/◌, ◌%◌, ◌^◌, ◌<◌, ◌≡◌, refl, sym, ap, ◌∙◌, Bool, true, false, ◌&&◌,
  ◌||◌, Option, none, some, List, [], ◌∷◌, ◌++◌, append_assoc, append-nil, map, ◌==◌, if◌then◌else◌,
  length, length-append, replicate, all, Outcome, ok, throws, json_error, ◌>>=◌, arith,
}
use native.Mathlib.Nat.{pow-suc}
use web3cpp.Common.Bytes.{codes}
use web3cpp.Common.Bits.{passes_under, passes_under→at}
use web3cpp.DevCore.Hex.{hex_digit, from_hex_char}
use web3cpp.Web.Platform.{Platform, HexLaws}
use web3cpp.Web.Errors.{fresh, set_code, store_found, code_map, find}
use web3cpp.Web.Solidity.{
  find_char, type_code, scalar_code, code_if, scalar_passes, check_type, bool_passes,
}
use web3cpp.Web.Solidity.Multi.{
  Packing, substr, array_type, get_each, get_strings, type_and_value, pack_scalar, is_dynamic,
  pack_argument, check_found, checked_argument, pack_head, pack_multi,
}
use web3cpp.Web.Solidity.Multi.Abi.{uint, byte_string, of_uint, of_byte_string}
use web3cpp.Web.Solidity.Multi.Meaning.{AreArguments, read_answer, read_arguments-pack_multi}
use web3cpp.Web.Solidity.Multi.Drift.{bool_array_drift}
use web3cpp.Web.Solidity.Multi.Encoding.{part_found, parts_of, IsLaidOut}
use web3cpp.Web.Solidity.Multi.Layout.{
  Part, inline, behind, tails, part_of, is_static_array, IsShort,
}
use web3cpp.Web.Solidity.Multi.Whole.{IsLayout}
use web3cpp.Web.Solidity.Pack.{
  complete, digits_of_bytes, digits_of_text, pack_bytes, pack_string, pack_bytes_array,
  pack_string_array, pack_uint, pack_digits, padding_of, padding_loop, word,
}
use web3cpp.Web.Solidity.Pack.Arrays.{read_array}
use web3cpp.Web.Solidity.Pack.Reading.{read_bytes}
use web3cpp.Web.Solidity.Pack.RoundTrip.{
  read_bytes-pack_bytes, read_bytes-pack_string, read_array-pack_bytes_array,
  read_array-pack_string_array,
}
use web3cpp.Web.Utils.{
  is_hex, strip_hex_prefix, pad_left, pad_right, padding, without_prefix, to_hex_number,
}
use web3cpp.Web.Utils.Bytes.{
  to_hex_text, utf8_loop, utf8_to_hex, two_wide, print_hex, print_hex_loop, hex_to_utf8,
}
use web3cpp.Web.Texts.{same, has_prefix, is_hex_digit}

-- A number with all of its 64 digits.
pub fixed : ℕ → ℕ → List ℕ
fixed zero n = []
fixed (suc k) n = fixed k (n / 16) ++ hex_digit (n % 16) ∷ []

value_of : Option ℕ → ℕ
value_of none = 0
value_of (some d) = d

pub hex_value : ℕ → List ℕ → ℕ
hex_value acc [] = acc
hex_value acc (c ∷ cs) = hex_value (acc * 16 + value_of (from_hex_char c)) cs

hex_value-append : (s t : List ℕ) (acc : ℕ) → hex_value acc (s ++ t) ≡ hex_value (hex_value acc s) t
unfolding hex_value
hex_value-append [] t acc = refl
hex_value-append (c ∷ s) t acc = hex_value-append s t (acc * 16 + value_of (from_hex_char c))

digit_passes : ℕ → Bool
digit_passes d = value_of (from_hex_char (hex_digit d)) == d && is_hex_digit (hex_digit d)

digit_lem :
    (d : ℕ)
    → d < 16
    → (value_of (from_hex_char (hex_digit d)) ≡ d) × (is_hex_digit (hex_digit d) ≡ true)
unfolding digit_passes
digit_lem d h =
    let t : digit_passes d ≡ true =
      passes_under→at digit_passes 16 d h
        (unfold passes_under from_hex_char hex_digit value_of in refl) in
    (ground (arith, t), ground (arith, t))

hex_value-fixed : (k n : ℕ) → n < 16 ^ k → hex_value 0 (fixed k n) ≡ n
unfolding fixed hex_value
hex_value-fixed zero n h = omega arith
hex_value-fixed (suc k) n h =
    hex_value-append (fixed k (n / 16)) (hex_digit (n % 16) ∷ []) 0
    ∙ omega (
      arith,
      (digit_lem (n % 16) (omega arith)).0,
      hex_value-fixed k (n / 16) (omega (arith, pow-suc 16 k)),
    )

hex_value-zeros : (k : ℕ) (s : List ℕ) → hex_value 0 (replicate k b'0' ++ s) ≡ hex_value 0 s
unfolding hex_value from_hex_char value_of
hex_value-zeros zero s = refl
hex_value-zeros (suc k) s = hex_value-zeros k s

all-fixed :
    (k n : ℕ) (t : List ℕ)
    → all (λ c. is_hex_digit c) t ≡ true
    → all (λ c. is_hex_digit c) (fixed k n ++ t) ≡ true
unfolding fixed all
all-fixed zero n t h = h
all-fixed (suc k) n t h =
    let last : all (λ c. is_hex_digit c) (hex_digit (n % 16) ∷ t) ≡ true =
      rw (digit_lem (n % 16) (omega arith)).1 h in
    ap (all (λ c. is_hex_digit c)) (append_assoc (fixed k (n / 16)) (hex_digit (n % 16) ∷ []) t)
    ∙ all-fixed k (n / 16) (hex_digit (n % 16) ∷ t) last

length-fixed : (k n : ℕ) → length (fixed k n) ≡ k
unfolding fixed
length-fixed zero n = refl
length-fixed (suc k) n =
    omega
      (arith, length-append (fixed k (n / 16)) (hex_digit (n % 16) ∷ []), length-fixed k (n / 16))

-- A text, a list of texts, an argument with its type and its value, or a list of two arguments.
pub data Value : Type 0 where
  text : List ℕ → Value
  texts : List (List ℕ) → Value
  argument : List ℕ → Value → Value
  two : Value → Value → Value

abbrev get_text : Value → Outcome (List ℕ)
get_text (text s) = ok s
get_text (texts ss) = throws json_error
get_text (argument type value) = throws json_error
get_text (two a b) = throws json_error

abbrev elements_of_value : Value → List Value
elements_of_value (text s) = []
elements_of_value (texts ss) = map text ss
elements_of_value (argument type value) = text type ∷ value ∷ []
elements_of_value (two a b) = a ∷ b ∷ []

abbrev is_array_value : Value → Bool
is_array_value (text s) = false
is_array_value (texts ss) = true
is_array_value (argument type value) = false
is_array_value (two a b) = true

abbrev has_key : Value → List ℕ → Bool
has_key (text s) key = false
has_key (texts ss) key = false
has_key (argument type value) key = same key (codes "t") || same key (codes "v")
has_key (two a b) key = false

abbrev item : Value → List ℕ → Outcome Value
item (text s) key = throws json_error
item (texts ss) key = throws json_error
item (argument type value) key = ok (if same key (codes "t") then text type else value)
item (two a b) key = throws json_error

abbrev pub packed : Platform
packed = record {
  keccak = λ s. replicate 32 0x9a;
  print_dec = λ n. codes "0";
  print_hex = λ n. fixed 64 n;
  read_dec = λ s. ok (hex_value 0 s);
  read_hex = λ s. ok (hex_value 0 s);
  Json = Value;
  text = λ s. text s;
  boolean = λ b. text [];
  number = λ n. text [];
  empty_object = texts [];
  empty_array = texts [];
  braces = λ js. texts [];
  contains = has_key;
  at = item;
  at_or_null = item;
  put = λ j key v. throws json_error;
  get_string = get_text;
  is_string = λ j. true;
  is_array = is_array_value;
  elements = elements_of_value;
}

pub packed_hex : HexLaws packed
packed_hex = record {
  hex_only = λ n.
      ap (all (λ c. is_hex_digit c)) (sym (append-nil (fixed 64 n)))
      ∙ all-fixed 64 n [] (unfold all in refl);
  short = λ n h. omega (arith, length-fixed 64 n);
  value = λ k n h. ap ok (hex_value-zeros k (fixed 64 n) ∙ hex_value-fixed 64 n h);
}

read_bytes-pack_bytes_example :
    (pack_bytes packed (codes "0xabc") >>= read_bytes packed) ≡ ok (codes "ab")
unfolding strip_hex_prefix is_hex has_prefix same all
read_bytes-pack_bytes_example =
    read_bytes-pack_bytes packed packed_hex (codes "0xabc") refl (omega arith)

read_bytes-pack_string_example :
    (pack_string packed (codes "hi") >>= read_bytes packed >>= λ s. hex_to_utf8 (codes "0x" ++ s))
    ≡ ok (codes "hi")
read_bytes-pack_string_example =
    read_bytes-pack_string packed packed_hex (codes "hi") (omega arith, (omega arith, tt))
      (omega arith)

read_array-pack_bytes_array_example :
    (pack_bytes_array packed (codes "0xabc" ∷ codes "1234" ∷ []) >>= read_array packed)
    ≡ ok (codes "0abc" ∷ codes "1234" ∷ [])
unfolding digits_of_bytes complete strip_hex_prefix is_hex has_prefix same all
read_array-pack_bytes_array_example =
    read_array-pack_bytes_array packed packed_hex (codes "0xabc" ∷ codes "1234" ∷ [])
      (refl, (refl, tt)) (omega arith)

read_array-pack_string_array_example :
    (pack_string_array packed (codes "hi" ∷ codes "you" ∷ []) >>= read_array packed)
    ≡ ok (utf8_loop (codes "hi") ∷ utf8_loop (codes "you") ∷ [])
unfolding utf8_loop two_wide print_hex print_hex_loop hex_digit
read_array-pack_string_array_example =
    read_array-pack_string_array packed packed_hex (codes "hi" ∷ codes "you" ∷ [])
      ((omega arith, (omega arith, tt)), ((omega arith, (omega arith, (omega arith, tt))), tt))
      (omega arith)

-- f(uint256, string) at 5 and "hi".
abbrev five : Value
five = argument (codes "uint256") (text (codes "5"))

abbrev hi : Value
hi = argument (codes "string") (text (codes "hi"))

five_checked : checked_argument packed item five ≡ ok (some (codes "uint256", text (codes "5")), 0)
unfolding checked_argument type_and_value check_found check_type type_code scalar_code code_if
    scalar_passes same all set_code store_found find code_map
five_checked = refl

hi_checked : checked_argument packed item hi ≡ ok (some (codes "string", text (codes "hi")), 0)
unfolding checked_argument type_and_value check_found check_type type_code scalar_code code_if
    scalar_passes same all set_code store_found find code_map is_hex has_prefix utf8_to_hex
    utf8_loop two_wide print_hex print_hex_loop hex_digit
hi_checked = refl

abbrev hi_parts : List Part
hi_parts =
    inline (word packed 5)
    ∷ behind
        (word packed 2 ++ codes "6869000000000000000000000000000000000000000000000000000000000000")
    ∷ []

hi_parts_lem : parts_of packed (five ∷ hi ∷ []) ≡ ok (some hi_parts, 0)
unfolding part_found part_of array_type find_char pack_scalar pack_uint pack_string pack_digits
    padding_of padding_loop digits_of_text strip_hex_prefix substr is_dynamic to_hex_text pad_left
    pad_right padding without_prefix parts_of checked_argument type_and_value check_found check_type
    type_code scalar_code code_if scalar_passes same all set_code store_found find code_map is_hex
    has_prefix utf8_to_hex utf8_loop two_wide print_hex print_hex_loop hex_digit fixed hex_value
    value_of from_hex_char word to_hex_number
hi_parts_lem = refl

hi_size : length (tails hi_parts) ≡ 128
unfolding tails word fixed pad_left padding without_prefix has_prefix same to_hex_number hex_digit
hi_size = refl

-- A text that is short in all its packings.
text-IsShort :
    (s : List ℕ)
    → length (strip_hex_prefix s) < 2 ^ 31
    → length (digits_of_text s) < 2 ^ 31
    → IsShort packed (text s)
unfolding get_strings
text-IsShort s plain utf8 = record {
  bytes = λ it e. let same_ : s ≡ it = cc e in rw (sym same_) plain;
  text = λ it e. let same_ : s ≡ it = cc e in rw (sym same_) utf8;
  bytes_array = λ its e. cc e;
  text_array = λ its e. cc e;
}

found_same :
    (type type' : List ℕ) (value value' : Value) (code code' : ℕ)
    → ◌≡◌ {A = Outcome (Option (List ℕ × Value) × ℕ)}
        (ok (some (type, value), code))
        (ok (some (type', value'), code'))
    → (type ≡ type') × (value ≡ value')
found_same type type' value value' code code' h = (cc h, cc h)

IsLaidOut-text :
    (arg : Value) (type s : List ℕ)
    → checked_argument packed item arg ≡ ok (some (type, text s), 0)
    → is_static_array type ≡ false
    → IsShort packed (text s)
    → IsLaidOut packed arg
IsLaidOut-text arg type s checked static short = record {
  not_static = λ type' value' code e.
      let (t, v) = found_same type type' (text s) value' 0 code (sym checked ∙ e) in
      rw (sym t) static;
  short = λ type' value' code e.
      let (t, v) = found_same type type' (text s) value' 0 code (sym checked ∙ e) in
      rw (sym v) short;
}

five-hi-IsLayout : IsLayout packed (two five hi)
unfolding is_static_array same strip_hex_prefix is_hex has_prefix all digits_of_text utf8_to_hex
    utf8_loop two_wide print_hex print_hex_loop hex_digit
five-hi-IsLayout = record {
  array = refl;
  laid_out_each = (
    IsLaidOut-text five (codes "uint256") (codes "5") five_checked refl
        (text-IsShort (codes "5") (omega arith) (omega arith)),
    (
      IsLaidOut-text hi (codes "string") (codes "hi") hi_checked refl
          (text-IsShort (codes "hi") (omega arith) (omega arith)),
      tt,
    ),
  );
  fits = λ parts code e.
      let same_ : hi_parts ≡ parts = cc (sym hi_parts_lem ∙ e) in
      rw (sym same_) (omega (arith, hi_size));
}

five-hi-values : AreArguments packed (five ∷ hi ∷ []) (uint 5 ∷ byte_string (codes "6869") ∷ [])
unfolding hex_value value_of from_hex_char utf8_loop two_wide print_hex print_hex_loop hex_digit all
five-hi-values = (
  (
    codes "uint256",
    (text (codes "5"), five_checked, (refl, (codes "5", refl, refl, refl)), omega arith),
  ),
  (
    (
      codes "string",
      (
        text (codes "hi"),
        hi_checked,
        inr (refl, (codes "hi", refl, (omega arith, (omega arith, tt)), refl)),
        ((refl, omega arith), omega arith),
      ),
    ),
    tt,
  ),
)

read_arguments-pack_multi_example :
    (pack_multi packed (two five hi) fresh []
      >>= read_answer packed (of_uint ∷ of_byte_string ∷ []) 2)
    ≡ ok (uint 5 ∷ byte_string (codes "6869") ∷ [], set_code fresh 0)
read_arguments-pack_multi_example =
    read_arguments-pack_multi packed packed_hex (two five hi)
      (uint 5 ∷ byte_string (codes "6869") ∷ []) fresh [] (codes "0x") five-hi-IsLayout
      five-hi-values (unfold pack_head in refl)

bool_array_drift_example :
    (st : Packing) × (pack_argument packed 2
        (codes "bool[]")
        (texts (codes "true" ∷ []))
        (record { ret = []; next_offset = 64; arr_to_append = [] })
      ≡ ok st)
    × (st.next_offset ≡ (64 + 64 * 2) % 2 ^ 64)
    × (length st.arr_to_append ≡ 0 + 64 * (1 + 1))
bool_array_drift_example =
    bool_array_drift packed 2 (texts (codes "true" ∷ []))
      (record { ret = []; next_offset = 64; arr_to_append = [] }) (codes "true" ∷ []) packed_hex
      (unfold get_strings get_each in refl) (unfold bool_passes same in (refl, tt)) (omega arith)
