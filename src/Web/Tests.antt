-- ===== src/Web/Tests.antt =====
-- Runs of the web3 layer on a platform that writes json values as text, and its theorems there.
use web3cpp.Common.{
  ℕ, zero, suc, ◌+◌, ◌/◌, ◌%◌, ◌≡◌, refl, ◌⊎◌, List, [], ◌∷◌, ◌++◌, true, false, ltb, if◌then◌else◌,
  all, replicate, ok, throws, json_error, arith, bad_lexical_cast,
}
use web3cpp.Common.Bytes.{codes}
use web3cpp.DevCore.Hex.{hex_digit}
use web3cpp.Web.Errors.{fresh, set_code, get_code, store_found, code_map, find, set_code_once}
use web3cpp.Web.Platform.{Platform, DecimalLaws}
use web3cpp.Web.Texts.{is_digit, has_prefix, same}
use web3cpp.Web.Utils.{is_hex_strict, is_hex}
use web3cpp.Web.Rpc.{reply, check_hex_data}
use web3cpp.Web.Rpc.Blocks.{
  data_code, web3_sha3, eth_get_block_transaction_count_by_number_number,
  eth_get_block_transaction_count_by_number,
}
use web3cpp.Web.Rpc.Work.{eth_submit_work}
use web3cpp.Web.Utils.Bytes.{hex_to_utf8, hex_to_bytes, utf8_to_hex}
use web3cpp.Web.Utils.Bytes.RoundTrip.{hex_to_utf8-utf8_to_hex}
use web3cpp.Web.Utils.Wei.{to_wei, from_wei, zero_if_empty, drop_zeros}
use web3cpp.Web.Utils.Wei.RoundTrip.{to_wei-from_wei}
use web3cpp.Web.Rpc.Calls.{Call, sha3_call, request_of, handle}
use web3cpp.Web.Rpc.Numbers.{number_of_block_transaction_count_by_number, handle_number}
use web3cpp.Web.Rpc.Numbers.{NumberCall}
use web3cpp.Web.Errors.{ErrorState}
use web3cpp.Common.{Bool}
use web3cpp.Web.Rpc.Returns.{takes_text, handle_number-refuses}
use web3cpp.Web.Rpc.Numbers.{as_call}
use web3cpp.Web.Platform.{KeccakLaws}
use web3cpp.Web.Utils.Addresses.{is_address}
use web3cpp.Web.Utils.Addresses.Checksum.{is_address-returns}
use web3cpp.Web.Rpc.Refusals.{eth_submit_work_refused}
use web3cpp.Web.Rpc.Replies.{IsRefusal}

dec_loop : ℕ → ℕ → List ℕ → List ℕ
dec_loop zero n tail = tail
dec_loop (suc fuel) n tail =
    let rest = dec_loop fuel (n / 10) ((b'0' + n % 10) ∷ tail) in
    if ltb n 10 then (b'0' + n % 10) ∷ tail else rest

dec_loop-digits :
    (fuel n : ℕ) (tail : List ℕ)
    → all (λ c. is_digit c) tail ≡ true
    → all (λ c. is_digit c) (dec_loop fuel n tail) ≡ true
unfolding dec_loop
dec_loop-digits zero n tail h = h
dec_loop-digits (suc fuel) n tail h =
    let one : all (λ c. is_digit c) ((b'0' + n % 10) ∷ tail) ≡ true =
      unfold all in ground (arith, h) in
    ground (arith, one, dec_loop-digits fuel (n / 10) ((b'0' + n % 10) ∷ tail) one)

joined : List (List ℕ) → List ℕ
joined [] = []
joined (s ∷ ss) = s ++ codes "," ++ joined ss

abbrev written : Platform
written = record {
  keccak = λ s. replicate 32 0x9a;
  print_dec = λ n. dec_loop 78 n [];
  print_hex = λ n. hex_digit (n % 16) ∷ [];
  read_dec = λ s. throws bad_lexical_cast;
  read_hex = λ s. throws bad_lexical_cast;
  Json = List ℕ;
  text = λ s. codes "'" ++ s ++ codes "'";
  boolean = λ b. if b then codes "true" else codes "false";
  number = λ n. dec_loop 78 n [];
  empty_object = codes "{}";
  empty_array = codes "[]";
  braces = λ js. codes "[" ++ joined js ++ codes "]";
  contains = λ j key. false;
  at = λ j key. throws json_error;
  at_or_null = λ j key. throws json_error;
  put = λ j key v. throws json_error;
  get_string = λ j. ok j;
  is_string = λ j. true;
  is_array = λ j. false;
  elements = λ j. [];
}

written_decimal : DecimalLaws written
unfolding all
written_decimal = record { digits_only = λ n. dec_loop-digits 78 n [] refl }

abbrev sha_call : Call written
sha_call = sha3_call (codes "0xff")

text_call : takes_text written sha_call ≡ true
unfolding takes_text
text_call = refl

abbrev number_call : NumberCall written
number_call = number_of_block_transaction_count_by_number 77

text_number : takes_text written (as_call written number_call) ≡ true
unfolding takes_text as_call
text_number = refl

sha3_run : handle written sha_call fresh ≡ ok (request_of written sha_call, set_code fresh 0)
unfolding handle web3_sha3 data_code check_hex_data is_hex_strict is_hex has_prefix same all reply
    set_code store_found find code_map request_of
sha3_run = refl

number_run :
    handle_number written (number_of_block_transaction_count_by_number 77) fresh
    ≡ ok (codes "{}", set_code fresh 4)
unfolding handle_number eth_get_block_transaction_count_by_number_number
    eth_get_block_transaction_count_by_number data_code check_hex_data is_hex_strict has_prefix same
    reply set_code store_found find code_map dec_loop
number_run = refl

written_keccak : KeccakLaws written
written_keccak = record { length_digest = λ s. refl }

handle_number-refuses_example :
    (j : List ℕ) × (e : ErrorState) × (handle_number written number_call fresh ≡ ok (j, e))
    × (j ≡ codes "{}")
    × IsRefusal (get_code e)
handle_number-refuses_example =
    handle_number-refuses written number_call written_keccak written_decimal text_number

eth_submit_work_refused_example :
    (eth_submit_work written (codes "0x1234567812345678") (codes "0x12") (codes "0x34") fresh
      ≡ ok (codes "{}", set_code fresh 4))
    ⊎ (eth_submit_work written (codes "0x1234567812345678") (codes "0x12") (codes "0x34") fresh
        ≡ ok (codes "{}", set_code fresh 6))
eth_submit_work_refused_example =
    eth_submit_work_refused written (codes "0x1234567812345678") (codes "0x12") (codes "0x34")

set_code_once_example : set_code (set_code fresh 5) 9 ≡ set_code fresh 5
set_code_once_example = set_code_once fresh 5 9

hex_to_utf8-utf8_to_hex_example :
    (hex_to_utf8 (utf8_to_hex (9 ∷ 200 ∷ [])) ≡ ok (9 ∷ 200 ∷ []))
    × (hex_to_bytes (utf8_to_hex (9 ∷ 200 ∷ [])) ≡ ok (9 ∷ 200 ∷ []))
hex_to_utf8-utf8_to_hex_example =
    hex_to_utf8-utf8_to_hex (9 ∷ 200 ∷ []) (omega arith, (omega arith, tt))

digits_1500 : all (λ c. is_digit c) (codes "1500") ≡ true
unfolding all
digits_1500 = refl

to_wei-from_wei_example :
    to_wei (from_wei (codes "1500") 3) 3 ≡ zero_if_empty (drop_zeros (codes "1500"))
to_wei-from_wei_example = to_wei-from_wei (codes "1500") 3 digits_1500

is_address-returns_example :
    (b : Bool) × (is_address written (codes "0xABCDEFabcdefabcdefabcdefabcdefabcdefabcd") ≡ ok b)
is_address-returns_example =
    is_address-returns written (codes "0xABCDEFabcdefabcdefabcdefabcdefabcdefabcd") written_keccak
