-- ===== src/Web/Contract/Tests.antt =====
-- Runs of contracts on a small json library of texts.
use web3cpp.Web.Solidity.Tests.{Value, text, texts, two, packed}
use web3cpp.Common.{
  ℕ, ◌≡◌, refl, Bool, true, false, List, [], ◌∷◌, if◌then◌else◌, replicate, Outcome, ok, throws,
  json_error, ◌>>=◌,
}
use web3cpp.Common.Bytes.{codes}
use web3cpp.DevCore.Hex.{to_hex}
use web3cpp.Web.Contract.{Contract, boolean, bytes, text_at, add_item, find_name}
use web3cpp.Web.Contract.Call.{JsonItems, call}
use web3cpp.Web.Contract.Placed.{sized}
use web3cpp.Web.Solidity.Multi.Layout.{Part, inline, behind}
use web3cpp.Web.Utils.{pad_left}
use web3cpp.Web.Contract.Refused.{call-add_item_refused}
use web3cpp.Web.Errors.{fresh, set_code}
use web3cpp.Web.Platform.{Platform}
use web3cpp.Web.Texts.{same}

-- A text, the entry of a function without inputs, or an array of texts.
data Entry : Type 0 where
  plain : List ℕ → Entry
  entry : List ℕ → Entry
  array : List (List ℕ) → Entry

abbrev item_of : Entry → List ℕ → Outcome Entry
item_of (plain s) key = throws json_error
item_of (array vs) key = throws json_error
item_of (entry name) key =
    if same key (codes "type")
    then ok (plain (codes "function"))
    else if same key (codes "name")
    then ok (plain name)
    else if same key (codes "inputs")
    then ok (array [])
    else throws json_error

abbrev text_of : Entry → Outcome (List ℕ)
text_of (plain s) = ok s
text_of (entry name) = throws json_error
text_of (array vs) = throws json_error

abbrev plain_each : List (List ℕ) → List Entry
plain_each [] = []
plain_each (v ∷ vs) = plain v ∷ plain_each vs

abbrev elements_of : Entry → List Entry
elements_of (plain s) = plain s ∷ []
elements_of (entry name) = plain name ∷ []
elements_of (array vs) = plain_each vs

abbrev is_array_of : Entry → Bool
is_array_of (plain s) = false
is_array_of (entry name) = false
is_array_of (array vs) = true

-- The hex text of a number below 2 ^ 8.
abbrev values : Platform
values = record {
  keccak = λ s. replicate 32 0x9a;
  print_dec = λ n. codes "0";
  print_hex = λ n. to_hex (n ∷ []);
  read_dec = λ s. ok 7;
  read_hex = λ s. ok 7;
  Json = Entry;
  text = λ s. plain s;
  boolean = λ b. array [];
  number = λ n. array [];
  empty_object = array [];
  empty_array = array [];
  braces = λ js. array [];
  contains = λ j key. true;
  at = item_of;
  at_or_null = item_of;
  put = λ j key v. throws json_error;
  get_string = text_of;
  is_string = λ j. true;
  is_array = is_array_of;
  elements = elements_of;
}

abbrev entry_items : JsonItems values
entry_items = record {
  all_digits = λ j. throws json_error;
  is_no_bit = λ j. throws json_error;
  null_value = array [];
  push_back = λ j v. throws json_error;
}

abbrev no_methods : Contract
no_methods = record { methods = []; functors = [] }

call-add_item_refused_example :
    (add_item values (entry (codes "stop")) no_methods >>= λ after.
    call values entry_items after (codes "stop") (array []) fresh)
    ≡ ok ([], set_code fresh 17)
unfolding text_at same find_name
call-add_item_refused_example =
    call-add_item_refused values entry_items (entry (codes "stop")) (array []) (codes "stop")
      no_methods fresh
      (record {
        is_function = refl;
        named = refl;
        inputs = array [];
        inputs_found = refl;
        no_inputs = refl;
      })
      refl

abbrev json_items : JsonItems packed
json_items = record {
  all_digits = λ v. throws json_error;
  is_no_bit = λ v. throws json_error;
  null_value = texts [];
  push_back = λ v w. throws json_error;
}

-- store(bool,bytes)
abbrev storing : Contract
storing = record {
  methods = (codes "store", boolean ∷ bytes ∷ []) ∷ [];
  functors = (codes "store", codes "01020304") ∷ [];
}

abbrev store_arguments : Value
store_arguments = two (text (codes "1")) (text (codes "0xab"))

abbrev store_parts : List Part
store_parts =
    inline (pad_left (codes "1") 64 b'0') ∷ behind (sized packed json_items (codes "ab")) ∷ []
