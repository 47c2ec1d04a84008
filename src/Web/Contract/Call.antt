-- ===== src/Web/Contract/Call.antt =====
-- The two `operator()` of `class Contract` (src/Contract.cpp): the data of a call. As in Arrays, quotients
-- are rounded up, and `word` takes a number that the code writes and reads in decimal.
use web3cpp.Common.{
  ℕ, ◌+◌, ◌*◌, ◌/◌, ◌%◌, ◌^◌, Bool, not, ◌&&◌, Option, none, some, List, [], ◌∷◌, ◌++◌, ◌==◌,
  if◌then◌else◌, length, get_or, all, Outcome, ok, undefined, ◌>>=◌,
}
use web3cpp.Common.Bytes.{codes}
use web3cpp.Web.Contract.{
  Contract, Types, uint256, uint256_arr, address, address_arr, boolean, boolean_arr, bytes,
  bytes_arr, string, string_arr, find_name, pop_back,
}
use web3cpp.Web.Contract.Arrays.{pack_parts}
use web3cpp.Web.Errors.{ErrorState, set_code}
use web3cpp.Web.Platform.{Platform}
use web3cpp.Web.Texts.{is_digit}
use web3cpp.Web.Utils.{strip_hex_prefix, pad_left, pad_right}
use web3cpp.Web.Utils.Addresses.{is_address}
use web3cpp.Web.Utils.Bytes.{to_hex_text}
use web3cpp.Web.Solidity.Multi.{Packing, put_behind, pack_multi}
use web3cpp.Web.Solidity.Pack.{pack_address, digits_of_bytes, digits_of_text, word}

-- What the json library does where the code takes a value for a text: `all_of` with `isdigit` over it,
-- and `item[0] != '0' && item[0] != '1'`. Also `push_back` of a braced pair, from null on.
pub record JsonItems (p : Platform) : Type 0 where
  pub all_digits : p.Json → Outcome Bool
  pub is_no_bit : p.Json → Outcome Bool
  pub null_value : p.Json
  pub push_back : p.Json → p.Json → Outcome p.Json

unfoldable pub type_name : Types → List ℕ
type_name uint256 = codes "uint256"
type_name uint256_arr = codes "uint256[]"
type_name address = codes "address"
type_name address_arr = codes "address[]"
type_name boolean = codes "bool"
type_name boolean_arr = codes "bool[]"
type_name bytes = codes "bytes"
type_name bytes_arr = codes "bytes[]"
type_name string = codes "string"
type_name string_arr = codes "string[]"

abbrev prepend : List ℕ → Option (List ℕ) → Option (List ℕ)
prepend t none = none
prepend t (some ts) = some (t ++ ts)

module _ (p : Platform) (j : JsonItems p) where
  -- The loop that makes the header and the arguments for `packMulti`.
  unfoldable pub header_loop :
      List Types → List p.Json → List ℕ → p.Json → Outcome (List ℕ × p.Json)
  header_loop [] values func args = ok (func, args)
  header_loop (t ∷ ts) [] func args = undefined
  header_loop (t ∷ ts) (v ∷ vs) func args =
      j.push_back args (
        p.braces (
          p.braces (p.text (codes "t") ∷ p.text (type_name t) ∷ [])
          ∷ p.braces (p.text (codes "v") ∷ v ∷ [])
          ∷ []))
      >>= header_loop ts vs (func ++ type_name t ++ codes ",")

  -- The items of an array, up to the first that is refused.
  unfoldable pub items_text :
      (p.Json → Outcome (Option (List ℕ))) → List p.Json → Outcome (Option (List ℕ))
  items_text f [] = ok (some [])
  items_text f (item ∷ items) = f item >>= λ found. elim found [
    | none ↦ ok none
    | some t ↦ items_text f items >>= λ rest. ok (prepend t rest)
  ]

  unfoldable pub uint_item : p.Json → Outcome (Option (List ℕ))
  uint_item item = j.all_digits item >>= λ good.
      if good
      then (p.get_string item >>= to_hex_text p >>= λ h. ok (some (pad_left h 64 b'0')))
      else ok none

  unfoldable pub address_text : List ℕ → Outcome (Option (List ℕ))
  address_text s = is_address p (strip_hex_prefix s) >>= λ good.
      ok (if good then some (pack_address (strip_hex_prefix s)) else none)

  unfoldable pub address_item : p.Json → Outcome (Option (List ℕ))
  address_item item = p.get_string item >>= address_text

  unfoldable pub boolean_item : p.Json → Outcome (Option (List ℕ))
  boolean_item item = j.is_no_bit item >>= λ bad.
      if bad then ok none else (p.get_string item >>= λ s. ok (some (pad_left s 64 b'0')))

  unfoldable pub digits_each : (List ℕ → List ℕ) → List p.Json → Outcome (List (List ℕ))
  digits_each f [] = ok []
  digits_each f (item ∷ items) =
      p.get_string item >>= λ s. digits_each f items >>= λ rest. ok (f s ∷ rest)

  -- An array whose items take a word each, with the offset of what follows it; or the code.
  unfoldable pub put_words : ℕ → ℕ → Packing → Option (List ℕ) → Option Packing × ℕ
  put_words code size st none = (none, code)
  put_words code size st (some text) =
      (some (put_behind p (word p size ++ text) (32 + 32 * size) st), 0)

  -- An array of bytes or of texts: an empty one appends nothing.
  unfoldable pub put_array : ℕ → Packing → Option (List ℕ) → Option Packing × ℕ
  put_array code st none = (none, code)
  put_array code st (some text) = (some (put_behind p text (32 * (length text / 64)) st), 0)

  unfoldable pub pack_digits_array :
      ℕ → (List ℕ → List ℕ) → List p.Json → Packing → Outcome (Option Packing × ℕ)
  pack_digits_array code f [] st = ok (some (put_behind p [] 0 st), 0)
  pack_digits_array code f (item ∷ items) st =
      digits_each f (item ∷ items) >>= λ ss. ok (put_array code st (pack_parts p ss))

  -- A text or bytes, as digits.
  unfoldable pub put_digits : List ℕ → Packing → Packing
  put_digits argument st =
      put_behind p
        (word p (length argument / 2)
          ++ pad_right argument (64 * ((length argument + 63) / 64)) b'0')
        (32 + 32 * ((length argument + 63) / 64)) st

  unfoldable pub put_inline : ℕ → Packing → Option (List ℕ) → Option Packing × ℕ
  put_inline code st none = (none, code)
  put_inline code st (some text) = (some (record st { ret = st.ret ++ text }), 0)

  unfoldable pub uint_text : List ℕ → Outcome (Option (List ℕ))
  uint_text s =
      if all (λ c. is_digit c) s
      then (to_hex_text p s >>= λ h. ok (some (pad_left h 64 b'0')))
      else ok none

  unfoldable pub boolean_text : List ℕ → Option (List ℕ)
  boolean_text s =
      if not (get_or s 0 0 == b'0') && not (get_or s 0 0 == b'1')
      then none
      else some (pad_left s 64 b'0')

  -- One round of the loop over the arguments.
  unfoldable pub pack_value : Types → p.Json → Packing → Outcome (Option Packing × ℕ)
  pack_value uint256 v st = p.get_string v >>= uint_text >>= λ t. ok (put_inline 25 st t)
  pack_value address v st = p.get_string v >>= address_text >>= λ t. ok (put_inline 26 st t)
  pack_value boolean v st = p.get_string v >>= λ s. ok (put_inline 27 st (boolean_text s))
  pack_value bytes v st = p.get_string v >>= λ s. ok (some (put_digits (digits_of_bytes s) st), 0)
  pack_value string v st = p.get_string v >>= λ s. ok (some (put_digits (digits_of_text s) st), 0)
  pack_value uint256_arr v st =
      items_text uint_item (p.elements v) >>= λ t. ok (put_words 20 (length (p.elements v)) st t)
  pack_value address_arr v st =
      items_text address_item (p.elements v) >>= λ t. ok (put_words 21 (length (p.elements v)) st t)
  pack_value boolean_arr v st =
      items_text boolean_item (p.elements v) >>= λ t. ok (put_words 22 (length (p.elements v)) st t)
  pack_value bytes_arr v st = pack_digits_array 23 digits_of_bytes (p.elements v) st
  pack_value string_arr v st = pack_digits_array 24 digits_of_text (p.elements v) st

  -- What comes behind an argument, unless it was refused.
  unfoldable pub next_value :
      (Packing → Outcome (Option Packing × ℕ)) → Option Packing × ℕ → Outcome (Option Packing × ℕ)
  next_value rest (none, code) = ok (none, code)
  next_value rest (some st, code) = rest st

  unfoldable pub values_loop : List Types → List p.Json → Packing → Outcome (Option Packing × ℕ)
  values_loop [] values st = ok (some st, 0)
  values_loop (t ∷ ts) [] st = ok (some st, 0)
  values_loop (t ∷ ts) (v ∷ vs) st = pack_value t v st >>= next_value (values_loop ts vs)

  -- The text that is returned, and the code that is set.
  unfoldable pub answer_call : ErrorState → Option Packing × ℕ → List ℕ × ErrorState
  answer_call err (none, code) = ([], set_code err code)
  answer_call err (some st, code) = (st.ret ++ st.arr_to_append, err)

  -- `_functors[function]`; a missing one is made, and empty.
  unfoldable pub functor_or_empty : Option (List ℕ) → List ℕ
  functor_or_empty none = []
  functor_or_empty (some f) = f

  -- The checks in front of both operators, from the types of the function on, and what each does behind
  -- them.
  unfoldable pub checked_types :
      (List Types → Outcome (List ℕ × ErrorState))
      → p.Json
      → ErrorState
      → Option (List Types)
      → Outcome (List ℕ × ErrorState)
  checked_types rest arguments err none = ok ([], set_code err 17)
  checked_types rest arguments err (some types) =
      if not (p.is_array arguments)
      then ok ([], set_code err 19)
      else if not (length (p.elements arguments) == length types)
      then ok ([], set_code err 18)
      else rest types

  unfoldable pub values_of :
      Contract → List ℕ → List p.Json → ErrorState → List Types → Outcome (List ℕ × ErrorState)
  values_of c function values err types =
      values_loop types values (record {
        ret = codes "0x" ++ functor_or_empty (find_name c.functors function);
        next_offset = 32 * length values % 2 ^ 64;
        arr_to_append = [];
      })
      >>= λ done. ok (answer_call err done)

  -- `operator()(arguments, function, error)`
  unfoldable pub call_by_multi :
      Contract → p.Json → List ℕ → ErrorState → Outcome (List ℕ × ErrorState)
  call_by_multi c arguments function err =
      checked_types
        (λ types.
          header_loop types (p.elements arguments) (function ++ codes "(") j.null_value
          >>= λ (func, args). pack_multi p args err (pop_back func ++ codes ")"))
        arguments err (find_name c.methods function)

  -- `operator()(function, arguments, error)`
  unfoldable pub call : Contract → List ℕ → p.Json → ErrorState → Outcome (List ℕ × ErrorState)
  call c function arguments err =
      checked_types (values_of c function (p.elements arguments) err) arguments err
        (find_name c.methods function)
