-- ===== src/Web/Solidity/Multi.antt =====
-- `packMulti` (src/Solidity.cpp): the arguments of a call, one behind the other, with what does not fit
-- a word behind them all. Offsets are 64-bit numbers.
pub mod Layout
pub mod Rounds
pub mod Encoding
pub mod Whole
pub mod Drift
pub mod Abi
pub mod Meaning
use web3cpp.Common.{
  ℕ, ◌+◌, ◌*◌, ◌/◌, ◌%◌, ◌^◌, Bool, not, ◌&&◌, ◌||◌, Option, none, some, List, [], ◌∷◌, ◌++◌, ltb,
  if◌then◌else◌, length, take, drop, Outcome, ok, throws, json_error, out_of_range, ◌>>=◌,
}
use web3cpp.Common.Bytes.{codes}
use web3cpp.Web.Errors.{ErrorState, fresh, set_code, get_code}
use web3cpp.Web.Platform.{Platform}
use web3cpp.Web.Texts.{same}
use web3cpp.Web.Solidity.{find_char, check_type}
use web3cpp.Web.Solidity.Pack.{
  pack_function, pack_uint, pack_address, pack_bool, pack_bytes, pack_string, pack_uint_array,
  pack_address_array, pack_bool_array, pack_bytes_array, pack_string_array, word,
}

-- `s.substr(n)`
unfoldable pub substr : List ℕ → ℕ → Outcome (List ℕ)
substr s n = if ltb (length s) n then throws out_of_range else ok (drop n s)

-- The local variables of the loop.
pub record Packing : Type 0 where
  pub ret : List ℕ
  pub next_offset : ℕ
  pub arr_to_append : List ℕ

-- `type.substr(0, type.find("["))`, if there is one.
unfoldable pub array_type : List ℕ → Option (List ℕ)
array_type type = elim (find_char b'[' type) [ none ↦ none | some pos ↦ some (take pos type) ]

module _ (p : Platform) where
  -- `value.get<std::vector<std::string>>()`
  unfoldable pub get_each : List p.Json → Outcome (List (List ℕ))
  get_each [] = ok []
  get_each (j ∷ js) = p.get_string j >>= λ s. get_each js >>= λ ss. ok (s ∷ ss)

  unfoldable pub get_strings : p.Json → Outcome (List (List ℕ))
  get_strings j = if p.is_array j then get_each (p.elements j) else throws json_error

  -- The type and the value of an argument, or none if one is missing.
  unfoldable pub type_and_value :
      (p.Json → List ℕ → Outcome p.Json) → p.Json → Outcome (Option (List ℕ × p.Json))
  type_and_value item arg =
      if p.contains arg (codes "type") && p.contains arg (codes "value")
        || p.contains arg (codes "t") && p.contains arg (codes "v")
      then (item arg (if p.contains arg (codes "t") then codes "t" else codes "type") >>= λ type.
          p.get_string type >>= λ type_text.
          item arg (if p.contains arg (codes "v") then codes "v" else codes "value") >>= λ value.
          ok (some (type_text, value)))
      else ok none

  unfoldable pub pack_array : List ℕ → List (List ℕ) → Outcome (List ℕ)
  pack_array arr_type values =
      if same arr_type (codes "uint256")
      then pack_uint_array p values
      else if same arr_type (codes "address")
      then pack_address_array p values
      else if same arr_type (codes "bool")
      then pack_bool_array p values
      else if same arr_type (codes "bytes")
      then pack_bytes_array p values
      else pack_string_array p values

  unfoldable pub pack_scalar : List ℕ → List ℕ → Outcome (List ℕ)
  pack_scalar type val =
      if same type (codes "uint256")
      then pack_uint p val
      else if same type (codes "address")
      then ok (pack_address val)
      else if same type (codes "bool")
      then ok (pack_bool val)
      else if same type (codes "bytes")
      then pack_bytes p val
      else if same type (codes "string")
      then pack_string p val
      else ok []

  -- A single argument. The type "function" passes the check, and nothing is packed for it.
  unfoldable pub pack_single : List ℕ → p.Json → Outcome (List ℕ)
  pack_single type value = elim (array_type type) [
    | some arr_type ↦ (get_strings value >>= pack_array arr_type)
    | none ↦ (p.get_string value >>= pack_scalar type)
  ]

  -- An argument whose content stands behind the others: `packed` is the packing without its offset.
  unfoldable pub put_behind : List ℕ → ℕ → Packing → Packing
  put_behind packed step st = record {
    ret = st.ret ++ word p st.next_offset;
    next_offset = (st.next_offset + step) % 2 ^ 64;
    arr_to_append = st.arr_to_append ++ packed;
  }

  unfoldable pub is_dynamic : List ℕ → Bool
  is_dynamic type = same type (codes "bytes") || same type (codes "string")

  -- One round of the loop, for an argument of `size` fields whose type passed the check.
  unfoldable pub pack_argument : ℕ → List ℕ → p.Json → Packing → Outcome Packing
  pack_argument size type value st = elim (array_type type) [
    | some arr_type ↦
        (get_strings value >>= pack_array arr_type >>= λ whole. substr whole 64 >>= λ packed. ok (
          put_behind packed (if is_dynamic arr_type then 32 * (length packed / 64) else 64 * size)
            st))
    | none ↦
        (p.get_string value >>= pack_scalar type >>= λ whole.
        if is_dynamic type
        then (substr whole 64 >>= λ packed. ok (put_behind packed (32 * (length packed / 64)) st))
        else ok (record st { ret = st.ret ++ whole }))
  ]

  -- The check of a type and a value, or the code for a missing one.
  unfoldable pub check_found : Option (List ℕ × p.Json) → Outcome (Option (List ℕ × p.Json) × ℕ)
  check_found none = ok (none, 32)
  check_found (some (type, value)) = check_type p type value fresh >>= λ (good, arg_err).
      ok (if good then some (type, value) else none, get_code arg_err)

  -- The type and the value of an argument that passes its check, or a code.
  unfoldable pub checked_argument :
      (p.Json → List ℕ → Outcome p.Json) → p.Json → Outcome (Option (List ℕ × p.Json) × ℕ)
  checked_argument item arg = type_and_value item arg >>= check_found

  -- The rest of a round: an argument that passed its check is packed.
  unfoldable pub pack_found :
      (Packing → Outcome (Option Packing × ℕ))
      → ℕ
      → Packing
      → Option (List ℕ × p.Json) × ℕ
      → Outcome (Option Packing × ℕ)
  pack_found rest size st (none, code) = ok (none, code)
  pack_found rest size st (some (type, value), code) = pack_argument size type value st >>= rest

  unfoldable pub arguments_loop : List p.Json → Packing → Outcome (Option Packing × ℕ)
  arguments_loop [] st = ok (some st, 0)
  arguments_loop (arg ∷ args) st =
      checked_argument p.at_or_null arg
      >>= pack_found (arguments_loop args) (length (p.elements arg)) st

  -- The function in front: its check, and its first eight digits.
  unfoldable pub pack_head : List ℕ → Outcome (Option (List ℕ) × ℕ)
  pack_head [] = ok (some (codes "0x"), 0)
  pack_head (c ∷ func) =
      check_type p (codes "function") (p.text (c ∷ func)) fresh >>= λ (good, func_err).
      ok (if good then some (codes "0x" ++ pack_function p (c ∷ func)) else none, get_code func_err)

  -- `ret += arrToAppend`
  unfoldable pub finish : Option Packing × ℕ → Outcome (Option (List ℕ) × ℕ)
  finish (none, code) = ok (none, code)
  finish (some done, code) = ok (some (done.ret ++ done.arr_to_append), code)

  unfoldable pub single_found :
      List ℕ → Option (List ℕ × p.Json) × ℕ → Outcome (Option (List ℕ) × ℕ)
  single_found ret (none, code) = ok (none, code)
  single_found ret (some (type, value), code) =
      pack_single type value >>= λ packed. ok (some (ret ++ packed), 0)

  -- A single object, or an array of them.
  unfoldable pub pack_body : p.Json → List ℕ → Outcome (Option (List ℕ) × ℕ)
  pack_body args ret =
      if not (p.is_array args)
      then (checked_argument p.at args >>= single_found ret)
      else (arguments_loop (p.elements args)
            (record { ret = ret; next_offset = 32 * length (p.elements args); arr_to_append = [] })
          >>= finish)

  -- The text that is returned, and the code that is set.
  unfoldable pub answer : ErrorState → Option (List ℕ) × ℕ → Outcome (List ℕ × ErrorState)
  answer err (none, code) = ok ([], set_code err code)
  answer err (some text, code) = ok (text, set_code err code)

  unfoldable pub pack_behind :
      p.Json → ErrorState → Option (List ℕ) × ℕ → Outcome (List ℕ × ErrorState)
  pack_behind args err (none, code) = ok ([], set_code err code)
  pack_behind args err (some ret, code) = pack_body args ret >>= answer err

  -- `packMulti`
  unfoldable pub pack_multi : p.Json → ErrorState → List ℕ → Outcome (List ℕ × ErrorState)
  pack_multi args err func = pack_head func >>= pack_behind args err
