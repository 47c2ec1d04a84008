-- ===== src/Web/Contract.antt =====
-- `class Contract` (include/web3cpp/Contract.h, src/Contract.cpp): the methods that its interface
-- declares. Maps are association lists.
pub mod Arrays
pub mod Call
pub mod Refused
pub mod Sizes
pub mod Placed
pub mod Elements
pub mod Meaning
mod Tests
use web3cpp.Common.{
  ℕ, suc, ◌+◌, ◌-◌, Bool, true, false, ◌||◌, Option, none, some, List, [], ◌∷◌, ◌++◌, if◌then◌else◌,
  length, take, Outcome, ok, undefined, ◌>>=◌,
}
use web3cpp.Common.Bytes.{codes}
use web3cpp.DevCore.Hex.{to_hex}
use web3cpp.Web.Platform.{Platform}
use web3cpp.Web.Texts.{same}

-- `enum Types`
pub data Types : Type 0 where
  uint256 : Types
  uint256_arr : Types
  address : Types
  address_arr : Types
  boolean : Types
  boolean_arr : Types
  bytes : Types
  bytes_arr : Types
  string : Types
  string_arr : Types

-- `isTypeArray`
unfoldable pub is_type_array : Types → Bool
is_type_array uint256 = false
is_type_array uint256_arr = true
is_type_array address = false
is_type_array address_arr = true
is_type_array boolean = false
is_type_array boolean_arr = true
is_type_array bytes = false
is_type_array bytes_arr = true
is_type_array string = false
is_type_array string_arr = true

-- `s.find(t) != npos`
unfoldable pub contains_text : List ℕ → List ℕ → Bool
contains_text t [] = same t []
contains_text t (c ∷ cs) = same (take (length t) (c ∷ cs)) t || contains_text t cs

-- The type that a text names. The variable keeps no value where none fits, and is read then.
unfoldable pub argument_type : List ℕ → Outcome Types
argument_type t =
    if same t (codes "uint256")
    then ok uint256
    else if same t (codes "uint256[]")
    then ok uint256_arr
    else if same t (codes "address")
    then ok address
    else if same t (codes "address[]")
    then ok address_arr
    else if same t (codes "bool")
    then ok boolean
    else if same t (codes "bool[]")
    then ok boolean_arr
    else if same t (codes "bytes")
    then ok bytes
    else if same t (codes "bytes[]")
    then ok bytes_arr
    else if same t (codes "string")
    then ok string
    else if same t (codes "string[]")
    then ok string_arr
    else if contains_text (codes "uint") t
    then ok (if contains_text (codes "[]") t then uint256_arr else uint256)
    else if contains_text (codes "bytes") t
    then ok (if contains_text (codes "[]") t then bytes_arr else bytes)
    else undefined

-- `map::find`
unfoldable pub find_name {ℓ} : {A : Type ℓ} → List (List ℕ × A) → List ℕ → Option A
find_name [] name = none
find_name ((n, a) ∷ rest) name = if same n name then some a else find_name rest name

-- `_methods[name].push_back(type)`
unfoldable pub push_type : List (List ℕ × List Types) → List ℕ → Types → List (List ℕ × List Types)
push_type [] name type = (name, type ∷ []) ∷ []
push_type ((n, types) ∷ rest) name type =
    let others = push_type rest name type in
    if same n name then (n, types ++ type ∷ []) ∷ rest else (n, types) ∷ others

-- `_functors[name] = functor`
unfoldable pub set_functor : List (List ℕ × List ℕ) → List ℕ → List ℕ → List (List ℕ × List ℕ)
set_functor [] name functor = (name, functor) ∷ []
set_functor ((n, old) ∷ rest) name functor =
    let others = set_functor rest name functor in
    if same n name then (n, functor) ∷ rest else (n, old) ∷ others

pub record Contract : Type 0 where
  pub methods : List (List ℕ × List Types)
  pub functors : List (List ℕ × List ℕ)

-- `s.pop_back()`
unfoldable pub pop_back : List ℕ → List ℕ
pop_back s = take (length s - 1) s

module _ (p : Platform) where
  -- The text of an entry.
  unfoldable pub text_at : p.Json → List ℕ → Outcome (List ℕ)
  text_at item key = p.at_or_null item key >>= p.get_string

  -- The loop over the inputs of a function, with the text of the function so far.
  unfoldable pub inputs_loop :
      List ℕ
      → List p.Json
      → List ℕ
      → List (List ℕ × List Types)
      → Outcome (List ℕ × List (List ℕ × List Types))
  inputs_loop name [] function_all methods = ok (function_all, methods)
  inputs_loop name (arg ∷ args) function_all methods = text_at arg (codes "type") >>= λ t.
      argument_type t >>= λ type.
      inputs_loop name args (function_all ++ t ++ codes ",") (push_type methods name type)

  -- The functor of a function with its last character dropped and closed.
  unfoldable pub functor_of : List ℕ → List ℕ
  functor_of function_all = take 8 (to_hex (p.keccak (pop_back function_all ++ codes ")")))

  unfoldable pub close_function : List ℕ → Contract → List ℕ × List (List ℕ × List Types) → Contract
  close_function name c (function_all, methods) = record {
    methods = methods;
    functors = set_functor c.functors name (functor_of function_all);
  }

  -- One round of the loop over the interface.
  unfoldable pub add_item : p.Json → Contract → Outcome Contract
  add_item item c = text_at item (codes "type") >>= λ kind.
      if same kind (codes "function")
      then (text_at item (codes "name") >>= λ name. p.at_or_null item (codes "inputs") >>= λ inputs.
          inputs_loop name (p.elements inputs) (name ++ codes "(") c.methods >>= λ found.
          ok (close_function name c found))
      else ok c

  unfoldable pub interface_loop : List p.Json → Contract → Outcome Contract
  interface_loop [] c = ok c
  interface_loop (item ∷ items) c = add_item item c >>= interface_loop items

  -- What the constructor reads of the interface.
  unfoldable pub parse_contract : p.Json → Outcome Contract
  parse_contract json_interface =
      interface_loop (p.elements json_interface) (record { methods = []; functors = [] })
