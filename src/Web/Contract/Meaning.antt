-- ===== src/Web/Contract/Meaning.antt =====
-- What a reader of the ABI finds in the data of a call by the second `operator()` of `class Contract`
-- (src/Contract.cpp): the values that the texts of the arguments stand for.
use web3cpp.Common.{ℕ, ◌^◌, ◌<◌, ◌≡◌, Bool, true, some, List, [], ◌∷◌, length, map, All, all, ok}
use web3cpp.Common.Bytes.{IsByte}
use web3cpp.Web.Contract.{
  Contract, Types, uint256, uint256_arr, boolean_arr, address_arr, bytes, bytes_arr, string,
  string_arr,
}
use web3cpp.Web.Contract.Call.{JsonItems}
use web3cpp.Web.Contract.Elements.{array_text}
use web3cpp.Web.Contract.Placed.{value_part}
use web3cpp.Web.Platform.{Platform, HexLaws}
use web3cpp.Web.Solidity.Multi.{get_each}
use web3cpp.Web.Solidity.Multi.Abi.{Abi, uint, byte_string, byte_strings, Stands, read_arguments}
use web3cpp.Web.Solidity.Multi.Layout.{Part}
use web3cpp.Web.Solidity.Multi.Meaning.{bool_digit}
use web3cpp.Web.Solidity.Pack.{digits_of_bytes}
use web3cpp.Web.Solidity.Pack.Reading.{IsHexText}
use web3cpp.Web.Texts.{is_digit, is_hex_digit, to_lower}
use web3cpp.Web.Utils.{without_prefix, strip_hex_prefix}
use web3cpp.Web.Utils.Addresses.{is_address}
use web3cpp.Web.Utils.Bytes.{utf8_loop}

module _ (p : Platform) where
  -- The value that a json text, or a list of texts, stands for under a type that is no array of words.
  abbrev pub StandsFor : Types → p.Json → Abi → Type 0
  StandsFor uint256 v abi =
      (it : List ℕ) × ((n : ℕ) × (p.get_string v ≡ ok it)
        × (all (λ c. is_digit c) it ≡ true)
        × (p.read_dec it ≡ ok n)
        × (n < 2 ^ 256)
        × (abi ≡ uint n))
  StandsFor web3cpp.Web.Contract.address v abi =
      (it : List ℕ) × ((a : List ℕ) × (p.get_string v ≡ ok it)
        × (is_address p (strip_hex_prefix it) ≡ ok true)
        × (map to_lower (without_prefix (strip_hex_prefix it)) ≡ a)
        × (all (λ c. is_hex_digit c) a ≡ true)
        × (length a ≡ 40)
        × (abi ≡ web3cpp.Web.Solidity.Multi.Abi.address a))
  StandsFor web3cpp.Web.Contract.boolean v abi =
      (b : Bool) × ((p.get_string v ≡ ok (bool_digit b))
        × (abi ≡ web3cpp.Web.Solidity.Multi.Abi.boolean b))
  StandsFor bytes v abi =
      (it : List ℕ) × ((p.get_string v ≡ ok it)
        × IsHexText (digits_of_bytes it)
        × (length (digits_of_bytes it) < 2 ^ 64)
        × (abi ≡ byte_string (digits_of_bytes it)))
  StandsFor string v abi =
      (it : List ℕ) × ((p.get_string v ≡ ok it)
        × All IsByte it
        × (length it < 2 ^ 63)
        × (abi ≡ byte_string (utf8_loop it)))
  StandsFor bytes_arr v abi =
      (its : List (List ℕ)) × ((get_each p (p.elements v) ≡ ok its)
        × (0 < length its)
        × All IsHexText (map digits_of_bytes its)
        × (length (array_text p (map digits_of_bytes its)) < 2 ^ 62)
        × (abi ≡ byte_strings (map digits_of_bytes its)))
  StandsFor string_arr v abi =
      (its : List (List ℕ)) × ((get_each p (p.elements v) ≡ ok its)
        × (0 < length its)
        × All (λ it. All IsByte it) its
        × (length (array_text p (map utf8_loop its)) < 2 ^ 62)
        × (abi ≡ byte_strings (map utf8_loop its)))
  StandsFor uint256_arr v abi = ⊥
  StandsFor address_arr v abi = ⊥
  StandsFor boolean_arr v abi = ⊥

  abbrev pub AllStandFor : List Types → List p.Json → List Abi → Type 0
  AllStandFor [] [] [] = Unit
  AllStandFor [] [] (abi ∷ abis) = ⊥
  AllStandFor [] (v ∷ vs) abis = ⊥
  AllStandFor (t ∷ ts) [] abis = ⊥
  AllStandFor (t ∷ ts) (v ∷ vs) [] = ⊥
  AllStandFor (t ∷ ts) (v ∷ vs) (abi ∷ abis) = StandsFor t v abi × AllStandFor ts vs abis

module _ (p : Platform) (j : JsonItems p) (laws : HexLaws p) where
  -- A part that is found and stands for a value.
  abbrev Found : Types → p.Json → Abi → Type 0
  Found t v abi =
      (part : Part) × ((value_part p j t v ≡ ok (some part, 0)) × Stands p laws abi part)
