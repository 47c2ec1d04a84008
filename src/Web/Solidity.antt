-- ===== src/Web/Solidity.antt =====
-- `class Solidity` (include/web3cpp/Solidity.h, src/Solidity.cpp): the checks of types and values.
-- Texts are shorter than 2 ^ 31, so that a position of type `int` holds.
pub mod Pack
pub mod Multi
pub mod Tests
use web3cpp.Common.{
  ℕ, zero, suc, ◌+◌, Bool, true, false, not, ◌&&◌, ◌||◌, Option, none, some, List, [], ◌∷◌, ◌++◌,
  ◌==◌, if◌then◌else◌, length, take, drop, all, Outcome, ok, throws, stuck, out_of_range, ◌>>=◌,
}
use web3cpp.Common.Bytes.{codes}
use web3cpp.Web.Errors.{ErrorState, set_code}
use web3cpp.Web.Platform.{Platform}
use web3cpp.Web.Texts.{same, is_digit}
use web3cpp.Web.Utils.{is_hex}
use web3cpp.Web.Utils.Addresses.{is_address}
use web3cpp.Web.Utils.Bytes.{utf8_to_hex}

abbrev pub next_position : Option ℕ → Option ℕ
next_position none = none
next_position (some i) = some (suc i)

-- `find` of one character; `none` is `npos`.
unfoldable pub find_char : ℕ → List ℕ → Option ℕ
find_char c [] = none
find_char c (d ∷ ds) = if d == c then some 0 else next_position (find_char c ds)

abbrev pub is_found : Option ℕ → Bool
is_found none = false
is_found (some i) = true

unfoldable pub is_known_type : List ℕ → Bool
is_known_type t =
    same t (codes "uint256")
    || same t (codes "address")
    || same t (codes "bool")
    || same t (codes "bytes")
    || same t (codes "string")
    || same t (codes "uint256[]")
    || same t (codes "address[]")
    || same t (codes "bool[]")
    || same t (codes "bytes[]")
    || same t (codes "string[]")

-- The loop over the types, each of which ends with a comma.
unfoldable pub types_loop : ℕ → List ℕ → Outcome Bool
types_loop zero hdr = if is_found (find_char b',' hdr) then stuck else ok true
types_loop (suc fuel) hdr = elim (find_char b',' hdr) [
  | none ↦ ok true
  | some pos ↦
      let rest = types_loop fuel (drop (pos + 1) hdr) in
      if is_known_type (take pos hdr) then rest else ok false
]

-- `hdr.replace(hdr.find(")"), 1, ",")`
unfoldable pub close_types : List ℕ → Outcome (List ℕ)
close_types hdr = elim (find_char b')' hdr) [
  | none ↦ throws out_of_range
  | some pos ↦ ok (take pos hdr ++ b',' ∷ drop (pos + 1) hdr)
]

-- Whether a text is a function with types that are known.
unfoldable pub function_passes : List ℕ → Outcome Bool
function_passes hdr = elim (find_char b'(' hdr) [
  | none ↦ ok false
  | some pos ↦
      if not (is_found (find_char b')' hdr))
      then ok false
      else (close_types (drop (pos + 1) hdr) >>= λ types. types_loop (length types) types)
]

unfoldable pub bool_passes : List ℕ → Bool
bool_passes it =
    same it (codes "0") || same it (codes "1") || same it (codes "true") || same it (codes "false")

-- Every element of an array, up to the first that fails.
unfoldable pub each_passes {ℓ} : {A : Type ℓ} → (A → Outcome Bool) → List A → Outcome Bool
each_passes test [] = ok true
each_passes test (x ∷ xs) =
    let rest = each_passes test xs in test x >>= λ good. if good then rest else ok false

module _ (p : Platform) where
  -- The check of one value of a type that is no array.
  unfoldable pub scalar_passes : List ℕ → List ℕ → Outcome Bool
  scalar_passes type it =
      if same type (codes "uint256")
      then ok (all (λ c. is_digit c) it)
      else if same type (codes "address")
      then is_address p it
      else if same type (codes "bool")
      then ok (bool_passes it)
      else if same type (codes "bytes")
      then ok (is_hex it)
      else ok (is_hex (utf8_to_hex it))

  -- The code 0, or that of the type.
  unfoldable pub code_if : Outcome Bool → ℕ → Outcome ℕ
  code_if passes code = passes >>= λ good. ok (if good then 0 else code)

  unfoldable pub scalar_code : List ℕ → ℕ → p.Json → Outcome ℕ
  scalar_code type code value = p.get_string value >>= λ it. code_if (scalar_passes type it) code

  unfoldable pub array_code : List ℕ → ℕ → p.Json → Outcome ℕ
  array_code type code value =
      code_if (each_passes (λ item. p.get_string item >>= scalar_passes type) (p.elements value))
        code

  -- The code that `checkType` sets.
  unfoldable pub type_code : List ℕ → p.Json → Outcome ℕ
  type_code type value =
      if same type (codes "function")
      then (p.get_string value >>= λ hdr. code_if (function_passes hdr) 30)
      else if same type (codes "uint256")
      then scalar_code (codes "uint256") 25 value
      else if same type (codes "address")
      then scalar_code (codes "address") 26 value
      else if same type (codes "bool")
      then scalar_code (codes "bool") 27 value
      else if same type (codes "bytes")
      then scalar_code (codes "bytes") 28 value
      else if same type (codes "string")
      then scalar_code (codes "string") 29 value
      else if same type (codes "uint256[]")
      then array_code (codes "uint256") 20 value
      else if same type (codes "address[]")
      then array_code (codes "address") 21 value
      else if same type (codes "bool[]")
      then array_code (codes "bool") 22 value
      else if same type (codes "bytes[]")
      then array_code (codes "bytes") 23 value
      else if same type (codes "string[]")
      then array_code (codes "string") 24 value
      else ok 31

  -- `checkType`
  unfoldable pub check_type : List ℕ → p.Json → ErrorState → Outcome (Bool × ErrorState)
  check_type type value err = type_code type value >>= λ code. ok (code == 0, set_code err code)
