-- ===== src/Web/Platform.antt =====
-- The code outside src/ that the web3 layer calls: the keccak of ethash, the 256-bit numbers of
-- boost, and the json values of nlohmann. Each is a field of a record that the definitions take;
-- the laws are a record of their own, and a theorem that needs one takes it.
use web3cpp.Common.{
  ℕ, ◌^◌, ◌<◌, ◌≤◌, ◌≡◌, Bool, true, List, ◌++◌, length, all, replicate, Outcome, ok,
}
use web3cpp.Web.Texts.{is_digit, is_hex_digit}

pub record Platform : Type 1 where
  -- `ethash::keccak256`: the bytes of the digest.
  pub keccak : List ℕ → List ℕ
  -- `os << n` and `os << std::hex << n` for a `u256`, and `lexical_cast` to one.
  pub print_dec : ℕ → List ℕ
  pub print_hex : ℕ → List ℕ
  pub read_dec : List ℕ → Outcome ℕ
  pub read_hex : List ℕ → Outcome ℕ
  pub Json : Type 0
  -- The implicit conversions from a string and from a bool, `json::object()` and `json::array()`.
  pub text : List ℕ → Json
  pub boolean : Bool → Json
  pub number : ℕ → Json
  pub empty_object : Json
  pub empty_array : Json
  -- The value of a braced list: an object if every element is a pair whose first is a string.
  pub braces : List Json → Json
  pub contains : Json → List ℕ → Bool
  -- `operator[]` on a constant value, and on a variable, where the key is made if it is missing.
  pub at : Json → List ℕ → Outcome Json
  pub at_or_null : Json → List ℕ → Outcome Json
  -- `j[key] = v`
  pub put : Json → List ℕ → Json → Outcome Json
  pub get_string : Json → Outcome (List ℕ)
  pub is_string : Json → Bool
  pub is_array : Json → Bool
  -- What a range-based loop visits.
  pub elements : Json → List Json

-- A digest has 32 bytes.
pub record KeccakLaws (p : Platform) : Type 0 where
  pub length_digest : (s : List ℕ) → length (p.keccak s) ≡ 32

-- A number is written in decimal with the ten digits.
pub record DecimalLaws (p : Platform) : Type 0 where
  pub digits_only : (n : ℕ) → all (λ c. is_digit c) (p.print_dec n) ≡ true

-- A number is written in hex without a prefix, one of 256 bits with 64 digits at most, and is read
-- back behind any number of zeros.
pub record HexLaws (p : Platform) : Type 0 where
  pub hex_only : (n : ℕ) → all (λ c. is_hex_digit c) (p.print_hex n) ≡ true
  pub short : (n : ℕ) → n < 2 ^ 256 → length (p.print_hex n) ≤ 64
  pub value : (k n : ℕ) → n < 2 ^ 256 → p.read_hex (replicate k b'0' ++ p.print_hex n) ≡ ok n
