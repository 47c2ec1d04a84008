-- ===== src/Web/Errors.antt =====
-- `class Error` (include/web3cpp/Error.h, src/Error.cpp). Its mutex makes each method atomic; a
-- method here is one such step. The message on a second `setCode` goes to the terminal and is not
-- modelled.
use Prim.Native.String.{String}
use web3cpp.Common.{
  ℕ, zero, suc, ◌≤◌, ◌<◌, ◌⊎◌, inl, inr, Bool-cases, Option-cases, ◌&&◌, Bool, true, false, ◌≡◌,
  refl, List, [], ◌∷◌, Option, none, some, ◌==◌, if◌then◌else◌, arith,
}

abbrev pub unknown_error : ℕ
unknown_error = 999

unfoldable pub code_map : List (ℕ × String)
code_map =
    (0, "No Error")
    ∷ (1, "Incorrect Password")
    ∷ (2, "Database Insert Failed")
    ∷ (3, "Account Exists")
    ∷ (4, "Invalid Hex Data")
    ∷ (5, "Invalid Address")
    ∷ (6, "Invalid Hash Length")
    ∷ (7, "Key Derivation Failed")
    ∷ (8, "Key Encryption Failed")
    ∷ (9, "Invalid Block Number")
    ∷ (10, "Invalid Number")
    ∷ (11, "Transaction Build Error")
    ∷ (12, "Transaction Sign Error")
    ∷ (13, "Transaction Send Error")
    ∷ (14, "Key Derivation Invalid Length")
    ∷ (15, "Key Decryption MAC Mismatch")
    ∷ (16, "Key Decryption Failed")
    ∷ (17, "ABI Functor Not Found")
    ∷ (18, "ABI Invalid Arguments Length")
    ∷ (19, "ABI Invalid JSON Array")
    ∷ (20, "ABI Invalid Uint256 Array")
    ∷ (21, "ABI Invalid Address Array")
    ∷ (22, "ABI Invalid Boolean Array")
    ∷ (23, "ABI Invalid Bytes Array")
    ∷ (24, "ABI Invalid String Array")
    ∷ (25, "ABI Invalid Uint256")
    ∷ (26, "ABI Invalid Address")
    ∷ (27, "ABI Invalid Boolean")
    ∷ (28, "ABI Invalid Bytes")
    ∷ (29, "ABI Invalid String")
    ∷ (30, "ABI Invalid Function")
    ∷ (31, "ABI Unsupported Or Invalid Type")
    ∷ (32, "ABI Missing Type Or Value")
    ∷ (33, "JSON File Does Not Exist")
    ∷ (34, "JSON File Read Error")
    ∷ (35, "JSON File Write Error")
    ∷ (999, "Unknown Error")
    ∷ []

-- `std::map::find`
unfoldable pub find : ℕ → List (ℕ × String) → Option String
find k [] = none
find k ((c, m) ∷ rest) = if c == k then some m else find k rest

pub record ErrorState : Type 0 where
  pub code : ℕ
  pub message : String
  pub is_set : Bool

abbrev pub fresh : ErrorState
fresh = record { code = 0; message = ""; is_set = false }

unfoldable pub store_found : ℕ → Option String → ErrorState
store_found k (some m) = record { code = k; message = m; is_set = true }
store_found k none = record {
  code = unknown_error;
  message = elim (find unknown_error code_map) [ some m ↦ m | none ↦ "" ];
  is_set = true;
}

unfoldable pub set_code : ErrorState → ℕ → ErrorState
set_code e k = if e.is_set then e else store_found k (find k code_map)

abbrev pub get_code : ErrorState → ℕ
get_code e = e.code

abbrev pub what : ErrorState → String
what e = e.message

is_set-store_found : (k : ℕ) (m : Option String) → (store_found k m).is_set ≡ true
unfolding store_found
is_set-store_found k none = refl
is_set-store_found k (some m) = refl

is_set-set_code : (e : ErrorState) (k : ℕ) → (set_code e k).is_set ≡ true
unfolding set_code
is_set-set_code e k = elim (Bool-cases e.is_set) [
  | inl old ↦ rw old
  | inr new ↦ rw new (is_set-store_found k (find k code_map))
]

-- An error object is set once: the first code stays whatever is set later.
pub set_code_once : (e : ErrorState) (a b : ℕ) → set_code (set_code e a) b ≡ set_code e a
set_code_once e a b =
    let same : (s : ErrorState) → s.is_set ≡ true → set_code s b ≡ s =
      λ s h. unfold set_code in rw h in
    same (set_code e a) (is_set-set_code e a)

-- On a fresh object a code of the map is stored with its message, and any other code as the unknown
-- error.
pub set_code-fresh :
    (k : ℕ)
    → ((get_code (set_code fresh k) ≡ k) × (find k code_map ≡ some (what (set_code fresh k))))
      ⊎ ((find k code_map ≡ none) × (get_code (set_code fresh k) ≡ unknown_error))
unfolding set_code store_found
set_code-fresh k = elim (Option-cases (find k code_map)) [
  | inl e ↦ inr (e, rw e)
  | inr (m, e) ↦ inl (rw e, rw e)
]

abbrev is_known : Option String → Bool
is_known none = false
is_known (some m) = true

below : ℕ → Bool
below zero = true
below (suc k) = is_known (find k code_map) && below k

below→known : (n k : ℕ) → below n ≡ true → k < n → is_known (find k code_map) ≡ true
unfolding below
below→known zero k h lt = absurd (omega arith)
below→known (suc n) k h lt = ground (arith, below→known n k)

known_table : below 36 ≡ true
unfolding below find code_map
known_table = refl

-- A code that the layer uses is stored as it is.
pub set_code_known : (k : ℕ) → k ≤ 35 → get_code (set_code fresh k) ≡ k
set_code_known k h = elim (set_code-fresh k) [
  | inl (e, _) ↦ e
  | inr (e, _) ↦ cc (below→known 36 k known_table (omega arith), e)
]
