-- ===== src/Ledger/Path.antt =====
-- `parsePath` (src/ledger/encoding.cpp): a derivation path such as m/44'/60'/0'/0 as bytes.
use web3cpp.Common.{
  ℕ, ◌+◌, ◌/◌, ◌%◌, ◌^◌, Bool, true, false, ◌&&◌, ◌||◌, Option, none, some, List, [], ◌∷◌, ◌++◌,
  ◌==◌, if◌then◌else◌, get_or, drop, Outcome, ok, undefined, ◌>>=◌,
}
use web3cpp.Web.Texts.{is_digit}

-- A 32-bit number as four bytes, the high one first.
unfoldable pub four_bytes : ℕ → List ℕ
four_bytes n = n / 2 ^ 24 % 256 ∷ n / 2 ^ 16 % 256 ∷ n / 2 ^ 8 % 256 ∷ n % 256 ∷ []

-- The local variables of the loop. `is_hardened` has no value until it is set.
pub record Parsing : Type 0 where
  pub derivations : ℕ
  pub indexes : List ℕ
  pub tmp_index : List ℕ
  pub is_hardened : Option Bool

-- `if (isHardened) { index += hardened; }`; a read without a value is undefined.
unfoldable pub add_hardened : Option Bool → ℕ → Outcome ℕ
add_hardened none index = undefined
add_hardened (some h) index = ok (if h then (index + 2 ^ 31) % 2 ^ 32 else index)

-- The number that `tmpIndex` holds, read by `lexical_cast<uint32_t>`, which is a parameter.
unfoldable pub push_index : (List ℕ → Outcome ℕ) → Parsing → Outcome Parsing
push_index read_u32 st = read_u32 st.tmp_index >>= λ index.
    add_hardened st.is_hardened index >>= λ index'. ok (record {
      derivations = (st.derivations + 1) % 256;
      indexes = st.indexes ++ index' ∷ [];
      tmp_index = [];
      is_hardened = some false;
    })

-- What a character adds to the current index; 39 is the apostrophe.
unfoldable pub take_character : ℕ → Parsing → Parsing
take_character c st = record st {
  tmp_index = if is_digit c then st.tmp_index ++ c ∷ [] else st.tmp_index;
  is_hardened = if c == 39 then some true else st.is_hardened;
}

abbrev is_nil : List ℕ → Bool
is_nil [] = true
is_nil (c ∷ cs) = false

unfoldable pub path_loop : (List ℕ → Outcome ℕ) → List ℕ → Parsing → Outcome Parsing
path_loop read_u32 [] st = ok st
path_loop read_u32 (c ∷ cs) st =
    (if c == b'/' || is_nil cs
      then push_index read_u32 (take_character c st)
      else ok (take_character c st))
    >>= path_loop read_u32 cs

-- `if (unparsedPath[0] == 'm' && unparsedPath[1] == '/') { unparsedPath.erase(0,2); }`
unfoldable pub strip_root : List ℕ → List ℕ
strip_root path = if get_or path 0 0 == b'm' && get_or path 1 0 == b'/' then drop 2 path else path

unfoldable pub index_bytes : List ℕ → List ℕ
index_bytes [] = []
index_bytes (n ∷ ns) = four_bytes n ++ index_bytes ns

-- `parsePath`
unfoldable pub parse_path : (List ℕ → Outcome ℕ) → List ℕ → Outcome (List ℕ)
parse_path read_u32 path =
    path_loop read_u32 (strip_root path)
      (record { derivations = 0; indexes = []; tmp_index = []; is_hardened = none })
    >>= λ st. ok (st.derivations ∷ index_bytes st.indexes)
