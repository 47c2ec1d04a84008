-- ===== src/Web/Utils/Bytes.antt =====
-- Texts and bytes in hex: `utf8ToHex`, `hexToUtf8`, `hexToAscii`, `hexToBytes`, `asciiToHex`,
-- `bytesToHex` and `toHex(string)` of src/Utils.cpp.
pub mod RoundTrip
use mathlib.Core.Logic.{ite}
use web3cpp.Common.{
  ℕ, zero, suc, ◌+◌, ◌-◌, ◌*◌, ◌/◌, ◌%◌, Bool, true, false, Option, none, some, List, [], ◌∷◌, ◌++◌,
  map, ltb, leb, ◌==◌, if◌then◌else◌, length, drop, all, Outcome, ok, throws, string_thrown,
  invalid_argument, ◌>>=◌,
}
use web3cpp.Common.Bytes.{codes}
use web3cpp.DevCore.Hex.{hex_digit, from_hex_char}
use web3cpp.Web.Platform.{Platform}
use web3cpp.Web.Texts.{is_digit}
use web3cpp.Web.Utils.{is_hex_strict, to_hex_number}

-- `ss << std::hex << n`, an unsigned value of at most 32 bits; the digits need no more fuel.
unfoldable pub print_hex_loop : ℕ → ℕ → List ℕ → List ℕ
print_hex_loop zero n tail = tail
print_hex_loop (suc fuel) n tail =
    if ltb n 16
    then hex_digit n ∷ tail
    else print_hex_loop fuel (n / 16) (hex_digit (n % 16) ∷ tail)

unfoldable pub print_hex : ℕ → List ℕ
print_hex n = print_hex_loop 8 n []

-- `(int)c` for a `char`, which is signed, as the 32 bits that are printed.
unfoldable pub as_int : ℕ → ℕ
as_int c = if leb 128 c then c + 4294967040 else c

-- `std::setfill('0') << std::setw(2)`, and `(n.length() < 2) ? "0" + n : n`.
unfoldable pub two_wide : List ℕ → List ℕ
two_wide [] = b'0' ∷ b'0' ∷ []
two_wide (c ∷ []) = b'0' ∷ c ∷ []
two_wide (c ∷ d ∷ s) = c ∷ d ∷ s

unfoldable pub utf8_loop : List ℕ → List ℕ
utf8_loop [] = []
utf8_loop (c ∷ cs) = two_wide (print_hex c) ++ utf8_loop cs

unfoldable pub utf8_to_hex : List ℕ → List ℕ
utf8_to_hex s = codes "0x" ++ utf8_loop s

-- `std::stoul(s, nullptr, 16)` of a text without sign, space or prefix, stopping at the first
-- character that is no digit.
unfoldable pub stoul_loop : List ℕ → ℕ → ℕ
stoul_loop [] acc = acc
stoul_loop (c ∷ cs) acc = elim (from_hex_char c) [
  | none ↦ acc
  | some d ↦ stoul_loop cs (acc * 16 + d)
]

unfoldable pub stoul : List ℕ → Outcome ℕ
stoul [] = throws invalid_argument
stoul (c ∷ cs) = elim (from_hex_char c) [
  | none ↦ throws invalid_argument
  | some d ↦ ok (stoul_loop cs d)
]

-- The loop over `hex.substr(i, 2)`, whose last text may have one digit.
unfoldable pub pairs_loop : List ℕ → Outcome (List ℕ)
pairs_loop [] = ok []
pairs_loop (c ∷ []) = stoul (c ∷ []) >>= λ b. ok (b ∷ [])
pairs_loop (c ∷ d ∷ rest) = do b ← stoul (c ∷ d ∷ []); bs ← pairs_loop rest; ok (b ∷ bs)

unfoldable pub hex_to_bytes : List ℕ → Outcome (List ℕ)
hex_to_bytes hex = if is_hex_strict hex then pairs_loop (drop 2 hex) else throws string_thrown

-- `str += std::stoul(..)` keeps the low byte.
unfoldable pub hex_to_utf8 : List ℕ → Outcome (List ℕ)
hex_to_utf8 hex =
    if is_hex_strict hex
    then (pairs_loop (drop 2 hex) >>= λ bs. ok (map (λ b. b % 256) bs))
    else throws string_thrown

unfoldable pub hex_to_ascii : List ℕ → Outcome (List ℕ)
hex_to_ascii hex =
    if is_hex_strict hex
    then (pairs_loop (drop 2 hex) >>= λ bs. ok (map (λ b. b % 256) bs))
    else throws string_thrown

ascii_loop : List ℕ → List ℕ
ascii_loop [] = []
ascii_loop (c ∷ cs) = two_wide (print_hex (as_int c)) ++ ascii_loop cs

unfoldable pub ascii_to_hex : List ℕ → List ℕ
unfolding ascii_loop
ascii_to_hex s = codes "0x" ++ ascii_loop s

bytes_loop : List ℕ → List ℕ
bytes_loop [] = []
bytes_loop (b ∷ bs) = print_hex b ++ bytes_loop bs

-- `std::setw(2)` holds for the first value only.
unfoldable pub bytes_to_hex : List ℕ → List ℕ
unfolding bytes_loop
bytes_to_hex [] = codes "0x"
bytes_to_hex (b ∷ bs) = codes "0x" ++ two_wide (print_hex b) ++ bytes_loop bs

text_loop : List ℕ → List ℕ
text_loop [] = []
text_loop (c ∷ cs) = print_hex (as_int c) ++ text_loop cs

-- `toHex(string)`: a text of digits is a number.
unfoldable pub to_hex_text : Platform → List ℕ → Outcome (List ℕ)
unfolding text_loop
to_hex_text p value =
    if all (λ c. is_digit c) value
    then (p.read_dec value >>= λ n. ok (to_hex_number p n))
    else ok (text_loop value)
