-- ===== src/DevCore/Hex.antt =====
-- Hexadecimal texts: `toHex`, `fromHex`, `isHex`, `asNibbles` and `escaped` of
-- include/web3cpp/devcore/CommonData.h and src/devcore/CommonData.cpp. Texts are lists of bytes. The loop of
-- `fromHex` has an index of 32 bits, which reaches the end of a text below 2 ^ 32 characters; what it does on
-- a longer one, where the index wraps, is not modelled, and `from_hex` is `stuck` there.
pub mod RoundTrip
use web3cpp.Common.{
  ℕ, zero, suc, ◌+◌, ◌-◌, ◌*◌, ◌/◌, ◌%◌, ◌^◌, Bool, true, false, not, ◌&&◌, ◌||◌, Option, none,
  some, List, [], ◌∷◌, ◌++◌, ltb, leb, ◌==◌, if◌then◌else◌, length, get_or, drop, Outcome, ok,
  throws, undefined, stuck, bad_hex_character, ◌>>=◌,
}
use web3cpp.Common.Bytes.{codes}

-- "0123456789abcdef"[d]
unfoldable pub hex_digit : ℕ → ℕ
hex_digit d = get_or (codes "0123456789abcdef") d 0

-- `toHex` without its prefix: two digits for each byte.
unfoldable pub to_hex : List ℕ → List ℕ
to_hex [] = []
to_hex (b ∷ bs) = hex_digit (b / 16 % 16) ∷ hex_digit (b % 16) ∷ to_hex bs

unfoldable pub to_hex_prefixed : List ℕ → List ℕ
unfolding to_hex
to_hex_prefixed bs = codes "0x" ++ to_hex bs

-- `fromHexChar`; `none` is -1.
unfoldable pub from_hex_char : ℕ → Option ℕ
from_hex_char c =
    if leb b'0' c && leb c b'9'
    then some (c - b'0')
    else if leb b'a' c && leb c b'f'
    then some (c - b'a' + 10)
    else if leb b'A' c && leb c b'F'
    then some (c - b'A' + 10)
    else none

abbrev is_some : Option ℕ → Bool
is_some none = false
is_some (some n) = true

all_hex : List ℕ → Bool
all_hex [] = true
all_hex (c ∷ cs) = is_some (from_hex_char c) && all_hex cs

-- `_s.compare(0, 2, "0x") == 0`
unfoldable pub prefixed : List ℕ → Bool
prefixed s = ltb 1 (length s) && get_or s 0 0 == b'0' && get_or s 1 0 == b'x'

-- `dev::isHex`
pub is_hex : List ℕ → Bool
is_hex s = if prefixed s then all_hex (drop 2 s) else all_hex s

-- The value of two digits, if both are digits.
abbrev pair_value : Option ℕ → Option ℕ → Option ℕ
pair_value (some h) (some l) = some ((h * 16 + l) % 256)
pair_value none l = none
pair_value (some h) none = none

-- A bad character throws, or gives up with no bytes at all.
abbrev bad_character : Bool → Outcome (List ℕ)
bad_character throwing = if throwing then throws bad_hex_character else ok []

-- The loop over the pairs of digits. Its text has even length, and an index of 32 bits reaches its end.
unfoldable pub hex_pairs : Bool → List ℕ → List ℕ → Outcome (List ℕ)
hex_pairs throwing [] ret = ok ret
hex_pairs throwing (h ∷ []) ret = undefined
hex_pairs throwing (h ∷ l ∷ rest) ret = elim (pair_value (from_hex_char h) (from_hex_char l)) [
  | some b ↦ hex_pairs throwing rest (ret ++ b ∷ [])
  | none ↦ bad_character throwing
]

-- An odd text has a first digit of its own.
unfoldable pub hex_body : Bool → List ℕ → Bool → Outcome (List ℕ)
hex_body throwing s false = hex_pairs throwing s []
hex_body throwing [] true = undefined
hex_body throwing (c ∷ rest) true = elim (from_hex_char c) [
  | some h ↦ hex_pairs throwing rest (h ∷ [])
  | none ↦ bad_character throwing
]

-- `fromHex(_s, _throw)`; `throwing` is `WhenError::Throw`. The index is below 2 ^ 32.
unfoldable pub from_hex : List ℕ → Bool → Outcome (List ℕ)
from_hex s throwing =
    if ltb (length s) (2 ^ 32)
    then hex_body throwing (if prefixed s then drop 2 s else s) (length s % 2 == 1)
    else stuck

-- `asNibbles`
unfoldable pub as_nibbles : List ℕ → List ℕ
as_nibbles [] = []
as_nibbles (b ∷ bs) = b / 16 ∷ b % 16 ∷ as_nibbles bs

-- The characters that `escaped` writes with a letter, as signed chars: '\r', '\n', '\t', '\v'.
abbrev pretty : ℕ → Option ℕ
pretty c =
    if c == 13
    then some b'r'
    else if c == 10
    then some b'n'
    else if c == 9
    then some b't'
    else if c == 11
    then some b'v'
    else none

-- `i < ' '` for a `char`, which is signed: the bytes from 128 on are below 0.
escape_char : Bool → ℕ → List ℕ
escape_char whole c =
    if c == 34 && not whole
    then 92 ∷ 34 ∷ []
    else if c == 92 && not whole
    then 92 ∷ 92 ∷ []
    else if is_some (pretty c) && not whole
    then 92 ∷ elim (pretty c) [ some l ↦ l | none ↦ 0 ] ∷ []
    else if ltb c 32 || leb 128 c || whole
    then 92 ∷ b'x' ∷ hex_digit (c / 16) ∷ hex_digit (c % 16) ∷ []
    else c ∷ []

escape_chars : Bool → List ℕ → List ℕ
escape_chars whole [] = []
escape_chars whole (c ∷ cs) = escape_char whole c ++ escape_chars whole cs

-- `escaped(_s, _all)`
pub escaped : List ℕ → Bool → List ℕ
escaped s whole = 34 ∷ (escape_chars whole s ++ 34 ∷ [])
