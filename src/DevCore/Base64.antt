-- ===== src/DevCore/Base64.antt =====
-- Base64 (include/web3cpp/devcore/Base64.h, src/devcore/Base64.cpp). The loops that fill an array of
-- three bytes, or of four characters, are recursions that take three or four at a time; the masks
-- and shifts on bytes are written as divisions and remainders.
pub mod RoundTrip
use mathlib.Core.Logic.{ite}
use web3cpp.Common.{
  ℕ, zero, suc, ◌+◌, ◌-◌, ◌*◌, ◌/◌, ◌%◌, ◌^◌, Bool, true, false, not, ◌&&◌, ◌||◌, List, [], ◌∷◌,
  ◌++◌, leb, ◌==◌, if◌then◌else◌, length, ltb, Outcome, ok, undefined, get_or,
}
use web3cpp.Common.Bytes.{codes}

-- `isalnum` is that of the "C" locale.
unfoldable pub is_base64 : ℕ → Bool
is_base64 c =
    (leb b'0' c && leb c b'9')
    || (leb b'A' c && leb c b'Z')
    || (leb b'a' c && leb c b'z')
    || c == b'+'
    || c == b'/'

unfoldable pub find_base64_char_index : ℕ → ℕ
find_base64_char_index c =
    if leb b'A' c && leb c b'Z'
    then c - b'A'
    else if leb b'a' c && leb c b'z'
    then c - b'a' + 1 + 25
    else if leb b'0' c && leb c b'9'
    then c - b'0' + 1 + 51
    else if c == b'+'
    then 1 + 61
    else if c == b'/'
    then 1 + 62
    else 1 + 63

abbrev pub base64_chars : List ℕ
base64_chars = codes "ABCDEFGHIJKLMNOPQRSTUVWXYZabcdefghijklmnopqrstuvwxyz0123456789+/"

abbrev pub url_safe_chars : List ℕ
url_safe_chars = codes "ABCDEFGHIJKLMNOPQRSTUVWXYZabcdefghijklmnopqrstuvwxyz0123456789-_"

-- `char_array_4` of three bytes.
unfoldable pub sextet_0 : ℕ → ℕ
sextet_0 a = a / 4 % 64

unfoldable pub sextet_1 : ℕ → ℕ → ℕ
sextet_1 a b = a % 4 * 16 + b / 16 % 16

unfoldable pub sextet_2 : ℕ → ℕ → ℕ
sextet_2 b c = b % 16 * 4 + c / 64 % 4

unfoldable pub sextet_3 : ℕ → ℕ
sextet_3 c = c % 64

unfoldable pub letter : List ℕ → ℕ → ℕ
letter chars i = get_or chars i 0

unfoldable pub to_base64_encoding : List ℕ → List ℕ → Bool → List ℕ
to_base64_encoding [] chars pad = []
to_base64_encoding (a ∷ []) chars pad =
    letter chars (sextet_0 a) ∷ letter chars (sextet_1 a 0) ∷ (if pad then b'=' ∷ b'=' ∷ [] else [])
to_base64_encoding (a ∷ b ∷ []) chars pad =
    letter chars (sextet_0 a)
    ∷ letter chars (sextet_1 a b)
    ∷ letter chars (sextet_2 b 0)
    ∷ (if pad then b'=' ∷ [] else [])
to_base64_encoding (a ∷ b ∷ c ∷ rest) chars pad =
    letter chars (sextet_0 a)
    ∷ letter chars (sextet_1 a b)
    ∷ letter chars (sextet_2 b c)
    ∷ letter chars (sextet_3 c)
    ∷ to_base64_encoding rest chars pad

unfoldable pub to_base64 : List ℕ → List ℕ
to_base64 bs = to_base64_encoding bs base64_chars true

unfoldable pub to_base64_url_safe : List ℕ → List ℕ
to_base64_url_safe bs = to_base64_encoding bs url_safe_chars false

-- What the loop of `fromBase64` reads: it stops at '=' and at any other character. `from_base64` has the
-- bound of its index.
unfoldable pub base64_prefix : List ℕ → List ℕ
base64_prefix [] = []
base64_prefix (c ∷ cs) =
    let rest = base64_prefix cs in if not (c == b'=') && is_base64 c then c ∷ rest else []

-- `char_array_3` of four indices.
unfoldable pub octet_0 : ℕ → ℕ → ℕ
octet_0 x y = (x * 4 + y / 16 % 4) % 256

unfoldable pub octet_1 : ℕ → ℕ → ℕ
octet_1 y z = (y % 16 * 16 + z / 4 % 16) % 256

unfoldable pub octet_2 : ℕ → ℕ → ℕ
octet_2 z w = (z % 4 * 64 + w) % 256

-- The groups of four, and a last group of fewer, whose missing characters are 0; the bytes that
-- these reach are not written.
unfoldable pub decode_groups : List ℕ → List ℕ
decode_groups [] = []
decode_groups (x ∷ []) = []
decode_groups (x ∷ y ∷ []) = octet_0 (find_base64_char_index x) (find_base64_char_index y) ∷ []
decode_groups (x ∷ y ∷ z ∷ []) =
    octet_0 (find_base64_char_index x) (find_base64_char_index y)
    ∷ octet_1 (find_base64_char_index y) (find_base64_char_index z)
    ∷ []
decode_groups (x ∷ y ∷ z ∷ w ∷ rest) =
    octet_0 (find_base64_char_index x) (find_base64_char_index y)
    ∷ octet_1 (find_base64_char_index y) (find_base64_char_index z)
    ∷ octet_2 (find_base64_char_index z) (find_base64_char_index w)
    ∷ decode_groups rest

-- `fromBase64`. The index `in_` is an `int`, which overflows at the 2 ^ 31st character that is read.
unfoldable pub from_base64 : List ℕ → Outcome (List ℕ)
from_base64 s =
    let read = base64_prefix s in
    if ltb (length read) (2 ^ 31) then ok (decode_groups read) else undefined
