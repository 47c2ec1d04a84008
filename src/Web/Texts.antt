-- ===== src/Web/Texts.antt =====
-- What the code uses of `std::string` and `<cctype>`, in the "C" locale.
use web3cpp.Common.{
  ℕ, ◌+◌, ◌-◌, Bool, true, false, ◌&&◌, ◌||◌, List, [], ◌∷◌, leb, ◌==◌, if◌then◌else◌, take,
}
use web3cpp.Common.Bytes.{codes}

-- `operator==` on texts.
unfoldable pub same : List ℕ → List ℕ → Bool
same [] [] = true
same [] (b ∷ bs) = false
same (a ∷ as_) [] = false
same (a ∷ as_) (b ∷ bs) = a == b && same as_ bs

abbrev pub is_digit : ℕ → Bool
is_digit c = leb b'0' c && leb c b'9'

abbrev pub is_upper : ℕ → Bool
is_upper c = leb b'A' c && leb c b'Z'

abbrev pub is_lower : ℕ → Bool
is_lower c = leb b'a' c && leb c b'z'

unfoldable pub to_lower : ℕ → ℕ
to_lower c = if is_upper c then c + 32 else c

unfoldable pub to_upper : ℕ → ℕ
to_upper c = if is_lower c then c - 32 else c

-- One of "0123456789abcdefABCDEF".
abbrev pub is_hex_digit : ℕ → Bool
is_hex_digit c = is_digit c || (leb b'a' c && leb c b'f') || (leb b'A' c && leb c b'F')

-- `s.substr(0, 2) == "0x" || s.substr(0, 2) == "0X"`
unfoldable pub has_prefix : List ℕ → Bool
unfolding same
has_prefix s = same (take 2 s) (codes "0x") || same (take 2 s) (codes "0X")
