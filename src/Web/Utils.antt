-- ===== src/Web/Utils.antt =====
-- The text utilities of include/web3cpp/Utils.h and src/Utils.cpp. Lengths are below 2^31, so that
-- the indices of type `int` do not overflow, and a count of decimals is not negative.
pub mod Addresses
pub mod Bytes
pub mod Wei
use mathlib.Core.Logic.{ite}
use web3cpp.Common.{
  ℕ, zero, suc, ◌+◌, ◌-◌, ◌*◌, ◌/◌, ◌%◌, Bool, true, false, not, ◌&&◌, ◌||◌, List, [], ◌∷◌, ◌++◌,
  map, ltb, leb, ◌==◌, if◌then◌else◌, length, take, drop, replicate, all, Outcome, ok, throws,
  invalid_argument, ◌>>=◌,
}
use web3cpp.Common.Bytes.{codes}
use web3cpp.DevCore.Hex.{to_hex}
use web3cpp.Web.Platform.{Platform}
use web3cpp.Web.Texts.{is_digit, is_hex_digit, has_prefix, to_lower, to_upper}

-- `(mul != 0 && num % mul != 0) ? (num + mul - (num % mul)) : num` on 64 bits.
unfoldable pub round_up : ℕ → ℕ → ℕ
round_up num mul =
    if not (mul == 0) && not (num % mul == 0)
    then (num + mul - num % mul) % 18446744073709551616
    else num

-- `s.substr(2)` where the text has its prefix, else the text.
unfoldable pub without_prefix : List ℕ → List ℕ
without_prefix s = if has_prefix s then drop 2 s else s

unfoldable pub is_hex : List ℕ → Bool
is_hex hex =
    if has_prefix hex then all (λ c. is_hex_digit c) (drop 2 hex) else all (λ c. is_hex_digit c) hex

unfoldable pub is_hex_strict : List ℕ → Bool
is_hex_strict hex = if has_prefix hex then is_hex hex else false

unfoldable pub is_number : List ℕ → Bool
is_number s = all (λ c. is_digit c) s

unfoldable pub to_lowercase_address : List ℕ → List ℕ
to_lowercase_address address = codes "0x" ++ map to_lower (without_prefix address)

unfoldable pub to_uppercase_address : List ℕ → List ℕ
to_uppercase_address address = codes "0x" ++ map to_upper (without_prefix address)

unfoldable pub strip_hex_prefix : List ℕ → List ℕ
strip_hex_prefix [] = []
strip_hex_prefix (c ∷ cs) =
    if is_hex (c ∷ cs) && has_prefix (c ∷ cs) then drop 2 (c ∷ cs) else c ∷ cs

-- The characters that `padLeft` and `padRight` add.
unfoldable pub padding : ℕ → ℕ → List ℕ → List ℕ
padding amount sign s = if ltb (length s) amount then replicate (amount - length s) sign else []

prefix_again : List ℕ → List ℕ
prefix_again s = if has_prefix s then codes "0x" else []

unfoldable pub pad_left : List ℕ → ℕ → ℕ → List ℕ
unfolding prefix_again
pad_left s amount sign =
    prefix_again s ++ padding amount sign (without_prefix s) ++ without_prefix s

unfoldable pub pad_right : List ℕ → ℕ → ℕ → List ℕ
unfolding prefix_again
pad_right s amount sign =
    prefix_again s ++ without_prefix s ++ padding amount sign (without_prefix s)

module _ (p : Platform) where
  -- `toHex(BigNumber)`
  unfoldable pub to_hex_number : ℕ → List ℕ
  to_hex_number n = p.print_hex n

  unfoldable pub hex_to_big_number : List ℕ → Outcome ℕ
  hex_to_big_number hex = p.read_hex (without_prefix hex)

  unfoldable pub to_bn : List ℕ → Outcome ℕ
  to_bn s =
      if is_hex_strict s
      then hex_to_big_number s
      else if is_number s
      then p.read_dec s
      else throws invalid_argument

  unfoldable pub hex_to_number_string : List ℕ → Outcome (List ℕ)
  hex_to_number_string hex = to_bn hex >>= λ n. ok (p.print_dec n)

  unfoldable pub sha3_raw : List ℕ → List ℕ
  sha3_raw s = to_hex (p.keccak s)

  -- `sha3(string, false)`
  unfoldable pub sha3 : List ℕ → List ℕ
  sha3 [] = []
  sha3 (c ∷ cs) = sha3_raw (c ∷ cs)
