-- ===== src/Web/Utils/Wei.antt =====
-- Amounts: `toWei` and `fromWei` of src/Utils.cpp. The count of decimals is not negative.
pub mod RoundTrip
use mathlib.Core.Logic.{ite}
use web3cpp.Common.{
  ℕ, zero, suc, ◌+◌, ◌-◌, Bool, true, false, not, ◌&&◌, ◌||◌, List, [], ◌∷◌, ◌++◌, ltb, leb, ◌==◌,
  if◌then◌else◌, length, take, drop, replicate, all, Outcome, ok, ◌>>=◌,
}
use web3cpp.Common.Bytes.{codes}
use web3cpp.Web.Platform.{Platform}
use web3cpp.Web.Texts.{is_digit}
use web3cpp.Web.Utils.{to_hex_number, hex_to_number_string}

-- The text before the first point, and from the point on.
unfoldable pub before_point : List ℕ → List ℕ
before_point [] = []
before_point (c ∷ cs) = let rest = before_point cs in if c == b'.' then [] else c ∷ rest

unfoldable pub from_point : List ℕ → List ℕ
from_point [] = []
from_point (c ∷ cs) = let rest = from_point cs in if c == b'.' then c ∷ cs else rest

-- `while (valuestr[0] == '0') valuestr.erase(0,1);`
unfoldable pub drop_zeros : List ℕ → List ℕ
drop_zeros [] = []
drop_zeros (c ∷ cs) = let rest = drop_zeros cs in if c == b'0' then rest else c ∷ cs

unfoldable pub zero_if_empty : List ℕ → List ℕ
zero_if_empty [] = codes "0"
zero_if_empty (c ∷ cs) = c ∷ cs

-- `while (digitPadding.size() < decimals) digitPadding += '0';`
unfoldable pub fill : ℕ → List ℕ → List ℕ
fill decimals s = s ++ replicate (decimals - length s) b'0'

-- `toWei(string, decimals)`; too many decimals, or a character that is neither a digit nor a point,
-- give the empty text.
unfoldable pub to_wei : List ℕ → ℕ → List ℕ
to_wei amount decimals =
    if not (all (λ c. is_digit c || c == b'.') amount)
    then []
    else if ltb decimals (length (drop 1 (from_point amount)))
    then []
    else zero_if_empty
        (drop_zeros (before_point amount ++ fill decimals (drop 1 (from_point amount))))

-- `fromWei(string, decimals)`
unfoldable pub from_wei : List ℕ → ℕ → List ℕ
from_wei amount decimals =
    if leb (length amount) decimals
    then codes "0." ++ replicate (decimals - length amount) b'0' ++ amount
    else take (length amount - decimals) amount ++ b'.' ∷ drop (length amount - decimals) amount

module _ (p : Platform) where
  unfoldable pub to_wei_number : ℕ → ℕ → Outcome (List ℕ)
  to_wei_number amount decimals =
      hex_to_number_string p (to_hex_number p amount) >>= λ s. ok (to_wei s decimals)

  unfoldable pub from_wei_number : ℕ → ℕ → Outcome (List ℕ)
  from_wei_number amount decimals =
      hex_to_number_string p (to_hex_number p amount) >>= λ s. ok (from_wei s decimals)
