-- ===== src/Web/Utils/Wei/RoundTrip.antt =====
-- `toWei` takes back what `fromWei` wrote.
use web3cpp.Common.{
  ℕ, zero, suc, ◌+◌, ◌-◌, ◌≡◌, refl, ap, ◌∙◌, Bool, true, false, ◌||◌, inl, inr, List, [], ◌∷◌,
  ◌++◌, ltb, leb, ◌==◌, length, take, drop, replicate, all, arith, Bool-cases, append-nil,
  length-append, length-replicate, length-drop,
}
use web3cpp.Common.Bytes.{codes}
use web3cpp.Web.Texts.{is_digit}
use web3cpp.Web.Utils.Wei.{
  before_point, from_point, drop_zeros, zero_if_empty, fill, to_wei, from_wei,
}

abbrev digits_only : List ℕ → Bool
digits_only s = all (λ c. is_digit c) s

abbrev amount_only : List ℕ → Bool
amount_only s = all (λ c. is_digit c || c == b'.') s

before_point_lem : (xs ys : List ℕ) → digits_only xs ≡ true → before_point (xs ++ b'.' ∷ ys) ≡ xs
unfolding before_point all
before_point_lem [] ys h = refl
before_point_lem (c ∷ xs) ys h = ground (arith, h, before_point_lem xs ys)

from_point_lem : (xs ys : List ℕ) → digits_only xs ≡ true → from_point (xs ++ b'.' ∷ ys) ≡ b'.' ∷ ys
unfolding from_point all
from_point_lem [] ys h = refl
from_point_lem (c ∷ xs) ys h = ground (arith, h, from_point_lem xs ys)

digits→amount : (xs : List ℕ) → digits_only xs ≡ true → amount_only xs ≡ true
unfolding all
digits→amount [] h = refl
digits→amount (c ∷ xs) h = ground (arith, h, digits→amount xs)

amount_point :
    (xs ys : List ℕ)
    → digits_only xs ≡ true
    → amount_only ys ≡ true
    → amount_only (xs ++ b'.' ∷ ys) ≡ true
unfolding all
amount_point [] ys h k = ground (arith, k)
amount_point (c ∷ xs) ys h k = ground (arith, h, amount_point xs ys)

digits-take : (n : ℕ) (xs : List ℕ) → digits_only xs ≡ true → digits_only (take n xs) ≡ true
unfolding all
digits-take zero xs h = refl
digits-take (suc n) [] h = refl
digits-take (suc n) (c ∷ xs) h = ground (arith, h, digits-take n xs)

digits-drop : (n : ℕ) (xs : List ℕ) → digits_only xs ≡ true → digits_only (drop n xs) ≡ true
unfolding all
digits-drop zero xs h = h
digits-drop (suc n) [] h = refl
digits-drop (suc n) (c ∷ xs) h = ground (arith, h, digits-drop n xs)

digits-zeros :
    (n : ℕ) (xs : List ℕ) → digits_only xs ≡ true → digits_only (replicate n b'0' ++ xs) ≡ true
unfolding all
digits-zeros zero xs h = h
digits-zeros (suc n) xs h = digits-zeros n xs h

drop_zeros-zeros : (n : ℕ) (xs : List ℕ) → drop_zeros (replicate n b'0' ++ xs) ≡ drop_zeros xs
unfolding drop_zeros
drop_zeros-zeros zero xs = refl
drop_zeros-zeros (suc n) xs = drop_zeros-zeros n xs

take-drop : (n : ℕ) (xs : List ℕ) → take n xs ++ drop n xs ≡ xs
take-drop zero xs = refl
take-drop (suc n) [] = refl
take-drop (suc n) (c ∷ xs) = ap (λ l. c ∷ l) (take-drop n xs)

fill_full : (d : ℕ) (ys : List ℕ) → length ys ≡ d → fill d ys ≡ ys
unfolding fill
fill_full d ys h =
    ap (λ k. ys ++ replicate k b'0') {x = d - length ys} {y = 0} (omega (arith, h)) ∙ append-nil ys

-- An amount with all its decimals is its digits without the point.
to_wei_point :
    (xs ys : List ℕ) (d : ℕ)
    → digits_only xs ≡ true
    → digits_only ys ≡ true
    → length ys ≡ d
    → to_wei (xs ++ b'.' ∷ ys) d ≡ zero_if_empty (drop_zeros (xs ++ ys))
unfolding to_wei
to_wei_point xs ys d hx hy size =
    let fits : ltb d (length ys) ≡ false = ground (arith, size) in
    rw (amount_point xs ys hx (digits→amount ys hy)) (
      rw (from_point_lem xs ys hx)
        (rw fits (rw (before_point_lem xs ys hx) (rw (fill_full d ys size) refl))))

-- `toWei` of what `fromWei` wrote for a text of digits, with the same decimals, is the text without
-- its leading zeros, and "0" if nothing is left.
pub to_wei-from_wei :
    (amount : List ℕ) (d : ℕ)
    → all (λ c. is_digit c) amount ≡ true
    → to_wei (from_wei amount d) d ≡ zero_if_empty (drop_zeros amount)
unfolding from_wei
to_wei-from_wei amount d h = elim (Bool-cases (leb (length amount) d)) [
  | inl short ↦
      let pad : List ℕ = replicate (d - length amount) b'0' in
      let size : length (pad ++ amount) ≡ d =
        length-append pad amount
        ∙ ap (λ k. k + length amount) (length-replicate (d - length amount) b'0')
        ∙ ground (arith, short) in
      rw short (
        to_wei_point (codes "0") (pad ++ amount) d (unfold all in refl)
          (digits-zeros (d - length amount) amount h) size
        ∙ ap zero_if_empty (drop_zeros-zeros (suc (d - length amount)) amount))
  | inr long ↦
      let n : ℕ = length amount - d in
      rw long (
        to_wei_point (take n amount) (drop n amount) d (digits-take n amount h)
          (digits-drop n amount h) (length-drop n amount ∙ ground (arith, long))
        ∙ ap (λ l. zero_if_empty (drop_zeros l)) (take-drop n amount))
]
