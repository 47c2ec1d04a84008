-- ===== src/Common/BigEndian/Digits.antt =====
-- The base-256 digits of a number, most significant first and with no leading zero: what the loops
-- over bytes compute.
use Prim.Native.Nat.{ℕ, zero, suc, ◌+◌, ◌*◌, ◌/◌, ◌%◌, ◌^◌, ◌≤◌, ◌<◌}
use mathlib.Core.Path.{◌≡◌, refl, ◌∙◌}
use mathlib.Core.Logic.{◌≢◌, inl, inr}
use mathlib.Core.List.{List, [], ◌∷◌, ◌++◌, foldl}
use native.Mathlib.Omega.{arith}
use native.Mathlib.Nat.{mod-eq_of_lt, pow-suc}
use web3cpp.Common.Tests.{◌==◌, if◌then◌else◌, Bool-cases, ==_iff}
use web3cpp.Common.Lists.{length, length-append, All}
use web3cpp.Common.Bytes.{IsByte}
use web3cpp.Common.BigEndian.{bytes_required_loop, bytes_required, from_big_endian}

digits_fuel : ℕ → ℕ → List ℕ
digits_fuel zero v = []
digits_fuel (suc f) v =
    let high = digits_fuel f (v / 256) in if v == 0 then [] else high ++ (v % 256 ∷ [])

unfoldable pub digits : ℕ → List ℕ
unfolding digits_fuel
digits v = digits_fuel v v

enough : (f g v : ℕ) → v ≤ f → v ≤ g → digits_fuel f v ≡ digits_fuel g v
unfolding digits_fuel
enough zero zero v p q = refl
enough zero (suc g) v p q = ground arith
enough (suc f) zero v p q = ground arith
enough (suc f) (suc g) v p q = ground (arith, enough f g (v / 256))

pub digits-zero : digits 0 ≡ []
unfolding digits
digits-zero = refl

pub digits_step : (v : ℕ) → v ≢ 0 → digits v ≡ digits (v / 256) ++ (v % 256 ∷ [])
unfolding digits
digits_step zero h = absurd (h refl)
digits_step (suc v) h = ground (arith, enough v (suc v / 256) (suc v / 256))

-- Induction along the digits.
pub digits_induction {ℓ} :
    (P : ℕ → Type ℓ) → P 0 → ((v : ℕ) → v ≢ 0 → P (v / 256) → P v) → (v : ℕ) → P v
digits_induction P base step v = go v v (omega arith)
  where
    go : (f v : ℕ) → v ≤ f → P v
    go zero zero h = base
    go zero (suc v) h = absurd (omega arith)
    go (suc f) zero h = base
    go (suc f) (suc v) h =
        step (suc v) (λ e. absurd (omega arith)) (go f (suc v / 256) (omega arith))

-- The number that a byte string stands for.
unfoldable pub value_from : ℕ → List ℕ → ℕ
value_from acc [] = acc
value_from acc (b ∷ bs) = value_from (acc * 256 + b) bs

value_from-append :
    (acc : ℕ) (xs ys : List ℕ) → value_from acc (xs ++ ys) ≡ value_from (value_from acc xs) ys
unfolding value_from
value_from-append acc [] ys = refl
value_from-append acc (x ∷ xs) ys = value_from-append (acc * 256 + x) xs ys

pub value_from-digits : (v : ℕ) → value_from 0 (digits v) ≡ v
unfolding value_from
value_from-digits =
    digits_induction (λ v. value_from 0 (digits v) ≡ v) (rw digits-zero)
      (λ v h ih. rw (digits_step v h) (rw value_from-append (rw ih (omega arith))))

le-value_from : (acc : ℕ) (xs : List ℕ) → acc ≤ value_from acc xs
unfolding value_from
le-value_from acc [] = omega arith
le-value_from acc (x ∷ xs) = omega (arith, le-value_from (acc * 256 + x) xs)

shift_in_fits :
    (w acc : ℕ) (xs : List ℕ)
    → value_from acc xs < 2 ^ w
    → foldl (λ r b. (r * 256 + b) % 2 ^ w) acc xs ≡ value_from acc xs
unfolding value_from
shift_in_fits w acc [] h = refl
shift_in_fits w acc (x ∷ xs) h = rw (mod-eq_of_lt fits) (shift_in_fits w (acc * 256 + x) xs h)
  where
    fits : acc * 256 + x < 2 ^ w
    fits = omega (arith, le-value_from (acc * 256 + x) xs)

-- `fromBigEndian` reads back the digits of a number that fits the type.
pub from_big_endian-digits : (w v : ℕ) → v < 2 ^ w → from_big_endian w (digits v) ≡ v
unfolding from_big_endian
from_big_endian-digits w v h =
    shift_in_fits w 0 (digits v) (rw (value_from-digits v) h) ∙ value_from-digits v

pub digits-IsByte : (v : ℕ) → All IsByte (digits v)
digits-IsByte =
    digits_induction (λ v. All IsByte (digits v)) (rw digits-zero tt)
      (λ v h ih. rw (digits_step v h) (All-snoc (digits (v / 256)) (v % 256) ih (omega arith)))
  where
    All-snoc : (xs : List ℕ) (x : ℕ) → All IsByte xs → IsByte x → All IsByte (xs ++ x ∷ [])
    All-snoc [] x h hx = (hx, tt)
    All-snoc (y ∷ ys) x h hx = (h.0, All-snoc ys x h.1 hx)

pub length-digits_step : (v : ℕ) → v ≢ 0 → length (digits v) ≡ length (digits (v / 256)) + 1
length-digits_step v h = rw (digits_step v h) (length-append (digits (v / 256)) (v % 256 ∷ []))

-- A number below 256 ^ k has at most k digits.
pub length-digits-le : (k v : ℕ) → v < 256 ^ k → length (digits v) ≤ k
length-digits-le zero zero h = rw digits-zero (omega arith)
length-digits-le zero (suc v) h = absurd (omega arith)
length-digits-le (suc k) zero h = rw digits-zero (omega arith)
length-digits-le (suc k) (suc v) h = omega (
  arith,
  length-digits_step (suc v) (λ e. absurd (omega arith)),
  length-digits-le k (suc v / 256) (omega (arith, pow-suc 256 k)),
)

-- The first digit is not zero.
pub first_digit : (v : ℕ) → v ≢ 0 → (b : ℕ) × (bs : List ℕ) × (digits v ≡ b ∷ bs) × (b ≢ 0)
first_digit =
    digits_induction (λ v. v ≢ 0 → (b : ℕ) × (bs : List ℕ) × (digits v ≡ b ∷ bs) × (b ≢ 0))
      (λ h. absurd (h refl)) step
  where
    step :
        (v : ℕ)
        → v ≢ 0
        → (v / 256 ≢ 0 → (b : ℕ) × (bs : List ℕ) × (digits (v / 256) ≡ b ∷ bs) × (b ≢ 0))
        → v ≢ 0
        → (b : ℕ) × (bs : List ℕ) × (digits v ≡ b ∷ bs) × (b ≢ 0)
    step v h ih _ = elim (Bool-cases (v / 256 == 0)) [
      | inl e ↦
          let small : v / 256 ≡ 0 = (==_iff _ 0).0 e in
          (v % 256, [], rw (digits_step v h) (rw small (rw digits-zero refl)), omega arith)
      | inr e ↦
          let (b, bs, p, q) = ih (λ z. cc ((==_iff (v / 256) 0).1 z)) in
          (b, bs ++ (v % 256 ∷ []), rw (digits_step v h) (rw p refl), q)
    ]

bytes_required_loop-digits : (f v i : ℕ) → v ≤ f → bytes_required_loop f v i ≡ i + length (digits v)
unfolding bytes_required_loop
bytes_required_loop-digits zero zero i h = rw digits-zero (omega arith)
bytes_required_loop-digits zero (suc v) i h = absurd (omega arith)
bytes_required_loop-digits (suc f) zero i h = rw digits-zero (omega arith)
bytes_required_loop-digits (suc f) (suc v) i h = ground (
  arith,
  length-digits_step (suc v) (λ e. absurd (omega arith)),
  bytes_required_loop-digits f (suc v / 256) (i + 1),
)

pub bytes_required-digits : (v : ℕ) → bytes_required v ≡ length (digits v)
unfolding bytes_required
bytes_required-digits v = omega (arith, bytes_required_loop-digits v v 0)
